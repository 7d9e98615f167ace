-- ===== src/Registry/Examples.antt =====
-- app_v1/server/app/state.py: two requests that wait for one job, and the theorems about them.

use gpstation.Prelude.{true, none, [], ◌∷◌, ◌≡◌, refl, Memᴰ}
use gpstation.Prelude.Dict.{get, empty, put}
use gpstation.Registry.Events.{Events, set_job_event, prepare_job_wait, release_prepared_job_event}
use gpstation.Registry.Waiters.{Holders, Step, prepares, releases, wakes}
use gpstation.Registry.Wakeups.{start, Reach, here, next, quiet-empty, wake-all, wake_stays}

abbrev one_waits : Events
one_waits = (prepare_job_wait 4 start).1

abbrev two_wait : Events
two_wait = (prepare_job_wait 4 one_waits).1

abbrev both : Holders
both = (4, 0) ∷ (4, 0) ∷ []

both_hold : Reach start [] two_wait both
unfolding prepare_job_wait get empty put
both_hold = next (next here (prepares start [] 4)) (prepares one_waits ((4, 0) ∷ []) 4)

abbrev woken : Events
woken = set_job_event 4 two_wait

woken_hold : Reach start [] woken both
woken_hold = next both_hold (wakes two_wait both 4)

flag_set : woken.is_set 0 ≡ true
unfolding set_job_event prepare_job_wait get empty put
flag_set = refl

abbrev one_left : Events
one_left = release_prepared_job_event 4 0 woken

one_leaves : Step woken both one_left ((4, 0) ∷ [])
one_leaves = releases woken both 4 0 (Memᴰ.head refl)

wake-all_example : (set_job_event 4 two_wait).is_set 0 ≡ true
wake-all_example = wake-all 4 0 both_hold (Memᴰ.head refl)

wake_stays_example : one_left.is_set 0 ≡ true
wake_stays_example = wake_stays 4 0 woken_hold one_leaves (Memᴰ.head refl) flag_set

abbrev none_left : Events
none_left = release_prepared_job_event 4 0 one_left

all_leave : Reach start [] none_left []
all_leave = next (next woken_hold one_leaves) (releases one_left ((4, 0) ∷ []) 4 0 (Memᴰ.head refl))

quiet-empty_example :
    (get none_left.job_events 4 ≡ none) × (get none_left.job_event_waiters 4 ≡ none)
quiet-empty_example = quiet-empty 4 all_leave
