-- ===== src/Prewarm/Examples.antt =====
-- app_v1/sdk/master/python/gpstation_master/client.py: the theorems about prepared connections, on a client whose first
-- connection dies.
use gpstation.Prelude.{false, none, some, ◌∷◌, ◌≡◌, refl, contains}
use gpstation.Prelude.Dict.{get, put, pop, empty}
use gpstation.Prewarm.Pool.{
  built, Pool, new_pool, begin_prewarm, finish_prewarm, take_prepared_connection,
}
use gpstation.Prewarm.Steps.{end_task, begins, builds, finishes, dies, Reach}
use gpstation.Prewarm.OwnKey.{own_key}
use gpstation.Prewarm.Sharing.{waiting, finish_then_take, meanwhile, shared_connection}
use gpstation.Prewarm.Kept.{IsKept}
use gpstation.Prewarm.Forgotten.{accounted}

-- Caller 1 prepares connection 0 for key 7.
abbrev begun : Pool
begun = begin_prewarm 1 7 0 new_pool

abbrev first_built : Pool
first_built = end_task 0 7 built begun

abbrev ready : Pool
ready = finish_prewarm 1 (waiting 7 0 none) first_built

ready-Reach : Reach new_pool ready
unfolding begin_prewarm finish_prewarm get put pop empty
ready-Reach =
    Reach.next (Reach.next (Reach.next Reach.here (begins 1 7 0 refl refl)) (builds 0 7 refl))
      (finishes 1 (waiting 7 0 none) 7 refl refl refl)

own_key_example :
    (get ready.tasks 0 ≡ some (record { key = 7; state = built })) × (contains ready.shut 0 ≡ false)
unfolding begin_prewarm finish_prewarm take_prepared_connection get put pop empty
own_key_example = own_key ready 7 0 ready-Reach refl

accounted_example : IsKept ready 0
unfolding begin_prewarm finish_prewarm get put pop empty
accounted_example = accounted ready 0 7 ready-Reach refl

-- It dies. Caller 2 finds it dead and starts task 1, caller 3 waits for the same task.
abbrev died : Pool
died = record ready { shut = 0 ∷ ready.shut }

abbrev second_begun : Pool
second_begun = begin_prewarm 2 7 1 died

abbrev third_begun : Pool
third_begun = begin_prewarm 3 7 2 second_begun

abbrev both_wait : Pool
both_wait = end_task 1 7 built third_begun

both_wait-Reach : Reach new_pool both_wait
unfolding begin_prewarm finish_prewarm get put pop empty
both_wait-Reach =
    Reach.next
      (Reach.next (Reach.next (Reach.next ready-Reach (dies 0)) (begins 2 7 1 refl refl))
        (begins 3 7 2 refl refl))
      (builds 1 7 refl)

shared_connection_example :
    Reach new_pool (finish_then_take 2 (waiting 7 1 none) (meanwhile 3 2 7 1 0 both_wait)).1
    × ((finish_then_take 3 (waiting 7 1 none) both_wait).0 ≡ some 1)
    × ((finish_then_take 2 (waiting 7 1 none) (meanwhile 3 2 7 1 0 both_wait)).0 ≡ some 1)
unfolding begin_prewarm finish_prewarm get put pop empty
shared_connection_example =
    shared_connection 3 2 7 1 0 both_wait both_wait-Reach refl refl refl refl refl refl refl refl
