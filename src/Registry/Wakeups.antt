-- ===== src/Registry/Wakeups.antt =====
-- The wake-up events over every interleaving of requests that wait and of wake-ups.
use mathlib.Core.Path.{subst}
use gpstation.Prelude.{
  sym, ℕ, suc, ◌<◌, true, false, none, some, [], ◌∷◌, ◌≡◌, refl, inl, inr, arith, Memᴰ, All, All-In,
  Option-cases,
}
use gpstation.Prelude.Dict.{empty, get, get-empty, get-put, get-pop}
use gpstation.Registry.Events.{Events, set_job_event, prepare_job_wait, release_prepared_job_event}
use gpstation.Registry.Waiters.{
  Holders, Tracks, Step, prepares, releases, wakes, leave, prepare-Tracks, wake-Tracks,
  release-Tracks,
}

abbrev pub start : Events
start = record {
  job_events = empty;
  job_event_waiters = empty;
  next_event = 0;
  is_set = λ h. false;
}

pub data Reach (s : Events) (hs : Holders) : Events → Holders → Type 0 where
  here : Reach s hs s hs
  next : {t u : Events} {ks ls : Holders} → Reach s hs t ks → Step t ks u ls → Reach s hs u ls

Step-Tracks : {s t : Events} {hs ks : Holders} → Step s hs t ks → Tracks s hs → Tracks t ks
Step-Tracks (prepares s hs job) t = prepare-Tracks s hs job t
Step-Tracks (releases s hs job event m) t = release-Tracks s hs job event t m
Step-Tracks (wakes s hs job) t = wake-Tracks s hs job t

start-Tracks : Tracks start []
start-Tracks = record { counted = λ j. get-empty j; shared = tt; gone = λ j z. get-empty j }

-- Handles in use are older than the next one.
record IsOld (s : Events) (hs : Holders) : Type 0 where
  entries : (j h : ℕ) → get s.job_events j ≡ some h → h < s.next_event
  holders : All (λ w. w.1 < s.next_event) hs

holders-suc : (n : ℕ) (hs : Holders) → All (λ w. w.1 < n) hs → All (λ w. w.1 < suc n) hs
holders-suc n [] a = tt
holders-suc n ((j, h) ∷ hs) a = (omega (arith, a.0), holders-suc n hs a.1)

holders-leave :
    (n job event : ℕ) (hs : Holders)
    → All (λ w. w.1 < n) hs
    → All (λ w. w.1 < n) (leave job event hs)
holders-leave n job event [] a = tt
holders-leave n job event ((j, h) ∷ hs) a =
    ground (arith, holders-leave n job event hs a.1, a.0, a.1)

prepare-IsOld :
    (s : Events) (hs : Holders) (job : ℕ)
    → IsOld s hs
    → IsOld (prepare_job_wait job s).1 ((job, (prepare_job_wait job s).0) ∷ hs)
unfolding prepare_job_wait
prepare-IsOld s hs job o = elim (Option-cases (get s.job_events job)) [
  | inl e ↦
      rw (e, prepare_job_wait)
        (record {
          entries = λ j h k. ground (arith, get-put s.job_events job j s.next_event, o.entries j h);
          holders = (omega arith, holders-suc s.next_event hs o.holders);
        })
  | inr (h, e) ↦
      rw (e, prepare_job_wait)
        (record { entries = o.entries; holders = (o.entries job h e, o.holders) })
]

release-next :
    (s : Events) (job event : ℕ)
    → (release_prepared_job_event job event s).next_event ≡ s.next_event
unfolding release_prepared_job_event
release-next s job event = ground arith

wake-next : (s : Events) (job : ℕ) → (set_job_event job s).next_event ≡ s.next_event
unfolding set_job_event
wake-next s job = ground arith

release-IsOld :
    (s : Events) (hs : Holders) (job event : ℕ)
    → IsOld s hs
    → IsOld (release_prepared_job_event job event s) (leave job event hs)
unfolding release_prepared_job_event
release-IsOld s hs job event o = record {
  entries = λ j h k. ground (arith, get-pop s.job_events job j, o.entries j h);
  holders =
      subst (λ n. All (λ w. w.1 < n) (leave job event hs)) (sym (release-next s job event))
        (holders-leave s.next_event job event hs o.holders);
}

wake-IsOld : (s : Events) (hs : Holders) (job : ℕ) → IsOld s hs → IsOld (set_job_event job s) hs
unfolding set_job_event
wake-IsOld s hs job o = record {
  entries = λ j h k. ground (arith, o.entries j h);
  holders = subst (λ n. All (λ w. w.1 < n) hs) (sym (wake-next s job)) o.holders;
}

Step-IsOld : {s t : Events} {hs ks : Holders} → Step s hs t ks → IsOld s hs → IsOld t ks
Step-IsOld (prepares s hs job) o = prepare-IsOld s hs job o
Step-IsOld (releases s hs job event m) o = release-IsOld s hs job event o
Step-IsOld (wakes s hs job) o = wake-IsOld s hs job o

Reach-Tracks :
    {s : Events} {hs : Holders} {t : Events} {ks : Holders}
    → Tracks s hs
    → Reach s hs t ks
    → Tracks t ks
Reach-Tracks v here = v
Reach-Tracks v (next r st) = Step-Tracks st (Reach-Tracks v r)

Reach-IsOld :
    {s : Events} {hs : Holders} {t : Events} {ks : Holders}
    → IsOld s hs
    → Reach s hs t ks
    → IsOld t ks
Reach-IsOld o here = o
Reach-IsOld o (next r st) = Step-IsOld st (Reach-IsOld o r)

start-IsOld : IsOld start []
start-IsOld = record { entries = λ j h e. cc (get-empty {V = ℕ} j); holders = tt }

-- When every request has left, the registry holds no event and no count: nothing leaks.
pub quiet-empty :
    {s : Events} (j : ℕ)
    → Reach start [] s []
    → (get s.job_events j ≡ none) × (get s.job_event_waiters j ≡ none)
quiet-empty j r = let t = Reach-Tracks start-Tracks r in (t.gone j refl, t.counted j)

-- The event of every request that waits for the job is set by the job's wake-up.
pub wake-all :
    {s : Events} {hs : Holders} (job event : ℕ)
    → Reach start [] s hs
    → Memᴰ {A = ℕ × ℕ} (job, event) hs
    → (set_job_event job s).is_set event ≡ true
unfolding set_job_event
wake-all {s} {hs} job event r m =
    let held =
      All-In (λ w. get s.job_events w.0 ≡ some w.1) hs (Reach-Tracks start-Tracks r).shared m in
    rw (held, set_job_event) (ground arith)

-- A wake-up is not lost: the event stays set for the request that holds it, whatever others do.
pub wake_stays :
    {s t : Events} {hs ks : Holders} (job event : ℕ)
    → Reach start [] s hs
    → Step s hs t ks
    → Memᴰ {A = ℕ × ℕ} (job, event) hs
    → s.is_set event ≡ true
    → t.is_set event ≡ true
unfolding prepare_job_wait release_prepared_job_event set_job_event
wake_stays job event r (prepares s hs other) m e =
    let old = All-In (λ w. w.1 < s.next_event) hs (Reach-IsOld start-IsOld r).holders m in
    ground (arith, old)
wake_stays job event r (releases s hs other event' n) m e = ground arith
wake_stays job event r (wakes s hs other) m e = ground arith
