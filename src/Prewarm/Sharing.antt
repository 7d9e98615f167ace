-- ===== src/Prewarm/Sharing.antt =====
-- app_v1/sdk/master/python/gpstation_master/client.py: two callers that wait for one task.
use gpstation.Prelude.{ℕ, false, Option, none, some, ◌∷◌, ◌≡◌, refl, ap, ◌∙◌, arith, ◌==◌, contains}
use gpstation.Prelude.Dict.{get, put, pop, get-pop}
use gpstation.Prelude.Entries.{there-put}
use gpstation.Prewarm.Pool.{
  built, Caller, Pool, new_pool, forget_task, leave, close_stale, finish_prewarm,
  take_prepared_connection,
}
use gpstation.Prewarm.Steps.{closes_stale, finishes, takes, Reach}

-- The caller `id` of a task goes on, then a job asks for a connection.
abbrev pub finish_then_take : ℕ → Caller → Pool → Option ℕ × Pool
finish_then_take id caller s = take_prepared_connection caller.key (finish_prewarm id caller s)

abbrev pub taken : ℕ → Caller → Pool → Pool
taken id caller s = record s {
  prewarmed_connections = pop (put s.prewarmed_connections caller.key caller.task) caller.key;
  prewarm_tasks = (forget_task caller s).prewarm_tasks;
  callers = pop s.callers id;
  runs = caller.task ∷ s.runs;
}

stored :
    (id : ℕ) (caller : Caller) (s : Pool)
    → s.is_closed ≡ false
    → get s.prewarmed_connections caller.key ≡ none
    → finish_prewarm id caller s ≡ record (leave id (forget_task caller s)) {
      prewarmed_connections = put s.prewarmed_connections caller.key caller.task;
    }
unfolding finish_prewarm
stored id caller s live free = simp (live, free) refl

take-stored :
    (id : ℕ) (caller : Caller) (s : Pool)
    → s.is_closed ≡ false
    → get s.prewarmed_connections caller.key ≡ none
    → contains s.shut caller.task ≡ false
    → finish_then_take id caller s ≡ (some caller.task, taken id caller s)
unfolding take_prepared_connection
take-stored id caller s live free fine =
    ap (take_prepared_connection caller.key) (stored id caller s live free)
    ∙ simp (there-put s.prewarmed_connections caller.key caller.task, fine) refl

abbrev pub waiting : ℕ → ℕ → Option ℕ → Caller
waiting key t stale = record { key = key; task = t; stale = stale }

module _ (a b key t d : ℕ) (s : Pool) (live : s.is_closed ≡ false)
    (free : get s.prewarmed_connections key ≡ none) (fine : contains s.shut t ≡ false)
    (unlike : (d == t) ≡ false) where
  first : finish_then_take a (waiting key t none) s ≡ (some t, taken a (waiting key t none) s)
  first = take-stored a (waiting key t none) s live free fine

  abbrev after : Pool
  after = close_stale b (waiting key t (some d)) d (taken a (waiting key t none) s)

  second : (finish_then_take b (waiting key t none) after).0 ≡ some t
  unfolding close_stale
  second =
      ap (λ p. p.0)
        (take-stored b (waiting key t none) after live
          (ground (arith, get-pop (put s.prewarmed_connections key t) key key))
          (ground (arith, fine, unlike)))

  still_there :
      (a == b) ≡ false
      → get s.callers b ≡ some (waiting key t (some d))
      → get (taken a (waiting key t none) s).callers b ≡ some (waiting key t (some d))
  still_there other e = rw other at (get-pop s.callers a b) ∙ e

-- When the caller `a` has gone on and a job has asked for a connection, `b` has closed its stale connection.
abbrev pub meanwhile : ℕ → ℕ → ℕ → ℕ → ℕ → Pool → Pool
meanwhile a b key t d s =
    close_stale b (waiting key t (some d)) d (finish_then_take a (waiting key t none) s).1

-- If two callers wait for one task that has built its connection, the second of them while it closes a stale
-- connection, and the client is open and none is prepared for the key, this can happen: the first goes on, a job takes
-- the connection, the second goes on, and another job takes the same connection.
pub shared_connection :
    (a b key t d : ℕ) (s : Pool)
    → Reach new_pool s
    → (a == b) ≡ false
    → get s.callers a ≡ some (waiting key t none)
    → get s.callers b ≡ some (waiting key t (some d))
    → get s.tasks t ≡ some (record { key = key; state = built })
    → s.is_closed ≡ false
    → get s.prewarmed_connections key ≡ none
    → contains s.shut t ≡ false
    → (d == t) ≡ false
    → Reach new_pool (finish_then_take b (waiting key t none) (meanwhile a b key t d s)).1
      × ((finish_then_take a (waiting key t none) s).0 ≡ some t)
      × ((finish_then_take b (waiting key t none) (meanwhile a b key t d s)).0 ≡ some t)
unfolding close_stale
shared_connection a b key t d s r other one two e live free fine unlike =
    let once = first a b key t d s live free fine unlike in
    let between : Reach new_pool (finish_then_take a (waiting key t none) s).1 =
      Reach.next (Reach.next r (finishes a (waiting key t none) key one refl e)) (takes key) in
    let there : get (finish_then_take a (waiting key t none) s).1.callers b
        ≡ some (waiting key t (some d)) =
      ap (λ p. get p.1.callers b) once
      ∙ still_there a b key t d s live free fine unlike other two in
    let built_still : get (finish_then_take a (waiting key t none) s).1.tasks t
        ≡ some (record { key = key; state = built }) =
      ap (λ p. get p.1.tasks t) once ∙ e in
    (
      Reach.next
          (Reach.next (Reach.next between (closes_stale b d (waiting key t (some d)) there refl)) (
            finishes b (waiting key t none) key
              (there-put (finish_then_take a (waiting key t none) s).1.callers b
                (waiting key t none))
              refl built_still))
          (takes key),
      ap (λ p. p.0) once,
      ap
            (λ p.
              (finish_then_take b (waiting key t none)
                (close_stale b (waiting key t (some d)) d p.1)).0)
            once
          ∙ second a b key t d s live free fine unlike,
    )
