-- ===== src/Orchestrator/Requests.antt =====
-- app_v1/server/app/service/job_orchestrator.py: `wait_for_answer` against everything else that the server
-- does meanwhile.
use mathlib.Core.Path.{subst}
use gpstation.Prelude.{
  ℕ, Bool, true, false, ◌&&◌, Option, some, List, ◌≡◌, inl, inr, refl, sym, ap, ◌∙◌, arith, Memᴰ,
  contains, find, find-In, Distinct, Distinct-unique, Option-cases, ==_refl, if◌then◌else◌,
  In-contains,
}
use gpstation.Prelude.Dict.{get, get-put}
use gpstation.Protocol.{Codec}
use gpstation.Jobs.Rows.{Job}
use gpstation.Jobs.Effects.{ids}
use gpstation.Registry.Events.{Events, prepare_job_wait, release_prepared_job_event}
use gpstation.Orchestrator.Server.{Server}
use gpstation.Orchestrator.Upkeep.{InStep}
use gpstation.Orchestrator.Actions.{Action, act_all, AllFresh}
use gpstation.Orchestrator.Waiting.{
  is_unfinished, get_job_wait_state, is_asked_for, should_wait, Request, waits, returns, begin_wait,
}
use gpstation.Orchestrator.Notices.{Tells}
use gpstation.Orchestrator.Awake.{act_all-Tells}

-- The event that a request gets is the one that the registry has for the job.
prepared :
    (job : ℕ) (e : Events)
    → get (prepare_job_wait job e).1.job_events job ≡ some (prepare_job_wait job e).0
unfolding prepare_job_wait
prepared job e = elim (Option-cases (get e.job_events job)) [
  | inl n ↦
      rw (n, prepare_job_wait) (get-put e.job_events job job e.next_event ∙ rw (==_refl job) refl)
  | inr (h, r) ↦ rw (r, prepare_job_wait) r
]

-- The state in which a request waits on its event.
abbrev prepared_state : ℕ → Server → Server
prepared_state job s = record s { events = (prepare_job_wait job s.events).1 }

record Began (job event : ℕ) (s t : Server) : Type 0 where
  state : t ≡ prepared_state job s
  handle : (prepare_job_wait job s.events).0 ≡ event
  row : (j : Job) × Memᴰ j s.db.jobs × (j.id ≡ job) × (is_unfinished j ≡ true)

waits-injective : (a b : ℕ) → waits a ≡ waits b → a ≡ b
waits-injective a b e = cc e

-- The two ends of `begin_wait`.
abbrev outcome : Bool → ℕ → Option Job → Server → Server → Request × Server
outcome b made o t u = if b then (waits made, t) else (returns o, u)

chose :
    (b : Bool) (made event : ℕ) (o : Option Job) (t u : Server)
    → (outcome b made o t u).0 ≡ waits event
    → (b ≡ true) × (made ≡ event) × ((outcome b made o t u).1 ≡ t)
chose true made event o t u e = (refl, waits-injective made event e, refl)
chose false made event o t u e = cc

unfinished_row :
    (job : ℕ) (user : Option ℕ) (has_time : Bool) (s : Server)
    → should_wait (get_job_wait_state job user s.db) has_time ≡ true
    → (j : Job) × Memᴰ j s.db.jobs × (j.id ≡ job) × (is_unfinished j ≡ true)
unfolding get_job_wait_state
unfinished_row job user has_time s w =
    elim (Option-cases (find (is_asked_for job user) s.db.jobs)) [
      | inl n ↦ absurd (cc (n, w))
      | inr (j, found) ↦
          let (m, asked) = find-In (is_asked_for job user) s.db.jobs found in
          let both : is_unfinished j && has_time ≡ true =
            sym (ap (λ o. should_wait o has_time) found) ∙ w in
          (j, m, ground (arith, asked), ground (arith, both))
    ]

begin_wait-Began :
    (job event : ℕ) (user : Option ℕ) (has_time : Bool) (s : Server)
    → (begin_wait job user has_time s).0 ≡ waits event
    → Began job event s (begin_wait job user has_time s).1
unfolding begin_wait
begin_wait-Began job event user has_time s w =
    let (handle, events) = prepare_job_wait job s.events in
    let found = get_job_wait_state job user s.db in
    let (yes_waits, same, state) =
      chose (should_wait found has_time) handle event found (record s { events = events })
        (record s { events = release_prepared_job_event job handle events }) w in
    record { state = state; handle = same; row = unfinished_row job user has_time s yes_waits }

told-Woken :
    (job event : ℕ) (s t : Server) (k : Job)
    → Distinct (ids s.db.jobs)
    → Tells s t
    → (j : Job) × Memᴰ j s.db.jobs × (j.id ≡ job) × (is_unfinished j ≡ true)
    → get s.events.job_events job ≡ some event
    → Memᴰ k t.db.jobs
    → k.id ≡ job
    → is_unfinished k ≡ false
    → t.events.is_set event ≡ true
told-Woken job event s t k d tells (j, m, id, open_job) held n mine over = elim (tells.told k n) [
  | inl (i, o, same, as_before) ↦
      let only : i ≡ j = Distinct-unique (λ x. x.id) s.db.jobs d o m (sym same ∙ mine ∙ sym id) in
      absurd (cc (as_before, over, ap is_unfinished only, open_job))
  | inr (inl woken) ↦ woken event (ap (get s.events.job_events) mine ∙ held)
  | inr (inr new) ↦ absurd (
      cc
        (In-contains (λ x. x.id) j s.db.jobs m, new, ap (contains (ids s.db.jobs)) (mine ∙ sym id)))
]

-- A request that waits for a job, in a state in which the database and the registry agree, is not left
-- asleep: if, after any sequence of actions of the server, with fresh ids for new rows, the job has an
-- answer or has ended, then the request's event is set.
pub waiter_woken :
    (c : Codec) (s : Server) (job event : ℕ) (user : Option ℕ) (has_time : Bool)
    (actions : List Action) (k : Job)
    → InStep s
    → (begin_wait job user has_time s).0 ≡ waits event
    → AllFresh c (begin_wait job user has_time s).1 actions
    → Memᴰ k (act_all c (begin_wait job user has_time s).1 actions).db.jobs
    → k.id ≡ job
    → is_unfinished k ≡ false
    → (act_all c (begin_wait job user has_time s).1 actions).events.is_set event ≡ true
waiter_woken c s job event user has_time actions k v w f m mine over =
    let t = (begin_wait job user has_time s).1 in
    let began = begin_wait-Began job event user has_time s w in
    let p = prepared_state job s in
    let inside : InStep t = subst InStep (sym began.state) v in
    let tells = act_all-Tells c t actions f inside in
    let row =
      subst (λ x. (j : Job) × Memᴰ j x.db.jobs × (j.id ≡ job) × (is_unfinished j ≡ true))
        (sym began.state) began.row in
    let held : get t.events.job_events job ≡ some event =
      subst (λ x. get x.events.job_events job ≡ some event) (sym began.state)
        (prepared job s.events ∙ ap some began.handle) in
    told-Woken job event t (act_all c t actions) k inside.table.distinct tells row held m mine over
