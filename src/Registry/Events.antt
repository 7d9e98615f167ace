-- ===== src/Registry/Events.antt =====
-- app_v1/server/app/state.py: the wake-up events of the requests that wait for a job's answer.
-- An `asyncio.Event` is an object: a handle, with the flags of all handles on the side.
use gpstation.Prelude.{
  ℕ, suc, ◌+◌, ◌-◌, Bool, true, false, none, some, ◌==◌, if◌then◌else◌, is_id, or_default,
}
use gpstation.Prelude.Dict.{Dict, get, put, pop}

pub record Events : Type 0 where
  pub job_events : Dict ℕ
  pub job_event_waiters : Dict ℕ
  -- The heap of events: the next handle, and which events are set.
  pub next_event : ℕ
  pub is_set : ℕ → Bool

abbrev pub raise_flag : ℕ → (ℕ → Bool) → ℕ → Bool
raise_flag h flags g = if h == g then true else flags g

unfoldable pub set_job_event : ℕ → Events → Events
set_job_event job_id s = elim (get s.job_events job_id) [
  | none ↦ s
  | some current ↦ record s { is_set = raise_flag current s.is_set }
]

abbrev pub count_waiter : ℕ → Events → Events
count_waiter job_id s = record s {
  job_event_waiters =
      put s.job_event_waiters job_id (or_default (get s.job_event_waiters job_id) 0 + 1);
}

-- A new event is not set.
abbrev pub create_event : ℕ → Events → Events
create_event job_id s = record s {
  job_events = put s.job_events job_id s.next_event;
  job_event_waiters = put s.job_event_waiters job_id 0;
  next_event = suc s.next_event;
  is_set = λ h. if h == s.next_event then false else s.is_set h;
}

unfoldable pub prepare_job_wait : ℕ → Events → ℕ × Events
prepare_job_wait job_id s = elim (get s.job_events job_id) [
  | none ↦ (s.next_event, count_waiter job_id (create_event job_id s))
  | some event ↦ (event, count_waiter job_id s)
]

unfoldable pub release_prepared_job_event : ℕ → ℕ → Events → Events
release_prepared_job_event job_id event s =
    let remaining = or_default (get s.job_event_waiters job_id) 1 - 1 in
    if remaining == 0
    then record s {
      job_event_waiters = pop s.job_event_waiters job_id;
      job_events =
          if is_id (get s.job_events job_id) event then pop s.job_events job_id else s.job_events;
    }
    else record s { job_event_waiters = put s.job_event_waiters job_id remaining }
