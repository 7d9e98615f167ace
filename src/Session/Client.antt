-- ===== src/Session/Client.antt =====
-- app_v1/sdk/master/python/gpstation_master/job_peer.py, with `GpStationJobSession.call` of client.py. The future of a
-- call is under the call's number in `futures` once it is done.
use gpstation.Prelude.{
  ℕ, suc, Bool, true, false, ◌&&◌, ◌||◌, not, Option, none, some, List, [], ◌∷◌, if◌then◌else◌,
  is_id, is_some,
}
use gpstation.Prelude.Dict.{Dict, get, put}
use gpstation.Transfer.Receiving.{Metadata}
use gpstation.Session.Messages.{
  ToWorker, job_call, result_ack, job_finish, ToClient, job_result, job_error, job_event,
  job_finished,
}

-- How a future ends: with the worker's result, with an error, or given up by its waiter.
pub data Outcome : Type 0 where
  resolved : ℕ → Outcome
  rejected given_up : Outcome

-- `resolving` is the call, with its result, whose acknowledgement is being drained.
pub record Client : Type 0 where
  pub call_index : ℕ
  pub pending_call : Option ℕ
  pub futures : Dict Outcome
  pub resolving : Option (ℕ × ℕ)
  pub finishing : Bool
  pub is_closed : Bool
  pub is_open : Bool

-- `is_open` is the state of the connection and of its data channel.
abbrev pub closed : Client → Bool
closed c = c.is_closed || not c.is_open

-- `if not future.done()`
abbrev pub settle : ℕ → Outcome → Dict Outcome → Dict Outcome
settle id outcome futures = if is_some (get futures id) then futures else put futures id outcome

abbrev pub settle_pending : Option ℕ → Outcome → Dict Outcome → Dict Outcome
settle_pending none outcome futures = futures
settle_pending (some id) outcome futures = settle id outcome futures

-- `_reject_pending_call`; with `given_up`, what `call` does on its own timeout.
unfoldable pub end_pending : Outcome → Client → Client
end_pending outcome c = record c {
  pending_call = none;
  futures = settle_pending c.pending_call outcome c.futures;
}

-- A number is used up also by a call that is refused.
unfoldable pub call : List Metadata → Client → Client × List ToWorker
call attachments c =
    let next = record c { call_index = suc c.call_index } in
    if closed c || is_some c.pending_call then (next, []) else (
      record next { pending_call = some (suc c.call_index) },
      job_call (suc c.call_index) attachments ∷ [],
    )

unfoldable pub finish : Client → Client × List ToWorker
finish c =
    if closed c || is_some c.pending_call || c.finishing
    then (c, [])
    else (record c { finishing = true }, job_finish ∷ [])

-- The waiter of `finish` has had enough.
unfoldable pub give_up_finish : Client → Client
give_up_finish c = record c { finishing = false }

-- `_reject_open_work`. A finish that has been sent counts as done.
unfoldable pub reject_open_work : Client → Client
unfolding end_pending
reject_open_work c = record (end_pending rejected c) { finishing = false }

-- `on_close` of the data channel.
unfoldable pub on_close : Client → Client
unfolding reject_open_work
on_close c = record (reject_open_work c) { is_open = false }

-- It cancels the task that drains an acknowledgement.
unfoldable pub close : Client → Client
unfolding end_pending
close c = if c.is_closed then c else record (end_pending rejected c) {
  finishing = false;
  resolving = none;
  is_closed = true;
  is_open = false;
}

-- `_handle_control_message`. `_resolve_pending_call` is cut at its await: here it sends the acknowledgement.
unfoldable pub handle_control_message : ToClient → Client → Client × List ToWorker
unfolding end_pending reject_open_work
handle_control_message (job_error id) c =
    (if is_id c.pending_call id then end_pending rejected c else reject_open_work c, [])
handle_control_message (job_event id) c = (c, [])
handle_control_message job_finished c = (record c { finishing = false }, [])
handle_control_message (job_result id payload) c =
    if is_id c.pending_call id && not (closed c)
    then (record c { resolving = some (id, payload) }, result_ack id ∷ [])
    else (end_pending rejected c, [])

abbrev pub resolve_call : Option (ℕ × ℕ) → Client → Client
resolve_call none c = c
resolve_call (some (id, payload)) c = record c {
  pending_call = none;
  futures = settle id (resolved payload) c.futures;
  resolving = none;
}

-- The rest of `_resolve_pending_call`, when the channel has taken the acknowledgement. It clears the pending
-- call, whichever that is by now.
unfoldable pub drained : Client → Client
drained c = resolve_call c.resolving c

-- The acknowledgement could not be drained: `_consume_messages` rejects the pending call.
unfoldable pub not_drained : Client → Client
unfolding end_pending
not_drained c = record (end_pending rejected c) { resolving = none }
