-- ===== src/Session/Worker.antt =====
-- app_v1/sdk/slave/worker.py: the worker's side of a session, from `job.ready` on. Calls and their attachments are
-- received as in Transfer.
use gpstation.Prelude.{ℕ, Bool, true, false, Option, none, some, List, [], ◌∷◌, ◌==◌, if◌then◌else◌}
use gpstation.Transfer.Frames.{HeaderText, Refusal}
use gpstation.Transfer.Receiving.{JobCall, PendingCall, Peer, on_call, on_binary_message, take_call}
use gpstation.Session.Messages.{
  ToWorker, job_call, chunk, result_ack, job_finish, ToClient, job_result, job_error, job_finished,
  job_id,
}

-- Where `run_worker_job_session` is: it waits; it has a call that it has not begun; the app works on a call;
-- it waits for the acknowledgement, which may have come; it is over.
pub data Phase : Type 0 where
  idle : Phase
  taken working : ℕ → Phase
  sent : ℕ → Bool → Phase
  over : Phase

pub record Worker : Type 0 where
  pub peer : Peer
  pub call_in_progress : Bool
  pub finish_event : Bool
  pub phase : Phase

-- `state.result_ack_events.get(id)`: whether a result of that call waits for its acknowledgement.
abbrev pub awaits : ℕ → Phase → Bool
awaits id (sent call acked) = call == id
awaits id _ = false

abbrev pub acked : Phase → Phase
acked (sent call done) = sent call true
acked other = other

abbrev pub errors_for : ℕ → Option Refusal → List ToClient
errors_for id none = []
errors_for id (some why) = job_error id ∷ []

abbrev pub incoming_id : Option PendingCall → ℕ
incoming_id none = job_id
incoming_id (some call) = call.id

unfoldable pub on_message : HeaderText → ToWorker → Worker → Worker × List ToClient
on_message t (job_call id attachments) w =
    let (peer, refusal) = on_call w.call_in_progress id attachments w.peer in
    (record w { peer = peer }, errors_for id refusal)
on_message t (chunk frame) w =
    let (peer, refusal) = on_binary_message t frame w.peer in
    (record w { peer = peer }, errors_for (incoming_id w.peer.incoming_call) refusal)
on_message t (result_ack id) w =
    if awaits id w.phase
    then (record w { call_in_progress = false; phase = acked w.phase }, [])
    else (w, [])
on_message t job_finish w = (record w { finish_event = true }, [])

-- `call_queue.get()`
unfoldable pub take_next : JobCall → Worker → Worker
take_next call w = record w { peer = take_call w.peer; phase = taken call.id }

unfoldable pub begin_call : ℕ → Worker → Worker
begin_call id w = record w { call_in_progress = true; phase = working id }

unfoldable pub send_result : ℕ → ℕ → Worker → Worker × List ToClient
send_result id payload w = (record w { phase = sent id false }, job_result id payload ∷ [])

unfoldable pub fail_call : ℕ → Worker → Worker × List ToClient
fail_call id w = (record w { call_in_progress = false; phase = idle }, job_error id ∷ [])

unfoldable pub end_call : Worker → Worker
end_call w = record w { call_in_progress = false; phase = idle }

unfoldable pub finish_session : Worker → Worker × List ToClient
finish_session w = (record w { phase = over }, job_finished ∷ [])

-- The job is cancelled, or the session ends with an exception, such as the timeout of an acknowledgement.
unfoldable pub break_off : Worker → Worker × List ToClient
break_off w = (record w { call_in_progress = false; phase = over }, job_error job_id ∷ [])
