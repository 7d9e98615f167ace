-- ===== src/Session/Steps.antt =====
-- app_v1/sdk: a client and a worker with the two directions of their channel, each in order.
use gpstation.Prelude.{ℕ, true, false, none, List, [], ◌∷◌, ◌++◌, ◌≡◌}
use gpstation.Prelude.Dict.{Dict, put, empty}
use gpstation.Transfer.Frames.{Bytes, HeaderText}
use gpstation.Transfer.Receiving.{Metadata, JobCall}
use gpstation.Session.Messages.{ToWorker, chunk, ToClient, job_event}
use gpstation.Session.Client.{
  rejected, given_up, Client, call, finish, reject_open_work, give_up_finish, on_close, close,
  handle_control_message, drained, not_drained, end_pending,
}
use gpstation.Session.Worker.{
  idle, taken, working, sent, Worker, on_message, take_next, begin_call, send_result, fail_call,
  end_call, finish_session, break_off,
}

-- `answered` is the history of results that the worker has sent.
pub record Session : Type 0 where
  pub client : Client
  pub worker : Worker
  pub to_worker : List ToWorker
  pub to_client : List ToClient
  pub answered : Dict ℕ

abbrev pub client_does : Client × List ToWorker → Session → Session
client_does (c, ms) s = record s { client = c; to_worker = s.to_worker ++ ms }

abbrev pub worker_does : Worker × List ToClient → Session → Session
worker_does (w, ms) s = record s { worker = w; to_client = s.to_client ++ ms }

abbrev pub start : Session
start = record {
  client = record {
    call_index = 0;
    pending_call = none;
    futures = empty;
    resolving = none;
    finishing = false;
    is_closed = false;
    is_open = true;
  };
  worker = record {
    peer = record { incoming_call = none; call_queue = [] };
    call_in_progress = false;
    finish_event = false;
    phase = idle;
  };
  to_worker = [];
  to_client = [];
  answered = empty;
}

-- What may happen. A client may send any frame at any time, and its calls may time out at any time; it rejects its
-- pending call when it cannot handle a message; the worker may break off at any time.
pub data Step (t : HeaderText) (s : Session) : Session → Type 0 where
  calls : (attachments : List Metadata) → Step t s (client_does (call attachments s.client) s)
  sends_frame :
      (frame : Bytes) → Step t s (record s { to_worker = s.to_worker ++ chunk frame ∷ [] })
  asks_to_finish : Step t s (client_does (finish s.client) s)
  times_out : Step t s (record s { client = end_pending given_up s.client })
  finish_times_out : Step t s (record s { client = give_up_finish s.client })
  rejects : Step t s (record s { client = end_pending rejected s.client })
  errs : Step t s (record s { client = reject_open_work s.client })
  loses_channel : Step t s (record s { client = on_close s.client })
  closes : Step t s (record s { client = close s.client })
  client_receives :
      (m : ToClient) (rest : List ToClient)
      → s.to_client ≡ m ∷ rest
      → s.client.resolving ≡ none
      → Step t s (client_does (handle_control_message m s.client) (record s { to_client = rest }))
  drains : Step t s (record s { client = drained s.client })
  drain_fails : Step t s (record s { client = not_drained s.client })
  worker_receives :
      (m : ToWorker) (rest : List ToWorker)
      → s.to_worker ≡ m ∷ rest
      → Step t s (worker_does (on_message t m s.worker) (record s { to_worker = rest }))
  takes :
      (c : JobCall) (rest : List JobCall)
      → s.worker.phase ≡ idle
      → s.worker.peer.call_queue ≡ c ∷ rest
      → Step t s (record s { worker = take_next c s.worker })
  begins :
      (id : ℕ) → s.worker.phase ≡ taken id → Step t s (record s { worker = begin_call id s.worker })
  tells :
      (id : ℕ)
      → s.worker.phase ≡ working id
      → Step t s (record s { to_client = s.to_client ++ job_event id ∷ [] })
  responds :
      (id payload : ℕ)
      → s.worker.phase ≡ working id
      → Step t s (record (worker_does (send_result id payload s.worker) s) {
        answered = put s.answered id payload;
      })
  fails : (id : ℕ) → s.worker.phase ≡ working id → Step t s (worker_does (fail_call id s.worker) s)
  is_acknowledged :
      (id : ℕ) → s.worker.phase ≡ sent id true → Step t s (record s { worker = end_call s.worker })
  ends_session :
      s.worker.phase ≡ idle
      → s.worker.finish_event ≡ true
      → Step t s (worker_does (finish_session s.worker) s)
  breaks : Step t s (worker_does (break_off s.worker) s)

pub data Reach (t : HeaderText) (s : Session) : Session → Type 0 where
  here : Reach t s s
  next : {u v : Session} → Reach t s u → Step t u v → Reach t s v
