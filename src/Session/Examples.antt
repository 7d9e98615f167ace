-- ===== src/Session/Examples.antt =====
-- app_v1/sdk: the theorems about sessions, on sessions with one call and with a call that times out too early.
use gpstation.Prelude.{none, some, [], ◌∷◌, ◌≡◌, refl}
use gpstation.Prelude.Dict.{get, put, empty}
use gpstation.Transfer.Frames.{HeaderText}
use gpstation.Transfer.Receiving.{on_call, receive_job_call, take_call}
use gpstation.Session.Messages.{job_call, job_result}
use gpstation.Session.Client.{
  resolved, given_up, end_pending, call, handle_control_message, drained,
}
use gpstation.Session.Worker.{on_message, take_next, begin_call, send_result}
use gpstation.Session.Steps.{
  Session, client_does, worker_does, start, calls, client_receives, worker_receives, takes, begins,
  responds, drains, Reach,
}
use gpstation.Session.Spec.{Run, view}
use gpstation.Session.Refinement.{view-Run}
use gpstation.Session.Lost.{overtaken, lost_call}

-- No frame is sent here.
abbrev text : HeaderText
text = record { print = λ h. []; parse = λ bytes. none }

-- Call 1 has been asked, taken up, and answered with 42; the client has the result.
abbrev asked : Session
asked = client_does (call [] start.client) start

abbrev delivered : Session
delivered =
    worker_does (on_message text (job_call 1 []) asked.worker) (record asked { to_worker = [] })

abbrev taken_up : Session
taken_up = record delivered {
  worker = take_next (record { id = 1; attachments = [] }) delivered.worker;
}

abbrev begun : Session
begun = record taken_up { worker = begin_call 1 taken_up.worker }

abbrev answered : Session
answered = record (worker_does (send_result 1 42 begun.worker) begun) { answered = put empty 1 42 }

abbrev received : Session
received =
    client_does (handle_control_message (job_result 1 42) answered.client)
      (record answered { to_client = [] })

received-Reach : Reach text start received
unfolding call on_message on_call receive_job_call take_call take_next begin_call send_result
    handle_control_message
received-Reach =
    Reach.next
      (Reach.next
        (Reach.next
          (Reach.next
            (Reach.next (Reach.next Reach.here (calls []))
              (worker_receives (job_call 1 []) [] refl))
            (takes (record { id = 1; attachments = [] }) [] refl refl))
          (begins 1 refl))
        (responds 1 42 refl))
      (client_receives (job_result 1 42) [] refl refl)

abbrev settled : Session
settled = record received { client = drained received.client }

view-Run_example : Run (view received) (view settled)
view-Run_example = view-Run text received settled received-Reach (Reach.next Reach.here drains)

lost_call_example :
    ((call [] (end_pending given_up received.client)).1 ≡ job_call 2 [] ∷ [])
    × (get (overtaken [] received.client).futures 2 ≡ none)
    × (handle_control_message (job_result 2 43) (overtaken [] received.client)
        ≡ (overtaken [] received.client, []))
unfolding call on_message on_call receive_job_call take_call take_next begin_call send_result
    handle_control_message
lost_call_example = lost_call text received [] 1 42 43 received-Reach refl refl refl

has_result : get settled.client.futures 1 ≡ some (resolved 42)
unfolding drained call on_message on_call receive_job_call take_call take_next begin_call
    send_result handle_control_message get put empty
has_result = refl
