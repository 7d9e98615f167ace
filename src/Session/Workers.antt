-- ===== src/Session/Workers.antt =====
-- app_v1/sdk/slave/worker.py: the worker works on a call at most as often as it was sent.
use gpstation.Prelude.{
  ℕ, ◌+◌, ◌≤◌, Option, none, some, List, [], ◌∷◌, ◌++◌, ◌≡◌, inl, inr, refl, ap, arith, drop,
  Bool-cases, All,
}
use gpstation.Prelude.Dict.{Dict}
use gpstation.Transfer.Frames.{Refusal, HeaderText}
use gpstation.Transfer.Receiving.{JobCall, on_call, on_binary_message, take_call}
use gpstation.Session.Messages.{ToWorker, job_call, chunk, result_ack, job_finish}
use gpstation.Session.Worker.{
  Phase, idle, taken, working, sent, over, Worker, awaits, acked, errors_for, incoming_id,
  on_message, take_next, begin_call,
}
use gpstation.Session.Peers.{one, queued, held, call-Holds, message-Holds}
use gpstation.Session.Handling.{IsSent}

-- How often call `j` is asked for.
abbrev pub asks_for : ℕ → ToWorker → ℕ
asks_for j (job_call id ms) = one j id
asks_for j (chunk frame) = 0
asks_for j (result_ack id) = 0
asks_for j job_finish = 0

abbrev pub on_wire : ℕ → List ToWorker → ℕ
on_wire j [] = 0
on_wire j (m ∷ ms) = asks_for j m + on_wire j ms

abbrev pub in_work : ℕ → Phase → ℕ
in_work j (taken id) = one j id
in_work j (working id) = one j id
in_work j _ = 0

-- The worker has call `j`, and has not answered it.
abbrev pub load : ℕ → Worker → ℕ
load j w = held j w.peer + in_work j w.phase

pub on_wire-append :
    (j : ℕ) (ms ns : List ToWorker) → on_wire j (ms ++ ns) ≡ on_wire j ms + on_wire j ns
on_wire-append j [] ns = omega arith
on_wire-append j (m ∷ ms) ns = omega (arith, on_wire-append j ms ns)

in_work-acked : (j : ℕ) (p : Phase) → in_work j (acked p) ≡ in_work j p
in_work-acked j idle = refl
in_work-acked j (taken id) = refl
in_work-acked j (working id) = refl
in_work-acked j (sent id done) = refl
in_work-acked j over = refl

pub load-message :
    (j : ℕ) (t : HeaderText) (m : ToWorker) (w : Worker)
    → load j (on_message t m w).0 ≤ asks_for j m + load j w
unfolding on_message
load-message j t (job_call id ms) w =
    omega
      (arith, call-Holds j (held j w.peer + one j id) id w.call_in_progress ms w.peer (omega arith))
load-message j t (chunk frame) w =
    omega (arith, message-Holds j (held j w.peer) t frame w.peer (omega arith))
load-message j t (result_ack id) w = elim (Bool-cases (awaits id w.phase)) [
  | inl mine ↦ simp mine (omega (arith, in_work-acked j w.phase))
  | inr other ↦ simp other (omega arith)
]
load-message j t job_finish w = omega arith

errors-IsSent :
    (answered : Dict ℕ) (n id : ℕ) (r : Option Refusal) → All (IsSent answered n) (errors_for id r)
errors-IsSent answered n id none = tt
errors-IsSent answered n id (some why) = (tt, tt)

pub message-IsSent :
    (answered : Dict ℕ) (n : ℕ) (t : HeaderText) (m : ToWorker) (w : Worker)
    → All (IsSent answered n) (on_message t m w).1
unfolding on_message
message-IsSent answered n t (job_call id ms) w =
    errors-IsSent answered n id (on_call w.call_in_progress id ms w.peer).1
message-IsSent answered n t (chunk frame) w =
    errors-IsSent answered n (incoming_id w.peer.incoming_call) (on_binary_message t frame w.peer).1
message-IsSent answered n t (result_ack id) w = elim (Bool-cases (awaits id w.phase)) [
  | inl mine ↦ simp mine tt
  | inr other ↦ simp other tt
]
message-IsSent answered n t job_finish w = tt

pub load-take :
    (j : ℕ) (c : JobCall) (rest : List JobCall) (w : Worker)
    → w.peer.call_queue ≡ c ∷ rest
    → load j (take_next c w) ≤ load j w
unfolding take_next take_call
load-take j c rest w e =
    let whole : queued j w.peer.call_queue ≡ one j c.id + queued j rest = ap (queued j) e in
    let left : queued j (drop 1 w.peer.call_queue) ≡ queued j rest =
      ap (λ cs. queued j (drop 1 cs)) e in
    omega (arith, whole, left)

pub load-begin : (j id : ℕ) (w : Worker) → w.phase ≡ taken id → load j (begin_call id w) ≡ load j w
unfolding begin_call
load-begin j id w e = omega (arith, ap (in_work j) e)

pub load-working :
    (j id : ℕ) (w : Worker) → w.phase ≡ working id → load j w ≡ held j w.peer + one j id
load-working j id w e = omega (arith, ap (in_work j) e)
