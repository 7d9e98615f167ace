-- ===== src/Session/Handling.antt =====
-- app_v1/sdk/master/python/gpstation_master/job_peer.py: how a client ends, and what it makes of the worker's messages.

use gpstation.Prelude.{
  ℕ, ◌≤◌, ◌||◌, ◌&&◌, not, some, ◌≡◌, inl, inr, refl, arith, is_some, is_id, Bool-cases,
}
use gpstation.Prelude.Dict.{Dict, get}
use gpstation.Session.Messages.{ToClient, job_result, job_error, job_event, job_finished}
use gpstation.Session.Client.{
  rejected, Client, closed, end_pending, finish, reject_open_work, give_up_finish, on_close, close,
  handle_control_message,
}
use gpstation.Session.Spec.{AtMostOne, rpc}
use gpstation.Session.Clients.{
  ClientOk, end_pending-ClientOk, end_pending-move, reject_open_work-ClientOk,
  reject_open_work-move,
}

-- A result on its way was sent, for a call that was asked.
abbrev pub IsSent : Dict ℕ → ℕ → ToClient → Type 0
IsSent answered n (job_result id r) = (get answered id ≡ some r) × (id ≤ n)
IsSent answered n (job_error id) = Unit
IsSent answered n (job_event id) = Unit
IsSent answered n job_finished = Unit

-- What every operation does.
abbrev pub Keeps : Dict ℕ → Client → Client → Type 0
Keeps answered c d = ClientOk answered d × AtMostOne (rpc c answered) (rpc d answered)

module _ (answered : Dict ℕ) (c : Client) (v : ClientOk answered c) where
  pub finish-Keeps : Keeps answered c (finish c).0
  unfolding finish
  finish-Keeps = elim (Bool-cases (closed c || is_some c.pending_call || c.finishing)) [
    | inl refused ↦ simp refused (v, inl refl)
    | inr free ↦
        simp free (record { pending = v.pending; old = v.old; resolving = v.resolving }, inl refl)
  ]

  pub give_up_finish-Keeps : Keeps answered c (give_up_finish c)
  unfolding give_up_finish
  give_up_finish-Keeps =
      (record { pending = v.pending; old = v.old; resolving = v.resolving }, inl refl)

  pub rejected-Keeps : Keeps answered c (end_pending rejected c)
  rejected-Keeps =
      (end_pending-ClientOk answered c v rejected, end_pending-move answered c v rejected (λ i. tt))

  pub reject_open_work-Keeps : Keeps answered c (reject_open_work c)
  reject_open_work-Keeps =
      (reject_open_work-ClientOk answered c v, reject_open_work-move answered c v)

  pub on_close-Keeps : Keeps answered c (on_close c)
  unfolding on_close
  on_close-Keeps =
      let (w, m) = reject_open_work-Keeps in
      (record { pending = w.pending; old = w.old; resolving = w.resolving }, m)

  pub close-Keeps : Keeps answered c (close c)
  unfolding close end_pending
  close-Keeps = elim (Bool-cases c.is_closed) [
    | inl done ↦ simp done (v, inl refl)
    | inr live ↦
        let (w, m) = rejected-Keeps in
        simp live (record { pending = w.pending; old = w.old; resolving = λ id r e. cc }, m)
  ]

  pub handle_control_message-Keeps :
      (m : ToClient)
      → IsSent answered c.call_index m
      → Keeps answered c (handle_control_message m c).0
  unfolding handle_control_message
  handle_control_message-Keeps (job_error id) h = elim (Bool-cases (is_id c.pending_call id)) [
    | inl mine ↦ simp mine rejected-Keeps
    | inr other ↦ simp other reject_open_work-Keeps
  ]
  handle_control_message-Keeps (job_event id) h = (v, inl refl)
  handle_control_message-Keeps job_finished h =
      (record { pending = v.pending; old = v.old; resolving = v.resolving }, inl refl)
  handle_control_message-Keeps (job_result id r) h =
      elim (Bool-cases (is_id c.pending_call id && not (closed c))) [
        | inl mine ↦ simp mine (
          record { pending = v.pending; old = v.old; resolving = λ i q e. ground (arith, e, h) },
          inl refl,
        )
        | inr other ↦ simp other rejected-Keeps
      ]
