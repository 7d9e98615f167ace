-- ===== src/Session/Clients.antt =====
-- app_v1/sdk/master/python/gpstation_master/job_peer.py: every operation of the client is a move of the session's
-- contract, or none.

use gpstation.Prelude.{
  ℕ, suc, ◌≤◌, ◌||◌, Option, none, some, List, ◌≡◌, inl, inr, refl, sym, ap, ◌∙◌, arith, ◌==◌,
  is_some, Bool-cases, Option-cases,
}
use gpstation.Prelude.Dict.{Dict, get, put, get-put}
use gpstation.Transfer.Receiving.{Metadata}
use gpstation.Session.Client.{
  Outcome, resolved, rejected, Client, closed, settle, settle_pending, end_pending, call,
  reject_open_work, resolve_call, drained, not_drained,
}
use gpstation.Session.Spec.{IsTrue, asks, settles, AtMostOne, rpc}

-- The pending call is unsettled; a result that is being acknowledged was sent.
pub record ClientOk (answered : Dict ℕ) (c : Client) : Type 0 where
  pub pending :
      (id : ℕ) → c.pending_call ≡ some id → (id ≤ c.call_index) × (get c.futures id ≡ none)
  pub old : (id : ℕ) (o : Outcome) → get c.futures id ≡ some o → id ≤ c.call_index
  pub resolving :
      (id r : ℕ) → c.resolving ≡ some (id, r) → (get answered id ≡ some r) × (id ≤ c.call_index)

settle-old :
    (n id j : ℕ) (o p : Outcome) (futures : Dict Outcome)
    → id ≤ n
    → ((i : ℕ) (q : Outcome) → get futures i ≡ some q → i ≤ n)
    → get (settle id o futures) j ≡ some p
    → j ≤ n
settle-old n id j o p futures h old e = elim (Bool-cases (is_some (get futures id))) [
  | inl done ↦ old j p (rw done at e)
  | inr fresh ↦
      let e' : get (put futures id o) j ≡ some p = rw fresh at e in
      elim (Bool-cases (id == j)) [
        | inl s ↦ ground (arith, s, h)
        | inr d ↦ old j p (ground (arith, e', get-put futures id j o, d))
      ]
]

settle_pending-old :
    (n j : ℕ) (pending : Option ℕ) (o p : Outcome) (futures : Dict Outcome)
    → ((i : ℕ) → pending ≡ some i → i ≤ n)
    → ((i : ℕ) (q : Outcome) → get futures i ≡ some q → i ≤ n)
    → get (settle_pending pending o futures) j ≡ some p
    → j ≤ n
settle_pending-old n j none o p futures h old e = old j p e
settle_pending-old n j (some id) o p futures h old e =
    settle-old n id j o p futures (h id refl) old e

module _ (answered : Dict ℕ) (c : Client) (v : ClientOk answered c) where
  pub end_pending-ClientOk : (o : Outcome) → ClientOk answered (end_pending o c)
  unfolding end_pending
  end_pending-ClientOk o = record {
    pending = λ id e. cc;
    old = λ j p e.
        settle_pending-old c.call_index j c.pending_call o p c.futures (λ i q. (v.pending i q).0)
          v.old e;
    resolving = v.resolving;
  }

  settled-move :
      (id : ℕ) (o : Outcome)
      → id ≤ c.call_index
      → IsTrue answered id o
      → AtMostOne (rpc c answered) (record (rpc c answered) { settled = settle id o c.futures })
  settled-move id o h t = elim (Option-cases (get c.futures id)) [
    | inl fresh ↦ inr (rw fresh (settles id o h fresh t))
    | inr (p, done) ↦ inl (rw done refl)
  ]

  pending-move :
      (pending : Option ℕ) (o : Outcome)
      → ((i : ℕ) → pending ≡ some i → i ≤ c.call_index)
      → ((i : ℕ) → IsTrue answered i o)
      → AtMostOne
          (rpc c answered)
          (record (rpc c answered) { settled = settle_pending pending o c.futures })
  pending-move none o h t = inl refl
  pending-move (some id) o h t = settled-move id o (h id refl) (t id)

  pub end_pending-move :
      (o : Outcome)
      → ((i : ℕ) → IsTrue answered i o)
      → AtMostOne (rpc c answered) (rpc (end_pending o c) answered)
  unfolding end_pending
  end_pending-move o t = pending-move c.pending_call o (λ i q. (v.pending i q).0) t

  pub next_unsettled : get c.futures (suc c.call_index) ≡ none
  next_unsettled = elim (Option-cases (get c.futures (suc c.call_index))) [
    | inl e ↦ e
    | inr (o, e) ↦ absurd (omega (arith, v.old (suc c.call_index) o e))
  ]

  pub call-ClientOk : (ms : List Metadata) → ClientOk answered (call ms c).0
  unfolding call
  call-ClientOk ms = elim (Bool-cases (closed c || is_some c.pending_call)) [
    | inl busy ↦ rw busy (record {
      pending = λ id e. (omega (arith, (v.pending id e).0), (v.pending id e).1);
      old = λ id o e. omega (arith, v.old id o e);
      resolving = λ id r e. ((v.resolving id r e).0, omega (arith, (v.resolving id r e).1));
    })
    | inr free ↦ rw free (record {
      pending = λ id e.
          let same : suc c.call_index ≡ id = ground (arith, e) in
          (omega (arith, same), sym (ap (get c.futures) same) ∙ next_unsettled);
      old = λ id o e. omega (arith, v.old id o e);
      resolving = λ id r e. ((v.resolving id r e).0, omega (arith, (v.resolving id r e).1));
    })
  ]

  pub call-move : (ms : List Metadata) → AtMostOne (rpc c answered) (rpc (call ms c).0 answered)
  unfolding call
  call-move ms = elim (Bool-cases (closed c || is_some c.pending_call)) [
    | inl busy ↦ rw busy (inr asks)
    | inr free ↦ rw free (inr asks)
  ]

  resolve_call-ClientOk :
      (r : Option (ℕ × ℕ)) → c.resolving ≡ r → ClientOk answered (resolve_call r c)
  resolve_call-ClientOk none e = v
  resolve_call-ClientOk (some (id, r)) e = record {
    pending = λ i q. cc;
    old = λ j p q.
        settle-old c.call_index id j (resolved r) p c.futures (v.resolving id r e).1 v.old q;
    resolving = λ i p q. cc;
  }

  pub drained-ClientOk : ClientOk answered (drained c)
  unfolding drained
  drained-ClientOk = resolve_call-ClientOk c.resolving refl

  resolve_call-move :
      (r : Option (ℕ × ℕ))
      → c.resolving ≡ r
      → AtMostOne (rpc c answered) (rpc (resolve_call r c) answered)
  resolve_call-move none e = inl refl
  resolve_call-move (some (id, r)) e =
      settled-move id (resolved r) (v.resolving id r e).1 (v.resolving id r e).0

  pub drained-move : AtMostOne (rpc c answered) (rpc (drained c) answered)
  unfolding drained
  drained-move = resolve_call-move c.resolving refl

  pub not_drained-ClientOk : ClientOk answered (not_drained c)
  unfolding not_drained end_pending
  not_drained-ClientOk =
      let w = end_pending-ClientOk rejected in
      record { pending = w.pending; old = w.old; resolving = λ id r e. cc }

  pub not_drained-move : AtMostOne (rpc c answered) (rpc (not_drained c) answered)
  unfolding not_drained end_pending
  not_drained-move = end_pending-move rejected (λ i. tt)

  pub reject_open_work-ClientOk : ClientOk answered (reject_open_work c)
  unfolding reject_open_work end_pending
  reject_open_work-ClientOk =
      let w = end_pending-ClientOk rejected in
      record { pending = w.pending; old = w.old; resolving = w.resolving }

  pub reject_open_work-move : AtMostOne (rpc c answered) (rpc (reject_open_work c) answered)
  unfolding reject_open_work end_pending
  reject_open_work-move = end_pending-move rejected (λ i. tt)
