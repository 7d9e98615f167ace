-- ===== src/Session/Answers.antt =====
-- app_v1/sdk/master/python/gpstation_master/job_peer.py and app_v1/sdk/slave/worker.py: the steps of a session that ask
-- and that answer, and the ones that send no call.
use mathlib.Core.Path.{subst}
use gpstation.Prelude.{
  ℕ, ◌+◌, ◌≤◌, ◌||◌, ◌&&◌, not, none, some, List, [], ◌∷◌, ◌≡◌, inl, inr, refl, sym, ap, ◌∙◌, arith,
  ◌==◌, ==_iff, is_some, is_id, Bool-cases, Option-cases, All, All-append, All-map,
}
use gpstation.Prelude.Entries.{there-put}
use gpstation.Prelude.Dict.{Dict, get, put, get-put}
use gpstation.Transfer.Receiving.{Metadata}
use gpstation.Session.Messages.{ToClient, job_result, job_error, job_event, job_finished}
use gpstation.Session.Client.{Client, closed, call, finish, handle_control_message}
use gpstation.Session.Worker.{working, send_result}
use gpstation.Session.Peers.{one}
use gpstation.Session.Workers.{on_wire, load-working}
use gpstation.Session.Steps.{Session, client_does, worker_does}
use gpstation.Session.Spec.{answers}
use gpstation.Session.Clients.{ClientOk, call-ClientOk, call-move}
use gpstation.Session.Handling.{IsSent, Keeps, finish-Keeps, handle_control_message-Keeps}
use gpstation.Session.Invariant.{
  IsCounted, IsGood, IsFine, answers_to, fewer, quiet-Fine, client-Fine, asked-IsCounted,
}

pub call-Fine :
    (s : Session) (ms : List Metadata) → IsGood s → IsFine s (client_does (call ms s.client) s)
unfolding call
call-Fine s ms g =
    let k : Keeps s.answered s.client (call ms s.client).0 =
      (call-ClientOk s.answered s.client g.client ms, call-move s.answered s.client g.client ms) in
    elim (Bool-cases (closed s.client || is_some s.client.pending_call)) [
      | inl busy ↦ simp busy (quiet-Fine s g _ [] (simp busy at k) (λ j. refl))
      | inr free ↦ simp free (client-Fine s g _ _ (simp free at k) (asked-IsCounted s g _ ms refl))
    ]

finish-quiet : (c : Client) (j : ℕ) → on_wire j (finish c).1 ≡ 0
unfolding finish
finish-quiet c j = elim (Bool-cases (closed c || is_some c.pending_call || c.finishing)) [
  | inl refused ↦ simp refused refl
  | inr free ↦ simp free (omega arith)
]

pub finish-Fine : (s : Session) → IsGood s → IsFine s (client_does (finish s.client) s)
finish-Fine s g =
    quiet-Fine s g (finish s.client).0 (finish s.client).1
      (finish-Keeps s.answered s.client g.client) (finish-quiet s.client)

handle_control_message-quiet :
    (m : ToClient) (c : Client) (j : ℕ) → on_wire j (handle_control_message m c).1 ≡ 0
unfolding handle_control_message
handle_control_message-quiet (job_error id) c j = refl
handle_control_message-quiet (job_event id) c j = refl
handle_control_message-quiet job_finished c j = refl
handle_control_message-quiet (job_result id r) c j =
    elim (Bool-cases (is_id c.pending_call id && not (closed c))) [
      | inl mine ↦ simp mine (omega arith)
      | inr other ↦ simp other refl
    ]

after_receipt :
    (s : Session) (m : ToClient) (rest : List ToClient)
    → s.to_client ≡ m ∷ rest
    → IsGood s
    → IsGood (record s { to_client = rest }) × IsSent s.answered s.client.call_index m
after_receipt s m rest e g =
    let (h, hs) = subst (All (IsSent s.answered s.client.call_index)) e g.to_client in
    (
      record {
        client = g.client;
        counted =
            fewer s (record s { to_client = rest }) (omega arith) (λ j. omega arith) g.counted;
        to_client = hs;
      },
      h,
    )

pub receipt-Fine :
    (s : Session) (m : ToClient) (rest : List ToClient)
    → s.to_client ≡ m ∷ rest
    → IsGood s
    → IsFine s (client_does (handle_control_message m s.client) (record s { to_client = rest }))
receipt-Fine s m rest e g =
    let (w, h) = after_receipt s m rest e g in
    quiet-Fine (record s { to_client = rest }) w (handle_control_message m s.client).0
      (handle_control_message m s.client).1
      (handle_control_message-Keeps s.answered s.client g.client m h)
      (handle_control_message-quiet m s.client)

answers_to-put :
    (j id r : ℕ) (answered : Dict ℕ)
    → answers_to j (put answered id r) ≤ answers_to j answered + one j id
answers_to-put j id r answered = elim (Bool-cases (id == j)) [
  | inl same ↦ ground (arith, same)
  | inr other ↦ ground (arith, other, get-put answered id j r)
]

module _ (answered : Dict ℕ) (id r : ℕ) (fresh : get answered id ≡ none) where
  -- An answer stays when another call is answered.
  stays : (j q : ℕ) → get answered j ≡ some q → get (put answered id r) j ≡ some q
  stays j q e = elim (Bool-cases (id == j)) [
    | inl same ↦ absurd (ground (arith, sym fresh ∙ ap (get answered) ((==_iff id j).0 same) ∙ e))
    | inr other ↦ ground (arith, other, get-put answered id j r, e)
  ]

  ClientOk-later : (c : Client) → ClientOk answered c → ClientOk (put answered id r) c
  ClientOk-later c v = record {
    pending = v.pending;
    old = v.old;
    resolving = λ j q e. (stays j q (v.resolving j q e).0, (v.resolving j q e).1);
  }

  IsSent-later : (n : ℕ) (m : ToClient) → IsSent answered n m → IsSent (put answered id r) n m
  IsSent-later n (job_result j q) (there, old) = (stays j q there, old)
  IsSent-later n (job_error j) v = tt
  IsSent-later n (job_event j) v = tt
  IsSent-later n job_finished v = tt

unanswered :
    (s : Session) (id : ℕ)
    → s.worker.phase ≡ working id
    → IsCounted s
    → (id ≤ s.client.call_index) × (get s.answered id ≡ none)
unanswered s id e v =
    let here : one id id ≡ 1 = ground arith in
    let loaded = load-working id id s.worker e in
    (
      ground (arith, here, loaded, v.asked id),
      elim (Option-cases (get s.answered id)) [
        | inl fresh ↦ fresh
        | inr (q, done) ↦ absurd (ground (arith, done, here, loaded, v.once id))
      ],
    )

pub responds-Fine :
    (s : Session) (id payload : ℕ)
    → s.worker.phase ≡ working id
    → IsGood s
    → IsFine s (record (worker_does (send_result id payload s.worker) s) {
      answered = put s.answered id payload;
    })
unfolding send_result
responds-Fine s id payload e g =
    let (h, fresh) = unanswered s id e g.counted in
    let n = s.client.call_index in
    (
      record {
        client = ClientOk-later s.answered id payload fresh s.client g.client;
        counted =
            fewer s _ (omega arith)
              (λ j.
                omega (arith, answers_to-put j id payload s.answered, load-working j id s.worker e))
              g.counted;
        to_client =
            All-append (IsSent (put s.answered id payload) n) s.to_client _
              (All-map (IsSent s.answered n) (IsSent (put s.answered id payload) n) s.to_client
                (IsSent-later s.answered id payload fresh n) g.to_client)
              ((there-put s.answered id payload, h), tt);
      },
      inr (answers id payload h fresh),
    )
