-- ===== src/Session/Lost.antt =====
-- app_v1/sdk/master/python/gpstation_master/job_peer.py: what `_resolve_pending_call` does when its call has timed out
-- while the acknowledgement drained, and another call has been made.

use gpstation.Prelude.{
  ℕ, suc, ◌≤◌, false, none, some, List, [], ◌∷◌, ◌≡◌, inl, inr, refl, ap, ◌∙◌, arith, ◌==◌, is_some,
  Option-cases,
}
use gpstation.Prelude.Dict.{Dict, get, get-put}
use gpstation.Transfer.Receiving.{Metadata}
use gpstation.Transfer.Frames.{HeaderText}
use gpstation.Session.Messages.{job_call, job_result}
use gpstation.Session.Client.{
  Outcome, resolved, given_up, Client, closed, settle, settle_pending, end_pending, call,
  handle_control_message, drained, resolve_call,
}
use gpstation.Session.Steps.{Session, start, Reach}
use gpstation.Session.Clients.{next_unsettled}
use gpstation.Session.Refinement.{Reach-Good}

-- The client that is left: call `id` times out, the next call is made, and the acknowledgement of `id` is taken.
abbrev pub overtaken : List Metadata → Client → Client
overtaken ms c = drained (call ms (end_pending given_up c)).0

kept :
    (id j : ℕ) (o : Outcome) (futures : Dict Outcome)
    → (id == j) ≡ false
    → get (settle id o futures) j ≡ get futures j
kept id j o futures d = elim (Option-cases (get futures id)) [
  | inl fresh ↦ rw fresh (ground (arith, get-put futures id j o, d))
  | inr (p, done) ↦ rw done refl
]

call-free :
    (ms : List Metadata) (c : Client)
    → closed c ≡ false
    → is_some c.pending_call ≡ false
    → (call ms c).0
      ≡ record c { call_index = suc c.call_index; pending_call = some (suc c.call_index) }
unfolding call
call-free ms c e p = simp (e, p) refl

overtaken_eq :
    (ms : List Metadata) (c : Client) (id r : ℕ)
    → closed c ≡ false
    → c.resolving ≡ some (id, r)
    → overtaken ms c ≡ record c {
      call_index = suc c.call_index;
      pending_call = none;
      futures = settle id (resolved r) (end_pending given_up c).futures;
      resolving = none;
    }
unfolding drained end_pending
overtaken_eq ms c id r e p =
    ap drained (call-free ms (end_pending given_up c) e refl)
    ∙ ap
        (λ o. resolve_call o (record (end_pending given_up c) {
          call_index = suc c.call_index;
          pending_call = some (suc c.call_index);
        }))
        p

unexpected :
    (c : Client) (id p : ℕ)
    → handle_control_message (job_result id p) (record c { pending_call = none })
      ≡ (record c { pending_call = none }, [])
unfolding handle_control_message end_pending
unexpected c id p = refl

call-asks_next :
    (ms : List Metadata) (c : Client)
    → closed c ≡ false
    → is_some c.pending_call ≡ false
    → (call ms c).1 ≡ job_call (suc c.call_index) ms ∷ []
unfolding call
call-asks_next ms c e p = simp (e, p) refl

unsettled :
    (c : Client) (id r : ℕ)
    → id ≤ c.call_index
    → c.pending_call ≡ some id
    → get c.futures (suc c.call_index) ≡ none
    → get (settle id (resolved r) (end_pending given_up c).futures) (suc c.call_index) ≡ none
unfolding end_pending
unsettled c id r h pending fresh =
    let other : (id == suc c.call_index) ≡ false = ground (arith, h) in
    kept id (suc c.call_index) (resolved r) (settle_pending c.pending_call given_up c.futures) other
    ∙ ap (λ o. get (settle_pending o given_up c.futures) (suc c.call_index)) pending
    ∙ kept id (suc c.call_index) given_up c.futures other
    ∙ fresh

-- In a session, when a call gives up while the acknowledgement of its result drains and another call is made, that
-- call is sent to the worker, but its result finds no pending call once the acknowledgement is taken: it changes
-- nothing, is not acknowledged, and the call's future stays unsettled.
pub lost_call :
    (t : HeaderText) (s : Session) (ms : List Metadata) (id r p : ℕ)
    → Reach t start s
    → s.client.pending_call ≡ some id
    → s.client.resolving ≡ some (id, r)
    → closed s.client ≡ false
    → ((call ms (end_pending given_up s.client)).1 ≡ job_call (suc s.client.call_index) ms ∷ [])
      × (get (overtaken ms s.client).futures (suc s.client.call_index) ≡ none)
      × (handle_control_message (job_result (suc s.client.call_index) p) (overtaken ms s.client)
          ≡ (overtaken ms s.client, []))
unfolding end_pending
lost_call t s ms id r p reached pending resolving live =
    let c = s.client in
    let g = Reach-Good reached in
    let gone = overtaken_eq ms c id r live resolving in
    (
      call-asks_next ms (end_pending given_up c) live refl,
      ap (λ d. get d.futures (suc c.call_index)) gone
          ∙ unsettled c id r (g.client.pending id pending).0 pending
              (next_unsettled s.answered c g.client),
      rw gone (
          unexpected
            (record c {
              call_index = suc c.call_index;
              futures = settle id (resolved r) (end_pending given_up c).futures;
              resolving = none;
            })
            (suc c.call_index) p),
    )
