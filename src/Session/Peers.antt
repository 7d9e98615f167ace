-- ===== src/Session/Peers.antt =====
-- app_v1/sdk/slave/worker.py: a worker does not hold a call more often than it was sent.
use mathlib.Core.Path.{subst}
use gpstation.Prelude.{
  ℕ, ◌+◌, ◌≤◌, Bool, ◌&&◌, not, Option, none, some, List, [], ◌∷◌, ◌++◌, ◌≡◌, inl, inr, arith, ◌==◌,
  ltb, is_id, length, map, Bool-cases, Option-cases, if◌then◌else◌,
}
use gpstation.Transfer.Frames.{
  Bytes, Header, HeaderText, Result, accepted, refused, ◌>>=◌, ◌>>◌, refuse_if, Ensures,
  decode_binary_frame, message_too_large,
}
use gpstation.Transfer.Receiving.{
  Metadata, Incoming, JobCall, PendingCall, Peer, receive_job_call, no_repeats, none_too_large,
  set_file, all_complete, as_attachment, find_file, or_refuse, add_chunk, store_file, receive_chunk,
  receive_request_attachment_chunk, drop_refused, on_binary_message, on_call, is_busy,
  message_max_bytes,
}

-- How often call `j` is there.
abbrev pub one : ℕ → ℕ → ℕ
one j id = if id == j then 1 else 0

abbrev pub queued : ℕ → List JobCall → ℕ
queued j [] = 0
queued j (c ∷ cs) = one j c.id + queued j cs

abbrev pub incoming : ℕ → Option PendingCall → ℕ
incoming j none = 0
incoming j (some call) = one j call.id

abbrev pub held : ℕ → Peer → ℕ
held j peer = queued j peer.call_queue + incoming j peer.incoming_call

queued-append :
    (j : ℕ) (cs : List JobCall) (c : JobCall) → queued j (cs ++ c ∷ []) ≡ queued j cs + one j c.id
queued-append j [] c = omega arith
queued-append j (d ∷ cs) c = omega (arith, queued-append j cs c)

-- At most `k` times.
abbrev Holds : ℕ → ℕ → Peer → Type 0
Holds j k peer = held j peer ≤ k

Ensures-bind :
    {A B : Type 0} (P : B → Type 0) (m : Result A) (f : A → Result B)
    → ((a : A) → Ensures P (f a))
    → Ensures P (m >>= f)
Ensures-bind P (accepted a) f h = h a
Ensures-bind P (refused why) f h = tt

module _ (j k : ℕ) where
  store-Holds :
      (call : PendingCall) (f : Incoming) (peer : Peer)
      → queued j peer.call_queue + one j call.id ≤ k
      → Holds j k (store_file call f peer)
  store-Holds call f peer h = elim (Bool-cases (all_complete (set_file f call.files))) [
    | inl whole ↦ simp whole (
        omega (
          arith,
          h,
          queued-append j peer.call_queue
              (record { id = call.id; attachments = map as_attachment (set_file f call.files) }),
        ))
    | inr part ↦ simp part h
  ]

  chunk-Holds :
      (call : PendingCall) (header : Header) (body : Bytes) (peer : Peer)
      → queued j peer.call_queue + one j call.id ≤ k
      → Ensures (Holds j k) (receive_chunk call header body peer)
  chunk-Holds call header body peer h =
      Ensures-bind (Holds j k) (refuse_if (not header.is_chunk) _) _ (λ u.
        Ensures-bind (Holds j k) (refuse_if (not (is_id header.call_id call.id)) _) _ (λ w.
          Ensures-bind (Holds j k) (or_refuse (find_file header.attachment_id call.files) _) _
            (λ file.
              Ensures-bind (Holds j k) (add_chunk header body file) _
                (λ next. store-Holds call next peer h))))

  frame-Holds :
      (t : HeaderText) (frame : Bytes) (peer : Peer)
      → Holds j k peer
      → Ensures (Holds j k) (receive_request_attachment_chunk t frame peer)
  unfolding receive_request_attachment_chunk
  frame-Holds t frame peer v = elim (Option-cases peer.incoming_call) [
    | inl missing ↦ rw missing tt
    | inr (call, there) ↦ rw there (
        Ensures-bind (Holds j k) (decode_binary_frame t frame)
          (λ (header, body). receive_chunk call header body peer)
          (λ (header, body).
            chunk-Holds call header body peer
              (subst (λ o. queued j peer.call_queue + incoming j o ≤ k) there v)))
  ]

  dropped-Holds :
      (peer : Peer) (r : Result Peer)
      → Holds j k peer
      → Ensures (Holds j k) r
      → Holds j k (drop_refused peer r).0
  dropped-Holds peer (refused why) v e = omega (arith, v)
  dropped-Holds peer (accepted next) v e = e

  pub message-Holds :
      (t : HeaderText) (frame : Bytes) (peer : Peer)
      → Holds j k peer
      → Holds j k (on_binary_message t frame peer).0
  unfolding on_binary_message
  message-Holds t frame peer v =
      dropped-Holds peer
        (do
          refuse_if (ltb message_max_bytes (length frame)) message_too_large
          receive_request_attachment_chunk t frame peer)
        v
        (Ensures-bind (Holds j k)
          (refuse_if (ltb message_max_bytes (length frame)) message_too_large) _
          (λ u. frame-Holds t frame peer v))

  received-Holds :
      (id : ℕ) (ms : List Metadata) (peer : Peer)
      → held j peer + one j id ≤ k
      → Ensures (Holds j k) (receive_job_call id ms peer)
  unfolding receive_job_call
  received-Holds id [] peer h =
      omega (arith, h, queued-append j peer.call_queue (record { id = id; attachments = [] }))
  received-Holds id (m ∷ ms) peer h =
      elim (Bool-cases (no_repeats (map (λ n. n.id) (m ∷ ms)) && none_too_large (m ∷ ms))) [
        | inl fine ↦ rw fine (omega (arith, h))
        | inr bad ↦ rw bad tt
      ]

  pub call-Holds :
      (id : ℕ) (busy : Bool) (ms : List Metadata) (peer : Peer)
      → held j peer + one j id ≤ k
      → Holds j k (on_call busy id ms peer).0
  unfolding on_call
  call-Holds id busy ms peer h = elim (Bool-cases (is_busy busy peer)) [
    | inl b ↦ rw b (omega (arith, h))
    | inr b ↦ rw b (
        dropped-Holds peer (receive_job_call id ms peer) (omega (arith, h))
          (received-Holds id ms peer h))
  ]
