-- ===== src/Transfer/Safety.antt =====
-- app_v1/sdk/slave/worker.py: what a receiver keeps, whatever frames come in: a file is never larger than
-- its declared size, and a call that is passed on has every attachment in full.
use mathlib.Core.Path.{subst}
use gpstation.Prelude.{
  ℕ, Bool, true, ◌&&◌, Option, none, some, List, [], ◌∷◌, ◌≡◌, refl, ◌∙◌, arith, ltb, ◌==◌, is_id,
  length, drop, map, All, All-append, Bool-cases, Option-cases, inl, inr,
}
use gpstation.Transfer.Frames.{
  Bytes, Header, HeaderText, Result, accepted, refused, ◌>>=◌, Ensures, decode_binary_frame,
}
use gpstation.Transfer.Receiving.{
  message_max_bytes, Metadata, Incoming, JobCall, PendingCall, Peer, new_file, receive_job_call,
  no_repeats, none_too_large, find_file, set_file, add_chunk, all_complete, as_attachment,
  store_file, receive_chunk, receive_request_attachment_chunk, drop_refused, on_binary_message,
  on_call, take_call, is_busy,
}
use gpstation.Transfer.Bounds.{IsWithin, IsWhole, add_chunk-IsWithin}

abbrev pub PendingWithin : Option PendingCall → Type 0
PendingWithin none = Unit
PendingWithin (some call) = All IsWithin call.files

abbrev pub HasWhole : JobCall → Type 0
HasWhole call = All IsWhole call.attachments

pub record IsSafe (peer : Peer) : Type 0 where
  pub pending : PendingWithin peer.incoming_call
  pub queued : All HasWhole peer.call_queue

find_file-IsWithin :
    (id : Option ℕ) (fs : List Incoming) {f : Incoming}
    → All IsWithin fs
    → find_file id fs ≡ some f
    → IsWithin f
find_file-IsWithin id [] a e = cc
find_file-IsWithin id (g ∷ gs) {f} a e = elim (Bool-cases (is_id id g.metadata.id)) [
  | inl hit ↦ let same : f ≡ g = ground (arith, e, hit) in rw same (a.0)
  | inr miss ↦ find_file-IsWithin id gs a.1 (ground (arith, e, miss))
]

set_file-All :
    (f : Incoming) (gs : List Incoming)
    → All IsWithin gs
    → IsWithin f
    → All IsWithin (set_file f gs)
set_file-All f [] a v = tt
set_file-All f (g ∷ gs) a v = elim (Bool-cases (g.metadata.id == f.metadata.id)) [
  | inl hit ↦ rw hit (v, set_file-All f gs a.1 v)
  | inr miss ↦ rw miss (a.0, set_file-All f gs a.1 v)
]

complete-IsWhole :
    (fs : List Incoming)
    → All IsWithin fs
    → all_complete fs ≡ true
    → All IsWhole (map as_attachment fs)
complete-IsWhole [] a e = tt
complete-IsWhole (f ∷ fs) a e = (
  record { exact = a.0.counted ∙ a.0.whole (ground (arith, e)); small = a.0.small },
  complete-IsWhole fs a.1 (ground (arith, e)),
)

store-IsSafe :
    (call : PendingCall) (f : Incoming) (peer : Peer)
    → All IsWithin call.files
    → IsWithin f
    → IsSafe peer
    → IsSafe (store_file call f peer)
store-IsSafe call f peer a v s = elim (Bool-cases (all_complete (set_file f call.files))) [
  | inl done ↦ rw done (record {
    pending = tt;
    queued =
        All-append HasWhole peer.call_queue _ s.queued
          (complete-IsWhole (set_file f call.files) (set_file-All f call.files a v) done, tt);
  })
  | inr open_call ↦
      rw open_call (record { pending = set_file-All f call.files a v; queued = s.queued })
]

added-IsSafe :
    (call : PendingCall) (peer : Peer) (r : Result Incoming)
    → All IsWithin call.files
    → Ensures IsWithin r
    → IsSafe peer
    → Ensures IsSafe (r >>= (λ f. accepted (store_file call f peer)))
added-IsSafe call peer (refused why) a v s = tt
added-IsSafe call peer (accepted f) a v s = store-IsSafe call f peer a v s

chunk-IsSafe :
    (call : PendingCall) (header : Header) (body : Bytes) (peer : Peer)
    → All IsWithin call.files
    → IsSafe peer
    → Ensures IsSafe (receive_chunk call header body peer)
unfolding add_chunk
chunk-IsSafe call header body peer a s = elim (Bool-cases header.is_chunk) [
  | inr other ↦ rw other tt
  | inl chunk ↦ rw chunk (elim (Bool-cases (is_id header.call_id call.id)) [
    | inr other ↦ rw other tt
    | inl mine ↦ rw mine (elim (Option-cases (find_file header.attachment_id call.files)) [
      | inl missing ↦ rw missing tt
      | inr (f, found) ↦ rw found (
          added-IsSafe call peer (add_chunk header body f) a
            (add_chunk-IsWithin header body f
              (find_file-IsWithin header.attachment_id call.files a found))
            s)
    ])
  ])
]

decoded-IsSafe :
    (call : PendingCall) (peer : Peer) (r : Result (Header × Bytes))
    → All IsWithin call.files
    → IsSafe peer
    → Ensures IsSafe (r >>= (λ (header, body). receive_chunk call header body peer))
decoded-IsSafe call peer (refused why) a s = tt
decoded-IsSafe call peer (accepted (header, body)) a s = chunk-IsSafe call header body peer a s

frame-IsSafe :
    (t : HeaderText) (frame : Bytes) (peer : Peer)
    → IsSafe peer
    → Ensures IsSafe (receive_request_attachment_chunk t frame peer)
unfolding receive_request_attachment_chunk
frame-IsSafe t frame peer s = elim (Option-cases peer.incoming_call) [
  | inl missing ↦ rw missing tt
  | inr (call, pending) ↦ rw pending (
      decoded-IsSafe call peer (decode_binary_frame t frame) (subst PendingWithin pending s.pending)
        s)
]

dropped-IsSafe :
    (peer : Peer) (r : Result Peer)
    → IsSafe peer
    → Ensures IsSafe r
    → IsSafe (drop_refused peer r).0
dropped-IsSafe peer (refused why) s v = record { pending = tt; queued = s.queued }
dropped-IsSafe peer (accepted next) s v = v

pub message-IsSafe :
    (t : HeaderText) (frame : Bytes) (peer : Peer)
    → IsSafe peer
    → IsSafe (on_binary_message t frame peer).0
unfolding on_binary_message
message-IsSafe t frame peer s = elim (Bool-cases (ltb message_max_bytes (length frame))) [
  | inl large ↦ rw large (record { pending = tt; queued = s.queued })
  | inr small ↦ rw small (
      dropped-IsSafe peer (receive_request_attachment_chunk t frame peer) s
        (frame-IsSafe t frame peer s))
]

new_files-IsWithin :
    (ms : List Metadata) → none_too_large ms ≡ true → All IsWithin (map new_file ms)
new_files-IsWithin [] e = tt
new_files-IsWithin (m ∷ ms) e = (
  record { counted = refl; within = omega arith; small = ground (arith, e); whole = λ h. cc },
  new_files-IsWithin ms (ground (arith, e)),
)

-- A call whose metadata are taken leaves the receiver safe.
pub call-IsSafe :
    (id : ℕ) (ms : List Metadata) (peer : Peer)
    → IsSafe peer
    → Ensures IsSafe (receive_job_call id ms peer)
unfolding receive_job_call
call-IsSafe id [] peer s = record {
  pending = s.pending;
  queued = All-append HasWhole peer.call_queue _ s.queued (tt, tt);
}
call-IsSafe id (m ∷ ms) peer s =
    elim (Bool-cases (no_repeats (map (λ n. n.id) (m ∷ ms)) && none_too_large (m ∷ ms))) [
      | inl fine ↦ rw fine (record {
        pending = new_files-IsWithin (m ∷ ms) (ground (arith, fine));
        queued = s.queued;
      })
      | inr bad ↦ rw bad tt
    ]

-- What comes in on the channel, and the session that works on the calls.
pub data Message : Type 0 where
  calls : Bool → ℕ → List Metadata → Message
  frames : Bytes → Message
  takes : Message

unfoldable pub handle : HeaderText → Message → Peer → Peer
handle t (calls call_in_progress id ms) peer = (on_call call_in_progress id ms peer).0
handle t (frames bytes) peer = (on_binary_message t bytes peer).0
handle t takes peer = take_call peer

unfoldable pub handle_all : HeaderText → List Message → Peer → Peer
handle_all t [] peer = peer
handle_all t (m ∷ ms) peer = handle_all t ms (handle t m peer)

drop-All : (cs : List JobCall) → All HasWhole cs → All HasWhole (drop 1 cs)
drop-All [] a = tt
drop-All (c ∷ cs) a = a.1

handle-IsSafe :
    (t : HeaderText) (m : Message) (peer : Peer) → IsSafe peer → IsSafe (handle t m peer)
unfolding handle on_call take_call
handle-IsSafe t (frames bytes) peer s = message-IsSafe t bytes peer s
handle-IsSafe t takes peer s = record {
  pending = s.pending;
  queued = drop-All peer.call_queue s.queued;
}
handle-IsSafe t (calls call_in_progress id ms) peer s =
    elim (Bool-cases (is_busy call_in_progress peer)) [
      | inl busy ↦ rw (busy, handle) s
      | inr free ↦
          rw (free, handle)
            (dropped-IsSafe peer (receive_job_call id ms peer) s (call-IsSafe id ms peer s))
    ]

-- Whatever calls and binary messages come in, and whenever the session takes a call, a file of the pending call is never larger than its declared
-- size nor than the limit, and a call that is passed on has each attachment with as many bytes as declared.
pub all-IsSafe :
    (t : HeaderText) (ms : List Message) (peer : Peer) → IsSafe peer → IsSafe (handle_all t ms peer)
unfolding handle_all
all-IsSafe t [] peer s = s
all-IsSafe t (m ∷ ms) peer s = all-IsSafe t ms (handle t m peer) (handle-IsSafe t m peer s)
