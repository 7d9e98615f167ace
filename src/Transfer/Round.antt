-- ===== src/Transfer/Round.antt =====
-- app_v1/sdk/master/python/gpstation_master/job_peer.py and app_v1/sdk/slave/worker.py: an attachment that the client
-- cuts into frames comes out of the worker's receiver whole.
use mathlib.Core.List.{append_assoc}
use gpstation.Prelude.{
  ℕ, ◌==◌, zero, suc, ◌+◌, ◌^◌, ◌≤◌, ◌<◌, Bool, true, false, none, some, List, [], ◌∷◌, ◌++◌, ◌≡◌,
  refl, ap, ◌∙◌, inl, inr, arith, ltb, leb, ==_refl, length, take, drop, take-all, take-drop,
  length-take, length-drop, length-append, Bool-cases,
}
use gpstation.Transfer.Frames.{
  Bytes, Header, HeaderText, IsFaithful, Result, accepted, refused, decode_binary_frame, to_bytes,
  decode-prefix,
}
use gpstation.Transfer.Sending.{
  chunk_header, chunk_size, chunk_end, chunks, encode_binary_frame, send_request_attachment,
}
use gpstation.Transfer.Receiving.{
  Metadata, Incoming, new_file, Peer, PendingCall, JobCall, add_chunk, join, attachment_max_bytes,
  on_binary_message, receive_request_attachment_chunk, receive_chunk, store_file, drop_refused,
  message_max_bytes,
}
use gpstation.Transfer.Files.{grown, add_chunk-grown, join-append}

sent-fits :
    (t : HeaderText) (header : Header) (body : Bytes)
    → length (t.print header) < 2 ^ 32
    → encode_binary_frame t header body
      ≡ accepted (to_bytes (length (t.print header)) ++ t.print header ++ body)
unfolding encode_binary_frame
sent-fits t header body short =
    let fits : ltb (length (t.print header)) (2 ^ 32) ≡ true = ground (arith, short) in rw fits refl

goes_on : (n : ℕ) → chunk_size < n → (chunk_size == n) ≡ false
goes_on n h = ground (arith, h)

chunk_end-last : (bytes : Bytes) → length bytes ≤ chunk_size → chunk_end bytes ≡ length bytes
unfolding chunk_end
chunk_end-last bytes h = ground (arith, h)

chunk_end-more : (bytes : Bytes) → chunk_size < length bytes → chunk_end bytes ≡ chunk_size
unfolding chunk_end
chunk_end-more bytes h = ground (arith, h)

-- A frame that cannot be made is not sent.
abbrev pub take_frame : HeaderText → Result Bytes → Peer → Peer
take_frame t (refused why) peer = peer
take_frame t (accepted frame) peer = (on_binary_message t frame peer).0

-- The frames go over the channel one after the other.
unfoldable pub transfer : HeaderText → List (Header × Bytes) → Peer → Peer
transfer t [] peer = peer
transfer t ((header, body) ∷ rest) peer =
    transfer t rest (take_frame t (encode_binary_frame t header body) peer)

-- A receiver that waits for one file.
abbrev pub waiting : ℕ → List JobCall → Incoming → Peer
waiting call queue file = record {
  incoming_call = some (record { id = call; files = file ∷ [] });
  call_queue = queue;
}

abbrev pub with_call : ℕ → List JobCall → Metadata → Bytes → Peer
with_call call queue metadata bytes = record {
  incoming_call = none;
  call_queue =
      queue
      ++ record { id = call; attachments = record { metadata = metadata; bytes = bytes } ∷ [] }
        ∷ [];
}

receive_small :
    (t : HeaderText) (header : Header) (body frame : Bytes) (peer : Peer) (call : PendingCall)
    → peer.incoming_call ≡ some call
    → length frame ≤ message_max_bytes
    → decode_binary_frame t frame ≡ accepted (header, body)
    → on_binary_message t frame peer ≡ drop_refused peer (receive_chunk call header body peer)
unfolding on_binary_message receive_request_attachment_chunk
receive_small t header body frame peer call pending small read =
    let fits : ltb message_max_bytes (length frame) ≡ false = ground (arith, small) in
    rw fits (rw pending (rw read refl))

-- A chunk's frame on its way to the one file that waits for it.
take-chunk :
    (t : HeaderText) (call : ℕ) (final : Bool) (body : Bytes) (queue : List JobCall)
    (file next : Incoming)
    → let header = chunk_header call file.metadata.id file.next_index final in
      IsFaithful t
      → length (t.print header) ≤ 65536
      → length body ≤ chunk_size
      → add_chunk header body file ≡ accepted next
      → take_frame t (encode_binary_frame t header body) (waiting call queue file)
        ≡ store_file (record { id = call; files = file ∷ [] }) next (waiting call queue file)
take-chunk t call final body queue file next v short small added =
    let header = chunk_header call file.metadata.id file.next_index final in
    let text = t.print header in
    let fits : length text < 2 ^ 32 = omega (arith, short) in
    let whole : length (to_bytes (length text) ++ text ++ body) ≤ message_max_bytes =
      omega (arith, short, small, length-append text body) in
    rw (sent-fits t header body fits) (
      ap (λ r. r.0)
        (receive_small t header body _ (waiting call queue file)
          (record { id = call; files = file ∷ [] }) refl whole
          (decode-prefix t header text body (v.round header) (v.nonempty header) fits))
      ∙ rw (==_refl call) (rw (==_refl file.metadata.id) (rw added refl)))

store-last :
    (call : ℕ) (queue : List JobCall) (body : Bytes) (file : Incoming)
    → store_file
        (record { id = call; files = file ∷ [] })
        (grown body true file)
        (waiting call queue file)
      ≡ with_call call queue file.metadata (join file.chunks ++ body)
store-last call queue body file =
    rw (==_refl file.metadata.id)
      (ap (with_call call queue file.metadata) (join-append file.chunks body))

store-more :
    (call : ℕ) (queue : List JobCall) (body : Bytes) (file : Incoming)
    → store_file
        (record { id = call; files = file ∷ [] })
        (grown body false file)
        (waiting call queue file)
      ≡ waiting call queue (grown body false file)
store-more call queue body file = rw (==_refl file.metadata.id) refl

-- Headers of an attachment's chunks are short. (An index is at most the number of bytes before it.)
abbrev pub HasShort : HeaderText → ℕ → ℕ → ℕ → Type 0
HasShort t call id bound =
    (index : ℕ) (final : Bool)
    → index ≤ bound
    → length (t.print (chunk_header call id index final)) ≤ 65536

module _ (t : HeaderText) (v : IsFaithful t) (call : ℕ) (queue : List JobCall) where
  last-whole :
      (body : Bytes) (file : Incoming)
      → length body ≤ chunk_size
      → file.complete ≡ false
      → file.received_size + length body ≡ file.metadata.size
      → file.metadata.size ≤ attachment_max_bytes
      → length (t.print (chunk_header call file.metadata.id file.next_index true)) ≤ 65536
      → transfer t
          ((chunk_header call file.metadata.id file.next_index true, body) ∷ [])
          (waiting call queue file)
        ≡ with_call call queue file.metadata (join file.chunks ++ body)
  unfolding transfer
  last-whole body file small open_file whole fits short =
      take-chunk t call true body queue file (grown body true file) v short small (
        add_chunk-grown call file.metadata.id true body file open_file (omega (arith, whole)) fits
          (λ _. whole))
      ∙ store-last call queue body file

  chunks-whole :
      (fuel : ℕ) (bytes : Bytes) (file : Incoming)
      → length bytes ≤ fuel
      → 0 < length bytes
      → file.complete ≡ false
      → file.received_size + length bytes ≡ file.metadata.size
      → file.metadata.size ≤ attachment_max_bytes
      → HasShort t call file.metadata.id (file.next_index + length bytes)
      → transfer t
          (chunks fuel call file.metadata.id file.next_index bytes)
          (waiting call queue file)
        ≡ with_call call queue file.metadata (join file.chunks ++ bytes)
  unfolding transfer chunks
  chunks-whole zero bytes file enough some_left open_file whole fits short =
      absurd (omega (arith, enough, some_left))
  chunks-whole (suc fuel) bytes file enough some_left open_file whole fits short =
      elim (Bool-cases (leb (length bytes) chunk_size)) [
        | inl last ↦
            let few : length bytes ≤ chunk_size = ground (arith, last) in
            rw (chunk_end-last bytes few, ==_refl (length bytes), chunks)
              (rw (take-all (length bytes) bytes (omega arith)) (
                last-whole bytes file few open_file whole fits
                  (short file.next_index true (omega arith))))
        | inr more ↦
            let many : chunk_size < length bytes = ground (arith, more) in
            let body = take chunk_size bytes in
            let size : length body ≡ chunk_size =
              length-take chunk_size bytes (omega (arith, many)) in
            let left = length-drop chunk_size bytes in
            let rest = drop chunk_size bytes in
            let next = grown body false file in
            let sent =
              take-chunk t call false body queue file next v
                (short file.next_index false (omega arith)) (omega (arith, size))
                (add_chunk-grown call file.metadata.id false body file open_file
                  (omega (arith, whole, size, many)) fits (λ e. cc))
              ∙ store-more call queue body file in
            let text : join next.chunks ++ rest ≡ join file.chunks ++ bytes =
              ap (λ x. x ++ rest) (join-append file.chunks body)
              ∙ append_assoc (join file.chunks) body rest
              ∙ ap (λ x. join file.chunks ++ x) (take-drop chunk_size bytes) in
            let not_last = goes_on (length bytes) many in
            rw (chunk_end-more bytes many, not_last, chunks)
              (ap (transfer t (chunks fuel call file.metadata.id (file.next_index + 1) rest)) sent
                ∙ chunks-whole fuel rest next (omega (arith, left, enough, many))
                    (omega (arith, left, many)) refl (omega (arith, whole, size, left, many)) fits
                    (λ index final h. short index final (omega (arith, h, left, many)))
                ∙ ap (with_call call queue file.metadata) text)
      ]

  -- The frames into which the client cuts an attachment of a call, given in order to the worker's receiver of that
  -- call with this one attachment, of the right size and within the limit, leave the call in the worker's queue with
  -- the bytes that were sent, if no header's text is longer than 64 KiB and parsing a text gives what was printed.
  pub attachment-whole :
      (bytes : Bytes) (metadata : Metadata)
      → length bytes ≡ metadata.size
      → metadata.size ≤ attachment_max_bytes
      → HasShort t call metadata.id (length bytes)
      → transfer t
          (send_request_attachment call metadata.id bytes)
          (waiting call queue (new_file metadata))
        ≡ with_call call queue metadata bytes
  unfolding send_request_attachment
  attachment-whole [] metadata whole fits short =
      last-whole [] (new_file metadata) (omega arith) refl (omega (arith, whole)) fits
        (short 0 true (omega arith))
  attachment-whole (b ∷ bs) metadata whole fits short =
      chunks-whole (length (b ∷ bs)) (b ∷ bs) (new_file metadata) (omega arith) (omega arith) refl
        (omega (arith, whole)) fits (λ index final h. short index final (omega (arith, h)))
