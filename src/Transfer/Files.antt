-- ===== src/Transfer/Files.antt =====
-- app_v1/sdk/slave/worker.py: what a chunk that fits does to its file.
use mathlib.Core.List.{append_assoc, append-nil}
use gpstation.Prelude.{
  ℕ, ◌+◌, ◌≤◌, Bool, true, false, ◌&&◌, not, List, [], ◌∷◌, ◌++◌, ◌≡◌, refl, sym, ap, ◌∙◌, arith,
  ltb, ◌==◌, ==_refl, length,
}
use gpstation.Transfer.Frames.{Bytes, accepted}
use gpstation.Transfer.Sending.{chunk_header}
use gpstation.Transfer.Receiving.{Incoming, add_chunk, join, attachment_max_bytes}

-- The file with one more chunk.
abbrev pub grown : Bytes → Bool → Incoming → Incoming
grown body final file = record file {
  chunks = file.chunks ++ body ∷ [];
  received_size = file.received_size + length body;
  next_index = file.next_index + 1;
  complete = final;
}

pub add_chunk-grown :
    (call id : ℕ) (final : Bool) (body : Bytes) (file : Incoming)
    → file.complete ≡ false
    → file.received_size + length body ≤ file.metadata.size
    → file.metadata.size ≤ attachment_max_bytes
    → (final ≡ true → file.received_size + length body ≡ file.metadata.size)
    → add_chunk (chunk_header call id file.next_index final) body file
      ≡ accepted (grown body final file)
unfolding add_chunk
add_chunk-grown call id final body file open_file fits small whole =
    let within : ltb file.metadata.size (file.received_size + length body) ≡ false =
      ground (arith, fits) in
    let allowed : ltb attachment_max_bytes (file.received_size + length body) ≡ false =
      ground (arith, fits, small) in
    let sized : final && not (file.received_size + length body == file.metadata.size) ≡ false =
      ground (arith, whole) in
    rw open_file (rw (==_refl file.next_index) (rw within (rw allowed (rw sized refl))))

pub join-append : (cs : List Bytes) (c : Bytes) → join (cs ++ c ∷ []) ≡ join cs ++ c
join-append [] c = append-nil c
join-append (d ∷ ds) c = ap (λ x. d ++ x) (join-append ds c) ∙ sym (append_assoc d (join ds) c)
