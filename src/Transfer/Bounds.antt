-- ===== src/Transfer/Bounds.antt =====
-- app_v1/sdk/slave/worker.py: a file on its way is never larger than its declared size, whatever chunks
-- come in for it.
use gpstation.Prelude.{
  ◌+◌, ◌≤◌, Bool, true, false, ◌&&◌, ◌||◌, not, ◌≡◌, ap, ◌∙◌, arith, ltb, ◌==◌, is_id, length,
  length-append, Bool-cases, Option-cases, inl, inr,
}
use gpstation.Transfer.Frames.{
  Bytes, Header, too_much, size_mismatch, ◌>>◌, accepted, Ensures, refuse_if,
}
use gpstation.Transfer.Receiving.{Incoming, Attachment, add_chunk, join, attachment_max_bytes}
use gpstation.Transfer.Files.{join-append, grown}

pub record IsWithin (f : Incoming) : Type 0 where
  pub counted : length (join f.chunks) ≡ f.received_size
  pub within : f.received_size ≤ f.metadata.size
  pub small : f.metadata.size ≤ attachment_max_bytes
  pub whole : f.complete ≡ true → f.received_size ≡ f.metadata.size

-- The bytes are as many as the metadata say, and not too many.
pub record IsWhole (a : Attachment) : Type 0 where
  pub exact : length a.bytes ≡ a.metadata.size
  pub small : a.metadata.size ≤ attachment_max_bytes

abbrev oversteps : Bytes → Incoming → Bool
oversteps body f =
    ltb f.metadata.size (f.received_size + length body)
    || ltb attachment_max_bytes (f.received_size + length body)

abbrev falls_short : Bool → Bytes → Incoming → Bool
falls_short final body f = final && not (f.received_size + length body == f.metadata.size)

grown-IsWithin :
    (final : Bool) (body : Bytes) (f : Incoming)
    → IsWithin f
    → oversteps body f ≡ false
    → falls_short final body f ≡ false
    → IsWithin (grown body final f)
grown-IsWithin final body f v fits sized = record {
  counted =
      ap length (join-append f.chunks body)
      ∙ length-append (join f.chunks) body
      ∙ ap (λ n. n + length body) v.counted;
  within = ground (arith, fits);
  small = v.small;
  whole = λ e. ground (arith, sized, e);
}

sized-IsWithin :
    (final : Bool) (body : Bytes) (f : Incoming)
    → IsWithin f
    → Ensures IsWithin (
        refuse_if (oversteps body f) too_much
        >> (refuse_if (falls_short final body f) size_mismatch >> accepted (grown body final f)))
sized-IsWithin final body f v = elim (Bool-cases (oversteps body f)) [
  | inl bad ↦ rw bad tt
  | inr fits ↦ rw fits (elim (Bool-cases (falls_short final body f)) [
    | inl bad ↦ rw bad tt
    | inr sized ↦ rw sized (grown-IsWithin final body f v fits sized)
  ])
]

pub add_chunk-IsWithin :
    (header : Header) (body : Bytes) (f : Incoming)
    → IsWithin f
    → Ensures IsWithin (add_chunk header body f)
unfolding add_chunk
add_chunk-IsWithin header body f v = elim (Bool-cases f.complete) [
  | inl closed ↦ rw closed tt
  | inr open_file ↦ rw open_file (elim (Bool-cases (is_id header.index f.next_index)) [
    | inr other ↦ rw other tt
    | inl ordered ↦ rw ordered (elim (Option-cases header.final) [
      | inl missing ↦ rw missing tt
      | inr (final, flag) ↦ rw flag (sized-IsWithin final body f v)
    ])
  ])
]
