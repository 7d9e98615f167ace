-- ===== src/Transfer/Sending.antt =====
-- app_v1/sdk/master/python/gpstation_master/job_peer.py, with binary.py: `_send_request_attachment`, which cuts an
-- attachment of a call into frames. The waits for the channel's buffer and the tests that it is open are left out.
use gpstation.Prelude.{
  ℕ, zero, suc, ◌+◌, ◌*◌, ◌^◌, Bool, true, not, some, List, [], ◌∷◌, ◌++◌, leb, ltb, ◌==◌,
  if◌then◌else◌, length, take, drop,
}
use gpstation.Transfer.Frames.{
  Bytes, Header, HeaderText, Result, refuse_if, accepted, header_too_long, to_bytes, ◌>>◌,
}

abbrev pub chunk_size : ℕ
chunk_size = 16 * 1024

abbrev pub chunk_header : ℕ → ℕ → ℕ → Bool → Header
chunk_header call_id attachment_id index final = record {
  is_chunk = true;
  call_id = some call_id;
  attachment_id = some attachment_id;
  index = some index;
  final = some final;
}

-- `min(offset + ATTACHMENT_CHUNK_SIZE, len(data))`, of the data from `offset` on.
unfoldable pub chunk_end : Bytes → ℕ
chunk_end bytes = if leb chunk_size (length bytes) then chunk_size else length bytes

-- The loop over `range(0, len(data), ATTACHMENT_CHUNK_SIZE)`, from the chunk `index` on, for data that are not
-- empty. As many rounds as there are bytes are enough.
unfoldable pub chunks : ℕ → ℕ → ℕ → ℕ → Bytes → List (Header × Bytes)
chunks zero call_id attachment_id index bytes = []
chunks (suc fuel) call_id attachment_id index bytes =
    let rest = chunks fuel call_id attachment_id (index + 1) (drop chunk_size bytes) in
    let final = chunk_end bytes == length bytes in
    (chunk_header call_id attachment_id index final, take (chunk_end bytes) bytes)
    ∷ (if final then [] else rest)

-- binary.py. `to_bytes(4, "big")` raises for a header that is too long.
unfoldable pub encode_binary_frame : HeaderText → Header → Bytes → Result Bytes
encode_binary_frame t header body = do
  let text = t.print header
  refuse_if (not (ltb (length text) (2 ^ 32))) header_too_long
  accepted (to_bytes (length text) ++ text ++ body)

-- The frames of an attachment, each a header and a body.
unfoldable pub send_request_attachment : ℕ → ℕ → Bytes → List (Header × Bytes)
send_request_attachment call_id attachment_id [] =
    (chunk_header call_id attachment_id 0 true, []) ∷ []
send_request_attachment call_id attachment_id (b ∷ bs) =
    chunks (length (b ∷ bs)) call_id attachment_id 0 (b ∷ bs)
