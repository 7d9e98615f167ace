-- ===== src/Transfer/Examples.antt =====
-- app_v1/sdk/slave: the theorems about the transfer of attachments, with a small text for headers.
use gpstation.Prelude.{
  ℕ, zero, suc, Bool, true, false, Option, none, some, List, [], ◌∷◌, ◌≡◌, refl, ap, arith,
}
use gpstation.Transfer.Frames.{
  Bytes, Header, HeaderText, IsFaithful, accepted, encode_binary_frame, decode_binary_frame,
  decode-encode, ◌>>=◌,
}
use gpstation.Transfer.Sending.{send_request_attachment}
use gpstation.Transfer.Receiving.{
  Metadata, Peer, new_file, on_call, on_binary_message, receive_request_attachment_chunk,
  receive_job_call, add_chunk,
}
use gpstation.Transfer.Round.{transfer, waiting, with_call, attachment-whole}
use gpstation.Transfer.Safety.{
  Message, calls, frames, takes, handle, handle_all, IsSafe, all-IsSafe,
}

-- A text of five numbers: the fields of the header, 0 for one that is missing.
abbrev of_option : Option ℕ → ℕ
of_option none = 0
of_option (some n) = suc n

abbrev to_option : ℕ → Option ℕ
to_option zero = none
to_option (suc n) = some n

abbrev of_bool : Bool → ℕ
of_bool false = 0
of_bool true = 1

abbrev of_flag : Option Bool → ℕ
of_flag none = 0
of_flag (some b) = suc (of_bool b)

abbrev to_bool : ℕ → Bool
to_bool zero = false
to_bool (suc n) = true

abbrev to_flag : ℕ → Option Bool
to_flag zero = none
to_flag (suc n) = some (to_bool n)

abbrev print : Header → Bytes
print h =
    of_bool h.is_chunk
    ∷ of_option h.call_id
    ∷ of_option h.attachment_id
    ∷ of_option h.index
    ∷ of_flag h.final
    ∷ []

abbrev parse : Bytes → Option (Option Header)
parse (a ∷ b ∷ c ∷ d ∷ e ∷ []) = some (
    some (record {
      is_chunk = to_bool a;
      call_id = to_option b;
      attachment_id = to_option c;
      index = to_option d;
      final = to_flag e;
    }))
parse _ = none

abbrev text : HeaderText
text = record { print = print; parse = parse }

to-of_bool : (b : Bool) → to_bool (of_bool b) ≡ b
to-of_bool false = refl
to-of_bool true = refl

to-of_option : (o : Option ℕ) → to_option (of_option o) ≡ o
to-of_option none = refl
to-of_option (some n) = refl

to-of_flag : (o : Option Bool) → to_flag (of_flag o) ≡ o
to-of_flag none = refl
to-of_flag (some b) = ap some (to-of_bool b)

text-IsFaithful : IsFaithful text
text-IsFaithful = record {
  round = λ h. rw (to-of_bool h.is_chunk) (
      rw (to-of_option h.call_id) (
        rw (to-of_option h.attachment_id)
          (rw (to-of_option h.index) (rw (to-of_flag h.final) refl))));
  nonempty = λ h. omega arith;
}

abbrev sample : Header
sample = record {
  is_chunk = true;
  call_id = some 3;
  attachment_id = some 8;
  index = some 0;
  final = some true;
}

decode-encode_example :
    (encode_binary_frame text sample (1 ∷ 2 ∷ []) >>= decode_binary_frame text)
    ≡ accepted (sample, 1 ∷ 2 ∷ [])
decode-encode_example = decode-encode text sample (1 ∷ 2 ∷ []) text-IsFaithful (omega arith)

abbrev photo : Metadata
photo = record { id = 8; name = some "a.png"; mime_type = none; size = 3 }

attachment-whole_example :
    transfer text (send_request_attachment 3 8 (1 ∷ 2 ∷ 3 ∷ [])) (waiting 3 [] (new_file photo))
    ≡ with_call 3 [] photo (1 ∷ 2 ∷ 3 ∷ [])
attachment-whole_example =
    attachment-whole text text-IsFaithful 3 [] (1 ∷ 2 ∷ 3 ∷ []) photo refl (omega arith)
      (λ index final h. omega arith)

abbrev new_peer : Peer
new_peer = record { incoming_call = none; call_queue = [] }

abbrev traffic : List Message
traffic =
    calls false 3 (photo ∷ [])
    ∷ frames (0 ∷ 0 ∷ 0 ∷ 5 ∷ 1 ∷ 4 ∷ 9 ∷ 1 ∷ 2 ∷ 1 ∷ 2 ∷ 3 ∷ [])
    ∷ calls false 4 []
    ∷ takes
    ∷ []

all-IsSafe_example : IsSafe (handle_all text traffic new_peer)
all-IsSafe_example = all-IsSafe text traffic new_peer (record { pending = tt; queued = tt })

passed_on :
    handle_all text
      (calls false 3 (photo ∷ [])
        ∷ frames (0 ∷ 0 ∷ 0 ∷ 5 ∷ 1 ∷ 4 ∷ 9 ∷ 1 ∷ 2 ∷ 1 ∷ 2 ∷ 3 ∷ [])
        ∷ [])
      new_peer
    ≡ with_call 3 [] photo (1 ∷ 2 ∷ 3 ∷ [])
unfolding handle_all handle on_call on_binary_message receive_request_attachment_chunk
    receive_job_call decode_binary_frame add_chunk
passed_on = refl
