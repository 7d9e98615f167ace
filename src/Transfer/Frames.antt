-- ===== src/Transfer/Frames.antt =====
-- app_v1/sdk/slave/channel.py: a binary frame: the length of its header in four bytes, the header as JSON,
-- and the body. A byte is a number below 256.
use gpstation.Prelude.{
  ℕ, suc, ap, ◌+◌, ◌*◌, ◌/◌, ◌%◌, ◌^◌, ◌<◌, Bool, true, false, ◌||◌, not, Option, none, some, List,
  [], ◌∷◌, ◌++◌, ◌≡◌, refl, arith, ltb, ◌==◌, length, take, drop, take-append, drop-append,
  length-append,
}

abbrev pub Bytes : Type 0
Bytes = List ℕ

-- Why a message is not taken.
pub data Refusal : Type 0 where
  too_short bad_length not_json not_an_object : Refusal
  header_too_long message_too_large : Refusal
  worker_busy bad_metadata nothing_pending wrong_kind wrong_call unknown_attachment : Refusal
  already_complete out_of_order bad_final too_much size_mismatch : Refusal

pub data Result (A : Type 0) : Type 0 where
  accepted : A → Result A
  refused : Refusal → Result A

infixl 5 ◌>>=◌ ◌>>◌
abbrev pub ◌>>=◌ : {A B : Type 0} → Result A → (A → Result B) → Result B
accepted a >>= f = f a
refused why >>= f = refused why

abbrev pub ◌>>◌ : {B : Type 0} → Result Unit → Result B → Result B
m >> k = m >>= λ _. k

abbrev pub refuse_if : Bool → Refusal → Result Unit
refuse_if true why = refused why
refuse_if false why = accepted tt

-- What holds of the value, if there is one.
abbrev pub Ensures : {A : Type 0} → (A → Type 0) → Result A → Type 0
Ensures P (accepted a) = P a
Ensures P (refused why) = Unit

-- A header as the receiver reads it: a field that is missing or of another type is `none`.
pub record Header : Type 0 where
  pub is_chunk : Bool
  pub call_id : Option ℕ
  pub attachment_id : Option ℕ
  pub index : Option ℕ
  pub final : Option Bool

-- The JSON text of a header: `parse` is `none` if `json.loads` raises, `some none` if it gives no object.
pub record HeaderText : Type 0 where
  pub print : Header → Bytes
  pub parse : Bytes → Option (Option Header)

-- json.loads reads what json.dumps writes, and the text of an object is not empty.
pub record IsFaithful (t : HeaderText) : Type 0 where
  pub round : (h : Header) → t.parse (t.print h) ≡ some (some h)
  pub nonempty : (h : Header) → 0 < length (t.print h)

-- `n.to_bytes(4, "big")`, for a number that fits.
abbrev pub to_bytes : ℕ → Bytes
to_bytes n = n / 2 ^ 24 % 256 ∷ n / 2 ^ 16 % 256 ∷ n / 2 ^ 8 % 256 ∷ n % 256 ∷ []

abbrev pub from_digits : ℕ → Bytes → ℕ
from_digits n [] = n
from_digits n (b ∷ bs) = from_digits (n * 256 + b) bs

-- `int.from_bytes(bs, "big")`
abbrev pub from_bytes : Bytes → ℕ
from_bytes bs = from_digits 0 bs

unfoldable pub encode_binary_frame : HeaderText → Header → Bytes → Result Bytes
encode_binary_frame t header body = do
  let text = t.print header
  refuse_if (not (ltb (length text) (2 ^ 32))) header_too_long
  accepted (to_bytes (length text) ++ text ++ body)

abbrev pub as_object : Option (Option Header) → Result Header
as_object none = refused not_json
as_object (some none) = refused not_an_object
as_object (some (some header)) = accepted header

unfoldable pub decode_binary_frame : HeaderText → Bytes → Result (Header × Bytes)
decode_binary_frame t frame = do
  refuse_if (ltb (length frame) 4) too_short
  let n = from_bytes (take 4 frame)
  refuse_if ((n == 0) || ltb (length frame) (4 + n)) bad_length
  header ← as_object (t.parse (take n (drop 4 frame)))
  accepted (header, drop (4 + n) frame)

pub from-to_bytes : (n : ℕ) → n < 2 ^ 32 → from_bytes (to_bytes n) ≡ n
from-to_bytes n h = omega (arith, h)

drop-prefix : (n m : ℕ) (rest : Bytes) → drop (4 + n) (to_bytes m ++ rest) ≡ drop n rest
drop-prefix n m rest =
    let same : 4 + n ≡ suc (suc (suc (suc n))) = omega arith in
    ap (λ k. drop k (to_bytes m ++ rest)) same

pub decode-prefix :
    (t : HeaderText) (header : Header) (text body : Bytes)
    → t.parse text ≡ some (some header)
    → 0 < length text
    → length text < 2 ^ 32
    → decode_binary_frame t (to_bytes (length text) ++ text ++ body) ≡ accepted (header, body)
unfolding decode_binary_frame
decode-prefix t header text body read some_text short =
    let frame = to_bytes (length text) ++ text ++ body in
    let long : ltb (length frame) 4 ≡ false = ground arith in
    let size = from-to_bytes (length text) short in
    let whole : (length text == 0) || ltb (length frame) (4 + length text) ≡ false =
      ground (arith, some_text, length-append text body) in
    rw long (
      rw size (
        rw whole (
          rw (drop-prefix (length text) (length text) (text ++ body))
            (rw (take-append text body) (rw (drop-append text body) (rw read refl))))))

pub encode-fits :
    (t : HeaderText) (header : Header) (body : Bytes)
    → length (t.print header) < 2 ^ 32
    → encode_binary_frame t header body
      ≡ accepted (to_bytes (length (t.print header)) ++ t.print header ++ body)
unfolding encode_binary_frame
encode-fits t header body short =
    let fits : ltb (length (t.print header)) (2 ^ 32) ≡ true = ground (arith, short) in rw fits refl

-- A frame is read as the header and the body that it was made of, if the header's length fits.
pub decode-encode :
    (t : HeaderText) (header : Header) (body : Bytes)
    → IsFaithful t
    → length (t.print header) < 2 ^ 32
    → (encode_binary_frame t header body >>= decode_binary_frame t) ≡ accepted (header, body)
decode-encode t header body v short =
    rw (encode-fits t header body short)
      (decode-prefix t header (t.print header) body (v.round header) (v.nonempty header) short)
