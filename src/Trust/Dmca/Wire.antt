-- ===== src/Trust/Dmca/Wire.antt =====
-- infomesh/trust/dmca.py: the form in which a notice is sent, and the key of its record in the DHT.
use infomesh.Prelude.{
  ℕ, ◌+◌, ◌-◌, ◌*◌, ◌/◌, ◌%◌, ◌<◌, ◌≡◌, refl, ap, Bool, false, ◌&&◌, ◌||◌, Option, none, some, [],
  ◌∷◌, ◌++◌, arith, leb, if◌then◌else◌, nat_eq, Text, bytes, text_eq, All,
}
use infomesh.Prelude.Dict.{Dict, lookup}
use infomesh.Prelude.Result.Partial.{◌>>=◌}
use infomesh.Prelude.Hash.{Sha256, hexdigest, hex, hex_digit}
use infomesh.Trust.Dmca.{TakedownNotice}

-- The values of the dict that is sent.
pub data WireValue : Type 0 where
  text_value : Text → WireValue
  float_value : ℕ → WireValue

pub serialize_notice : TakedownNotice → Dict Text WireValue
serialize_notice n =
    (bytes "notice_id", text_value n.notice_id)
    ∷ (bytes "url", text_value n.url)
    ∷ (bytes "requester_id", text_value n.requester_id)
    ∷ (bytes "reason", text_value n.reason)
    ∷ (bytes "signature", text_value (hex n.signature))
    ∷ (bytes "created_at", float_value n.created_at)
    ∷ (bytes "deadline", float_value n.deadline)
    ∷ (bytes "contact_info", text_value n.contact_info)
    ∷ []

-- the value of a hexadecimal digit, in either case
pub hex_value : ℕ → Option ℕ
hex_value c =
    if leb b'0' c && leb c b'9'
    then some (c - b'0')
    else if leb b'a' c && leb c b'f'
    then some (c - b'a' + 10)
    else if leb b'A' c && leb c b'F'
    then some (c - b'A' + 10)
    else none

-- the ASCII white space that `bytes.fromhex` skips between bytes
abbrev pub is_space : ℕ → Bool
is_space c = nat_eq.same c 32 || leb 9 c && leb c 13

-- `bytes.fromhex`, which raises ValueError on other characters and on half a byte
pub from_hex : Text → Option Text
from_hex [] = some []
from_hex (c ∷ []) = if is_space c then some [] else none
from_hex (c ∷ d ∷ cs) =
    let skipped = from_hex (d ∷ cs) in
    let rest = from_hex cs in
    if is_space c
    then skipped
    else hex_value c >>= λ high. hex_value d >>= λ low. rest >>= λ bs. some ((high * 16 + low) ∷ bs)

-- `data[key]`, which raises KeyError. A value of the other type, which the code lets through, counts
-- as missing.
abbrev pub text_at : Text → Dict Text WireValue → Option Text
text_at key data_ = elim (lookup key data_) [
  | none ↦ none
  | some (text_value t) ↦ some t
  | some (float_value x) ↦ none
]

abbrev pub float_at : Text → Dict Text WireValue → Option ℕ
float_at key data_ = elim (lookup key data_) [
  | none ↦ none
  | some (text_value t) ↦ none
  | some (float_value x) ↦ some x
]

-- `data.get("contact_info", "")`
abbrev pub contact_in : Dict Text WireValue → Text
contact_in data_ = elim (text_at (bytes "contact_info") data_) [ none ↦ [] | some t ↦ t ]

pub deserialize_notice : Dict Text WireValue → Option TakedownNotice
deserialize_notice data_ = do
  notice_id ← text_at (bytes "notice_id") data_
  url ← text_at (bytes "url") data_
  requester_id ← text_at (bytes "requester_id") data_
  reason ← text_at (bytes "reason") data_
  digits ← text_at (bytes "signature") data_
  signature ← from_hex digits
  created_at ← float_at (bytes "created_at") data_
  deadline ← float_at (bytes "deadline") data_
  some (record {
    notice_id = notice_id;
    url = url;
    requester_id = requester_id;
    reason = reason;
    signature = signature;
    created_at = created_at;
    deadline = deadline;
    contact_info = contact_in data_;
  })

pub takedown_dht_key : ⦃h : Sha256⦄ → Text → Text
takedown_dht_key url = bytes "/infomesh/takedown/" ++ hexdigest url

hex_value-hex_digit : (d : ℕ) → d < 16 → hex_value (hex_digit d) ≡ some d
unfolding hex_value hex_digit
hex_value-hex_digit d h = ground arith

hex_digit_not_space : (d : ℕ) → d < 16 → is_space (hex_digit d) ≡ false
unfolding hex_digit
hex_digit_not_space d h = ground arith

from_hex-hex : (bs : Text) → All (λ b. b < 256) bs → from_hex (hex bs) ≡ some bs
unfolding from_hex hex
from_hex-hex [] h = refl
from_hex-hex (b ∷ bs) h =
    rw
      (
        hex_digit_not_space (b / 16) (omega arith),
        hex_value-hex_digit (b / 16) (omega arith),
        hex_value-hex_digit (b % 16) (omega arith),
        from_hex-hex bs h.1,
      )
      (ap (λ x. some (x ∷ bs)) (omega arith))

-- A notice that is sent is read back as it was.
pub deserialize_notice-serialize_notice :
    (n : TakedownNotice)
    → All (λ b. b < 256) n.signature
    → deserialize_notice (serialize_notice n) ≡ some n
unfolding deserialize_notice serialize_notice lookup
deserialize_notice-serialize_notice n h = rw (from_hex-hex n.signature h) refl
