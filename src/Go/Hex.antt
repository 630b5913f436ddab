-- ===== src/Go/Hex.antt =====
-- `hex.DecodeString` and `hex.EncodeToString`.
use eris_db.Base.{
  ℕ, ◌+◌, ◌-◌, ◌*◌, ◌/◌, ◌%◌, ◌<◌, ◌≡◌, refl, ◌&&◌, Option, none, some, [], ◌∷◌, arith, ltb, leb,
  if◌then◌else◌, Bytes, str, Result, ok, err, Error, ◌>>=◌, All,
}

-- The value of a hexadecimal digit.
unfoldable pub from_hex_char : ℕ → Option ℕ
from_hex_char c =
    if leb b'0' c && leb c b'9'
    then some (c - b'0')
    else if leb b'a' c && leb c b'f'
    then some (c - b'a' + 10)
    else if leb b'A' c && leb c b'F'
    then some (c - b'A' + 10)
    else none

abbrev pub join_digits : Option ℕ → Option ℕ → Result ℕ
join_digits (some hi) (some lo) = ok (hi * 16 + lo)
join_digits _ _ = err Error.invalid_byte

unfoldable pub decode : Bytes → Result Bytes
decode [] = ok []
decode (c ∷ []) = err Error.odd_length
decode (c ∷ d ∷ s) = do
  b ← join_digits (from_hex_char c) (from_hex_char d)
  rest ← decode s
  ok (b ∷ rest)

unfoldable pub hex_char : ℕ → ℕ
hex_char n = if ltb n 10 then b'0' + n else b'a' + (n - 10)

unfoldable pub encode : Bytes → Bytes
encode [] = []
encode (b ∷ s) = hex_char (b / 16) ∷ hex_char (b % 16) ∷ encode s

from_hex_char-hex_char : (n : ℕ) → n < 16 → from_hex_char (hex_char n) ≡ some n
unfolding from_hex_char hex_char
from_hex_char-hex_char n h = ground arith

abbrev pub IsByte : ℕ → Type 0
IsByte b = b < 256

pub decode-encode : (s : Bytes) → All IsByte s → decode (encode s) ≡ ok s
unfolding encode decode
decode-encode [] h = refl
decode-encode (b ∷ s) h =
    ground
      (arith, from_hex_char-hex_char (b / 16), from_hex_char-hex_char (b % 16), decode-encode s h.1)

decode_test : decode (str "0fA9") ≡ ok (15 ∷ 169 ∷ [])
unfolding decode from_hex_char
decode_test = refl
