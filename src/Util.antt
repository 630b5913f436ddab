-- ===== src/Util.antt =====
-- util/util.go: the patterns for hexadecimal strings.
mod Examples
pub mod Decoding
use eris_db.Base.{ℕ, Bytes, Bool, ◌&&◌, ◌||◌, leb, ◌==◌, length, all_pass}

-- The class `[0-9a-fA-F]`.
unfoldable pub is_hex_digit : ℕ → Bool
is_hex_digit c =
    (leb b'0' c && leb c b'9') || (leb b'a' c && leb c b'f') || (leb b'A' c && leb c b'F')

unfoldable pub is_hex : Bytes → Bool
unfolding is_hex_digit
is_hex str = all_pass is_hex_digit str

-- The pattern of exactly `n` digits.
unfoldable pub has_digits : ℕ → Bytes → Bool
has_digits n str = (length str == n) && is_hex str

unfoldable pub is_hash : Bytes → Bool
is_hash = has_digits 64

unfoldable pub is_address : Bytes → Bool
is_address = has_digits 40

unfoldable pub is_pub_key : Bytes → Bool
is_pub_key = has_digits 64

unfoldable pub is_priv_key : Bytes → Bool
is_priv_key = has_digits 128
