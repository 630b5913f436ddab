-- ===== src/Go/Strconv.antt =====
-- `strconv.ParseInt(s, 10, 64)`; `int` has 64 bits, so `ParseInt(s, 10, 0)` and `Atoi` are the same.
pub mod Decimal
use eris_db.Base.{
  ℕ, ◌+◌, ◌-◌, ◌*◌, ◌^◌, ◌≤◌, ◌<◌, ◌≡◌, refl, ◌&&◌, [], ◌∷◌, arith, ltb, leb, ◌==◌, if◌then◌else◌,
  Bytes, str, Result, ok, err, panic, Error, ◌>>=◌,
}
use eris_db.Base.Int.{ℤ, pos, negsuc, IsInt64}

-- `ParseUint(s, 10, 64)` from the accumulator `n`.
scan : Bytes → ℕ → Result ℕ
scan [] n = ok n
scan (c ∷ s) n =
    if leb b'0' c && leb c b'9'
    then if ltb (n * 10 + (c - b'0')) (2 ^ 64)
      then scan s (n * 10 + (c - b'0'))
      else err Error.out_of_range
    else err Error.invalid_syntax

parse_uint : Bytes → Result ℕ
unfolding scan
parse_uint [] = err Error.invalid_syntax
parse_uint (c ∷ s) = scan (c ∷ s) 0

abbrev positive : ℕ → Result ℤ
positive n = if ltb n (2 ^ 63) then ok (pos n) else err Error.out_of_range

abbrev negative : ℕ → Result ℤ
negative n =
    if n == 0
    then ok (pos 0)
    else if leb n (2 ^ 63)
    then ok (negsuc (n - 1))
    else err Error.out_of_range

unfoldable pub parse_int : Bytes → Result ℤ
unfolding parse_uint
parse_int [] = err Error.invalid_syntax
parse_int (c ∷ s) =
    if c == b'-'
    then (do n ← parse_uint s; negative n)
    else if c == b'+'
    then (do n ← parse_uint s; positive n)
    else (do n ← parse_uint (c ∷ s); positive n)

positive-IsInt64 : (r : Result ℕ) (z : ℤ) → (r >>= positive) ≡ ok z → IsInt64 z
positive-IsInt64 (ok n) z h = ground arith
positive-IsInt64 (err e) z h = ground arith
positive-IsInt64 panic z h = ground arith

negative-IsInt64 : (r : Result ℕ) (z : ℤ) → (r >>= negative) ≡ ok z → IsInt64 z
negative-IsInt64 (ok n) z h = ground arith
negative-IsInt64 (err e) z h = ground arith
negative-IsInt64 panic z h = ground arith

-- A parsed number is an int64.
pub parse_int-IsInt64 : (s : Bytes) (z : ℤ) → parse_int s ≡ ok z → IsInt64 z
unfolding parse_int
parse_int-IsInt64 [] z h = cc
parse_int-IsInt64 (c ∷ s) z h = ground (
  arith,
  positive-IsInt64 (parse_uint s) z,
  negative-IsInt64 (parse_uint s) z,
  positive-IsInt64 (parse_uint (c ∷ s)) z,
)

scan-ne-panic : (s : Bytes) (n : ℕ) → ¬ (scan s n ≡ panic)
unfolding scan
scan-ne-panic [] n h = cc
scan-ne-panic (c ∷ s) n h = ground (arith, scan-ne-panic s (n * 10 + (c - b'0')))

parse_uint-ne-panic : (s : Bytes) → ¬ (parse_uint s ≡ panic)
unfolding parse_uint
parse_uint-ne-panic [] h = cc
parse_uint-ne-panic (c ∷ s) h = scan-ne-panic (c ∷ s) 0 h

limits :
    (parse_int (str "-9223372036854775808") ≡ ok (negsuc (2 ^ 63 - 1)))
    × (parse_int (str "9223372036854775808") ≡ err Error.out_of_range)
    × (parse_int (str "+07") ≡ ok (pos 7))
    × (parse_int (str "1x") ≡ err Error.invalid_syntax)
    × (parse_int (str "-") ≡ err Error.invalid_syntax)
unfolding parse_int
limits = (refl, refl, refl, refl, refl)

pub parse_int-ne-panic : (s : Bytes) → ¬ (parse_int s ≡ panic)
unfolding parse_int
parse_int-ne-panic [] h = cc
parse_int-ne-panic (c ∷ s) h = ground (arith, parse_uint-ne-panic s, parse_uint-ne-panic (c ∷ s))
