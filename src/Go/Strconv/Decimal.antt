-- ===== src/Go/Strconv/Decimal.antt =====
-- Decimal notation, and that `ParseInt` reads it back.
use eris_db.Base.{
  ℕ, zero, suc, ◌+◌, ◌-◌, ◌*◌, ◌/◌, ◌%◌, ◌^◌, ◌≤◌, ◌<◌, ◌≡◌, refl, [], ◌∷◌, ◌++◌, arith, ltb,
  if◌then◌else◌, Bytes, str, ok, ◌>>=◌, ◌∙◌, ap, false, bytes_eq, Bool-cases, inl, inr, ltb→lt,
}
use eris_db.Base.Int.{ℤ, pos, negsuc, IsInt64}
use eris_db.Go.Strconv.{parse_int, parse_uint, scan}

-- At most `k + 1` digits.
digits : ℕ → ℕ → Bytes
digits zero n = (b'0' + n) ∷ []
digits (suc k) n =
    let rest = digits k (n / 10) in
    if ltb n 10 then (b'0' + n) ∷ [] else rest ++ (b'0' + n % 10) ∷ []

-- 2^64 has twenty digits.
format_uint : ℕ → Bytes
format_uint n = digits 19 n

pub format_int : ℤ → Bytes
format_int (pos n) = format_uint n
format_int (negsuc n) = b'-' ∷ format_uint (suc n)

abbrev Fits : ℕ → ℕ → Type 0
Fits zero n = n < 10
Fits (suc k) n = Fits k (n / 10)

scan-append : (s t : Bytes) (n : ℕ) → scan (s ++ t) n ≡ (scan s n >>= λ m. scan t m)
unfolding scan
scan-append [] t n = refl
scan-append (c ∷ s) t n = ground (arith, scan-append s t (n * 10 + (c - b'0')))

scan_digit : (m d : ℕ) → d < 10 → m * 10 + d < 2 ^ 64 → scan ((b'0' + d) ∷ []) m ≡ ok (m * 10 + d)
unfolding scan
scan_digit m d h bound = ground arith

scan-digits : (k n : ℕ) → Fits k n → n < 2 ^ 64 → scan (digits k n) 0 ≡ ok n
unfolding digits
scan-digits zero n fits bound = scan_digit 0 n fits (omega arith) ∙ ap ok (omega arith)
scan-digits (suc k) n fits bound = elim (Bool-cases (ltb n 10)) [
  | inl small ↦ rw small (scan_digit 0 n (ltb→lt n 10 small) (omega arith) ∙ ap ok (omega arith))
  | inr large ↦
      rw
        (
          large,
          scan-append (digits k (n / 10)) ((b'0' + n % 10) ∷ []) 0,
          scan-digits k (n / 10) fits (omega arith),
        )
        (scan_digit (n / 10) (n % 10) (omega arith) (omega arith) ∙ ap ok (omega arith))
]

-- The text is a digit and what follows it.
abbrev IsNumeral : Bytes → Type 0
IsNumeral s = (c : ℕ) × (t : Bytes) × (s ≡ c ∷ t) × (b'0' ≤ c) × (c ≤ b'9')

digits-IsNumeral : (k n : ℕ) → Fits k n → IsNumeral (digits k n)
unfolding digits
digits-IsNumeral zero n h = (_, _, refl, omega arith, omega arith)
digits-IsNumeral (suc k) n h =
    let (c, t, e, low, high) = digits-IsNumeral k (n / 10) h in
    elim (Bool-cases (ltb n 10)) [
      | inl small ↦ (b'0' + n, [], rw small, omega arith, ground arith)
      | inr large ↦ (c, t ++ (b'0' + n % 10) ∷ [], rw (large, e), low, high)
    ]

small_enough : (n : ℕ) → n < 2 ^ 64 → Fits 19 n
small_enough n h = omega arith

parse_uint-IsNumeral : (s : Bytes) → IsNumeral s → parse_uint s ≡ scan s 0
unfolding parse_uint
parse_uint-IsNumeral s (c, t, e, low, high) = rw e

scan-format_uint : (n : ℕ) → n < 2 ^ 64 → scan (format_uint n) 0 ≡ ok n
unfolding format_uint
scan-format_uint n h = scan-digits 19 n (small_enough n h) h

format_uint-IsNumeral : (n : ℕ) → n < 2 ^ 64 → IsNumeral (format_uint n)
unfolding format_uint
format_uint-IsNumeral n h = digits-IsNumeral 19 n (small_enough n h)

parse_uint-format_uint : (n : ℕ) → n < 2 ^ 64 → parse_uint (format_uint n) ≡ ok n
parse_uint-format_uint n h =
    parse_uint-IsNumeral (format_uint n) (format_uint-IsNumeral n h) ∙ scan-format_uint n h

parse_int-IsNumeral :
    (s : Bytes) (n : ℕ) → IsNumeral s → parse_uint s ≡ ok n → n < 2 ^ 63 → parse_int s ≡ ok (pos n)
unfolding parse_int
parse_int-IsNumeral s n (c, t, e, low, high) parsed bound = ground arith

parse_int-minus :
    (s : Bytes) (n : ℕ)
    → parse_uint s ≡ ok (suc n)
    → n < 2 ^ 63
    → parse_int (b'-' ∷ s) ≡ ok (negsuc n)
unfolding parse_int
parse_int-minus s n parsed bound = ground arith

-- `ParseInt` reads back what an int64 is written as.
pub parse_int-format_int : (z : ℤ) → IsInt64 z → parse_int (format_int z) ≡ ok z
unfolding format_int
parse_int-format_int (pos n) h =
    parse_int-IsNumeral (format_uint n) n (format_uint-IsNumeral n (omega arith))
      (parse_uint-format_uint n (omega arith)) (omega arith)
parse_int-format_int (negsuc n) h =
    parse_int-minus (format_uint (suc n)) n (parse_uint-format_uint (suc n) (omega arith))
      (omega arith)

-- What starts with a digit or a minus sign is neither wildcard.
pub format_int-wildcard :
    (z : ℤ)
    → IsInt64 z
    → (bytes_eq (format_int z) (str "min") ≡ false) × (bytes_eq (format_int z) (str "max") ≡ false)
unfolding format_int bytes_eq
format_int-wildcard (pos n) h =
    let (c, t, e, low, high) = format_uint-IsNumeral n (omega arith) in
    rw e (ground arith, ground arith)
format_int-wildcard (negsuc n) h = (refl, refl)

format_int_test : format_int (negsuc 41) ≡ str "-42"
unfolding format_int format_uint digits
format_int_test = refl
