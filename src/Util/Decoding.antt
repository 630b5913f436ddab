-- ===== src/Util/Decoding.antt =====
-- The patterns of util/util.go accept just the texts that `hex.DecodeString` decodes.
use eris_db.Base.{
  ℕ, zero, suc, ◌+◌, ◌*◌, ◌≡◌, ◌↔◌, refl, ◌∙◌, ap, sym, Bytes, Bool, true, false, ◌&&◌, ◌==◌,
  ==_iff, length, Option, none, some, [], ◌∷◌, Result, ok, err, panic, ◌>>=◌, arith,
}
use eris_db.Go.Hex.{from_hex_char, decode, join_digits}
use eris_db.Util.{is_hex_digit, is_hex, has_digits}

abbrev is_some : Option ℕ → Bool
is_some none = false
is_some (some n) = true

is_some-from_hex_char : (c : ℕ) → is_some (from_hex_char c) ≡ is_hex_digit c
unfolding from_hex_char is_hex_digit
is_some-from_hex_char c = ground arith

-- The text decodes to `n` bytes.
abbrev pub Decodes : ℕ → Bytes → Type 0
Decodes n s = (bts : Bytes) × (decode s ≡ ok bts) × (length bts ≡ n)

joined :
    (c d : Option ℕ) (r : Result Bytes) (n : ℕ)
    → is_some c ≡ true
    → is_some d ≡ true
    → ((bts : Bytes) × (r ≡ ok bts) × (length bts ≡ n))
    → (out : Bytes) × ((join_digits c d >>= λ b. r >>= λ rest. ok (b ∷ rest)) ≡ ok out)
      × (length out ≡ suc n)
joined (some hi) (some lo) r n hc hd (bts, e, l) =
    ((hi * 16 + lo) ∷ bts, ap (λ x. x >>= λ rest. ok ((hi * 16 + lo) ∷ rest)) e, ap suc l)
joined none d r n hc hd h = cc
joined (some hi) none r n hc hd h = cc

parted :
    (c d : Option ℕ) (r : Result Bytes) (out : Bytes)
    → (join_digits c d >>= λ b. r >>= λ rest. ok (b ∷ rest)) ≡ ok out
    → (is_some c ≡ true)
      × (is_some d ≡ true)
      × (rest : Bytes) × (r ≡ ok rest)
      × (length out ≡ suc (length rest))
parted (some hi) (some lo) (ok bts) out e =
    let same : out ≡ (hi * 16 + lo) ∷ bts = cc in (refl, refl, bts, refl, ap length same)
parted (some hi) (some lo) (err x) out e = cc
parted (some hi) (some lo) panic out e = cc
parted (some hi) none r out e = cc
parted none d r out e = cc

all_three : (a b c : Bool) → a && (b && c) ≡ true → (a ≡ true) × (b ≡ true) × (c ≡ true)
all_three a b c h = ground (arith, h)

three_all : (a b c : Bool) → a ≡ true → b ≡ true → c ≡ true → a && (b && c) ≡ true
three_all a b c ha hb hc = ground (arith, ha, hb, hc)

is_hex-Decodes : (n : ℕ) (s : Bytes) → length s ≡ n + n → is_hex s ≡ true → Decodes n s
unfolding is_hex decode
is_hex-Decodes zero [] l h = ([], refl, refl)
is_hex-Decodes zero (c ∷ s) l h = absurd (omega (arith, l))
is_hex-Decodes (suc n) [] l h = absurd (omega (arith, l))
is_hex-Decodes (suc n) (c ∷ []) l h = absurd (omega (arith, l))
is_hex-Decodes (suc n) (c ∷ d ∷ s) l h =
    let (hc, hd, hs) = all_three (is_hex_digit c) (is_hex_digit d) (is_hex s) h in
    joined (from_hex_char c) (from_hex_char d) (decode s) n (is_some-from_hex_char c ∙ hc)
      (is_some-from_hex_char d ∙ hd) (is_hex-Decodes n s (omega (arith, l)) hs)

decode-is_hex :
    (s bts : Bytes) → decode s ≡ ok bts → (is_hex s ≡ true) × (length s ≡ length bts + length bts)
unfolding is_hex decode
decode-is_hex [] [] e = (refl, refl)
decode-is_hex [] (b ∷ bts) e = cc
decode-is_hex (c ∷ []) bts e = cc
decode-is_hex (c ∷ d ∷ s) bts e =
    let (hc, hd, rest, er, l) = parted (from_hex_char c) (from_hex_char d) (decode s) bts e in
    let (hs, ls) = decode-is_hex s rest er in
    (
      three_all (is_hex_digit c) (is_hex_digit d) (is_hex s) (sym (is_some-from_hex_char c) ∙ hc)
          (sym (is_some-from_hex_char d) ∙ hd) hs,
      omega (arith, l, ls),
    )

both : (a b : Bool) → a && b ≡ true → (a ≡ true) × (b ≡ true)
both a b h = ground (arith, h)

both_of : (a b : Bool) → a ≡ true → b ≡ true → a && b ≡ true
both_of a b ha hb = ground (arith, ha, hb)

pub has_digits-Decodes : (n : ℕ) (s : Bytes) → (has_digits (n + n) s ≡ true) ↔ Decodes n s
unfolding has_digits
has_digits-Decodes n s = (
  λ h.
      (let (l, x) = both (length s == n + n) (is_hex s) h in
        is_hex-Decodes n s ((==_iff (length s) (n + n)).0 l) x),
  λ (bts, e, l).
      (let (x, m) = decode-is_hex s bts e in
        both_of (length s == n + n) (is_hex s) ((==_iff (length s) (n + n)).1 (omega (arith, m, l)))
          x),
)
