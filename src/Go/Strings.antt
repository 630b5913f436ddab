-- ===== src/Go/Strings.antt =====
-- `strings.ToLower`, `strings.EqualFold` and `strings.Split` on ASCII text.
use eris_db.Base.{
  ap, ◌∙◌, ℕ, ◌+◌, ◌≡◌, ◌≢◌, refl, Bool, true, false, ◌&&◌, List, [], ◌∷◌, ◌++◌, arith, leb, ◌==◌,
  if◌then◌else◌, Bytes, bytes_eq, Lacks, str, map,
}

unfoldable pub lower : ℕ → ℕ
lower c = if leb b'A' c && leb c b'Z' then c + 32 else c

unfoldable pub to_lower : Bytes → Bytes
unfolding lower
to_lower = map lower

-- Bytes outside ASCII are compared as they are.
unfoldable pub equal_fold : Bytes → Bytes → Bool
unfolding to_lower bytes_eq
equal_fold s t = bytes_eq (to_lower s) (to_lower t)

-- A byte before the first part.
abbrev push : ℕ → List Bytes → List Bytes
push c [] = (c ∷ []) ∷ []
push c (p ∷ ps) = (c ∷ p) ∷ ps

-- `strings.Split(s, sep)` at a separator of one byte.
unfoldable pub split : Bytes → ℕ → List Bytes
split [] sep = [] ∷ []
split (c ∷ s) sep = let rest = split s sep in if c == sep then [] ∷ rest else push c rest

-- `strings.Split(s, sep)` at a separator of two bytes.
unfoldable pub split_pair : Bytes → ℕ → ℕ → List Bytes
split_pair [] a b = [] ∷ []
split_pair (c ∷ []) a b = (c ∷ []) ∷ []
split_pair (c ∷ d ∷ s) a b = elim ((c == a) && (d == b)) [
  | true ↦ [] ∷ split_pair s a b
  | false ↦ push c (split_pair (d ∷ s) a b)
]

lower_idem : (c : ℕ) → lower (lower c) ≡ lower c
unfolding lower
lower_idem c = ground arith

pub to_lower_idem : (s : Bytes) → to_lower (to_lower s) ≡ to_lower s
unfolding to_lower
to_lower_idem [] = refl
to_lower_idem (c ∷ s) = ground (arith, lower_idem c, to_lower_idem s)

-- A text without the separator is one part.
pub split-Lacks : (s : Bytes) (sep : ℕ) → Lacks sep s → split s sep ≡ s ∷ []
unfolding split
split-Lacks [] sep h = refl
split-Lacks (c ∷ s) sep h = ground (arith, split-Lacks s sep h.1)

-- The part before the first separator is split off.
pub split-append :
    (s t : Bytes) (sep : ℕ) → Lacks sep s → split (s ++ sep ∷ t) sep ≡ s ∷ split t sep
unfolding split
split-append [] t sep h = ground arith
split-append (c ∷ s) t sep h = ground (arith, split-append s t sep h.1)

split_test : split (str "a:b:") b':' ≡ str "a" ∷ str "b" ∷ [] ∷ []
unfolding split
split_test = refl

split_pair_test : split_pair (str "5...9") b'.' b'.' ≡ str "5" ∷ str ".9" ∷ []
unfolding split_pair
split_pair_test = refl

split_pair_step :
    (c d : ℕ) (s : Bytes) (a b : ℕ)
    → c ≢ a
    → split_pair (c ∷ d ∷ s) a b ≡ push c (split_pair (d ∷ s) a b)
unfolding split_pair
split_pair_step c d s a b h = ground arith

split_pair_here : (s : Bytes) (a b : ℕ) → split_pair (a ∷ b ∷ s) a b ≡ [] ∷ split_pair s a b
unfolding split_pair
split_pair_here s a b = ground arith

-- A text without the first byte of the separator is one part.
pub split_pair-Lacks : (s : Bytes) (a b : ℕ) → Lacks a s → split_pair s a b ≡ s ∷ []
split_pair-Lacks [] a b h = unfold split_pair in refl
split_pair-Lacks (c ∷ []) a b h = unfold split_pair in refl
split_pair-Lacks (c ∷ d ∷ s) a b h =
    split_pair_step c d s a b h.0 ∙ ap (push c) (split_pair-Lacks (d ∷ s) a b h.1)

pub split_pair-append :
    (s t : Bytes) (a b : ℕ) → Lacks a s → split_pair (s ++ a ∷ b ∷ t) a b ≡ s ∷ split_pair t a b
split_pair-append [] t a b h = split_pair_here t a b
split_pair-append (c ∷ []) t a b h =
    split_pair_step c a (b ∷ t) a b h.0 ∙ ap (push c) (split_pair_here t a b)
split_pair-append (c ∷ d ∷ s) t a b h =
    split_pair_step c d (s ++ a ∷ b ∷ t) a b h.0 ∙ ap (push c) (split_pair-append (d ∷ s) t a b h.1)
