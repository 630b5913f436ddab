-- ===== src/Pipe/Blockchain/Heights.antt =====
-- `getHeightMinMax`: when it returns, and the range that it returns.
pub mod Range
pub mod Keeps
use mathlib.Core.Bool.{false≢true}
use eris_db.Base.{
  sym, ◌∙◌, ℕ, zero, suc, ◌+◌, ◌<◌, Bytes, str, Bool, true, false, ◌≡◌, ◌≢◌, refl, ap, ◌⊎◌, inl,
  inr, Option, none, some, List, [], ◌∷◌, Result, ok, err, panic, Error, arith, All, length,
  Bool-cases, Result-cases,
}
use eris_db.Base.Int.{ℤ}
use eris_db.Go.Strings.{equal_fold}
use eris_db.Pipe.Filters.{FilterData}
use eris_db.Pipe.Blockchain.{
  drop_first, last_of, but_last, narrow_by, height_loop, get_height_min_max,
}

abbrev pub IsHeight : FilterData → Type 0
IsHeight fd = equal_fold fd.field (str "height") ≡ true

abbrev pub NotHeight : FilterData → Type 0
NotHeight fd = equal_fold fd.field (str "height") ≡ false

-- Some entry of the list.
abbrev pub Any {ℓ} : {A : Type ℓ} → (A → Type 0) → List A → Type 0
Any P [] = ⊥
Any P (x ∷ xs) = P x ⊎ Any P xs

module _ {ℓ} {A : Type ℓ} (P : A → Type 0) where
  All-rotated : (y : A) (xs : List A) → All P (y ∷ xs) → All P (last_of y xs ∷ but_last y xs)
  All-rotated y [] h = h
  All-rotated y (z ∷ xs) h = let rest = All-rotated z xs h.1 in (rest.0, (h.0, rest.1))

  pub All-drop_first : (x : A) (xs : List A) → All P (x ∷ xs) → All P (drop_first (x ∷ xs))
  unfolding drop_first
  All-drop_first x [] h = tt
  All-drop_first x (y ∷ xs) h = All-rotated y xs h.1

  Any-rotated : (y : A) (xs : List A) → Any P (y ∷ xs) → Any P (last_of y xs ∷ but_last y xs)
  Any-rotated y [] h = h
  Any-rotated y (z ∷ xs) (inl p) = inr (inl p)
  Any-rotated y (z ∷ xs) (inr h) = elim (Any-rotated z xs h) [ inl p ↦ inl p | inr q ↦ inr (inr q) ]

  pub Any-drop_first : (x : A) (xs : List A) → Any P xs → Any P (drop_first (x ∷ xs))
  unfolding drop_first
  Any-drop_first x [] h = h
  Any-drop_first x (y ∷ xs) h = Any-rotated y xs h

length-but_last : {A : Type 0} (y : A) (xs : List A) → length (but_last y xs) ≡ length xs
length-but_last y [] = refl
length-but_last y (z ∷ xs) = ap suc (length-but_last z xs)

pub length-drop_first :
    {A : Type 0} (x : A) (xs : List A) → length (drop_first (x ∷ xs)) ≡ length xs
unfolding drop_first
length-drop_first x [] = refl
length-drop_first x (y ∷ xs) = ap suc (length-but_last y xs)

module _ (height min max : ℤ) (fd : FilterData) (fds : List FilterData) (fuel : ℕ) where
  loop_waits :
      NotHeight fd
      → height_loop (suc fuel) height min max (fd ∷ fds)
        ≡ height_loop fuel height min max (fd ∷ fds)
  unfolding height_loop
  loop_waits h = rw (h, height_loop)

  pub loop_goes_on :
      {mn mx : ℤ}
      → IsHeight fd
      → narrow_by height min max fd ≡ ok (mn, mx)
      → height_loop (suc fuel) height min max (fd ∷ fds)
        ≡ height_loop fuel height mn mx (drop_first (fd ∷ fds))
  unfolding height_loop
  loop_goes_on h e = rw (h, height_loop, e)

  pub loop_fails :
      {e : Error}
      → IsHeight fd
      → narrow_by height min max fd ≡ err e
      → height_loop (suc fuel) height min max (fd ∷ fds) ≡ some (err e)
  unfolding height_loop
  loop_fails h e = rw (h, height_loop, e)

  loop_panics :
      IsHeight fd
      → narrow_by height min max fd ≡ panic
      → height_loop (suc fuel) height min max (fd ∷ fds) ≡ some panic
  unfolding height_loop
  loop_panics h e = rw (h, height_loop, e)

loop_never_ok :
    (fuel : ℕ) (height min max : ℤ) (fda : List FilterData) (r : ℤ × ℤ × List FilterData)
    → Any NotHeight fda
    → height_loop fuel height min max fda ≢ some (ok r)
loop_never_ok zero height min max fda r h = unfold height_loop in λ e. cc
loop_never_ok (suc fuel) height min max [] r h = absurd h
loop_never_ok (suc fuel) height min max (fd ∷ fds) r h =
    elim (Bool-cases (equal_fold fd.field (str "height"))) [
      | inr other ↦
          rw (loop_waits height min max fd fds fuel other)
            (loop_never_ok fuel height min max (fd ∷ fds) r h)
      | inl is ↦ elim (Result-cases (narrow_by height min max fd)) [
        | inl ((mn, mx), e) ↦ rw (loop_goes_on height min max fd fds fuel is e) (
            loop_never_ok fuel height mn mx (drop_first (fd ∷ fds)) r
              (Any-drop_first NotHeight fd fds (later is h)))
        | inr (inl (x, e)) ↦ λ q. cc (loop_fails height min max fd fds fuel is e)
        | inr (inr e) ↦ λ q. cc (loop_panics height min max fd fds fuel is e)
      ]
    ]
  where
    later : IsHeight fd → NotHeight fd ⊎ Any NotHeight fds → Any NotHeight fds
    later is (inl other) = absurd (false≢true (sym other ∙ is))
    later is (inr rest) = rest

-- With a filter of another field in the list `getHeightMinMax` never returns a range, whatever the
-- number of rounds: it fails on a height filter, or it runs for ever.
pub other_field_never_ok :
    (fuel : ℕ) (fda : List FilterData) (height : ℤ) (r : ℤ × ℤ × List FilterData)
    → Any NotHeight fda
    → get_height_min_max fuel fda height ≢ some (ok r)
unfolding get_height_min_max
other_field_never_ok fuel fda height r h = loop_never_ok fuel height _ _ fda r h

loop_waits_for_ever :
    (fuel : ℕ) (height min max : ℤ) (fd : FilterData) (fds : List FilterData)
    → NotHeight fd
    → height_loop fuel height min max (fd ∷ fds) ≡ none
loop_waits_for_ever zero height min max fd fds h = unfold height_loop in refl
loop_waits_for_ever (suc fuel) height min max fd fds h =
    loop_waits height min max fd fds fuel h ∙ loop_waits_for_ever fuel height min max fd fds h

-- With a filter of another field at the head of the list `getHeightMinMax` still runs after any
-- number of rounds: it never ends.
other_field_first :
    (fuel : ℕ) (fd : FilterData) (fds : List FilterData) (height : ℤ)
    → NotHeight fd
    → get_height_min_max fuel (fd ∷ fds) height ≡ none
unfolding get_height_min_max
other_field_first fuel fd fds height h = loop_waits_for_ever fuel height _ _ fd fds h
