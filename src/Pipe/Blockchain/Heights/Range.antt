-- ===== src/Pipe/Blockchain/Heights/Range.antt =====
-- What `getHeightMinMax` returns on height filters alone: it ends, and its range lies in the chain and
-- keeps every height that the filters ask for.
use eris_db.Base.{
  if_rule, eq_of_bytes_eq, ℕ, zero, suc, ◌<◌, Bytes, str, false, ◌&&◌, ◌||◌, ◌≡◌, ◌≢◌, refl, inl,
  inr, Option, none, some, List, [], ◌∷◌, Result, ok, err, panic, arith, All, length, Result-cases,
  if◌then◌else◌,
}
use eris_db.Base.Int.{
  both_ltb_ℤ, neither_ltb_ℤ, ltb_ℤ-false, ℤ, pos, ◌≤ℤ◌, ltb_ℤ, wrap64, ◌+ℤ◌, ◌-ℤ◌,
}
use eris_db.Go.Strconv.{parse_int-ne-panic}
use eris_db.Pipe.Filters.{FilterData}
use eris_db.Pipe.Blockchain.{
  drop_first, height_value, narrow, narrow_by, height_loop, get_height_min_max,
}
use eris_db.Pipe.Blockchain.Heights.{
  IsHeight, All-drop_first, length-drop_first, loop_goes_on, loop_fails,
}

pub record InChain (height min max : ℤ) : Type 0 where
  pub low : pos 0 ≤ℤ min
  pub ordered : min ≤ℤ max
  pub high : max ≤ℤ height

-- The result is an error or a range that `P` holds of, and no panic.
abbrev pub Ensures : (ℤ → ℤ → Type 0) → Result (ℤ × ℤ) → Type 0
Ensures P (ok (mn, mx)) = P mn mx
Ensures P (err e) = Unit
Ensures P panic = ⊥

-- A property of ranges that every case of the switch gives.
module _ (P : ℤ → ℤ → Type 0) (height min max val : ℤ) where
  pub Ensures-narrow :
      (op : Bytes)
      → (op ≡ str "==" → (ltb_ℤ height val || ltb_ℤ val (pos 0)) ≡ false → P val val)
      → (op ≡ str "<"
          → (mx : ℤ) → mx ≡ wrap64 (val -ℤ pos 1)
          → P min (if ltb_ℤ min mx && ltb_ℤ mx max then mx else max))
      → (op ≡ str "<=" → P min (if ltb_ℤ min val && ltb_ℤ val max then val else max))
      → (op ≡ str ">"
          → (mn : ℤ) → mn ≡ wrap64 (val +ℤ pos 1)
          → P (if ltb_ℤ mn max && ltb_ℤ min mn then mn else min) max)
      → (op ≡ str ">=" → P (if ltb_ℤ val max && ltb_ℤ min val then val else min) max)
      → Ensures P (narrow height min max op val)
  unfolding narrow
  Ensures-narrow op e l le g ge =
      if_rule (Ensures P) _ _ _
        (λ t.
          if_rule (Ensures P) (ltb_ℤ height val || ltb_ℤ val (pos 0)) _ _ (λ _. tt)
            (e (eq_of_bytes_eq op _ t)))
        λ _.
          if_rule (Ensures P) _ _ _ (λ t. l (eq_of_bytes_eq op _ t) _ refl)
            λ _.
              if_rule (Ensures P) _ _ _ (λ t. le (eq_of_bytes_eq op _ t))
                λ _.
                  if_rule (Ensures P) _ _ _ (λ t. g (eq_of_bytes_eq op _ t) _ refl)
                    λ _. if_rule (Ensures P) _ _ _ (λ t. ge (eq_of_bytes_eq op _ t)) (λ _. tt)

module _ (height min max : ℤ) (v : InChain height min max) where
  lowered-InChain : (mx : ℤ) → InChain height min (if ltb_ℤ min mx && ltb_ℤ mx max then mx else max)
  lowered-InChain mx =
      if_rule (InChain height min) _ mx max
        (λ t. let (p, q) = both_ltb_ℤ min mx mx max t in omega arith) (λ _. v)

  raised-InChain : (mn : ℤ) → InChain height (if ltb_ℤ mn max && ltb_ℤ min mn then mn else min) max
  raised-InChain mn =
      if_rule (λ k. InChain height k max) _ mn min
        (λ t. let (p, q) = both_ltb_ℤ mn max min mn t in omega arith) (λ _. v)

  exact-InChain :
      (val : ℤ) → (ltb_ℤ height val || ltb_ℤ val (pos 0)) ≡ false → InChain height val val
  exact-InChain val t = let (p, q) = neither_ltb_ℤ height val val (pos 0) t in omega arith

  narrow-InChain : (op : Bytes) (val : ℤ) → Ensures (InChain height) (narrow height min max op val)
  narrow-InChain op val =
      Ensures-narrow (InChain height) height min max val op (λ _. exact-InChain val)
        (λ _ mx _. lowered-InChain mx) (λ _. lowered-InChain val) (λ _ mn _. raised-InChain mn)
        (λ _. raised-InChain val)

height_value-ne-panic : (height : ℤ) (value : Bytes) → height_value height value ≢ panic
unfolding height_value
height_value-ne-panic height value = λ e. ground (arith, parse_int-ne-panic value)

-- One height filter keeps what `narrow` keeps of every value that it can have.
pub narrow_by-Ensures :
    (P : ℤ → ℤ → Type 0) (height min max : ℤ) (fd : FilterData)
    → ((val : ℤ)
        → height_value height fd.value ≡ ok val
        → Ensures P (narrow height min max fd.op val))
    → Ensures P (narrow_by height min max fd)
unfolding narrow_by
narrow_by-Ensures P height min max fd h = elim (Result-cases (height_value height fd.value)) [
  | inl (val, e) ↦ rw e (h val e)
  | inr (inl (x, e)) ↦ rw e tt
  | inr (inr e) ↦ absurd (height_value-ne-panic height fd.value e)
]

-- How a run of the loop ends: with an error, or with no filter left and a range that `P` holds of.
abbrev pub Ends : (ℤ → ℤ → Type 0) → Option (Result (ℤ × ℤ × List FilterData)) → Type 0
Ends P none = ⊥
Ends P (some (ok (mn, mx, rest))) = (rest ≡ []) × P mn mx
Ends P (some (err e)) = Unit
Ends P (some panic) = ⊥

-- An invariant `P` of the range that every filter of the list keeps holds of the range returned.
module _ (P : ℤ → ℤ → Type 0) (Q : FilterData → Type 0) (height : ℤ)
    (ordered : (min max : ℤ) → P min max → min ≤ℤ max)
    (keep : (min max : ℤ) (fd : FilterData)
      → Q fd
      → P min max
      → Ensures P (narrow_by height min max fd)) where
  pub loop-Ends :
      (fuel : ℕ) (min max : ℤ) (fda : List FilterData)
      → P min max
      → All IsHeight fda
      → All Q fda
      → length fda < fuel
      → Ends P (height_loop fuel height min max fda)
  loop-Ends zero min max fda p is q h = absurd (omega arith)
  loop-Ends (suc fuel) min max [] p is q h =
      unfold height_loop in rw (ltb_ℤ-false max min (ordered min max p)) (refl, p)
  loop-Ends (suc fuel) min max (fd ∷ fds) p is q h =
      go (narrow_by height min max fd) refl (keep min max fd q.0 p) λ mn mx p'.
        loop-Ends fuel mn mx (drop_first (fd ∷ fds)) p' (All-drop_first IsHeight fd fds is)
          (All-drop_first Q fd fds q) (omega (arith, length-drop_first fd fds))
    where
      go :
          (r : Result (ℤ × ℤ))
          → narrow_by height min max fd ≡ r
          → Ensures P r
          → ((mn mx : ℤ) → P mn mx → Ends P (height_loop fuel height mn mx (drop_first (fd ∷ fds))))
          → Ends P (height_loop (suc fuel) height min max (fd ∷ fds))
      go (ok (mn, mx)) e p' next =
          rw (loop_goes_on height min max fd fds fuel is.0 e) (next mn mx p')
      go (err x) e p' next = rw (loop_fails height min max fd fds fuel is.0 e) tt
      go panic e p' next = absurd p'

All-always : (fda : List FilterData) → All (λ _. Unit {0}) fda
All-always [] = tt
All-always (fd ∷ fds) = (tt, All-always fds)

-- On height filters alone, on a chain whose height is not negative, and with more rounds than
-- filters, `getHeightMinMax` ends: with an error, or with no filter left over and a range from
-- `min` to `max` inside 0 to the height of the chain.
pub get_height_min_max-InChain :
    (fuel : ℕ) (fda : List FilterData) (height : ℤ)
    → pos 0 ≤ℤ height
    → All IsHeight fda
    → length fda < fuel
    → Ends (InChain height) (get_height_min_max fuel fda height)
unfolding get_height_min_max
get_height_min_max-InChain fuel fda height h is enough =
    loop-Ends (InChain height) (λ _. Unit) height (λ min max v. v.ordered)
      (λ min max fd _ v.
        narrow_by-Ensures (InChain height) height min max fd
          (λ val _. narrow-InChain height min max v fd.op val))
      fuel (pos 0) height fda (record { low = omega arith; ordered = h; high = omega arith }) is
      (All-always fda) enough
