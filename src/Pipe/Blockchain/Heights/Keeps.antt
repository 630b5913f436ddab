-- ===== src/Pipe/Blockchain/Heights/Keeps.antt =====
-- No height that all the filters ask for is lost by `getHeightMinMax`; a filter at the edge of the
-- range is dropped.
use eris_db.Base.{
  ◌∙◌, ◌⊎◌, inl, inr, ℕ, zero, suc, ◌<◌, bytes_eq, str, ◌≡◌, some, [], ◌∷◌, ok, arith,
}
use eris_db.Base.Int.{ℤ, pos, ◌≤ℤ◌, min_int64, max_int64, ltb_ℤ-false}
use eris_db.Pipe.Filters.{FilterData}
use eris_db.Pipe.Filters.Ops.{RangeOp, spell, Holds}
use eris_db.Pipe.Blockchain.{
  height_value, narrow, narrow_by, drop_first, height_loop, get_height_min_max,
}
use eris_db.Pipe.Blockchain.Heights.{IsHeight, loop_goes_on}

-- The height `x` fits the filter, read with "min" for 0 and "max" for the height of the chain.
abbrev pub Fits : ℤ → ℤ → FilterData → Type 0
Fits height x fd =
    (o : RangeOp) (val : ℤ)
    → fd.op ≡ spell o
    → height_value height fd.value ≡ ok val
    → Holds o x val

pub record Contains (x min max : ℤ) : Type 0 where
  pub above : min ≤ℤ x
  pub below : x ≤ℤ max
  pub min_fits : min_int64 ≤ℤ min
  pub max_fits : max ≤ℤ max_int64

-- A single filter that narrows nothing leaves the range of the whole chain.
one_filter :
    (fuel : ℕ) (fd : FilterData) (height : ℤ)
    → pos 0 ≤ℤ height
    → IsHeight fd
    → narrow_by height (pos 0) height fd ≡ ok (pos 0, height)
    → 1 < fuel
    → get_height_min_max fuel (fd ∷ []) height ≡ some (ok (pos 0, height, []))
unfolding get_height_min_max height_loop drop_first
one_filter zero fd height h is e enough = absurd (omega arith)
one_filter (suc zero) fd height h is e enough = absurd (omega arith)
one_filter (suc (suc fuel)) fd height h is e enough =
    loop_goes_on height (pos 0) height fd [] (suc fuel) is e ∙ rw (ltb_ℤ-false height (pos 0) h)

narrow-le :
    (height v : ℤ) → v ≤ℤ pos 0 → narrow height (pos 0) height (str "<=") v ≡ ok (pos 0, height)
unfolding narrow bytes_eq
narrow-le height v low = rw (ltb_ℤ-false (pos 0) v low)

narrow-ge :
    (height v : ℤ) → height ≤ℤ v → narrow height (pos 0) height (str ">=") v ≡ ok (pos 0, height)
unfolding narrow bytes_eq
narrow-ge height v high = rw (ltb_ℤ-false v height high)

-- A single filter at the edge of the chain narrows nothing, with two rounds or more: for `<=` a
-- value of at most 0, and for `>=` a value of at least the height of the chain, which is not
-- negative, the range is the whole chain.
edge_filter_ignored :
    (fuel : ℕ) (fd : FilterData) (height v : ℤ)
    → 1 < fuel
    → pos 0 ≤ℤ height
    → IsHeight fd
    → height_value height fd.value ≡ ok v
    → ((fd.op ≡ str "<=") × (v ≤ℤ pos 0)) ⊎ ((fd.op ≡ str ">=") × (height ≤ℤ v))
    → get_height_min_max fuel (fd ∷ []) height ≡ some (ok (pos 0, height, []))
unfolding narrow_by
edge_filter_ignored fuel fd height v enough h is val (inl (op, low)) =
    one_filter fuel fd height h is (rw (val, op, narrow-le height v low)) enough
edge_filter_ignored fuel fd height v enough h is val (inr (op, high)) =
    one_filter fuel fd height h is (rw (val, op, narrow-ge height v high)) enough
