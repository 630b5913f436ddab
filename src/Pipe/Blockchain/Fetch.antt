-- ===== src/Pipe/Blockchain/Fetch.antt =====
-- What `Blocks` and `Block` return.
use eris_db.Base.{
  ap, ℕ, zero, suc, ◌<◌, Bool, true, false, ◌&&◌, ◌≡◌, ◌≢◌, refl, ◌⊎◌, inl, inr, Option, none, some,
  List, [], ◌∷◌, Result, ok, err, panic, Error, arith, All, length, Result-cases, Bool-cases,
}
use eris_db.Base.Int.{ℤ, pos, ◌≤ℤ◌, ◌<ℤ◌, eqb_ℤ, leb_ℤ, ltb_ℤ, wrap64, ◌-ℤ◌}
use eris_db.Pipe.Values.{BlockMeta}
use eris_db.Pipe.Filters.{FilterData, Filter, new_filter, match_all}
use eris_db.Pipe.Blockchain.{
  BlockStore, Blocks, block_filter, block_filters, block_loop, fetch, fetch_range, ranged, blocks,
  block, block_max,
}
use eris_db.Pipe.Blockchain.Heights.{IsHeight}
use eris_db.Pipe.Blockchain.Heights.Range.{InChain, Ends, get_height_min_max-InChain}

sub_self : (a : ℤ) → a -ℤ a ≡ pos 0
unfolding ◌-ℤ◌
sub_self a = ground arith

and_false : (b : Bool) → (b && false) ≡ false
and_false true = refl
and_false false = refl

no_rounds : (max : ℤ) → wrap64 (max -ℤ max) ≡ pos 0
unfolding wrap64
no_rounds max = ap wrap64 (sub_self max)

loop_test : (min max : ℤ) → (leb_ℤ min max && ltb_ℤ block_max (wrap64 (max -ℤ max))) ≡ false
loop_test min max = rw (no_rounds max) (and_false (leb_ℤ min max))

-- The loop of `Blocks` ends before its first round, since it starts at the highest block.
block_loop_lem :
    (fuel : ℕ) (load : ℤ → BlockMeta) (filter : Filter) (min max : ℤ) (metas : List BlockMeta)
    → block_loop (suc fuel) load filter min max max metas ≡ some (ok metas)
unfolding block_loop
block_loop_lem fuel load filter min max metas = rw (loop_test min max, block_loop)

-- How a call ends for certain: with an error, or with no block and the ends of a range of the chain
-- that are swapped, so that `min_height` is the larger one.
abbrev pub Swapped : ℤ → Option (Result Blocks) → Type 0
Swapped height (some (ok b)) =
    (b.block_metas ≡ [])
    × (pos 0 ≤ℤ b.max_height)
    × (b.max_height ≤ℤ b.min_height)
    × (b.min_height ≤ℤ height)
Swapped height (some (err e)) = Unit
Swapped height _ = ⊥

module _ {B : Type 0} (store : BlockStore B) where
  fetch_lem :
      (fuel : ℕ) (min max : ℤ)
      → fetch (suc fuel) store min max []
        ≡ some (ok (record { min_height = max; max_height = min; block_metas = [] }))
  unfolding fetch new_filter
  fetch_lem fuel min max =
      rw (block_loop_lem fuel store.load_block_meta match_all min max [], fetch)

  fetch_of :
      (fuel : ℕ) (min max : ℤ) (fda : List FilterData) (filter : Filter)
      → new_filter block_filter block_filters fda ≡ ok filter
      → fetch (suc fuel) store min max fda
        ≡ some (ok (record { min_height = max; max_height = min; block_metas = [] }))
  unfolding fetch
  fetch_of fuel min max fda filter e =
      rw (e, block_loop_lem fuel store.load_block_meta filter min max [], fetch)

  fetch_still :
      (min max : ℤ) (fda : List FilterData) (b : Blocks)
      → fetch zero store min max fda ≢ some (ok b)
  unfolding fetch block_loop
  fetch_still min max fda b = λ e. ground arith

  fetch_fails :
      (fuel : ℕ) (min max : ℤ) (fda : List FilterData) (b : Blocks)
      → ((x : Error) × (new_filter block_filter block_filters fda ≡ err x))
        ⊎ (new_filter block_filter block_filters fda ≡ panic)
      → fetch fuel store min max fda ≢ some (ok b)
  unfolding fetch
  fetch_fails fuel min max fda b (inl (x, e)) = λ q. ground arith
  fetch_fails fuel min max fda b (inr e) = λ q. ground arith

  fetch_none :
      (fuel : ℕ) (min max : ℤ) (fda : List FilterData) (b : Blocks)
      → fetch fuel store min max fda ≡ some (ok b)
      → b.block_metas ≡ []
  fetch_none zero min max fda b e = absurd (fetch_still min max fda b e)
  fetch_none (suc fuel) min max fda b e =
      elim (Result-cases (new_filter block_filter block_filters fda)) [
        | inl (filter, q) ↦ ground (arith, fetch_of fuel min max fda filter q)
        | inr q ↦ absurd (fetch_fails (suc fuel) min max fda b q e)
      ]

  range_none :
      (fuel : ℕ) (r : Option (Result (ℤ × ℤ × List FilterData))) (b : Blocks)
      → fetch_range fuel store r ≡ some (ok b)
      → b.block_metas ≡ []
  unfolding fetch_range
  range_none fuel none b e = cc
  range_none fuel (some (ok (min, max, rest))) b e = fetch_none fuel min max rest b e
  range_none fuel (some (err x)) b e = cc
  range_none fuel (some panic) b e = cc

  ranged_none :
      (fuel : ℕ) (fda : List FilterData) (b : Blocks)
      → ranged fuel store fda ≡ some (ok b)
      → b.block_metas ≡ []
  unfolding ranged
  ranged_none fuel [] b e = fetch_none fuel (pos 0) store.height [] b e
  ranged_none fuel (fd ∷ fds) b e = range_none fuel _ b e

  -- Whatever the filters and the rounds, no call of `Blocks` returns a block.
  pub blocks_none :
      (fuel : ℕ) (fda : List FilterData) (b : Blocks)
      → blocks fuel store fda ≡ some (ok b)
      → b.block_metas ≡ []
  unfolding blocks
  blocks_none fuel fda b = elim (Bool-cases (eqb_ℤ store.height (pos 0))) [
    | inl is_empty ↦ rw is_empty (λ e. ground arith)
    | inr more ↦ rw more (ranged_none fuel fda b)
  ]

  range-Swapped :
      (fuel : ℕ) (r : Option (Result (ℤ × ℤ × List FilterData)))
      → Ends (InChain store.height) r
      → Swapped store.height (fetch_range (suc fuel) store r)
  unfolding fetch_range
  range-Swapped fuel (some (ok (min, max, rest))) (none_left, v) =
      rw (none_left, fetch_lem fuel min max) (refl, v.low, v.ordered, v.high)
  range-Swapped fuel (some (err x)) v = tt
  range-Swapped fuel (some panic) v = absurd v
  range-Swapped fuel none v = absurd v

  ranged-Swapped :
      (fuel : ℕ) (fda : List FilterData)
      → pos 0 ≤ℤ store.height
      → All IsHeight fda
      → length fda < suc fuel
      → Swapped store.height (ranged (suc fuel) store fda)
  unfolding ranged
  ranged-Swapped fuel [] h is enough =
      rw (fetch_lem fuel (pos 0) store.height) (refl, omega arith, h, omega arith)
  ranged-Swapped fuel (fd ∷ fds) h is enough =
      range-Swapped fuel _
        (get_height_min_max-InChain (suc fuel) (fd ∷ fds) store.height h is enough)

  -- On height filters alone, on a chain whose height is not negative, and with more rounds than
  -- filters, `Blocks` ends: with an error, or with no block and a range of the chain whose ends
  -- are swapped.
  pub blocks-Swapped :
      (fuel : ℕ) (fda : List FilterData)
      → pos 0 ≤ℤ store.height
      → All IsHeight fda
      → length fda < fuel
      → Swapped store.height (blocks fuel store fda)
  unfolding blocks
  blocks-Swapped zero fda h is enough = absurd (omega arith)
  blocks-Swapped (suc fuel) fda h is enough = elim (Bool-cases (eqb_ℤ store.height (pos 0))) [
    | inl empty ↦ rw empty (refl, omega arith, omega arith, h)
    | inr more ↦ rw more (ranged-Swapped fuel fda h is enough)
  ]

-- `Block` takes the heights up to the top of the chain but 0, the negative ones too; a failure says
-- which test it is.
block_lem :
    {B : Type 0} (store : BlockStore B) (height : ℤ)
    → ((height ≡ pos 0) × (block store height ≡ err Error.height_not_positive))
      ⊎ ((height ≢ pos 0)
          × (store.height <ℤ height)
          × (block store height ≡ err Error.height_too_large))
      ⊎ ((height ≢ pos 0)
          × (height ≤ℤ store.height)
          × (block store height ≡ ok (store.load_block height)))
unfolding block
block_lem store height = ground arith
