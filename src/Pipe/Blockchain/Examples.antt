-- ===== src/Pipe/Blockchain/Examples.antt =====
-- Queries of a chain of height 7.
use eris_db.Base.{str, bytes_eq, some, [], ◌∷◌, ◌≡◌, ◌≢◌, refl, inl, inr, ok, arith}
use eris_db.Base.Int.{ℤ, pos, wrap64, ◌-ℤ◌, ◌+ℤ◌}
use eris_db.Go.Strings.{lower, to_lower, equal_fold}
use eris_db.Pipe.Filters.{FilterData, new_filter}
use eris_db.Pipe.Blockchain.{
  BlockStore, Blocks, blocks, get_height_min_max, height_value, ranged, fetch_range, fetch,
  block_loop, height_loop, narrow_by, narrow, drop_first,
}
use eris_db.Pipe.Blockchain.Heights.{IsHeight, NotHeight, other_field_never_ok}
use eris_db.Pipe.Blockchain.Heights.Range.{InChain, Ends, get_height_min_max-InChain}
use eris_db.Pipe.Blockchain.Fetch.{Swapped, blocks_none, blocks-Swapped}

-- A block is its height.
abbrev chain : BlockStore ℤ
chain = record {
  height = pos 7;
  load_block_meta = λ h. record { hash = []; height = h };
  load_block = λ h. h;
}

abbrev from_min : FilterData
from_min = record { field = str "Height"; op = str ">"; value = str "min" }

abbrev to_max : FilterData
to_max = record { field = str "height"; op = str "<="; value = str "max" }

abbrev beyond : FilterData
beyond = record { field = str "height"; op = str ">="; value = str "max" }

abbrev by_hash : FilterData
by_hash = record { field = str "hash"; op = str "=="; value = str "00" }

from_min-IsHeight : IsHeight from_min
unfolding equal_fold to_lower lower bytes_eq
from_min-IsHeight = refl

to_max-IsHeight : IsHeight to_max
unfolding equal_fold to_lower lower bytes_eq
to_max-IsHeight = refl

beyond-IsHeight : IsHeight beyond
unfolding equal_fold to_lower lower bytes_eq
beyond-IsHeight = refl

by_hash-NotHeight : NotHeight by_hash
unfolding equal_fold to_lower lower bytes_eq
by_hash-NotHeight = refl

get_height_min_max-InChain_example :
    Ends (InChain (pos 7)) (get_height_min_max 3 (from_min ∷ to_max ∷ []) (pos 7))
get_height_min_max-InChain_example =
    get_height_min_max-InChain 3 (from_min ∷ to_max ∷ []) (pos 7) (omega arith)
      (from_min-IsHeight, (to_max-IsHeight, tt)) (omega arith)

other_field_never_ok_example :
    get_height_min_max 9 (from_min ∷ by_hash ∷ []) (pos 7) ≢ some (ok (pos 1, pos 7, []))
other_field_never_ok_example =
    other_field_never_ok 9 (from_min ∷ by_hash ∷ []) (pos 7) (pos 1, pos 7, [])
      (inr (inl by_hash-NotHeight))

abbrev no_blocks : Blocks
no_blocks = record { min_height = pos 7; max_height = pos 1; block_metas = [] }

blocks_run : blocks 3 chain (from_min ∷ to_max ∷ []) ≡ some (ok no_blocks)
unfolding blocks ranged fetch_range fetch new_filter block_loop wrap64 ◌-ℤ◌ ◌+ℤ◌ get_height_min_max
    height_loop narrow_by narrow height_value drop_first bytes_eq equal_fold to_lower lower
blocks_run = refl

blocks_none_example : no_blocks.block_metas ≡ []
blocks_none_example = blocks_none chain 3 (from_min ∷ to_max ∷ []) no_blocks blocks_run

blocks-Swapped_example : Swapped (pos 7) (blocks 3 chain (from_min ∷ to_max ∷ []))
blocks-Swapped_example =
    blocks-Swapped chain 3 (from_min ∷ to_max ∷ []) (omega arith)
      (from_min-IsHeight, (to_max-IsHeight, tt)) (omega arith)
