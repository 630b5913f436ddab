-- ===== src/Pipe/Filters/Examples.antt =====
-- An operator and a bound.
use eris_db.Base.{str, Bool, true, ◌≡◌, ◌≢◌, ◌⊎◌, ◌↔◌, ok, err, Error, arith}
use eris_db.Base.Int.{ℤ, negsuc}
use eris_db.Pipe.Filters.{get_range_filter, parse_number_value}
use eris_db.Pipe.Filters.Ops.{RangeOp, spell, Holds, get_range_filter-Holds}
use eris_db.Pipe.Filters.Conditions.{Bound, write_bound, parse_number_value-write_bound}

get_range_filter-Holds_example :
    ((o : RangeOp) × (str "<=" ≡ spell o)
      × (f : ℤ → ℤ → Bool) × (get_range_filter (str "<=") (str "balance") ≡ ok f)
      × ((a b : ℤ) → (f a b ≡ true) ↔ Holds o a b))
    ⊎ (((o : RangeOp) → str "<=" ≢ spell o)
        × (get_range_filter (str "<=") (str "balance")
            ≡ err (Error.op_not_supported (str "<=") (str "balance"))))
get_range_filter-Holds_example = get_range_filter-Holds (str "<=") (str "balance")

parse_number_value-write_bound_example :
    parse_number_value (write_bound (Bound.number (negsuc 41))) ≡ ok (negsuc 41)
parse_number_value-write_bound_example =
    parse_number_value-write_bound (Bound.number (negsuc 41)) (omega arith, omega arith)
