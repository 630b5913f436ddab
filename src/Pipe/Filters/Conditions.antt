-- ===== src/Pipe/Filters/Conditions.antt =====
-- Bounds as a client writes them, and the conditions on numbers and on bytes.
use eris_db.Base.{Bytes, bytes_eq, str, Bool, true, false, not, ◌≡◌, refl, ok, arith}
use eris_db.Base.Int.{ℤ, min_int64, max_int64, IsInt64}
use eris_db.Go.Strconv.Decimal.{format_int, parse_int-format_int, format_int-wildcard}
use eris_db.Pipe.Filters.{parse_number_value}

pub data Bound : Type 0 where
  lowest highest : Bound
  number : ℤ → Bound

abbrev pub write_bound : Bound → Bytes
write_bound Bound.lowest = str "min"
write_bound Bound.highest = str "max"
write_bound (Bound.number z) = format_int z

abbrev pub bound_value : Bound → ℤ
bound_value Bound.lowest = min_int64
bound_value Bound.highest = max_int64
bound_value (Bound.number z) = z

abbrev pub BoundFits : Bound → Type 0
BoundFits Bound.lowest = Unit
BoundFits Bound.highest = Unit
BoundFits (Bound.number z) = IsInt64 z

-- `ParseNumberValue` reads back each bound that a client writes: `min` and `max` as the least and
-- the greatest int64, and the decimal digits of any int64 as that number.
pub parse_number_value-write_bound :
    (b : Bound) → BoundFits b → parse_number_value (write_bound b) ≡ ok (bound_value b)
unfolding parse_number_value bytes_eq
parse_number_value-write_bound Bound.lowest h = refl
parse_number_value-write_bound Bound.highest h = refl
parse_number_value-write_bound (Bound.number z) h =
    ground (arith, format_int-wildcard z h, parse_int-format_int z h)

abbrev pub equal_op : Bool → Bytes
equal_op true = str "=="
equal_op false = str "!="

-- Whether `a` is `b`, or is not.
abbrev pub test_equal : Bool → Bytes → Bytes → Bool
test_equal true a b = bytes_eq a b
test_equal false a b = not (bytes_eq a b)
