-- ===== src/Pipe/NameReg/Query.antt =====
-- The entries of the name registry that a query returns.
use eris_db.Base.{
  Bytes, bytes_eq, str, Bool, true, false, ◌≡◌, refl, ap, ◌∙◌, some, List, [], ◌∷◌, ◌++◌,
  append-nil, append_if, map, ok, All, all_pass, select,
}
use eris_db.Go.Strings.{lower, to_lower}
use eris_db.Go.Hex.{encode, decode-encode, IsByte}
use eris_db.Pipe.Values.{NameRegEntry, Value}
use eris_db.Pipe.Node.{State}
use eris_db.Pipe.Filters.{FilterData, Filter, find_pool, new_single_filter}
use eris_db.Pipe.Filters.Ops.{RangeOp, spell, test, get_range_filter-spell}
use eris_db.Pipe.Filters.Conditions.{
  Bound, write_bound, bound_value, BoundFits, parse_number_value-write_bound, equal_op, test_equal,
}
use eris_db.Pipe.Filters.Factory.{new_single_filter-some, new_filter-all_pass}
use eris_db.Pipe.NameReg.{
  NameRegFilter, name_reg_filter, name_reg_filters, zero_name, zero_owner, zero_data, zero_expires,
  configure_name, configure_owner, configure_data, configure_expires, match_name, match_owner,
  match_data, match_expires, iterate, entries,
}

-- What a client asks of an entry. The field's name may be written in any case.
pub data Condition : Type 0 where
  name : Bytes → Bool → Bytes → Condition
  owner : Bytes → Bool → Bytes → Condition
  content : Bytes → Bool → Bytes → Condition
  expires : Bytes → RangeOp → Bound → Condition

abbrev pub print : Condition → FilterData
print (Condition.name field is v) = record { field = field; op = equal_op is; value = v }
print (Condition.owner field is v) = record { field = field; op = equal_op is; value = encode v }
print (Condition.content field is v) = record { field = field; op = equal_op is; value = v }
print (Condition.expires field o b) = record { field = field; op = spell o; value = write_bound b }

abbrev pub Good : Condition → Type 0
Good (Condition.name field is v) = to_lower field ≡ str "name"
Good (Condition.owner field is v) = (to_lower field ≡ str "owner") × All IsByte v
Good (Condition.content field is v) = to_lower field ≡ str "data"
Good (Condition.expires field o b) = (to_lower field ≡ str "expires") × BoundFits b

abbrev pub holds : Condition → NameRegEntry → Bool
holds (Condition.name field is v) e = test_equal is e.name v
holds (Condition.owner field is v) e = test_equal is e.owner v
holds (Condition.content field is v) e = test_equal is e.content v
holds (Condition.expires field o b) e = test o e.expires (bound_value b)

abbrev passes : Condition → Value → Bool
passes c (Value.name_reg_entry e) = holds c e
passes c _ = false

find_name :
    (k : Bytes) → k ≡ str "name" → find_pool k name_reg_filters.filter_pools ≡ some zero_name
unfolding find_pool name_reg_filters to_lower lower bytes_eq
find_name k h = rw h

find_owner :
    (k : Bytes) → k ≡ str "owner" → find_pool k name_reg_filters.filter_pools ≡ some zero_owner
unfolding find_pool name_reg_filters to_lower lower bytes_eq
find_owner k h = rw h

find_data :
    (k : Bytes) → k ≡ str "data" → find_pool k name_reg_filters.filter_pools ≡ some zero_data
unfolding find_pool name_reg_filters to_lower lower bytes_eq
find_data k h = rw h

find_expires :
    (k : Bytes) → k ≡ str "expires" → find_pool k name_reg_filters.filter_pools ≡ some zero_expires
unfolding find_pool name_reg_filters to_lower lower bytes_eq
find_expires k h = rw h

-- The filter that a condition is configured to.
abbrev filter_of : Condition → NameRegFilter
filter_of (Condition.name field is v) =
    NameRegFilter.by_name (record { op = equal_op is; value = v; test = some (test_equal is) })
filter_of (Condition.owner field is v) =
    NameRegFilter.by_owner (record { op = equal_op is; value = v; test = some (test_equal is) })
filter_of (Condition.content field is v) =
    NameRegFilter.by_data (record { op = equal_op is; value = v; test = some (test_equal is) })
filter_of (Condition.expires field o b) =
    NameRegFilter.by_expires (record { op = spell o; value = bound_value b; test = some (test o) })

configure-owner :
    (field : Bytes) (is : Bool) (v : Bytes)
    → All IsByte v
    → name_reg_filter.configure zero_owner (print (Condition.owner field is v))
      ≡ ok (filter_of (Condition.owner field is v))
unfolding name_reg_filter configure_owner bytes_eq
configure-owner field true v h = rw (decode-encode v h)
configure-owner field false v h = rw (decode-encode v h)

configure-expires :
    (field : Bytes) (o : RangeOp) (b : Bound)
    → BoundFits b
    → name_reg_filter.configure zero_expires (print (Condition.expires field o b))
      ≡ ok (filter_of (Condition.expires field o b))
unfolding name_reg_filter configure_expires
configure-expires field o b h =
    rw (parse_number_value-write_bound b h, get_range_filter-spell o (str "expires"))

configure-name :
    (field : Bytes) (is : Bool) (v : Bytes)
    → name_reg_filter.configure zero_name (print (Condition.name field is v))
      ≡ ok (filter_of (Condition.name field is v))
unfolding name_reg_filter configure_name bytes_eq
configure-name field true v = refl
configure-name field false v = refl

configure-data :
    (field : Bytes) (is : Bool) (v : Bytes)
    → name_reg_filter.configure zero_data (print (Condition.content field is v))
      ≡ ok (filter_of (Condition.content field is v))
unfolding name_reg_filter configure_data bytes_eq
configure-data field true v = refl
configure-data field false v = refl

made :
    (c : Condition)
    → Good c
    → new_single_filter name_reg_filter name_reg_filters (print c) ≡ ok (filter_of c)
made (Condition.name field is v) h =
    new_single_filter-some _ _ _ zero_name (find_name _ h) ∙ configure-name field is v
made (Condition.owner field is v) h =
    new_single_filter-some _ _ _ zero_owner (find_owner _ h.0) ∙ configure-owner field is v h.1
made (Condition.content field is v) h =
    new_single_filter-some _ _ _ zero_data (find_data _ h) ∙ configure-data field is v
made (Condition.expires field o b) h =
    new_single_filter-some _ _ _ zero_expires (find_expires _ h.0) ∙ configure-expires field o b h.1

fits : (c : Condition) (w : Value) → name_reg_filter.matches (filter_of c) w ≡ ok (passes c w)
unfolding name_reg_filter match_name match_owner match_data match_expires
fits (Condition.name field true v) (Value.name_reg_entry e) = refl
fits (Condition.name field false v) (Value.name_reg_entry e) = refl
fits (Condition.owner field true v) (Value.name_reg_entry e) = refl
fits (Condition.owner field false v) (Value.name_reg_entry e) = refl
fits (Condition.content field true v) (Value.name_reg_entry e) = refl
fits (Condition.content field false v) (Value.name_reg_entry e) = refl
fits (Condition.expires field o b) (Value.name_reg_entry e) = refl
fits _ _ = refl

configured :
    (c : Condition)
    → Good c
    → (f : NameRegFilter) × (new_single_filter name_reg_filter name_reg_filters (print c) ≡ ok f)
      × ((v : Value) → name_reg_filter.matches f v ≡ ok (passes c v))
configured c h = (filter_of c, made c h, fits c)

iterate-select :
    (t : NameRegEntry → Bool) (g : Filter)
    → ((e : NameRegEntry) → g (Value.name_reg_entry e) ≡ ok (t e))
    → (es out : List NameRegEntry) → iterate g es out ≡ ok (out ++ select t es)
unfolding iterate
iterate-select t g h [] out = rw append-nil
iterate-select t g h (e ∷ es) out =
    rw (h e, iterate-select t g h es) (ap ok (append_if (t e) e out (select t es)))

-- A query by conditions on the name, the owner, the data or the expiry returns the last block
-- height and exactly the entries that meet them all, in the order of the state. The field's name
-- is in any case, an owner is printed as hexadecimal bytes, and a bound is `min`, `max` or an
-- int64.
pub entries-select :
    (state : State) (cs : List Condition)
    → All Good cs
    → entries state (map print cs)
      ≡ ok (record {
        block_height = state.last_block_height;
        names = select (λ e. all_pass (λ c. holds c e) cs) state.names;
      })
unfolding entries
entries-select state cs h =
    let (g, new, passed) =
      new_filter-all_pass name_reg_filter name_reg_filters print passes Good configured cs h in
    rw (
      new,
      iterate-select (λ e. all_pass (λ c. holds c e) cs) g (λ e. passed (Value.name_reg_entry e)),
    )
