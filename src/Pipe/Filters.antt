-- ===== src/Pipe/Filters.antt =====
-- erisdb/pipe/filters.go. A pool never gets a filter back, so it is the value that its `New` makes.
pub mod Ops
pub mod Factory
pub mod Conditions
mod Examples
use eris_db.Base.{
  Bytes, bytes_eq, str, Bool, true, false, not, Option, none, some, List, [], ◌∷◌, ◌++◌, Result, ok,
  err, panic, Error, ◌>>=◌, if◌then◌else◌, wrap_err,
}
use eris_db.Base.Int.{ℤ, min_int64, max_int64, eqb_ℤ, leb_ℤ, ltb_ℤ}
use eris_db.Go.Strings.{to_lower, equal_fold}
use eris_db.Go.Strconv.{parse_int}
use eris_db.Pipe.Values.{Value}

pub record FilterData : Type 0 where
  pub field : Bytes
  pub op : Bytes
  pub value : Bytes

-- A `Filter` is known by its method `Match`, which panics where a nil function is called.
abbrev pub Filter : Type 0
Filter = Value → Result Bool

-- The methods of a type of `ConfigurableFilter`; `configure` returns the filter that it has set.
pub record ConfigurableFilter (F : Type 0) : Type 0 where
  pub configure : F → FilterData → Result F
  pub matches : F → Value → Result Bool

pub record CompositeFilter : Type 0 where
  pub filters : List Filter

pub set_data : CompositeFilter → List Filter → CompositeFilter
set_data c filters = record c { filters = filters }

-- The loop of `CompositeFilter.Match`.
unfoldable pub match_each : List Filter → Filter
match_each [] v = ok true
match_each (f ∷ fs) v = let rest = match_each fs v in do b ← f v; if b then rest else ok false

unfoldable pub composite_match : CompositeFilter → Filter
composite_match c v = match_each c.filters v

unfoldable pub match_all : Filter
match_all v = ok true

pub record FilterFactory (F : Type 0) : Type 0 where
  pub filter_pools : List (Bytes × F)

unfoldable pub find_pool {ℓ} : {F : Type ℓ} → Bytes → List (Bytes × F) → Option F
find_pool k [] = none
find_pool k ((j, pool) ∷ ps) = if bytes_eq j k then some pool else find_pool k ps

put_pool {ℓ} : {F : Type ℓ} → Bytes → F → List (Bytes × F) → List (Bytes × F)
put_pool k pool [] = (k, pool) ∷ []
put_pool k pool ((j, p) ∷ ps) = if bytes_eq j k then (k, pool) ∷ ps else (j, p) ∷ put_pool k pool ps

unfoldable pub new_filter_factory : {F : Type 0} → FilterFactory F
new_filter_factory = record { filter_pools = [] }

unfoldable pub register_filter_pool : {F : Type 0} → FilterFactory F → Bytes → F → FilterFactory F
unfolding put_pool
register_filter_pool ff name pool = record {
  filter_pools = put_pool (to_lower name) pool ff.filter_pools;
}

module _ {F : Type 0} (c : ConfigurableFilter F) (ff : FilterFactory F) where
  unfoldable pub new_single_filter : FilterData → Result F
  new_single_filter fd = elim (find_pool (to_lower fd.field) ff.filter_pools) [
    | none ↦ err (Error.field_not_supported fd.field)
    | some f ↦ c.configure f fd
  ]

  -- The loop of `NewFilter`; `filters` is what the rounds before have appended.
  unfoldable pub new_filters : List FilterData → List Filter → Result (List Filter)
  new_filters [] filters = ok filters
  new_filters (fd ∷ fds) filters = do
    f ← new_single_filter fd
    new_filters fds (filters ++ c.matches f ∷ [])

  unfoldable pub new_filter : List FilterData → Result Filter
  new_filter [] = ok match_all
  new_filter (fd ∷ []) = do f ← new_single_filter fd; ok (c.matches f)
  new_filter (fd ∷ gd ∷ fds) = do
    filters ← new_filters (fd ∷ gd ∷ fds) []
    ok (composite_match (record { filters = filters }))

-- A call of a filter's function, which is nil until the filter is configured: that panics.
abbrev pub call_test {ℓ} : {A : Type ℓ} → Option (A → A → Bool) → A → A → Result Bool
call_test none a b = panic
call_test (some f) a b = ok (f a b)

unfoldable pub parse_number_value : Bytes → Result ℤ
parse_number_value value =
    if bytes_eq value (str "min")
    then ok min_int64
    else if bytes_eq value (str "max")
    then ok max_int64
    else wrap_err (λ _. Error.wrong_value_type) (parse_int value)

unfoldable pub get_range_filter : Bytes → Bytes → Result (ℤ → ℤ → Bool)
get_range_filter op f_name =
    if bytes_eq op (str "==")
    then ok (λ a b. eqb_ℤ a b)
    else if bytes_eq op (str "!=")
    then ok (λ a b. not (eqb_ℤ a b))
    else if bytes_eq op (str "<=")
    then ok (λ a b. leb_ℤ a b)
    else if bytes_eq op (str ">=")
    then ok (λ a b. leb_ℤ b a)
    else if bytes_eq op (str "<")
    then ok (λ a b. ltb_ℤ a b)
    else if bytes_eq op (str ">")
    then ok (λ a b. ltb_ℤ b a)
    else err (Error.op_not_supported op f_name)

unfoldable pub get_string_filter : Bytes → Bytes → Result (Bytes → Bytes → Bool)
get_string_filter op f_name =
    if bytes_eq op (str "==")
    then ok (λ s t. equal_fold s t)
    else if bytes_eq op (str "!=")
    then ok (λ s t. not (equal_fold s t))
    else err (Error.op_not_supported op f_name)
