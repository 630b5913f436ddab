-- ===== src/Pipe/NameReg.antt =====
-- erisdb/pipe/namereg.go.
pub mod Query
mod Examples
use eris_db.Base.{
  Bytes, bytes_eq, str, Bool, not, Option, none, some, List, [], ◌∷◌, ◌++◌, Result, ok, err, panic,
  Error, ◌>>=◌, if◌then◌else◌, wrap_err,
}
use eris_db.Base.Int.{ℤ, pos}
use eris_db.Go.Hex.{decode}
use eris_db.Pipe.Values.{NameRegEntry, Value}
use eris_db.Pipe.Node.{State}
use eris_db.Pipe.Filters.{
  FilterData, Filter, ConfigurableFilter, FilterFactory, new_filter_factory, register_filter_pool,
  new_filter, call_test, parse_number_value, get_range_filter,
}

pub record NameRegNameFilter : Type 0 where
  pub op : Bytes
  pub value : Bytes
  pub test : Option (Bytes → Bytes → Bool)

unfoldable pub configure_name : NameRegNameFilter → FilterData → Result NameRegNameFilter
configure_name this fd =
    if bytes_eq fd.op (str "==")
    then ok (record { op = fd.op; value = fd.value; test = some (λ a b. bytes_eq a b) })
    else if bytes_eq fd.op (str "!=")
    then ok (record { op = fd.op; value = fd.value; test = some (λ a b. not (bytes_eq a b)) })
    else err (Error.op_not_supported this.op (str "name"))

unfoldable pub match_name : NameRegNameFilter → Value → Result Bool
match_name this (Value.name_reg_entry nre) = call_test this.test nre.name this.value
match_name this _ = ok Bool.false

pub record NameRegOwnerFilter : Type 0 where
  pub op : Bytes
  pub value : Bytes
  pub test : Option (Bytes → Bytes → Bool)

unfoldable pub configure_owner : NameRegOwnerFilter → FilterData → Result NameRegOwnerFilter
configure_owner this fd = do
  val ← wrap_err (λ _. Error.wrong_value_type) (decode fd.value)
  if bytes_eq fd.op (str "==")
      then ok (record { op = fd.op; value = val; test = some (λ a b. bytes_eq a b) })
      else if bytes_eq fd.op (str "!=")
      then ok (record { op = fd.op; value = val; test = some (λ a b. not (bytes_eq a b)) })
      else err (Error.op_not_supported this.op (str "owner"))

unfoldable pub match_owner : NameRegOwnerFilter → Value → Result Bool
match_owner this (Value.name_reg_entry nre) = call_test this.test nre.owner this.value
match_owner this _ = ok Bool.false

pub record NameRegDataFilter : Type 0 where
  pub op : Bytes
  pub value : Bytes
  pub test : Option (Bytes → Bytes → Bool)

unfoldable pub configure_data : NameRegDataFilter → FilterData → Result NameRegDataFilter
configure_data this fd =
    if bytes_eq fd.op (str "==")
    then ok (record { op = fd.op; value = fd.value; test = some (λ a b. bytes_eq a b) })
    else if bytes_eq fd.op (str "!=")
    then ok (record { op = fd.op; value = fd.value; test = some (λ a b. not (bytes_eq a b)) })
    else err (Error.op_not_supported this.op (str "data"))

unfoldable pub match_data : NameRegDataFilter → Value → Result Bool
match_data this (Value.name_reg_entry nre) = call_test this.test nre.content this.value
match_data this _ = ok Bool.false

pub record NameRegExpiresFilter : Type 0 where
  pub op : Bytes
  pub value : ℤ
  pub test : Option (ℤ → ℤ → Bool)

unfoldable pub configure_expires : NameRegExpiresFilter → FilterData → Result NameRegExpiresFilter
configure_expires this fd = do
  val ← parse_number_value fd.value
  test ← get_range_filter fd.op (str "expires")
  ok (record { op = fd.op; value = val; test = some test })

unfoldable pub match_expires : NameRegExpiresFilter → Value → Result Bool
match_expires this (Value.name_reg_entry nre) = call_test this.test nre.expires this.value
match_expires this _ = ok Bool.false

-- The filters that the pools of `newNamereg` make.
pub data NameRegFilter : Type 0 where
  by_name : NameRegNameFilter → NameRegFilter
  by_owner : NameRegOwnerFilter → NameRegFilter
  by_data : NameRegDataFilter → NameRegFilter
  by_expires : NameRegExpiresFilter → NameRegFilter

configure_entry : NameRegFilter → FilterData → Result NameRegFilter
configure_entry (NameRegFilter.by_name f) fd = do
  g ← configure_name f fd
  ok (NameRegFilter.by_name g)
configure_entry (NameRegFilter.by_owner f) fd = do
  g ← configure_owner f fd
  ok (NameRegFilter.by_owner g)
configure_entry (NameRegFilter.by_data f) fd = do
  g ← configure_data f fd
  ok (NameRegFilter.by_data g)
configure_entry (NameRegFilter.by_expires f) fd = do
  g ← configure_expires f fd
  ok (NameRegFilter.by_expires g)

match_entry : NameRegFilter → Value → Result Bool
match_entry (NameRegFilter.by_name f) v = match_name f v
match_entry (NameRegFilter.by_owner f) v = match_owner f v
match_entry (NameRegFilter.by_data f) v = match_data f v
match_entry (NameRegFilter.by_expires f) v = match_expires f v

unfoldable pub name_reg_filter : ConfigurableFilter NameRegFilter
unfolding configure_entry match_entry
name_reg_filter = record { configure = configure_entry; matches = match_entry }

abbrev pub zero_name : NameRegFilter
zero_name = NameRegFilter.by_name (record { op = []; value = []; test = none })

abbrev pub zero_owner : NameRegFilter
zero_owner = NameRegFilter.by_owner (record { op = []; value = []; test = none })

abbrev pub zero_data : NameRegFilter
zero_data = NameRegFilter.by_data (record { op = []; value = []; test = none })

abbrev pub zero_expires : NameRegFilter
zero_expires = NameRegFilter.by_expires (record { op = []; value = pos 0; test = none })

-- The filter factory that `newNamereg` sets up.
unfoldable pub name_reg_filters : FilterFactory NameRegFilter
unfolding new_filter_factory register_filter_pool
name_reg_filters =
    let named = register_filter_pool new_filter_factory (str "name") zero_name in
    let owned = register_filter_pool named (str "owner") zero_owner in
    let filled = register_filter_pool owned (str "data") zero_data in
    register_filter_pool filled (str "expires") zero_expires

unfoldable pub entry : State → Bytes → Result NameRegEntry
entry state key = elim (state.get_name_reg_entry key) [
  | none ↦ err (Error.entry_not_found key)
  | some e ↦ ok e
]

pub record ResultListNames : Type 0 where
  pub block_height : ℤ
  pub names : List NameRegEntry

-- The callback of `Iterate`, round by round; it never stops the iteration.
pub iterate : Filter → List NameRegEntry → List NameRegEntry → Result (List NameRegEntry)
iterate filter [] names = ok names
iterate filter (nre ∷ nres) names = do
  fits ← filter (Value.name_reg_entry nre)
  iterate filter nres (if fits then names ++ nre ∷ [] else names)

pub entries : State → List FilterData → Result ResultListNames
entries state filters = do
  filter ← wrap_err Error.in_query (new_filter name_reg_filter name_reg_filters filters)
  names ← iterate filter state.names []
  ok (record { block_height = state.last_block_height; names = names })
