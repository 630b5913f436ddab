-- ===== src/Pipe/Accounts.antt =====
-- erisdb/pipe/accounts.go.
pub mod Query
mod Examples
use eris_db.Base.{
  ℕ, Bytes, bytes_eq, str, Bool, not, Option, none, some, List, [], ◌∷◌, ◌++◌, map, length, ◌==◌,
  Result, ok, err, panic, Error, ◌>>=◌, if◌then◌else◌, wrap_err,
}
use eris_db.Base.Int.{ℤ, pos}
use eris_db.Go.Hex.{decode}
use eris_db.Pipe.Values.{Account, Value}
use eris_db.Pipe.Node.{State, PrivAccount}
use eris_db.Pipe.Filters.{
  FilterData, Filter, ConfigurableFilter, FilterFactory, new_filter_factory, register_filter_pool,
  new_filter, call_test, parse_number_value, get_range_filter,
}

-- `match` is nil in the zero value.
pub record AccountCodeFilter : Type 0 where
  pub op : Bytes
  pub value : Bytes
  pub test : Option (Bytes → Bytes → Bool)

-- The message of an unsupported operator quotes `this.op`, the operator that was set before.
unfoldable pub configure_code : AccountCodeFilter → FilterData → Result AccountCodeFilter
configure_code this fd = do
  val ← wrap_err (λ _. Error.wrong_value_type) (decode fd.value)
  if bytes_eq fd.op (str "==")
      then ok (record { op = fd.op; value = val; test = some (λ a b. bytes_eq a b) })
      else if bytes_eq fd.op (str "!=")
      then ok (record { op = fd.op; value = val; test = some (λ a b. not (bytes_eq a b)) })
      else err (Error.op_not_supported this.op (str "code"))

unfoldable pub match_code : AccountCodeFilter → Value → Result Bool
match_code this (Value.account acc) = call_test this.test acc.code this.value
match_code this _ = ok Bool.false

pub record AccountBalanceFilter : Type 0 where
  pub op : Bytes
  pub value : ℤ
  pub test : Option (ℤ → ℤ → Bool)

unfoldable pub configure_balance : AccountBalanceFilter → FilterData → Result AccountBalanceFilter
configure_balance this fd = do
  val ← parse_number_value fd.value
  test ← get_range_filter fd.op (str "balance")
  ok (record { op = fd.op; value = val; test = some test })

unfoldable pub match_balance : AccountBalanceFilter → Value → Result Bool
match_balance this (Value.account acc) = call_test this.test acc.balance this.value
match_balance this _ = ok Bool.false

-- The filters that the pools of `newAccounts` make.
pub data AccountFilter : Type 0 where
  by_code : AccountCodeFilter → AccountFilter
  by_balance : AccountBalanceFilter → AccountFilter

configure_account : AccountFilter → FilterData → Result AccountFilter
configure_account (AccountFilter.by_code f) fd = do
  g ← configure_code f fd
  ok (AccountFilter.by_code g)
configure_account (AccountFilter.by_balance f) fd = do
  g ← configure_balance f fd
  ok (AccountFilter.by_balance g)

match_account : AccountFilter → Value → Result Bool
match_account (AccountFilter.by_code f) v = match_code f v
match_account (AccountFilter.by_balance f) v = match_balance f v

unfoldable pub account_filter : ConfigurableFilter AccountFilter
unfolding configure_account match_account
account_filter = record { configure = configure_account; matches = match_account }

-- The filter factory that `newAccounts` sets up.
unfoldable pub account_filters : FilterFactory AccountFilter
unfolding new_filter_factory register_filter_pool
account_filters =
    register_filter_pool
      (register_filter_pool new_filter_factory (str "code")
        (AccountFilter.by_code (record { op = []; value = []; test = none })))
      (str "balance") (AccountFilter.by_balance (record { op = []; value = pos 0; test = none }))

pub record AccountList : Type 0 where
  pub accounts : List Account

-- The callback of `Iterate`, round by round; it never stops the iteration.
pub iterate : Filter → List Account → List Account → Result (List Account)
iterate filter [] accounts = ok accounts
iterate filter (acc ∷ accs) accounts = do
  fits ← filter (Value.account acc)
  iterate filter accs (if fits then accounts ++ acc ∷ [] else accounts)

pub accounts : State → List FilterData → Result AccountList
accounts state fda = do
  filter ← wrap_err Error.in_query (new_filter account_filter account_filters fda)
  list ← iterate filter state.accounts []
  ok (record { accounts = list })

-- `make` is tendermint's `GenPrivAccountFromPrivKeyBytes`.
unfoldable pub gen_priv_account_from_key : (Bytes → PrivAccount) → Bytes → Result PrivAccount
gen_priv_account_from_key make priv_key =
    if length priv_key == 64 then ok (make priv_key) else err Error.key_not_64_bytes

unfoldable pub new_acc : Bytes → Account
new_acc address = record {
  address = address;
  pub_key = none;
  sequence = pos 0;
  balance = pos 0;
  code = [];
  storage_root = [];
}

-- `cache` is the mempool's cache.
unfoldable pub account : (Bytes → Option Account) → Bytes → Result Account
unfolding new_acc
account cache address = elim (cache address) [ none ↦ ok (new_acc address) | some acc ↦ ok acc ]

pub record StorageItem : Type 0 where
  pub key : Bytes
  pub value : Bytes

pub record Storage : Type 0 where
  pub storage_root : Bytes
  pub storage_items : List StorageItem

-- `pad` is tendermint's `LeftPadWord256(key).Bytes()`.
unfoldable pub storage_at : (Bytes → Bytes) → State → Bytes → Bytes → Result StorageItem
storage_at pad state address key = elim (state.get_account address) [
  | none ↦ ok (record { key = key; value = [] })
  | some acc ↦ elim ((state.load_storage acc.storage_root).get (pad key)) [
    | none ↦ ok (record { key = key; value = [] })
    | some value ↦ ok (record { key = key; value = value })
  ]
]

unfoldable pub storage : State → Bytes → Result Storage
storage state address = elim (state.get_account address) [
  | none ↦ ok (record { storage_root = []; storage_items = [] })
  | some acc ↦ ok (record {
    storage_root = acc.storage_root;
    storage_items =
        map (λ (k, v). record { key = k; value = v }) (state.load_storage acc.storage_root).items;
  })
]
