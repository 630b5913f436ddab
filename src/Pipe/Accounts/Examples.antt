-- ===== src/Pipe/Accounts/Examples.antt =====
-- Queries of four accounts.
use eris_db.Base.{
  ℕ, bytes_eq, str, true, none, List, [], ◌∷◌, map, ◌≡◌, refl, Bytes, ok, err, Error, arith, All,
  ◌++◌,
}
use eris_db.Base.Int.{pos}
use eris_db.Go.Strings.{lower, to_lower}
use eris_db.Pipe.Values.{Account}
use eris_db.Pipe.Node.{State}
use eris_db.Pipe.Filters.{FilterData}
use eris_db.Pipe.Filters.Ops.{RangeOp, test}
use eris_db.Pipe.Filters.Conditions.{Bound}
use eris_db.Pipe.Accounts.{accounts}
use eris_db.Pipe.Accounts.Query.{Condition, Good, print, accounts-select, accounts_error}

abbrev account_with : ℕ → Bytes → Account
account_with balance code = record {
  address = [];
  pub_key = none;
  sequence = pos 0;
  balance = pos balance;
  code = code;
  storage_root = [];
}

abbrev small_state : State
small_state = record {
  last_block_height = pos 7;
  accounts =
      account_with 3 []
      ∷ account_with 12 (96 ∷ [])
      ∷ account_with 20 []
      ∷ account_with 5 (96 ∷ [])
      ∷ [];
  get_account = λ _. none;
  load_storage = λ _. record { items = []; get = λ _. none };
  names = [];
  get_name_reg_entry = λ _. none;
}

-- Accounts with the code 0x60 and a balance of at least 10.
abbrev rich_contracts : List Condition
rich_contracts =
    Condition.code (str "Code") true (96 ∷ [])
    ∷ Condition.balance (str "balance") RangeOp.ge (Bound.number (pos 10))
    ∷ []

rich_contracts-Good : All Good rich_contracts
unfolding to_lower lower
rich_contracts-Good = ((refl, (omega arith, tt)), ((refl, (omega arith, omega arith)), tt))

accounts-select_example :
    accounts small_state (map print rich_contracts)
    ≡ ok (record { accounts = account_with 12 (96 ∷ []) ∷ [] })
unfolding bytes_eq test
accounts-select_example = accounts-select small_state rich_contracts rich_contracts-Good

abbrev misspelt : FilterData
misspelt = record { field = str "blance"; op = str "=="; value = str "3" }

accounts_error_example :
    accounts small_state (map print rich_contracts ++ misspelt ∷ [])
    ≡ err (Error.in_query (Error.field_not_supported (str "blance")))
unfolding to_lower lower
accounts_error_example =
    accounts_error small_state rich_contracts misspelt [] rich_contracts-Good (λ e. cc) (λ e. cc)
