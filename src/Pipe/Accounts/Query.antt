-- ===== src/Pipe/Accounts/Query.antt =====
-- The accounts that a query returns.
use eris_db.Base.{
  ◌≢◌, bytes_eq_iff, ap, append_if, some, none, ◌∙◌, Bytes, bytes_eq, str, Bool, true, false, ◌≡◌,
  refl, List, [], ◌∷◌, ◌++◌, append-nil, map, ok, err, Error, arith, All, all_pass, select,
}
use eris_db.Base.Int.{pos}
use eris_db.Go.Strings.{lower, to_lower}
use eris_db.Go.Hex.{encode, decode-encode, IsByte}
use eris_db.Pipe.Values.{Account, Value}
use eris_db.Pipe.Node.{State}
use eris_db.Pipe.Filters.{find_pool, FilterData, Filter, new_single_filter}
use eris_db.Pipe.Filters.Ops.{RangeOp, spell, test, get_range_filter-spell}
use eris_db.Pipe.Filters.Conditions.{
  Bound, write_bound, bound_value, BoundFits, parse_number_value-write_bound, equal_op, test_equal,
}
use eris_db.Pipe.Filters.Factory.{
  new_single_filter-some, new_single_filter-none, new_filter-all_pass, new_filter_error,
}
use eris_db.Pipe.Accounts.{
  AccountFilter, account_filter, account_filters, configure_code, configure_balance, match_code,
  match_balance, iterate, accounts,
}

-- What a client asks of an account. The field's name may be written in any case.
pub data Condition : Type 0 where
  code : Bytes → Bool → Bytes → Condition
  balance : Bytes → RangeOp → Bound → Condition

abbrev pub print : Condition → FilterData
print (Condition.code name is v) = record { field = name; op = equal_op is; value = encode v }
print (Condition.balance name o b) = record { field = name; op = spell o; value = write_bound b }

abbrev pub Good : Condition → Type 0
Good (Condition.code name is v) = (to_lower name ≡ str "code") × All IsByte v
Good (Condition.balance name o b) = (to_lower name ≡ str "balance") × BoundFits b

abbrev pub holds : Condition → Account → Bool
holds (Condition.code name is v) a = test_equal is a.code v
holds (Condition.balance name o b) a = test o a.balance (bound_value b)

abbrev passes : Condition → Value → Bool
passes c (Value.account a) = holds c a
passes c _ = false

abbrev zero_code : AccountFilter
zero_code = AccountFilter.by_code (record { op = []; value = []; test = none })

abbrev zero_balance : AccountFilter
zero_balance = AccountFilter.by_balance (record { op = []; value = pos 0; test = none })

find_code : (k : Bytes) → k ≡ str "code" → find_pool k account_filters.filter_pools ≡ some zero_code
unfolding find_pool account_filters to_lower lower bytes_eq
find_code k h = rw h

find_balance :
    (k : Bytes) → k ≡ str "balance" → find_pool k account_filters.filter_pools ≡ some zero_balance
unfolding find_pool account_filters to_lower lower bytes_eq
find_balance k h = rw h

find_other :
    (k : Bytes)
    → k ≢ str "code"
    → k ≢ str "balance"
    → find_pool k account_filters.filter_pools ≡ none
unfolding find_pool account_filters to_lower lower
find_other k nc nb = ground (arith, bytes_eq_iff (str "code") k, bytes_eq_iff (str "balance") k)

abbrev code_filter : Bool → Bytes → AccountFilter
code_filter is v =
    AccountFilter.by_code (record { op = equal_op is; value = v; test = some (test_equal is) })

abbrev balance_filter : RangeOp → Bound → AccountFilter
balance_filter o b =
    AccountFilter.by_balance (record { op = spell o; value = bound_value b; test = some (test o) })

configure-code :
    (name : Bytes) (is : Bool) (v : Bytes)
    → All IsByte v
    → account_filter.configure zero_code (print (Condition.code name is v)) ≡ ok (code_filter is v)
unfolding account_filter configure_code bytes_eq
configure-code name true v h = rw (decode-encode v h)
configure-code name false v h = rw (decode-encode v h)

configure-balance :
    (name : Bytes) (o : RangeOp) (b : Bound)
    → BoundFits b
    → account_filter.configure zero_balance (print (Condition.balance name o b))
      ≡ ok (balance_filter o b)
unfolding account_filter configure_balance
configure-balance name o b h =
    rw (parse_number_value-write_bound b h, get_range_filter-spell o (str "balance"))

matches-code :
    (name : Bytes) (is : Bool) (v : Bytes) (w : Value)
    → account_filter.matches (code_filter is v) w ≡ ok (passes (Condition.code name is v) w)
unfolding account_filter match_code
matches-code name true v (Value.account a) = refl
matches-code name false v (Value.account a) = refl
matches-code name is v _ = refl

matches-balance :
    (name : Bytes) (o : RangeOp) (b : Bound) (w : Value)
    → account_filter.matches (balance_filter o b) w ≡ ok (passes (Condition.balance name o b) w)
unfolding account_filter match_balance
matches-balance name o b (Value.account a) = refl
matches-balance name o b _ = refl

configured :
    (c : Condition)
    → Good c
    → (f : AccountFilter) × (new_single_filter account_filter account_filters (print c) ≡ ok f)
      × ((v : Value) → account_filter.matches f v ≡ ok (passes c v))
configured (Condition.code name is v) h = (
  code_filter is v,
  new_single_filter-some _ _ _ zero_code (find_code _ h.0) ∙ configure-code name is v h.1,
  matches-code name is v,
)
configured (Condition.balance name o b) h = (
  balance_filter o b,
  new_single_filter-some _ _ _ zero_balance (find_balance _ h.0) ∙ configure-balance name o b h.1,
  matches-balance name o b,
)

iterate-select :
    (t : Account → Bool) (g : Filter)
    → ((a : Account) → g (Value.account a) ≡ ok (t a))
    → (accs out : List Account) → iterate g accs out ≡ ok (out ++ select t accs)
unfolding iterate
iterate-select t g h [] out = rw append-nil
iterate-select t g h (a ∷ accs) out =
    rw (h a, iterate-select t g h accs) (ap ok (append_if (t a) a out (select t accs)))

-- A query by conditions on the code or the balance returns exactly the accounts that meet them
-- all, in the order of the state. The field's name is in any case, a code is printed as
-- hexadecimal bytes, and a bound is `min`, `max` or an int64.
pub accounts-select :
    (state : State) (cs : List Condition)
    → All Good cs
    → accounts state (map print cs)
      ≡ ok (record { accounts = select (λ a. all_pass (λ c. holds c a) cs) state.accounts })
unfolding accounts
accounts-select state cs h =
    let (g, made, fits) =
      new_filter-all_pass account_filter account_filters print passes Good configured cs h in
    rw (made, iterate-select (λ a. all_pass (λ c. holds c a) cs) g (λ a. fits (Value.account a)))

-- A query fails at the first filter data that no pool is registered for, after any conditions that
-- are good: the error quotes the name of its field, which is neither `code` nor `balance` in any
-- case.
pub accounts_error :
    (state : State) (cs : List Condition) (fd : FilterData) (fds : List FilterData)
    → All Good cs
    → to_lower fd.field ≢ str "code"
    → to_lower fd.field ≢ str "balance"
    → accounts state (map print cs ++ fd ∷ fds)
      ≡ err (Error.in_query (Error.field_not_supported fd.field))
unfolding accounts
accounts_error state cs fd fds h nc nb = rw (
    new_filter_error account_filter account_filters print passes Good configured cs fd fds h
      (new_single_filter-none _ _ _ (find_other _ nc nb)))
