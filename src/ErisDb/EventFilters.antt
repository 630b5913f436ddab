-- ===== src/ErisDb/EventFilters.antt =====
-- erisdb/event_filters.go: a filter of events by the hash of their transaction.
use eris_db.Base.{
  ◌≡◌, refl, Bytes, bytes_eq, str, Bool, true, false, not, Option, some, Result, ok, err, Error,
  ◌>>=◌, wrap_err, if◌then◌else◌, All,
}
use eris_db.Go.Hex.{decode, encode, decode-encode, IsByte}
use eris_db.Pipe.Values.{Value}
use eris_db.Pipe.Filters.{FilterData, call_test}
use eris_db.Pipe.Filters.Conditions.{equal_op, test_equal}

-- `match` is nil in the zero value.
pub record AccountCallTxHashFilter : Type 0 where
  pub op : Bytes
  pub value : Bytes
  pub test : Option (Bytes → Bytes → Bool)

-- The message of an unsupported operator quotes `this.op`, the operator that was set before.
pub configure_tx_hash : AccountCallTxHashFilter → FilterData → Result AccountCallTxHashFilter
configure_tx_hash this fd = do
  val ← wrap_err (λ _. Error.wrong_value_type) (decode fd.value)
  if bytes_eq fd.op (str "==")
      then ok (record { op = fd.op; value = val; test = some (λ a b. bytes_eq a b) })
      else if bytes_eq fd.op (str "!=")
      then ok (record { op = fd.op; value = val; test = some (λ a b. not (bytes_eq a b)) })
      else err (Error.op_not_supported this.op (str "code"))

pub match_tx_hash : AccountCallTxHashFilter → Value → Result Bool
match_tx_hash this (Value.event_data_call emct) = call_test this.test emct.tx_id this.value
match_tx_hash this _ = ok false

-- Whether an event is of a transaction, or of another one.
abbrev is_call_of : Bool → Bytes → Value → Bool
is_call_of is hash (Value.event_data_call emct) = test_equal is emct.tx_id hash
is_call_of is hash _ = false

match_value :
    (is : Bool) (op hash : Bytes) (v : Value)
    → match_tx_hash (record { op = op; value = hash; test = some (test_equal is) }) v
      ≡ ok (is_call_of is hash v)
unfolding match_tx_hash
match_value is op hash (Value.event_data_call emct) = refl
match_value is op hash (Value.account a) = refl
match_value is op hash (Value.name_reg_entry e) = refl
match_value is op hash (Value.block_meta m) = refl
match_value is op hash Value.other = refl

-- A filter that is configured with a hash in hexadecimal selects the events of that transaction, or
-- all the others, and nothing but events.
pub configure-match :
    (this : AccountCallTxHashFilter) (field hash : Bytes) (is : Bool) (v : Value)
    → All IsByte hash
    → (configure_tx_hash this (record { field = field; op = equal_op is; value = encode hash })
        >>= λ f. match_tx_hash f v)
      ≡ ok (is_call_of is hash v)
unfolding configure_tx_hash bytes_eq
configure-match this field hash true v h =
    rw (decode-encode hash h) (match_value true (str "==") hash v)
configure-match this field hash false v h =
    rw (decode-encode hash h) (match_value false (str "!=") hash v)
