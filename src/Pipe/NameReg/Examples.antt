-- ===== src/Pipe/NameReg/Examples.antt =====
-- Queries of three names.
use eris_db.Base.{
  ℕ, bytes_eq, str, true, none, List, [], ◌∷◌, map, ◌≡◌, refl, Bytes, ok, arith, All,
}
use eris_db.Base.Int.{pos}
use eris_db.Go.Strings.{lower, to_lower}
use eris_db.Pipe.Values.{NameRegEntry}
use eris_db.Pipe.Node.{State}
use eris_db.Pipe.Filters.Ops.{RangeOp, test}
use eris_db.Pipe.Filters.Conditions.{Bound}
use eris_db.Pipe.NameReg.{entries}
use eris_db.Pipe.NameReg.Query.{Condition, Good, print, entries-select}

abbrev entry_with : Bytes → Bytes → ℕ → NameRegEntry
entry_with name owner expires = record {
  name = name;
  owner = owner;
  content = [];
  expires = pos expires;
}

abbrev small_state : State
small_state = record {
  last_block_height = pos 7;
  accounts = [];
  get_account = λ _. none;
  load_storage = λ _. record { items = []; get = λ _. none };
  names =
      entry_with (str "a") (1 ∷ []) 5
      ∷ entry_with (str "b") (1 ∷ []) 9
      ∷ entry_with (str "c") (2 ∷ []) 11
      ∷ [];
  get_name_reg_entry = λ _. none;
}

-- Names of the owner 0x01 that expire after height 7.
abbrev live_names : List Condition
live_names =
    Condition.owner (str "owner") true (1 ∷ [])
    ∷ Condition.expires (str "EXPIRES") RangeOp.gt (Bound.number (pos 7))
    ∷ []

live_names-Good : All Good live_names
unfolding to_lower lower
live_names-Good = ((refl, (omega arith, tt)), ((refl, (omega arith, omega arith)), tt))

entries-select_example :
    entries small_state (map print live_names)
    ≡ ok (record { block_height = pos 7; names = entry_with (str "b") (1 ∷ []) 9 ∷ [] })
unfolding bytes_eq test
entries-select_example = entries-select small_state live_names live_names-Good
