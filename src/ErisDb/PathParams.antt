-- ===== src/ErisDb/PathParams.antt =====
-- erisdb/restServer.go: the middleware that reads the parameters of a path or a query. A handler
-- runs after it unless the context is aborted; an aborted context keeps the values that are set.
mod Examples
pub mod Checked
use eris_db.Base.{
  ℕ, Bytes, bytes_eq, str, Bool, true, false, not, ◌||◌, Option, none, some, List, [], Result, ok,
  err, panic, Error, ◌==◌, if◌then◌else◌, length,
}
use eris_db.Base.Int.{ℤ, pos, ltb_ℤ}
use eris_db.Go.Strconv.{parse_int}
use eris_db.Go.Hex.{decode}
use eris_db.Util.{is_address, is_hex}
use eris_db.Pipe.Filters.{FilterData}
use eris_db.ErisDb.Query.{parse_search_query}

-- The status with which gin's context is aborted, and the keys that the middleware sets.
pub record Context : Type 0 where
  pub aborted : Option ℕ
  pub addr_bts : Option Bytes
  pub name : Option Bytes
  pub key_bts : Option Bytes
  pub height : Option ℤ
  pub id : Option Bytes
  pub address : Option Bytes
  pub hold : Option Bool
  pub filters : Option (List FilterData)

abbrev pub bad_request : ℕ
bad_request = 400

abbrev abort_if : Bool → Context → Context
abort_if b c = if b then record c { aborted = some bad_request } else c

abbrev pub is_err {ℓ} : {A : Type ℓ} → Result A → Bool
is_err (ok a) = false
is_err _ = true

-- The value that a call returns next to its error is `fallback`; it depends on the version of Go.
abbrev pub value_or {ℓ} : {A : Type ℓ} → A → Result A → A
value_or fallback (ok a) = a
value_or fallback _ = fallback

unfoldable pub address_param : Bytes → Bytes → Context → Context
address_param fallback addr c = record (abort_if (not (is_address addr)) c) {
  addr_bts = some (value_or fallback (decode addr));
}

unfoldable pub name_param : Bytes → Context → Context
name_param key c = record c { name = some key }

unfoldable pub key_param : Bytes → Bytes → Context → Context
key_param fallback key c =
    let r = decode key in record (abort_if (is_err r) c) { key_bts = some (value_or fallback r) }

unfoldable pub height_param : ℤ → Bytes → Context → Context
height_param fallback text c =
    let r = parse_int text in
    let h = value_or fallback r in
    record (abort_if (ltb_ℤ h (pos 0)) (abort_if (is_err r) c)) { height = some h }

unfoldable pub sub_id_param : Bytes → Context → Context
sub_id_param sub_id c = record (abort_if (not (length sub_id == 64) || not (is_hex sub_id)) c) {
  id = some sub_id;
}

unfoldable pub peer_address_param : Bytes → Context → Context
peer_address_param sub_id c = record c { address = some sub_id }

unfoldable pub parse_tx_modifier : Bytes → Context → Context
parse_tx_modifier text c =
    if bytes_eq text (str "true")
    then record c { hold = some true }
    else if bytes_eq text []
    then c
    else if bytes_eq text (str "false")
    then c
    else record c { aborted = some bad_request }

set_filters : Result (List FilterData) → Context → Context
set_filters (ok fds) c = record c { filters = some fds }
set_filters _ c = record c { aborted = some bad_request }

unfoldable pub search_query_param : Bytes → Context → Context
unfolding set_filters
search_query_param q c = if bytes_eq q [] then c else set_filters (parse_search_query q) c
