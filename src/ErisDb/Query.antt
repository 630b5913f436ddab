-- ===== src/ErisDb/Query.antt =====
-- erisdb/restServer.go: the search query of a GET request.
mod Examples
pub mod Terms
pub mod RoundTrip
use eris_db.Base.{
  ℕ, Bytes, bytes_eq, str, Bool, ◌||◌, Option, none, some, List, [], ◌∷◌, ◌++◌, Result, ok, err,
  Error, ◌==◌, if◌then◌else◌, ◌>>=◌, refl, ◌≡◌,
}
use eris_db.Go.Strings.{split, split_pair}
use eris_db.Pipe.Filters.{FilterData}

abbrev is_operator : ℕ → Bool
is_operator c = c == b'>' || c == b'<' || c == b'=' || c == b'!'

-- A statement that begins with the operator byte `c`.
operator : Bytes → ℕ → Bytes → FilterData
operator field c [] = record { field = field; op = c ∷ []; value = [] }
operator field c (d ∷ s) =
    if d == b'='
    then record { field = field; op = c ∷ d ∷ []; value = s }
    else record { field = field; op = c ∷ []; value = d ∷ s }

-- `*` stands for no bound.
bound_or : Bytes → Bytes → Bytes
bound_or wildcard s = if bytes_eq s (str "*") then wildcard else s

-- The parts of a range query.
range : Bytes → Bytes → List Bytes → Result (FilterData × Option FilterData)
unfolding bound_or
range field stmt (whole ∷ []) = ok (record { field = field; op = str "=="; value = stmt }, none)
range field stmt (lo ∷ hi ∷ []) =
    if bytes_eq lo [] || bytes_eq hi []
    then err (Error.malformed_statement stmt)
    else ok (
      record { field = field; op = str ">="; value = bound_or (str "min") lo },
      some (record { field = field; op = str "<="; value = bound_or (str "max") hi }),
    )
range field stmt _ = err (Error.malformed_statement stmt)

unfoldable pub to_filter_data : Bytes → Bytes → Result (FilterData × Option FilterData)
unfolding operator range
to_filter_data field [] = ok (record { field = field; op = str "=="; value = [] }, none)
to_filter_data field (c ∷ s) =
    if is_operator c
    then ok (operator field c s, none)
    else range field (c ∷ s) (split_pair (c ∷ s) b'.' b'.')

abbrev pub appended : List FilterData → FilterData × Option FilterData → List FilterData
appended fds (fd, none) = fds ++ fd ∷ []
appended fds (fd, some fd2) = fds ++ fd ∷ fd2 ∷ []

-- One term of the query, from its parts at ':'.
parse_term : Bytes → List Bytes → Result (FilterData × Option FilterData)
parse_term f (k ∷ v ∷ []) =
    if bytes_eq k [] then err (Error.missing_field f) else to_filter_data k v
parse_term f _ = err (Error.missing_colon f)

-- The loop over the terms; the last argument is what the rounds before have appended.
parse_terms : List Bytes → List FilterData → Result (List FilterData)
parse_terms [] fds = ok fds
parse_terms (f ∷ fs) fds = do new ← parse_term f (split f b':'); parse_terms fs (appended fds new)

-- A nil list is an empty one.
unfoldable pub parse_search_query : Bytes → Result (List FilterData)
unfolding parse_terms parse_term
parse_search_query [] = ok []
parse_search_query (c ∷ s) = parse_terms (split (c ∷ s) b' ') []

combined :
    parse_search_query (str "balance:>=5 sequence:*..8 test:")
    ≡ ok (
        record { field = str "balance"; op = str ">="; value = str "5" }
        ∷ record { field = str "sequence"; op = str ">="; value = str "min" }
        ∷ record { field = str "sequence"; op = str "<="; value = str "8" }
        ∷ record { field = str "test"; op = str "=="; value = [] }
        ∷ [])
unfolding parse_search_query to_filter_data split split_pair bytes_eq
combined = refl
