-- ===== src/ErisDb/Query/Examples.antt =====
-- A query with a range and two comparisons.
use eris_db.Base.{str, bytes_eq, [], ◌∷◌, ◌≡◌, ok, arith}
use eris_db.Pipe.Filters.Ops.{RangeOp}
use eris_db.ErisDb.Query.{parse_search_query}
use eris_db.ErisDb.Query.Terms.{End, Term, GoodTerm}
use eris_db.ErisDb.Query.RoundTrip.{parse_search_query-write_query}

-- `balance:5..*`
abbrev first : Term
first = Term.between (str "balance") (End.at (str "5")) End.unbounded

-- `code:!=60`
abbrev second : Term
second = Term.compare (str "code") RangeOp.ne (str "60")

-- `sequence:<8`
abbrev third : Term
third = Term.compare (str "sequence") RangeOp.lt (str "8")

first-GoodTerm : GoodTerm first
unfolding bytes_eq
first-GoodTerm = ground arith

second-GoodTerm : GoodTerm second
unfolding bytes_eq
second-GoodTerm = ground arith

third-GoodTerm : GoodTerm third
unfolding bytes_eq
third-GoodTerm = ground arith

parse_search_query-write_query_example :
    parse_search_query (str "balance:5..* code:!=60 sequence:<8")
    ≡ ok (
        record { field = str "balance"; op = str ">="; value = str "5" }
        ∷ record { field = str "balance"; op = str "<="; value = str "max" }
        ∷ record { field = str "code"; op = str "!="; value = str "60" }
        ∷ record { field = str "sequence"; op = str "<"; value = str "8" }
        ∷ [])
parse_search_query-write_query_example =
    parse_search_query-write_query first (second ∷ third ∷ []) first-GoodTerm
      (second-GoodTerm, (third-GoodTerm, tt))
