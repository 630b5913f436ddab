-- ===== src/ErisDb/Query/Terms.antt =====
-- Queries as a client writes them.
use eris_db.Base.{
  ℕ, Bytes, bytes_eq, str, false, ◌≡◌, ◌≢◌, Option, none, some, List, [], ◌∷◌, ◌++◌, Lacks,
}
use eris_db.Pipe.Filters.{FilterData}
use eris_db.Pipe.Filters.Ops.{RangeOp, spell}
use eris_db.ErisDb.Query.{is_operator}

-- An end of a range: `*`, or a value.
pub data End : Type 0 where
  unbounded : End
  at : Bytes → End

pub data Term : Type 0 where
  compare : Bytes → RangeOp → Bytes → Term
  between : Bytes → End → End → Term

abbrev pub write_end : End → Bytes
write_end End.unbounded = str "*"
write_end (End.at v) = v

abbrev pub write_stmt : Term → Bytes
write_stmt (Term.compare field o v) = spell o ++ v
write_stmt (Term.between field lo hi) = write_end lo ++ b'.' ∷ b'.' ∷ write_end hi

abbrev pub field_of : Term → Bytes
field_of (Term.compare field o v) = field
field_of (Term.between field lo hi) = field

abbrev pub write_term : Term → Bytes
write_term t = field_of t ++ b':' ∷ write_stmt t

-- The terms with a space between them.
abbrev pub write_query : Term → List Term → Bytes
write_query t [] = write_term t
write_query t (u ∷ us) = write_term t ++ b' ' ∷ write_query u us

abbrev pub bound_value : Bytes → End → Bytes
bound_value wildcard End.unbounded = wildcard
bound_value wildcard (End.at v) = v

abbrev pub means : Term → FilterData × Option FilterData
means (Term.compare field o v) = (record { field = field; op = spell o; value = v }, none)
means (Term.between field lo hi) = (
  record { field = field; op = str ">="; value = bound_value (str "min") lo },
  some (record { field = field; op = str "<="; value = bound_value (str "max") hi }),
)

-- The text is not empty, and its first byte passes the test.
abbrev pub Starts : (ℕ → Type 0) → Bytes → Type 0
Starts P [] = ⊥
Starts P (c ∷ s) = P c

-- `<` and `>` before a '=' would be read as `<=` and `>=`.
abbrev pub IsClear : RangeOp → Bytes → Type 0
IsClear RangeOp.lt (c ∷ s) = c ≢ b'='
IsClear RangeOp.gt (c ∷ s) = c ≢ b'='
IsClear _ _ = Unit

-- A value that is no `*`, holds no '.', and does not begin with a byte of an operator.
abbrev pub GoodEnd : End → Type 0
GoodEnd End.unbounded = Unit
GoodEnd (End.at v) =
    Starts (λ c. is_operator c ≡ false) v × Lacks b'.' v × (bytes_eq v (str "*") ≡ false)

abbrev pub GoodStmt : Term → Type 0
GoodStmt (Term.compare field o v) = IsClear o v
GoodStmt (Term.between field lo hi) = GoodEnd lo × GoodEnd hi

-- The field is not empty, and neither separator stands in the field or in the statement.
abbrev pub GoodTerm : Term → Type 0
GoodTerm t =
    (bytes_eq (field_of t) [] ≡ false)
    × Lacks b':' (field_of t)
    × Lacks b' ' (field_of t)
    × Lacks b':' (write_stmt t)
    × Lacks b' ' (write_stmt t)
    × GoodStmt t
