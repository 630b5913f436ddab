-- ===== src/ErisDb/Query/RoundTrip.antt =====
-- Queries as a client writes them, and what the parser makes of them.
use eris_db.Base.{
  Bytes, bytes_eq, str, false, ◌≡◌, refl, ◌∙◌, ap, Option, none, some, List, [], ◌∷◌, ◌++◌, Result,
  ok, arith, Lacks, Lacks-append, All,
}
use eris_db.Go.Strings.{
  split, split_pair, split-Lacks, split-append, split_pair-Lacks, split_pair-append,
}
use eris_db.Pipe.Filters.{FilterData}
use eris_db.Pipe.Filters.Ops.{RangeOp, spell}
use eris_db.ErisDb.Query.{
  is_operator, bound_or, range, to_filter_data, appended, parse_term, parse_terms,
  parse_search_query,
}
use eris_db.ErisDb.Query.Terms.{
  End, Term, write_end, write_stmt, field_of, write_term, write_query, bound_value, means, Starts,
  IsClear, GoodEnd, GoodStmt, GoodTerm,
}

to_filter_data-compare :
    (field : Bytes) (o : RangeOp) (v : Bytes)
    → IsClear o v
    → to_filter_data field (spell o ++ v)
      ≡ ok (record { field = field; op = spell o; value = v }, none)
unfolding to_filter_data
to_filter_data-compare field RangeOp.eq v h = refl
to_filter_data-compare field RangeOp.ne v h = refl
to_filter_data-compare field RangeOp.le v h = refl
to_filter_data-compare field RangeOp.ge v h = refl
to_filter_data-compare field RangeOp.lt [] h = refl
to_filter_data-compare field RangeOp.lt (c ∷ v) h = ground arith
to_filter_data-compare field RangeOp.gt [] h = refl
to_filter_data-compare field RangeOp.gt (c ∷ v) h = ground arith

-- What a good end looks like, with what the parser puts for it.
end_facts :
    (e : End) (wildcard : Bytes)
    → GoodEnd e
    → Starts (λ c. is_operator c ≡ false) (write_end e)
      × Lacks b'.' (write_end e)
      × (bytes_eq (write_end e) [] ≡ false)
      × (bound_or wildcard (write_end e) ≡ bound_value wildcard e)
unfolding bytes_eq bound_or
end_facts End.unbounded wildcard h = (refl, (omega arith, tt), refl, refl)
end_facts (End.at []) wildcard h = absurd h.0
end_facts (End.at (c ∷ v)) wildcard h = (h.0, h.1, refl, rw (h.2, bound_or))

split_pair-ends :
    (lo hi : Bytes)
    → Lacks b'.' lo
    → Lacks b'.' hi
    → split_pair (lo ++ b'.' ∷ b'.' ∷ hi) b'.' b'.' ≡ lo ∷ hi ∷ []
split_pair-ends lo hi hl hh =
    split_pair-append lo hi b'.' b'.' hl ∙ ap (lo ∷◌) (split_pair-Lacks hi b'.' b'.' hh)

-- A statement that begins with no operator is read by its parts.
to_filter_data-range :
    (field lo rest : Bytes) (parts : List Bytes)
    → Starts (λ c. is_operator c ≡ false) lo
    → split_pair (lo ++ rest) b'.' b'.' ≡ parts
    → to_filter_data field (lo ++ rest) ≡ range field (lo ++ rest) parts
to_filter_data-range field [] rest parts h e = absurd h
to_filter_data-range field (c ∷ lo) rest parts h e = unfold to_filter_data in rw (h, e)

range-ends :
    (field stmt lo hi lo2 hi2 : Bytes)
    → bytes_eq lo [] ≡ false
    → bytes_eq hi [] ≡ false
    → bound_or (str "min") lo ≡ lo2
    → bound_or (str "max") hi ≡ hi2
    → range field stmt (lo ∷ hi ∷ [])
      ≡ ok (
        record { field = field; op = str ">="; value = lo2 },
        some (record { field = field; op = str "<="; value = hi2 }),
      )
unfolding range
range-ends field stmt lo hi lo2 hi2 hl hh el eh = rw (hl, hh, el, eh)

to_filter_data-between :
    (field : Bytes) (lo hi : End)
    → GoodEnd lo
    → GoodEnd hi
    → to_filter_data field (write_stmt (Term.between field lo hi))
      ≡ ok (means (Term.between field lo hi))
to_filter_data-between field lo hi hl hh =
    let fl = end_facts lo (str "min") hl in
    let fh = end_facts hi (str "max") hh in
    let rest = b'.' ∷ b'.' ∷ write_end hi in
    to_filter_data-range field (write_end lo) rest (write_end lo ∷ write_end hi ∷ []) fl.0
      (split_pair-ends (write_end lo) (write_end hi) fl.1 fh.1)
    ∙ range-ends field (write_end lo ++ rest) (write_end lo) (write_end hi) _ _ fl.2 fh.2 fl.3 fh.3

to_filter_data-means :
    (t : Term) → GoodStmt t → to_filter_data (field_of t) (write_stmt t) ≡ ok (means t)
to_filter_data-means (Term.compare field o v) h = to_filter_data-compare field o v h
to_filter_data-means (Term.between field lo hi) h = to_filter_data-between field lo hi h.0 h.1

parse_term-parts :
    (f k v : Bytes) (r : Result (FilterData × Option FilterData))
    → bytes_eq k [] ≡ false
    → to_filter_data k v ≡ r
    → parse_term f (k ∷ v ∷ []) ≡ r
unfolding parse_term
parse_term-parts f k v r hk e = rw (hk, e)

parse_term-means :
    (t : Term) → GoodTerm t → parse_term (write_term t) (split (write_term t) b':') ≡ ok (means t)
parse_term-means t (named, field_colon, field_space, stmt_colon, stmt_space, good) =
    ap (parse_term (write_term t)) (
      split-append (field_of t) (write_stmt t) b':' field_colon
      ∙ ap (field_of t ∷◌) (split-Lacks (write_stmt t) b':' stmt_colon))
    ∙ parse_term-parts (write_term t) (field_of t) (write_stmt t) (ok (means t)) named
        (to_filter_data-means t good)

write_term-Lacks : (t : Term) → GoodTerm t → Lacks b' ' (write_term t)
write_term-Lacks t (named, field_colon, field_space, stmt_colon, stmt_space, good) =
    Lacks-append b' ' (field_of t) (b':' ∷ write_stmt t) field_space (omega arith, stmt_space)

abbrev terms_of : Term → List Term → List Bytes
terms_of t [] = write_term t ∷ []
terms_of t (u ∷ us) = write_term t ∷ terms_of u us

split-write_query :
    (t : Term) (us : List Term)
    → GoodTerm t
    → All GoodTerm us
    → split (write_query t us) b' ' ≡ terms_of t us
split-write_query t [] h hs = split-Lacks (write_term t) b' ' (write_term-Lacks t h)
split-write_query t (u ∷ us) h hs =
    split-append (write_term t) (write_query u us) b' ' (write_term-Lacks t h)
    ∙ ap (write_term t ∷◌) (split-write_query u us hs.0 hs.1)

-- The conditions of the terms, in order.
abbrev pub conditions : List Term → List FilterData → List FilterData
conditions [] fds = fds
conditions (t ∷ ts) fds = conditions ts (appended fds (means t))

parse_terms-step :
    (f : Bytes) (fs : List Bytes) (fds : List FilterData) (new : FilterData × Option FilterData)
    → parse_term f (split f b':') ≡ ok new
    → parse_terms (f ∷ fs) fds ≡ parse_terms fs (appended fds new)
unfolding parse_terms
parse_terms-step f fs fds new e = rw e

parse_terms-terms_of :
    (t : Term) (us : List Term) (fds : List FilterData)
    → GoodTerm t
    → All GoodTerm us
    → parse_terms (terms_of t us) fds ≡ ok (conditions (t ∷ us) fds)
parse_terms-terms_of t [] fds h hs =
    parse_terms-step (write_term t) [] fds (means t) (parse_term-means t h)
    ∙ (unfold parse_terms in refl)
parse_terms-terms_of t (u ∷ us) fds h hs =
    parse_terms-step (write_term t) (terms_of u us) fds (means t) (parse_term-means t h)
    ∙ parse_terms-terms_of u us (appended fds (means t)) hs.0 hs.1

parse_search_query-parts :
    (q : Bytes) → bytes_eq q [] ≡ false → parse_search_query q ≡ parse_terms (split q b' ') []
unfolding parse_search_query bytes_eq
parse_search_query-parts [] h = cc
parse_search_query-parts (c ∷ s) h = refl

append-nonempty : (k s : Bytes) → bytes_eq k [] ≡ false → bytes_eq (k ++ s) [] ≡ false
unfolding bytes_eq
append-nonempty [] s h = cc
append-nonempty (c ∷ k) s h = refl

write_query-nonempty :
    (t : Term) (us : List Term) → GoodTerm t → bytes_eq (write_query t us) [] ≡ false
write_query-nonempty t [] h = append-nonempty (field_of t) (b':' ∷ write_stmt t) h.0
write_query-nonempty t (u ∷ us) h =
    append-nonempty (write_term t) (b' ' ∷ write_query u us)
      (append-nonempty (field_of t) (b':' ∷ write_stmt t) h.0)

-- A query written from terms, with a space between them, is read back as exactly the conditions
-- the terms mean, in order: a comparison is one condition, a range is a `>=` and a `<=` with
-- `min` and `max` for `*`. Each field is not empty, no ':' or ' ' stands in a field or a
-- statement, a value after `<` or `>` does not begin with '=', and the value at an end of a range
-- is not empty and no `*`, holds no '.' and does not begin with an operator.
pub parse_search_query-write_query :
    (t : Term) (us : List Term)
    → GoodTerm t
    → All GoodTerm us
    → parse_search_query (write_query t us) ≡ ok (conditions (t ∷ us) [])
parse_search_query-write_query t us h hs =
    parse_search_query-parts (write_query t us) (write_query-nonempty t us h)
    ∙ ap (λ parts. parse_terms parts []) (split-write_query t us h hs)
    ∙ parse_terms-terms_of t us [] h hs
