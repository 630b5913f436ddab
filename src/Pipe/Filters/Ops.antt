-- ===== src/Pipe/Filters/Ops.antt =====
-- What the operators of a filter mean, apart from the code that tests them.
use mathlib.Core.Bool.{false≢true}
use eris_db.Base.{
  inl, inr, ◌⊎◌, sym, ◌∙◌, Bool-cases, Bytes, bytes_eq, str, Bool, true, false, not, ◌≡◌, ◌≢◌, ◌↔◌,
  refl, ok, err, Error, arith, bytes_eq_iff,
}
use eris_db.Base.Int.{ℤ, ◌≤ℤ◌, ◌<ℤ◌, eqb_ℤ_iff, eqb_ℤ, leb_ℤ, ltb_ℤ}
use eris_db.Pipe.Filters.{get_range_filter}

pub data RangeOp : Type 0 where
  eq ne le ge lt gt : RangeOp

abbrev pub spell : RangeOp → Bytes
spell RangeOp.eq = str "=="
spell RangeOp.ne = str "!="
spell RangeOp.le = str "<="
spell RangeOp.ge = str ">="
spell RangeOp.lt = str "<"
spell RangeOp.gt = str ">"

abbrev pub Holds : RangeOp → ℤ → ℤ → Type 0
Holds RangeOp.eq a b = a ≡ b
Holds RangeOp.ne a b = a ≢ b
Holds RangeOp.le a b = a ≤ℤ b
Holds RangeOp.ge a b = b ≤ℤ a
Holds RangeOp.lt a b = a <ℤ b
Holds RangeOp.gt a b = b <ℤ a

-- The test that an operator stands for.
unfoldable pub test : RangeOp → ℤ → ℤ → Bool
test RangeOp.eq a b = eqb_ℤ a b
test RangeOp.ne a b = not (eqb_ℤ a b)
test RangeOp.le a b = leb_ℤ a b
test RangeOp.ge a b = leb_ℤ b a
test RangeOp.lt a b = ltb_ℤ a b
test RangeOp.gt a b = ltb_ℤ b a

pub not_iff : (b : Bool) (P : Type 0) → ((b ≡ true) ↔ P) → ((not b ≡ true) ↔ ¬ P)
not_iff true P h = (λ e. cc, λ n. absurd (n (h.0 refl)))
not_iff false P h = (λ e p. false≢true (h.1 p), λ n. refl)

pub test_iff : (o : RangeOp) (a b : ℤ) → (test o a b ≡ true) ↔ Holds o a b
unfolding test
test_iff RangeOp.eq a b = eqb_ℤ_iff a b
test_iff RangeOp.ne a b = not_iff (eqb_ℤ a b) (a ≡ b) (eqb_ℤ_iff a b)
test_iff RangeOp.le a b = ground arith
test_iff RangeOp.ge a b = ground arith
test_iff RangeOp.lt a b = ground arith
test_iff RangeOp.gt a b = ground arith

pub get_range_filter-spell :
    (o : RangeOp) (name : Bytes) → get_range_filter (spell o) name ≡ ok (test o)
unfolding get_range_filter bytes_eq test
get_range_filter-spell RangeOp.eq name = refl
get_range_filter-spell RangeOp.ne name = refl
get_range_filter-spell RangeOp.le name = refl
get_range_filter-spell RangeOp.ge name = refl
get_range_filter-spell RangeOp.lt name = refl
get_range_filter-spell RangeOp.gt name = refl

get_range_filter_other :
    (op name : Bytes)
    → ((o : RangeOp) → bytes_eq op (spell o) ≡ false)
    → get_range_filter op name ≡ err (Error.op_not_supported op name)
unfolding get_range_filter
get_range_filter_other op name h =
    rw (h RangeOp.eq, h RangeOp.ne, h RangeOp.le, h RangeOp.ge, h RangeOp.lt, h RangeOp.gt)

-- The other operators fail as well, if each of them does.
by_op :
    (P : RangeOp → Type 0)
    → P RangeOp.eq
    → P RangeOp.ne
    → P RangeOp.le
    → P RangeOp.ge
    → P RangeOp.lt
    → P RangeOp.gt
    → (o : RangeOp) → P o
by_op P a b c d e f RangeOp.eq = a
by_op P a b c d e f RangeOp.ne = b
by_op P a b c d e f RangeOp.le = c
by_op P a b c d e f RangeOp.ge = d
by_op P a b c d e f RangeOp.lt = e
by_op P a b c d e f RangeOp.gt = f

spelled :
    (op : Bytes)
    → ((o : RangeOp) × (op ≡ spell o)) ⊎ ((o : RangeOp) → bytes_eq op (spell o) ≡ false)
spelled op = elim (check RangeOp.eq) [
  | inl e ↦ inl (RangeOp.eq, e)
  | inr a ↦ elim (check RangeOp.ne) [
    | inl e ↦ inl (RangeOp.ne, e)
    | inr b ↦ elim (check RangeOp.le) [
      | inl e ↦ inl (RangeOp.le, e)
      | inr c ↦ elim (check RangeOp.ge) [
        | inl e ↦ inl (RangeOp.ge, e)
        | inr d ↦ elim (check RangeOp.lt) [
          | inl e ↦ inl (RangeOp.lt, e)
          | inr e ↦ elim (check RangeOp.gt) [
            | inl h ↦ inl (RangeOp.gt, h)
            | inr f ↦ inr (by_op _ a b c d e f)
          ]
        ]
      ]
    ]
  ]
]
  where
    check : (o : RangeOp) → (op ≡ spell o) ⊎ (bytes_eq op (spell o) ≡ false)
    check o = elim (Bool-cases (bytes_eq op (spell o))) [
      | inl h ↦ inl ((bytes_eq_iff op (spell o)).0 h)
      | inr h ↦ inr h
    ]

-- `GetRangeFilter` takes exactly the six operators. For each it gives a test that passes just when
-- the relation holds, and any other operator is an error that quotes the operator and the field.
pub get_range_filter-Holds :
    (op name : Bytes)
    → ((o : RangeOp) × (op ≡ spell o)
        × (f : ℤ → ℤ → Bool) × (get_range_filter op name ≡ ok f)
        × ((a b : ℤ) → (f a b ≡ true) ↔ Holds o a b))
      ⊎ (((o : RangeOp) → op ≢ spell o)
          × (get_range_filter op name ≡ err (Error.op_not_supported op name)))
get_range_filter-Holds op name = go (spelled op)
  where
    go :
        ((o : RangeOp) × (op ≡ spell o)) ⊎ ((o : RangeOp) → bytes_eq op (spell o) ≡ false)
        → ((o : RangeOp) × (op ≡ spell o)
            × (f : ℤ → ℤ → Bool) × (get_range_filter op name ≡ ok f)
            × ((a b : ℤ) → (f a b ≡ true) ↔ Holds o a b))
          ⊎ (((o : RangeOp) → op ≢ spell o)
              × (get_range_filter op name ≡ err (Error.op_not_supported op name)))
    go (inl (o, e)) = inl (o, e, test o, rw e (get_range_filter-spell o name), test_iff o)
    go (inr none_fits) = inr (
      λ o e. false≢true (sym (none_fits o) ∙ (bytes_eq_iff op (spell o)).1 e),
      get_range_filter_other op name none_fits,
    )
