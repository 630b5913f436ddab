-- ===== src/ErisDb/Events/Keys.antt =====
-- The map of subscriptions of erisdb/event_cache.go: what a deletion leaves, and lookups under tests.
use eris_db.Base.{
  ℕ, ◌≡◌, refl, ◌∙◌, ap, sym, Bool, true, false, not, ◌&&◌, ◌||◌, Option, none, some, List, [], ◌∷◌,
  Bytes, bytes_eq, bytes_eq_sym, eq_of_bytes_eq, if◌then◌else◌, arith, Bool-cases, inl, inr,
}
use eris_db.ErisDb.Events.{find_sub, delete_sub}

absorbed :
    (b c : Bool) (p : ℕ) (y : Option ℕ)
    → b ≡ c
    → (if c then none else y) ≡ (if c then none else (if b then some p else y))
absorbed b true p y e = refl
absorbed true false p y e = cc
absorbed false false p y e = refl

kept :
    (b c : Bool) (p : ℕ) (x y : Option ℕ)
    → (b ≡ true → c ≡ false)
    → x ≡ (if c then none else y)
    → (if b then some p else x) ≡ (if c then none else (if b then some p else y))
kept true true p x y h e = cc (h refl)
kept true false p x y h e = refl
kept false c p x y h e = e

pub differ : (i j k : Bytes) → bytes_eq i j ≡ false → bytes_eq i k ≡ true → bytes_eq j k ≡ false
differ i j k apart same = ap (bytes_eq j) (sym (eq_of_bytes_eq i k same)) ∙ bytes_eq_sym j i ∙ apart

drop_found :
    (k i j : Bytes) (p : ℕ) (m rest : List (Bytes × ℕ))
    → find_sub k rest ≡ (if bytes_eq j k then none else find_sub k m)
    → find_sub k (if not (bytes_eq i j) then (i, p) ∷ rest else rest)
      ≡ (if bytes_eq j k then none else (if bytes_eq i k then some p else find_sub k m))
unfolding find_sub
drop_found k i j p m rest h = elim (Bool-cases (bytes_eq i j)) [
  | inl e ↦ rw e (
      h
      ∙ absorbed (bytes_eq i k) (bytes_eq j k) p (find_sub k m)
          (ap (λ b. bytes_eq b k) (eq_of_bytes_eq i j e)))
  | inr e ↦ rw e (kept (bytes_eq i k) (bytes_eq j k) p _ _ (differ i j k e) h)
]

pub find_sub-delete_sub :
    (k j : Bytes) (m : List (Bytes × ℕ))
    → find_sub k (delete_sub j m) ≡ (if bytes_eq j k then none else find_sub k m)
unfolding find_sub delete_sub
find_sub-delete_sub k j [] = ground arith
find_sub-delete_sub k j ((i, p) ∷ m) =
    drop_found k i j p m (delete_sub j m) (find_sub-delete_sub k j m)

pub either_test :
    (a b : Bool) (o : Option ℕ)
    → (if b then none else (if a then none else o)) ≡ (if a || b then none else o)
either_test true true o = refl
either_test true false o = refl
either_test false true o = refl
either_test false false o = refl

-- No key stands twice in the map.
abbrev pub Distinct : List (Bytes × ℕ) → Type 0
Distinct [] = Unit
Distinct ((j, p) ∷ m) = (find_sub j m ≡ none) × Distinct m

or_false : (b : Bool) → b || false ≡ b
or_false b = ground arith

pub none_here :
    (b x r : Bool) (p : ℕ) (o : Option ℕ)
    → (if b then some p else o) ≡ none
    → (o ≡ none → r ≡ false)
    → (b && x) || r ≡ false
none_here true x r p o h rest = cc
none_here false x r p o h rest = rest h

pub some_here :
    (b r : Bool) (p q : ℕ) (o : Option ℕ) (x : ℕ → Bool)
    → b ≡ true
    → (if b then some q else o) ≡ some p
    → r ≡ false
    → (b && x q) || r ≡ x p
some_here true r p q o x e h none_later =
    let same : q ≡ p = cc in ap (x q ||◌) none_later ∙ or_false (x q) ∙ ap x same
some_here false r p q o x e h none_later = cc

pub later_found :
    (b : Bool) (p q : ℕ) (o : Option ℕ)
    → b ≡ false
    → (if b then some q else o) ≡ some p
    → o ≡ some p
later_found true p q o e h = cc
later_found false p q o e h = h

pub not_here : (b x r : Bool) → b ≡ false → (b && x) || r ≡ r
not_here b x r e = ground (arith, e)

pub both_tests : (l a b : Bool) → (l && not a) && not b ≡ l && not (a || b)
both_tests l a b = ground arith

pub and_true : (b : Bool) → b && true ≡ b
and_true b = ground arith

pub and_false : (b : Bool) → b && false ≡ false
and_false b = ground arith
