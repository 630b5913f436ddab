-- ===== src/Server/IdPool.antt =====
-- server/idpool.go. Ids are uints, far from 2^64.
use eris_db.Base.{
  ap, ◌≤◌, ℕ, zero, suc, ◌+◌, ◌≡◌, ◌&&◌, List, [], ◌∷◌, ◌++◌, Result, ok, err, Error, arith, leb,
  ltb, ◌==◌, if◌then◌else◌, length, length-append, str,
}

pub record IdPool : Type 0 where
  pub ids : List ℕ

-- The loop of `init`, from `i` for `rounds` rounds.
push_ids : ℕ → ℕ → List ℕ → List ℕ
push_ids i zero ids = ids
push_ids i (suc rounds) ids = push_ids (i + 1) rounds (ids ++ i ∷ [])

unfoldable pub new_id_pool : ℕ → IdPool
unfolding push_ids
new_id_pool tot_num = record { ids = push_ids 1 tot_num [] }

-- The id is the front of the list.
take_front : List ℕ → Result (ℕ × IdPool)
take_front [] = err (Error.other_error (str "Out of IDs"))
take_front (id ∷ ids) = ok (id, record { ids = ids })

unfoldable pub get_id : IdPool → Result (ℕ × IdPool)
unfolding take_front
get_id pool = take_front pool.ids

unfoldable pub release_id : IdPool → ℕ → IdPool
release_id pool id = record { ids = pool.ids ++ id ∷ [] }

-- How often `n` stands in a list.
abbrev pub count : ℕ → List ℕ → ℕ
count n [] = 0
count n (x ∷ xs) = if n == x then suc (count n xs) else count n xs

pub count-append : (n : ℕ) (xs ys : List ℕ) → count n (xs ++ ys) ≡ count n xs + count n ys
count-append n [] ys = omega arith
count-append n (x ∷ xs) ys = ground (arith, count-append n xs ys)

-- 1 inside the range of ids, 0 outside.
abbrev pub in_range : ℕ → ℕ → ℕ → ℕ
in_range i n k = if leb i k && ltb k (i + n) then 1 else 0

count-push_ids :
    (k i rounds : ℕ) (ids : List ℕ)
    → count k (push_ids i rounds ids) ≡ count k ids + in_range i rounds k
unfolding push_ids
count-push_ids k i zero ids = ground arith
count-push_ids k i (suc rounds) ids =
    ground (arith, count-push_ids k (i + 1) rounds (ids ++ i ∷ []), count-append k ids (i ∷ []))

pub count-new_id_pool : (k tot : ℕ) → count k (new_id_pool tot).ids ≡ in_range 1 tot k
unfolding new_id_pool
count-new_id_pool k tot = ground (arith, count-push_ids k 1 tot [])

length-push_ids :
    (i rounds : ℕ) (ids : List ℕ) → length (push_ids i rounds ids) ≡ length ids + rounds
unfolding push_ids
length-push_ids i zero ids = omega arith
length-push_ids i (suc rounds) ids =
    omega (arith, length-push_ids (i + 1) rounds (ids ++ i ∷ []), length-append ids (i ∷ []))

pub length-new_id_pool : (tot : ℕ) → length (new_id_pool tot).ids ≡ tot
unfolding new_id_pool
length-new_id_pool tot = omega (arith, length-push_ids 1 tot [])

pub get_id-front :
    (pool : IdPool) (id : ℕ) (rest : List ℕ)
    → pool.ids ≡ id ∷ rest
    → get_id pool ≡ ok (id, record { ids = rest })
unfolding get_id
get_id-front pool id rest e = rw (e, take_front)

pub get_id-empty :
    (pool : IdPool) → pool.ids ≡ [] → get_id pool ≡ err (Error.other_error (str "Out of IDs"))
unfolding get_id
get_id-empty pool e = rw (e, take_front)

take_front-count :
    (n id : ℕ) (ids : List ℕ) (pool2 : IdPool)
    → take_front ids ≡ ok (id, pool2)
    → count n pool2.ids ≤ count n ids
unfolding take_front
take_front-count n id [] pool2 e = (let bad : ⊥ = cc in absurd bad)
take_front-count n id (x ∷ xs) pool2 e =
    let same : xs ≡ pool2.ids = cc in ground (arith, ap (count n) same)

-- Taking an id leaves no more of any.
pub get_id-count :
    (n id : ℕ) (pool pool2 : IdPool)
    → get_id pool ≡ ok (id, pool2)
    → count n pool2.ids ≤ count n pool.ids
unfolding get_id
get_id-count n id pool pool2 e = take_front-count n id pool.ids pool2 e
