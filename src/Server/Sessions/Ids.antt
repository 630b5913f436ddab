-- ===== src/Server/Sessions/Ids.antt =====
-- The ids of the pool and of the active sessions are always the numbers from 1 to the maximum.
use mathlib.Core.Path.{subst₂}
use eris_db.Base.{
  str, ℕ, suc, ◌+◌, ◌≤◌, ◌<◌, ◌≡◌, refl, ◌∙◌, ap, false, none, some, List, [], ◌∷◌, ◌++◌, ok, err,
  Error, ◌==◌, if◌then◌else◌, length, length-append, arith, ◌⊎◌, inl, inr, Bool-cases, Option-cases,
}
use eris_db.Server.IdPool.{
  get_id-front, release_id, count, count-append, in_range, count-new_id_pool, length-new_id_pool,
}
use eris_db.Server.Sessions.{
  SessionManager, Heap, new_session_manager, entries, find, put, delete, at_capacity,
  create_session, remove_session, store_session, id_or_zero,
}

abbrev pub keys : List (ℕ × ℕ) → List ℕ
keys [] = []
keys ((k, p) ∷ m) = k ∷ keys m

find_fresh : (k : ℕ) (m : List (ℕ × ℕ)) → count k (keys m) ≡ 0 → find k m ≡ none
unfolding find
find_fresh k [] h = refl
find_fresh k ((j, p) ∷ m) h = ground (arith, find_fresh k m)

keys-put : (k v : ℕ) (m : List (ℕ × ℕ)) → find k m ≡ none → keys (put k v m) ≡ keys m ++ k ∷ []
unfolding find put
keys-put k v [] h = refl
keys-put k v ((j, p) ∷ m) h = ground (arith, keys-put k v m)

length-keys : (m : List (ℕ × ℕ)) → length (keys m) ≡ length m
length-keys [] = refl
length-keys ((k, p) ∷ m) = ap suc (length-keys m)

count-delete :
    (n k : ℕ) (m : List (ℕ × ℕ)) (p : ℕ)
    → find k m ≡ some p
    → count n (keys m) ≡ count n (keys (delete k m)) + (if n == k then 1 else 0)
unfolding find delete
count-delete n k [] p h = cc
count-delete n k ((j, q) ∷ m) p h = ground (arith, count-delete n k m p)

length-delete :
    (k : ℕ) (m : List (ℕ × ℕ)) (p : ℕ) → find k m ≡ some p → length m ≡ suc (length (delete k m))
unfolding find delete
length-delete k [] p h = cc
length-delete k ((j, q) ∷ m) p h = ground (arith, length-delete k m p)

length-put : (k v : ℕ) (m : List (ℕ × ℕ)) → find k m ≡ none → length (put k v m) ≡ suc (length m)
unfolding find put
length-put k v [] h = refl
length-put k v ((j, p) ∷ m) h = ground (arith, length-put k v m)

-- Every id from 1 to `max` stands in `ids` or is a key of `m`, exactly once, and no other number does.
pub record Kept (max : ℕ) (ids : List ℕ) (m : List (ℕ × ℕ)) : Type 0 where
  pub conserved : (n : ℕ) → count n ids + count n (keys m) ≡ in_range 1 max n
  pub total : length ids + length m ≡ max

abbrev pub IdsKept : SessionManager → Type 0
IdsKept m = Kept m.max_sessions m.id_pool.ids (entries m.active_sessions)

pub new_session_manager-IdsKept : (max : ℕ) → IdsKept (new_session_manager max)
unfolding new_session_manager
new_session_manager-IdsKept max = record {
  conserved = λ n. omega (arith, count-new_id_pool n max);
  total = omega (arith, length-new_id_pool max);
}

pub remove_session-IdsKept :
    (m : SessionManager) (id : ℕ) → IdsKept m → IdsKept (remove_session m id)
remove_session-IdsKept m id v = elim (Option-cases (find id (entries m.active_sessions))) [
  | inl absent ↦ unfold remove_session in rw (absent, remove_session) v
  | inr (p, present) ↦
      unfold remove_session release_id in
      rw (present, remove_session)
        (record {
          conserved = λ n. ground (
            arith,
            v.conserved n,
            count-delete n id _ p present,
            count-append n m.id_pool.ids (id ∷ []),
          );
          total =
              omega (
                arith,
                v.total,
                length-delete id _ p present,
                length-append m.id_pool.ids (id ∷ []),
              );
        })
]

-- What `createSession` does below its capacity: it takes an id from the front of the pool, never the
-- 0 of an empty pool, and the id is not in use.
pub record Created (h : Heap) (id : ℕ) (rest : List ℕ) (m : List (ℕ × ℕ)) : Type 0 where
  pub running : h.manager.active_sessions ≡ some m
  pub front : h.manager.id_pool.ids ≡ id ∷ rest
  pub low : 1 ≤ id
  pub high : id ≤ h.manager.max_sessions
  pub fresh : find id m ≡ none

one_place : (id max a b : ℕ) → suc a + b ≡ in_range 1 max id → (1 ≤ id) × (id ≤ max) × (b ≡ 0)
one_place id max a b h = ground arith

count_front : (id : ℕ) (ids rest : List ℕ) → ids ≡ id ∷ rest → count id ids ≡ suc (count id rest)
count_front id ids rest e = rw e (ground arith)

front_Created :
    (h : Heap) (m : List (ℕ × ℕ)) (ids : List ℕ)
    → IdsKept h.manager
    → h.manager.active_sessions ≡ some m
    → h.manager.id_pool.ids ≡ ids
    → at_capacity h.manager ≡ false
    → (id : ℕ) × (rest : List ℕ) × Created h id rest m
unfolding at_capacity
front_Created h m [] v running e room = absurd (ground (arith, v.total))
front_Created h m (id ∷ rest) v running e room =
    let (low, high, unused) =
      one_place id h.manager.max_sessions (count id rest)
        (count id (keys (entries h.manager.active_sessions)))
        (rw (← count_front id h.manager.id_pool.ids rest e) (v.conserved id)) in
    (
      id,
      rest,
      record {
        running = running;
        front = e;
        low = low;
        high = high;
        fresh = find_fresh id m (rw running at unused);
      },
    )

-- The heap after `createSession`.
abbrev pub with_session : Heap → ℕ → List ℕ → List (ℕ × ℕ) → Heap
with_session h id rest m = record {
  manager = record h.manager {
    active_sessions = some (put id (length h.sessions) m);
    id_pool = record { ids = rest };
  };
  sessions = h.sessions ++ record { id = id; write_chan = []; opened = false; closed = false } ∷ [];
}

create_of :
    (h : Heap) (id : ℕ) (rest : List ℕ) (m : List (ℕ × ℕ))
    → at_capacity h.manager ≡ false
    → Created h id rest m
    → create_session h ≡ ok (length h.sessions, with_session h id rest m)
unfolding create_session
create_of h id rest m room c = rw room (
    ap
      (λ r.
        store_session h (id_or_zero r h.manager.id_pool).0 (id_or_zero r h.manager.id_pool).1
          h.manager.active_sessions)
      (get_id-front h.manager.id_pool id rest c.front)
    ∙ ap (store_session h id (record { ids = rest })) c.running)

Kept-add :
    (max id p : ℕ) (rest : List ℕ) (m : List (ℕ × ℕ))
    → Kept max (id ∷ rest) m
    → find id m ≡ none
    → Kept max rest (put id p m)
Kept-add max id p rest m v fresh = record {
  conserved = λ n.
      rw (keys-put id p m fresh) (ground (arith, v.conserved n, count-append n (keys m) (id ∷ [])));
  total = omega (arith, v.total, length-put id p m fresh);
}

with_session-IdsKept :
    (h : Heap) (id : ℕ) (rest : List ℕ) (m : List (ℕ × ℕ))
    → IdsKept h.manager
    → Created h id rest m
    → IdsKept (with_session h id rest m).manager
with_session-IdsKept h id rest m v c =
    Kept-add h.manager.max_sessions id (length h.sessions) rest m
      (subst₂ (λ ids active. Kept h.manager.max_sessions ids (entries active)) c.front c.running v)
      c.fresh

-- On a running manager, where the ids in use and the free ids are the numbers from 1 to the
-- maximum, each once, `createSession` fails just at capacity. Below it the session gets an id from
-- 1 to the maximum that no active session has, and the ids are as before, each once.
pub create_session-Created :
    (h : Heap) (m : List (ℕ × ℕ))
    → IdsKept h.manager
    → h.manager.active_sessions ≡ some m
    → ((h.manager.max_sessions ≤ length m)
        × (create_session h ≡ err (Error.other_error (str "Already at capacity"))))
      ⊎ ((length m < h.manager.max_sessions)
          × (id : ℕ) × (rest : List ℕ) × Created h id rest m
          × (create_session h ≡ ok (length h.sessions, with_session h id rest m))
          × IdsKept (with_session h id rest m).manager)
create_session-Created h m v running = elim (Bool-cases (at_capacity h.manager)) [
  | inl full ↦ inl (
    (unfold at_capacity in ground (arith, ap (λ a. length (entries a)) running)),
    (unfold create_session in rw full),
  )
  | inr room ↦
      let (id, rest, c) = front_Created h m h.manager.id_pool.ids v running refl room in
      inr (
        (unfold at_capacity in ground (arith, ap (λ a. length (entries a)) running)),
        id,
        rest,
        c,
        create_of h id rest m room c,
        with_session-IdsKept h id rest m v c,
      )
]
