-- ===== src/Server/Sessions/Links.antt =====
-- The store of sessions and the manager's map name one another.
use eris_db.Base.{
  ℕ, zero, suc, ◌≤◌, ◌≡◌, refl, true, false, none, some, List, [], ◌∷◌, ◌++◌, ◌==◌, if◌then◌else◌,
  length, arith, inl, inr, Bool-cases,
}
use eris_db.Server.IdPool.{count}
use eris_db.Server.Sessions.{WsSession, find, put, delete, session_at, set_session}
use eris_db.Server.Sessions.Ids.{keys}

module _ (s : WsSession) where
  pub session_at-append :
      (ss : List WsSession) (p : ℕ)
      → session_at (ss ++ s ∷ []) p ≡ (if p == length ss then some s else session_at ss p)
  unfolding session_at
  session_at-append [] zero = refl
  session_at-append [] (suc p) = ground arith
  session_at-append (t ∷ ss) zero = ground arith
  session_at-append (t ∷ ss) (suc p) = ground (arith, session_at-append ss p)

  pub session_at-set_session :
      (ss : List WsSession) (p q : ℕ) (t : WsSession)
      → session_at ss p ≡ some t
      → session_at (set_session ss p s) q ≡ (if p == q then some s else session_at ss q)
  unfolding session_at set_session
  session_at-set_session [] p q t h = cc
  session_at-set_session (x ∷ ss) zero zero t h = refl
  session_at-set_session (x ∷ ss) zero (suc q) t h = ground arith
  session_at-set_session (x ∷ ss) (suc p) zero t h = ground arith
  session_at-set_session (x ∷ ss) (suc p) (suc q) t h =
      ground (arith, session_at-set_session ss p q t h)

pub session_at-length : (ss : List WsSession) → session_at ss (length ss) ≡ none
unfolding session_at
session_at-length [] = refl
session_at-length (s ∷ ss) = session_at-length ss

pub find-put :
    (k v j : ℕ) (m : List (ℕ × ℕ)) → find j (put k v m) ≡ (if k == j then some v else find j m)
unfolding find put
find-put k v j [] = refl
find-put k v j ((i, p) ∷ m) = ground (arith, find-put k v j m)

find_absent : (k : ℕ) (m : List (ℕ × ℕ)) → count k (keys m) ≡ 0 → find k m ≡ none
unfolding find
find_absent k [] h = refl
find_absent k ((j, p) ∷ m) h = ground (arith, find_absent k m)

pub find-delete :
    (k j : ℕ) (m : List (ℕ × ℕ))
    → count k (keys m) ≤ 1
    → find j (delete k m) ≡ (if k == j then none else find j m)
unfolding find delete
find-delete k j [] h = ground arith
find-delete k j ((i, p) ∷ m) h = ground (arith, find-delete k j m, find_absent k m)

-- The sessions that are not closed are just those in the map, each under its own id.
pub record Linked (sessions : List WsSession) (m : List (ℕ × ℕ)) : Type 0 where
  pub listed :
      (p : ℕ) (s : WsSession)
      → session_at sessions p ≡ some s
      → s.closed ≡ false
      → find s.id m ≡ some p
  pub backed :
      (id p : ℕ)
      → find id m ≡ some p
      → (s : WsSession) × (session_at sessions p ≡ some s) × (s.id ≡ id) × (s.closed ≡ false)

abbrev pub fresh_session : ℕ → WsSession
fresh_session id = record { id = id; write_chan = []; opened = false; closed = false }

pub Linked-append :
    (ss : List WsSession) (m : List (ℕ × ℕ)) (id : ℕ)
    → find id m ≡ none
    → Linked ss m
    → Linked (ss ++ fresh_session id ∷ []) (put id (length ss) m)
Linked-append ss m id fresh l = record {
  listed = λ p s at live. ground (
    arith,
    session_at-append (fresh_session id) ss p,
    find-put id (length ss) s.id m,
    l.listed p s,
  );
  backed = λ j p found. elim (Bool-cases (id == j)) [
    | inl same ↦ (
      fresh_session id,
      ground (arith, session_at-append (fresh_session id) ss p, find-put id (length ss) j m),
      ground arith,
      refl,
    )
    | inr other ↦
        let (s, at, is, live) = l.backed j p (ground (arith, find-put id (length ss) j m)) in
        (
          s,
          ground (
            arith,
            session_at-append (fresh_session id) ss p,
            session_at-length ss,
            find-put id (length ss) j m,
          ),
          is,
          live,
        )
  ];
}

-- A session that is replaced by one with the same id and the same `closed` stays linked.
pub Linked-set :
    (ss : List WsSession) (m : List (ℕ × ℕ)) (p : ℕ) (s t : WsSession)
    → session_at ss p ≡ some s
    → t.id ≡ s.id
    → t.closed ≡ s.closed
    → Linked ss m
    → Linked (set_session ss p t) m
Linked-set ss m p s t at same alike l = record {
  listed = λ q u at' live.
      ground (arith, session_at-set_session t ss p q s at, l.listed q u, l.listed p s);
  backed = λ id q found.
      let (u, at', is, live) = l.backed id q found in
      elim (Bool-cases (p == q)) [
        | inl here ↦
            (t, ground (arith, session_at-set_session t ss p q s at), ground arith, ground arith)
        | inr there ↦ (u, ground (arith, session_at-set_session t ss p q s at), is, live)
      ];
}

-- A session that is closed leaves the map.
pub Linked-close :
    (ss : List WsSession) (m : List (ℕ × ℕ)) (p : ℕ) (s t : WsSession)
    → session_at ss p ≡ some s
    → s.closed ≡ false
    → t.closed ≡ true
    → count s.id (keys m) ≤ 1
    → Linked ss m
    → Linked (set_session ss p t) (delete s.id m)
Linked-close ss m p s t at live gone once l = record {
  listed = λ q u at' live'. ground (
    arith,
    session_at-set_session t ss p q s at,
    find-delete s.id u.id m once,
    l.listed q u,
    l.listed p s at live,
  );
  backed = λ id q found.
      let (u, at', is, live') = l.backed id q (ground (arith, find-delete s.id id m once)) in
      (
        u,
        ground (arith, session_at-set_session t ss p q s at, find-delete s.id id m once),
        is,
        live',
      );
}
