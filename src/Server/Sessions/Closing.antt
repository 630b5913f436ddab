-- ===== src/Server/Sessions/Closing.antt =====
-- A session that is closed stays closed, and closing it again does nothing.
use eris_db.Base.{
  ℕ, ◌≡◌, refl, true, Option, none, some, List, [], ◌∷◌, ◌++◌, ok, ◌==◌, arith, inl, inr,
  Bool-cases, Option-cases,
}
use eris_db.Server.IdPool.{IdPool, get_id}
use eris_db.Server.Sessions.{
  at_capacity, WsSession, Heap, create_session, session_at, set_session, open_session, close,
  store_session, id_or_zero,
}
use eris_db.Server.Sessions.Links.{
  session_at-set_session, session_at-append, session_at-length, fresh_session,
}
use eris_db.Server.Sessions.Reach.{Step, Reach, here, next}

abbrev pub IsClosedIn : List WsSession → ℕ → Type 0
IsClosedIn ss p = (s : WsSession) × (session_at ss p ≡ some s) × (s.closed ≡ true)

abbrev pub IsClosedAt : Heap → ℕ → Type 0
IsClosedAt h p = IsClosedIn h.sessions p

sessions-store_session :
    (h h' : Heap) (id p : ℕ) (pool : IdPool) (a : Option (List (ℕ × ℕ)))
    → store_session h id pool a ≡ ok (p, h')
    → h'.sessions ≡ h.sessions ++ fresh_session id ∷ []
unfolding store_session
sessions-store_session h h' id p pool none made = cc
sessions-store_session h h' id p pool (some m) made = ground arith

sessions-create_session :
    (h h' : Heap) (p : ℕ)
    → create_session h ≡ ok (p, h')
    → (id : ℕ) × (h'.sessions ≡ h.sessions ++ fresh_session id ∷ [])
unfolding create_session
sessions-create_session h h' p made = (
  (id_or_zero (get_id h.manager.id_pool) h.manager.id_pool).0,
  elim (Bool-cases (at_capacity h.manager)) [
    | inl full ↦ absurd (ground arith)
    | inr room ↦ sessions-store_session h h' _ p _ h.manager.active_sessions (rw room at made)
  ],
)

close_closed : (h : Heap) (p : ℕ) → IsClosedAt h p → close h p ≡ (h, [])
unfolding close
close_closed h p (s, at, shut) = rw (at, close, shut)

module _ (ss : List WsSession) (p : ℕ) where
  append-IsClosedIn : (t : WsSession) → IsClosedIn ss p → IsClosedIn (ss ++ t ∷ []) p
  append-IsClosedIn t (s, at, shut) =
      (s, ground (arith, session_at-append t ss p, session_at-length ss), shut)

  set-IsClosedIn :
      (q : ℕ) (t u : WsSession)
      → session_at ss q ≡ some t
      → (t.closed ≡ true → u.closed ≡ true)
      → IsClosedIn ss p
      → IsClosedIn (set_session ss q u) p
  set-IsClosedIn q t u at' keeps (s, at, shut) = elim (Bool-cases (q == p)) [
    | inl same ↦ (u, ground (arith, session_at-set_session u ss q p t at'), keeps (ground arith))
    | inr other ↦ (s, ground (arith, session_at-set_session u ss q p t at'), shut)
  ]

open-IsClosedAt : (h : Heap) (p q : ℕ) → IsClosedAt h p → IsClosedAt (open_session h q).0 p
unfolding open_session
open-IsClosedAt h p q (s, at, shut) = elim (Option-cases (session_at h.sessions q)) [
  | inl absent ↦ rw (absent, open_session) (s, at, shut)
  | inr (t, at') ↦
      rw (at', open_session)
        (set-IsClosedIn h.sessions p q t (record t { opened = true }) at' (λ e. e) (s, at, shut))
]

close-IsClosedAt : (h : Heap) (p q : ℕ) → IsClosedAt h p → IsClosedAt (close h q).0 p
unfolding close
close-IsClosedAt h p q (s, at, shut) = elim (Option-cases (session_at h.sessions q)) [
  | inl absent ↦ rw (absent, close) (s, at, shut)
  | inr (t, at') ↦ elim (Bool-cases t.closed) [
    | inl was ↦ rw (at', close, was) (s, at, shut)
    | inr live ↦
        rw (at', close, live)
          (set-IsClosedIn h.sessions p q t (record t { closed = true }) at' (λ _. refl)
            (s, at, shut))
  ]
]

Step-IsClosedAt : {h h' : Heap} (p : ℕ) → Step h h' → IsClosedAt h p → IsClosedAt h' p
Step-IsClosedAt {h} {h'} p (Step.creates {p = q} made) c =
    let (id, e) = sessions-create_session h h' q made in
    rw e (append-IsClosedIn h.sessions p (fresh_session id) c)
Step-IsClosedAt {h} p (Step.panics broken got) c = c
Step-IsClosedAt {h} p Step.shuts c = c
Step-IsClosedAt {h} p (Step.opens q) c = open-IsClosedAt h p q c
Step-IsClosedAt {h} p (Step.closes q) c = close-IsClosedAt h p q c

Reach-IsClosedAt : {h h' : Heap} (p : ℕ) → IsClosedAt h p → Reach h h' → IsClosedAt h' p
Reach-IsClosedAt p c here = c
Reach-IsClosedAt p c (next r s) = Step-IsClosedAt p s (Reach-IsClosedAt p c r)

-- Once a session is closed, closing it again after any history changes nothing and tells nobody, so
-- an id that has gone to another session is not set free.
pub close_once : {h h' : Heap} (p : ℕ) → IsClosedAt h p → Reach h h' → close h' p ≡ (h', [])
close_once {h} {h'} p c r = close_closed h' p (Reach-IsClosedAt p c r)
