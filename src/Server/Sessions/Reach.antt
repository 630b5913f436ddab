-- ===== src/Server/Sessions/Reach.antt =====
-- Every history of opening, closing and creating sessions.
use eris_db.Base.{ℕ, ◌≤◌, ◌≡◌, ◌≢◌, none, [], ok, panic}
use eris_db.Server.IdPool.{IdPool, get_id, count, in_range}
use eris_db.Server.Sessions.{
  Heap, new_session_manager, entries, create_session, shutdown, open_session, close,
}
use eris_db.Server.Sessions.Ids.{IdsKept}
use eris_db.Server.Sessions.Links.{Linked}

pub record Inv (h : Heap) : Type 0 where
  pub kept : IdsKept h.manager
  pub running : h.manager.active_sessions ≢ none
  pub linked : Linked h.sessions (entries h.manager.active_sessions)

-- After `Shutdown` the map is gone, and an id is free at most once.
pub record Stopped (h : Heap) : Type 0 where
  pub no_map : h.manager.active_sessions ≡ none
  pub at_most_once : (n : ℕ) → count n h.manager.id_pool.ids ≤ in_range 1 h.manager.max_sessions n

abbrev with_pool : Heap → IdPool → Heap
with_pool h pool = record h { manager = record h.manager { id_pool = pool } }

-- One step of a history: a connection is made, or the attempt panics when it has taken an id; the
-- session at a place is opened or closed; or the manager is shut down.
pub data Step (h : Heap) : Heap → Type 0 where
  creates : {p : ℕ} {h' : Heap} → create_session h ≡ ok (p, h') → Step h h'
  panics :
      {id : ℕ} {pool : IdPool}
      → create_session h ≡ panic
      → get_id h.manager.id_pool ≡ ok (id, pool)
      → Step h (with_pool h pool)
  opens : (p : ℕ) → Step h (open_session h p).0
  closes : (p : ℕ) → Step h (close h p).0
  shuts : Step h (record h { manager = shutdown h.manager })

pub data Reach (h : Heap) : Heap → Type 0 where
  here : Reach h h
  next : {h' h'' : Heap} → Reach h h' → Step h' h'' → Reach h h''

abbrev pub start : ℕ → Heap
start max = record { manager = new_session_manager max; sessions = [] }
