-- ===== src/Server/Sessions.antt =====
-- server/websocket.go: sessions and their manager. A session is an object that the manager's map and
-- the pumps share: it stands in a store and is named by its place there. Each method is one step,
-- which is what its mutex gives; `Shutdown` takes none, and its overlap with others is not modelled.
mod Examples
pub mod Ids
pub mod Links
pub mod Reach
pub mod Closing
pub mod Observers
pub mod Pumps
use eris_db.Base.{
  ℕ, zero, suc, ◌+◌, ◌-◌, ◌≤◌, Bool, true, false, Option, none, some, List, [], ◌∷◌, ◌++◌, map,
  Bytes, str, Result, ok, err, panic, Error, leb, ◌==◌, if◌then◌else◌, length, ◌>>=◌,
}
use eris_db.Server.IdPool.{IdPool, new_id_pool, get_id, release_id}

pub record WsSession : Type 0 where
  pub id : ℕ
  pub write_chan : List Bytes
  pub opened : Bool
  pub closed : Bool

-- `active_sessions` is nil after `Shutdown`; the map holds the places of the sessions.
pub record SessionManager : Type 0 where
  pub max_sessions : ℕ
  pub active_sessions : Option (List (ℕ × ℕ))
  pub id_pool : IdPool
  pub open_event_chans : List ℕ
  pub close_event_chans : List ℕ

-- The manager and every session that was ever made.
pub record Heap : Type 0 where
  pub manager : SessionManager
  pub sessions : List WsSession

pub new_session_manager : ℕ → SessionManager
new_session_manager max_sessions = record {
  max_sessions = max_sessions;
  active_sessions = some [];
  id_pool = new_id_pool max_sessions;
  open_event_chans = [];
  close_event_chans = [];
}

unfoldable pub shutdown : SessionManager → SessionManager
shutdown m = record m { active_sessions = none }

abbrev pub entries : Option (List (ℕ × ℕ)) → List (ℕ × ℕ)
entries none = []
entries (some m) = m

unfoldable pub find : ℕ → List (ℕ × ℕ) → Option ℕ
find k [] = none
find k ((j, p) ∷ m) = if j == k then some p else find k m

unfoldable pub put : ℕ → ℕ → List (ℕ × ℕ) → List (ℕ × ℕ)
put k v [] = (k, v) ∷ []
put k v ((j, p) ∷ m) = if j == k then (k, v) ∷ m else (j, p) ∷ put k v m

unfoldable pub delete : ℕ → List (ℕ × ℕ) → List (ℕ × ℕ)
delete k [] = []
delete k ((j, p) ∷ m) = if j == k then m else (j, p) ∷ delete k m

unfoldable pub at_capacity : SessionManager → Bool
at_capacity m = leb m.max_sessions (length (entries m.active_sessions))

-- `newId, _ := this.idPool.GetId()`: with no id left the new id is 0.
abbrev pub id_or_zero : Result (ℕ × IdPool) → IdPool → ℕ × IdPool
id_or_zero (ok (id, pool)) old = (id, pool)
id_or_zero _ old = (0, old)

-- `this.activeSessions[conn.id] = conn`: a write to a nil map panics.
store_session : Heap → ℕ → IdPool → Option (List (ℕ × ℕ)) → Result (ℕ × Heap)
store_session h id pool none = panic
store_session h id pool (some m) =
    let place = length h.sessions in
    ok (
      place,
      record {
        manager = record h.manager { active_sessions = some (put id place m); id_pool = pool };
        sessions =
            h.sessions ++ record { id = id; write_chan = []; opened = false; closed = false } ∷ [];
      },
    )

-- The place of the new session.
unfoldable pub create_session : Heap → Result (ℕ × Heap)
unfolding at_capacity store_session
create_session h =
    if at_capacity h.manager
    then err (Error.other_error (str "Already at capacity"))
    else (let (id, pool) = id_or_zero (get_id h.manager.id_pool) h.manager.id_pool in
        store_session h id pool h.manager.active_sessions)

-- Deleting from a nil map is harmless, and nothing is found in one.
unfoldable pub remove_session : SessionManager → ℕ → SessionManager
remove_session m id = elim (find id (entries m.active_sessions)) [
  | none ↦ m
  | some p ↦ record m {
    active_sessions = some (delete id (entries m.active_sessions));
    id_pool = release_id m.id_pool id;
  }
]

unfoldable pub session_at : List WsSession → ℕ → Option WsSession
session_at [] i = none
session_at (s ∷ ss) zero = some s
session_at (s ∷ ss) (suc i) = session_at ss i

unfoldable pub set_session : List WsSession → ℕ → WsSession → List WsSession
set_session [] i v = []
set_session (s ∷ ss) zero v = v ∷ ss
set_session (s ∷ ss) (suc i) v = s ∷ set_session ss i v

-- What is sent to the observers: the channel and the place of the session.
unfoldable pub notify_opened : SessionManager → ℕ → List (ℕ × ℕ)
notify_opened m p = map (λ c. (c, p)) m.open_event_chans

unfoldable pub notify_closed : SessionManager → ℕ → List (ℕ × ℕ)
notify_closed m p = map (λ c. (c, p)) m.close_event_chans

-- `Open` up to the start of the pumps; a place where no session stands is no receiver.
unfoldable pub open_session : Heap → ℕ → Heap × List (ℕ × ℕ)
unfolding session_at set_session notify_opened
open_session h p = elim (session_at h.sessions p) [
  | none ↦ (h, [])
  | some s ↦ (
    record h { sessions = set_session h.sessions p (record s { opened = true }) },
    notify_opened h.manager p,
  )
]

close_session : Heap → ℕ → WsSession → Heap × List (ℕ × ℕ)
close_session h p s = if s.closed then (h, []) else (
  record {
    manager = remove_session h.manager s.id;
    sessions = set_session h.sessions p (record s { closed = true });
  },
  notify_closed h.manager p,
)

unfoldable pub close : Heap → ℕ → Heap × List (ℕ × ℕ)
unfolding session_at set_session notify_closed close_session
close h p = elim (session_at h.sessions p) [ none ↦ (h, []) | some s ↦ close_session h p s ]

-- `Write`: the message waits in the channel for the write pump.
unfoldable pub write : WsSession → Bytes → Result WsSession
write s msg =
    if s.closed
    then err (Error.other_error (str "Session is closed"))
    else ok (record s { write_chan = s.write_chan ++ msg ∷ [] })

-- The channel that `make` returns is given.
unfoldable pub session_open_event_channel : SessionManager → ℕ → SessionManager
session_open_event_channel m c = record m { open_event_chans = m.open_event_chans ++ c ∷ [] }

unfoldable pub session_close_event_channel : SessionManager → ℕ → SessionManager
session_close_event_channel m c = record m { close_event_chans = m.close_event_chans ++ c ∷ [] }

abbrev pub last_chan : ℕ → List ℕ → ℕ
last_chan c [] = c
last_chan c (d ∷ cs) = last_chan d cs

-- The loop over `ec`, with the last channel of the whole slice. `ec` is a copy of the slice header:
-- the write to `ec[i]` reaches the manager's array, the shorter `ec` does not reach the manager.
overwrite : ℕ → ℕ → List ℕ → List ℕ × Bool
overwrite l_chan last [] = ([], false)
overwrite l_chan last (c ∷ cs) =
    let (rest, found) = overwrite l_chan last cs in
    if l_chan == c then (last ∷ cs, true) else (c ∷ rest, found)

remove_chan : List ℕ → ℕ → List ℕ × Bool
remove_chan [] l_chan = ([], false)
remove_chan (c ∷ cs) l_chan = overwrite l_chan (last_chan c cs) (c ∷ cs)

pub remove_session_open_event_channel : SessionManager → ℕ → SessionManager × Bool
remove_session_open_event_channel m l_chan =
    let (chans, found) = remove_chan m.open_event_chans l_chan in
    (record m { open_event_chans = chans }, found)

pub remove_session_close_event_channel : SessionManager → ℕ → SessionManager × Bool
remove_session_close_event_channel m l_chan =
    let (chans, found) = remove_chan m.close_event_chans l_chan in
    (record m { close_event_chans = chans }, found)
