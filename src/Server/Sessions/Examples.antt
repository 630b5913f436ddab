-- ===== src/Server/Sessions/Examples.antt =====
-- A manager of at most two sessions.
use eris_db.Base.{ℕ, ◌≤◌, ◌<◌, str, List, [], ◌∷◌, ◌≡◌, ◌⊎◌, refl, ok, err, Error, length}
use eris_db.Server.Sessions.{
  Heap, SessionManager, new_session_manager, create_session, close, close_session, session_at,
  set_session, remove_session_open_event_channel, remove_session_close_event_channel, notify_opened,
  notify_closed,
}
use eris_db.Server.Sessions.Ids.{
  IdsKept, new_session_manager-IdsKept, Created, with_session, create_session-Created,
}
use eris_db.Server.Sessions.Reach.{Step, Reach, here, next, start}
use eris_db.Server.Sessions.Closing.{IsClosedAt, close_once}
use eris_db.Server.Sessions.Observers.{remove_keeps_count}

create_session-Created_example :
    ((2 ≤ 0) × (create_session (start 2) ≡ err (Error.other_error (str "Already at capacity"))))
    ⊎ ((0 < 2)
        × (id : ℕ) × (rest : List ℕ) × Created (start 2) id rest []
        × (create_session (start 2) ≡ ok (0, with_session (start 2) id rest []))
        × IdsKept (with_session (start 2) id rest []).manager)
unfolding new_session_manager
create_session-Created_example =
    create_session-Created (start 2) [] (new_session_manager-IdsKept 2) refl

abbrev after_one : Heap
after_one = with_session (start 2) 1 (2 ∷ []) []

is_closed : IsClosedAt (close after_one 0).0 0
unfolding close close_session session_at set_session
is_closed = (_, refl, refl)

close_once_example :
    close (close (close after_one 0).0 1).0 0 ≡ ((close (close after_one 0).0 1).0, [])
close_once_example = close_once 0 is_closed (next here (Step.closes 1))

abbrev watched : SessionManager
watched = record (new_session_manager 2) {
  open_event_chans = 4 ∷ 6 ∷ [];
  close_event_chans = 4 ∷ [];
}

remove_keeps_count_example :
    (length (notify_opened (remove_session_open_event_channel watched 4).0 3)
      ≡ length (notify_opened watched 3))
    × (length (notify_closed (remove_session_close_event_channel watched 4).0 3)
        ≡ length (notify_closed watched 3))
remove_keeps_count_example = remove_keeps_count watched 4 3
