-- ===== src/Server/Sessions/Pumps/Examples.antt =====
-- A session that sends one of two messages before it is closed, and one whose write pump is gone.
use eris_db.Base.{◌≢◌, refl, str, true, false, [], ◌∷◌}
use eris_db.Server.Sessions.{WsSession, Heap, new_session_manager, session_at, open_session, write}
use eris_db.Server.Sessions.Pumps.{
  Incoming, Reader, Pumps, started, read_one, write_one, signal, finish, return_reader, send_to,
  sent, send, after_write, take_message, write_from, Step, Steps,
}
use eris_db.Server.Sessions.Pumps.Rounds.{Ordered}
use eris_db.Server.Sessions.Pumps.Order.{Steps-Ordered}
use eris_db.Server.Sessions.Pumps.Stuck.{Steps-Stuck}

abbrev new_one : WsSession
new_one = record { id = 1; write_chan = []; opened = false; closed = false }

abbrev one_heap : Heap
one_heap = record { manager = new_session_manager 2; sessions = new_one ∷ [] }

-- The read pump returns before the session is closed.
abbrev ended : Pumps
ended = finish 0 (
    return_reader 0 (
      signal 0 (
        read_one Incoming.failed
          (write_one 0 true (send 0 (str "b") (send 0 (str "a") (started 0 one_heap)))))))

history : Steps 0 (started 0 one_heap) ended
unfolding open_session session_at write_one send read_one send_to sent write write_from take_message
    after_write signal return_reader finish
history =
    Steps.next
      (Steps.next
        (Steps.next
          (Steps.next
            (Steps.next
              (Steps.next (Steps.next Steps.here (Step.sends (str "a"))) (Step.sends (str "b")))
              (Step.writes true refl))
            (Step.reads Incoming.failed refl))
          (Step.signals refl refl))
        (Step.returns refl))
      (Step.finishes refl)

Steps-Ordered_example : Ordered 0 ended
unfolding session_at
Steps-Ordered_example = Steps-Ordered 0 one_heap new_one refl refl refl history

-- A session with a message for its client, which is not there any more.
abbrev waiting : Pumps
waiting = send 0 (str "a") (started 0 one_heap)

abbrev waiting_session : WsSession
waiting_session = record { id = 1; write_chan = str "a" ∷ []; opened = true; closed = false }

Steps-Stuck_example :
    (finish 0 (read_one Incoming.failed (write_one 0 false waiting))).reader ≢ Reader.returned
unfolding open_session session_at write_one send read_one send_to sent write write_from take_message
    after_write finish
Steps-Stuck_example =
    Steps-Stuck 0 one_heap new_one waiting_session (str "a") [] refl refl refl
      (Steps.next Steps.here (Step.sends (str "a"))) refl refl refl
      (Steps.next (Steps.next Steps.here (Step.reads Incoming.failed refl)) (Step.finishes refl))
