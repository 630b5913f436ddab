-- ===== src/Server/Sessions/Pumps.antt =====
-- The pumps of server/websocket.go: two goroutines of one session, at the place `p`. What the socket
-- does is the argument of a step, and so is the order of the steps. A request that is read is
-- processed by a goroutine of its own, which writes to the session when it is done. The channel of
-- messages is taken to have room.
pub mod Rounds
pub mod Order
pub mod Stuck
mod Examples
use eris_db.Base.{
  ℕ, Bool, true, false, Option, none, some, List, [], ◌∷◌, ◌++◌, Bytes, Result, ok, err, panic, ◌≡◌,
}
use eris_db.Server.Sessions.{
  WsSession, Heap, create_session, session_at, set_session, open_session, close, write,
  remove_session,
}

-- What `ReadMessage` returns: a text, a message of another type, or an error.
pub data Incoming : Type 0 where
  text : Bytes → Incoming
  non_text failed : Incoming

-- The read pump reads, waits for the write pump to take its signal, is about to return after that,
-- or has returned.
pub data Reader : Type 0 where
  reading signalling released returned : Reader

-- The write pump runs, has left its loop and is about to run the deferred `Close`, or has run it.
pub data Writer : Type 0 where
  running leaving finished : Writer

-- `received`, `accepted`, `written` and `lost` are what has happened to messages: read from the
-- socket, taken by `Write`, written to the socket, and taken from the channel in vain.
pub record Pumps : Type 0 where
  pub heap : Heap
  pub reader : Reader
  pub writer : Writer
  pub received : List Bytes
  pub accepted : List Bytes
  pub written : List Bytes
  pub lost : List Bytes

-- `Open` starts the pumps.
abbrev pub started : ℕ → Heap → Pumps
started p h = record {
  heap = (open_session h p).0;
  reader = Reader.reading;
  writer = Writer.running;
  received = [];
  accepted = [];
  written = [];
  lost = [];
}

-- One round of `readPump`.
pub read_one : Incoming → Pumps → Pumps
read_one (Incoming.text msg) st = record st { received = st.received ++ msg ∷ [] }
read_one Incoming.non_text st = record st { reader = Reader.signalling }
read_one Incoming.failed st = record st { reader = Reader.signalling }

module _ (p : ℕ) where
  abbrev pub put_session : WsSession → Heap → Heap
  put_session s h = record h { sessions = set_session h.sessions p s }

  -- The deferred `Close` of the write pump.
  pub finish : Pumps → Pumps
  finish st = record st { heap = (close st.heap p).0; writer = Writer.finished }

  -- Whether `WriteMessage` returns no error.
  after_write : Bool → Bytes → Pumps → Pumps
  after_write true msg st = record st { written = st.written ++ msg ∷ [] }
  after_write false msg st = record st { lost = msg ∷ []; writer = Writer.leaving }

  take_message : Bool → Pumps → WsSession → List Bytes → Pumps
  take_message fine st s [] = st
  take_message fine st s (msg ∷ msgs) =
      after_write fine msg
        (record st { heap = put_session (record s { write_chan = msgs }) st.heap })

  write_from : Bool → Pumps → Option WsSession → Pumps
  write_from fine st none = st
  write_from fine st (some s) = take_message fine st s s.write_chan

  -- One round of `writePump`; on an empty channel it waits.
  pub write_one : Bool → Pumps → Pumps
  write_one fine st = write_from fine st (session_at st.heap.sessions p)

  -- The write pump takes the signal of the read pump. Then either of the two may go on first.
  pub signal : Pumps → Pumps
  signal st = record st { reader = Reader.released; writer = Writer.leaving }

  pub return_reader : Pumps → Pumps
  return_reader st = record st { reader = Reader.returned }

  sent : Bytes → Pumps → Result WsSession → Pumps
  sent msg st (ok s) = record st {
    heap = put_session s st.heap;
    accepted = st.accepted ++ msg ∷ [];
  }
  sent msg st _ = st

  send_to : Bytes → Pumps → Option WsSession → Pumps
  send_to msg st none = st
  send_to msg st (some s) = sent msg st (write s msg)

  -- The service writes to the session.
  pub send : Bytes → Pumps → Pumps
  send msg st = send_to msg st (session_at st.heap.sessions p)

  -- What may happen next. A signal is taken only by a write pump that runs.
  pub data Step : Pumps → Pumps → Type 0 where
    reads : {st : Pumps} (inc : Incoming) → st.reader ≡ Reader.reading → Step st (read_one inc st)
    writes : {st : Pumps} (fine : Bool) → st.writer ≡ Writer.running → Step st (write_one fine st)
    signals :
        {st : Pumps}
        → st.reader ≡ Reader.signalling
        → st.writer ≡ Writer.running
        → Step st (signal st)
    returns : {st : Pumps} → st.reader ≡ Reader.released → Step st (return_reader st)
    finishes : {st : Pumps} → st.writer ≡ Writer.leaving → Step st (finish st)
    sends : {st : Pumps} (msg : Bytes) → Step st (send msg st)

  pub data Steps (st : Pumps) : Pumps → Type 0 where
    here : Steps st st
    next : {st1 st2 : Pumps} → Steps st st1 → Step st1 st2 → Steps st st2
