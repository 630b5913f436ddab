-- ===== src/Server/Sessions/Pumps/Order.antt =====
-- What the pumps of server/websocket.go do with messages, and when the session is closed.
use eris_db.Base.{
  ℕ, ◌≡◌, ◌≢◌, refl, ◌∙◌, ap, sym, true, false, some, [], ◌∷◌, ◌++◌, append_assoc, Bytes, inl, inr,
  Bool-cases,
}
use eris_db.Server.Sessions.{WsSession, Heap, session_at, open_session, write}
use eris_db.Server.Sessions.Pumps.{
  Reader, Writer, Pumps, started, signal, return_reader, sent, send_to, send, Step, Steps,
}
use eris_db.Server.Sessions.Pumps.Rounds.{
  Ordered, session_at-put, finish-Ordered, read_one-Ordered, write_one-Ordered,
}

module _ (p : ℕ) where
  signal-Ordered :
      (st : Pumps) → st.writer ≡ Writer.running → Ordered p st → Ordered p (signal p st)
  unfolding signal
  signal-Ordered st busy o = record {
    session = o.session;
    at = o.at;
    in_order = o.in_order;
    none_lost = λ e. (let bad : ⊥ = cc in absurd bad);
    open_until = λ _. o.open_until (λ e. (let bad : ⊥ = cc in bad));
    shut_after = λ e. (let bad : ⊥ = cc in absurd bad);
    released_after = λ _ e. (let bad : ⊥ = cc in bad);
    returned_after = λ e. (let bad : ⊥ = cc in absurd bad);
  }

  return_reader-Ordered :
      (st : Pumps) → st.reader ≡ Reader.released → Ordered p st → Ordered p (return_reader p st)
  unfolding return_reader
  return_reader-Ordered st free o = record {
    session = o.session;
    at = o.at;
    in_order = o.in_order;
    none_lost = o.none_lost;
    open_until = o.open_until;
    shut_after = o.shut_after;
    released_after = λ e. (let bad : ⊥ = cc in absurd bad);
    returned_after = λ _. o.released_after free;
  }

  shut_out :
      (st : Pumps) (o : Ordered p st) → o.session.closed ≡ false → st.writer ≢ Writer.finished
  shut_out st o live e = (let t = o.shut_after e in let bad : ⊥ = cc in bad)

  send-Ordered : (msg : Bytes) (st : Pumps) → Ordered p st → Ordered p (send p msg st)
  unfolding send send_to sent write
  send-Ordered msg st o = elim (Bool-cases o.session.closed) [
    | inl shut ↦ rw (o.at, send_to, shut) o
    | inr live ↦
        rw (o.at, send_to, live)
          (let s2 : WsSession = record o.session {
            write_chan = o.session.write_chan ++ msg ∷ [];
            closed = false;
          } in
            record {
              session = s2;
              at = session_at-put p s2 o.session st.heap o.at;
              in_order =
                  ap (λ l. l ++ msg ∷ []) o.in_order
                  ∙ append_assoc st.written (st.lost ++ o.session.write_chan) (msg ∷ [])
                  ∙ ap (st.written ++◌) (append_assoc st.lost o.session.write_chan (msg ∷ []));
              none_lost = o.none_lost;
              open_until = λ _. refl;
              shut_after = λ e. absurd (shut_out st o live e);
              released_after = o.released_after;
              returned_after = o.returned_after;
            })
  ]

  Step-Ordered : {st st2 : Pumps} → Step p st st2 → Ordered p st → Ordered p st2
  Step-Ordered (Step.reads {st = st} inc busy) o = read_one-Ordered p inc st busy o
  Step-Ordered (Step.writes {st = st} fine busy) o = write_one-Ordered p fine st busy o
  Step-Ordered (Step.signals {st = st} waits busy) o = signal-Ordered st busy o
  Step-Ordered (Step.returns {st = st} free) o = return_reader-Ordered st free o
  Step-Ordered (Step.finishes {st = st} leaves) o = finish-Ordered p st o
  Step-Ordered (Step.sends {st = st} msg) o = send-Ordered msg st o

  started-Ordered :
      (h : Heap) (s : WsSession)
      → session_at h.sessions p ≡ some s
      → s.write_chan ≡ []
      → s.closed ≡ false
      → Ordered p (started p h)
  unfolding open_session
  started-Ordered h s at empty live = record {
    session = record s { opened = true };
    at = rw (at, open_session) (session_at-put p (record s { opened = true }) s h at);
    in_order = sym empty;
    none_lost = λ _. refl;
    open_until = λ _. live;
    shut_after = λ e. (let bad : ⊥ = cc in absurd bad);
    released_after = λ e. (let bad : ⊥ = cc in absurd bad);
    returned_after = λ e. (let bad : ⊥ = cc in absurd bad);
  }

  -- From the opening of a new session, in every order of steps of its two pumps and of writes by the
  -- service: every message that `Write` has taken is written to the socket, lost, or waits in the
  -- channel, in the order in which they were taken; none is lost while the write pump runs; the
  -- session is open until the deferred `Close` of the write pump has run, and closed from then on; and
  -- the read pump does not return while the write pump is in its loop.
  pub Steps-Ordered :
      (h : Heap) (s : WsSession) {st : Pumps}
      → session_at h.sessions p ≡ some s
      → s.write_chan ≡ []
      → s.closed ≡ false
      → Steps p (started p h) st
      → Ordered p st
  Steps-Ordered h s at empty live Steps.here = started-Ordered h s at empty live
  Steps-Ordered h s at empty live (Steps.next r step) =
      Step-Ordered step (Steps-Ordered h s at empty live r)
