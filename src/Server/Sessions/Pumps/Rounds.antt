-- ===== src/Server/Sessions/Pumps/Rounds.antt =====
-- One round of each pump of server/websocket.go, and the deferred `Close`.
use eris_db.Base.{
  ℕ, ◌≡◌, ◌≢◌, ◌⊎◌, refl, ◌∙◌, ap, sym, Bool, true, false, some, List, [], ◌∷◌, ◌++◌, append_assoc,
  Bytes, inl, inr, Bool-cases, arith,
}
use eris_db.Server.Sessions.{WsSession, Heap, session_at, close}
use eris_db.Server.Sessions.Links.{session_at-set_session}
use eris_db.Server.Sessions.Pumps.{
  Incoming, Reader, Writer, Pumps, read_one, put_session, finish, after_write, take_message,
  write_from, write_one,
}

not_heard :
    (r : Reader)
    → (r ≡ Reader.reading) ⊎ (r ≡ Reader.signalling)
    → (r ≡ Reader.released) ⊎ (r ≡ Reader.returned)
    → ⊥
not_heard r (inl e) (inl f) = (let bad : ⊥ = cc in bad)
not_heard r (inl e) (inr f) = (let bad : ⊥ = cc in bad)
not_heard r (inr e) (inl f) = (let bad : ⊥ = cc in bad)
not_heard r (inr e) (inr f) = (let bad : ⊥ = cc in bad)

module _ (p : ℕ) where
  pub session_at-put :
      (s t : WsSession) (h : Heap)
      → session_at h.sessions p ≡ some t
      → session_at (put_session p s h).sessions p ≡ some s
  session_at-put s t h at = ground (arith, session_at-set_session s h.sessions p p t at)

  -- The session after `Close`.
  close-at :
      (h : Heap) (s : WsSession)
      → session_at h.sessions p ≡ some s
      → session_at (close h p).0.sessions p ≡ some (record s { closed = true })
  unfolding close
  close-at h s at = elim (Bool-cases s.closed) [
    | inl was ↦ rw (at, close, was) (at ∙ ap (λ b. some (record s { closed = b })) was)
    | inr live ↦ rw (at, close, live) (session_at-put (record s { closed = true }) s h at)
  ]

  -- Every message that `Write` has taken is written, lost, or waits, in the order in which they
  -- were taken; none is lost while the write pump runs. The session is open until the deferred `Close`
  -- of the write pump, and closed then. A read pump that goes on after its signal has been heard.
  pub record Ordered (st : Pumps) : Type 0 where
    pub session : WsSession
    pub at : session_at st.heap.sessions p ≡ some session
    pub in_order : st.accepted ≡ st.written ++ (st.lost ++ session.write_chan)
    pub none_lost : st.writer ≡ Writer.running → st.lost ≡ []
    pub open_until : st.writer ≢ Writer.finished → session.closed ≡ false
    pub shut_after : st.writer ≡ Writer.finished → session.closed ≡ true
    pub released_after : st.reader ≡ Reader.released → st.writer ≢ Writer.running
    pub returned_after : st.reader ≡ Reader.returned → st.writer ≢ Writer.running

  pub finish-Ordered : (st : Pumps) → Ordered st → Ordered (finish p st)
  unfolding finish
  finish-Ordered st o = record {
    session = record o.session { closed = true };
    at = close-at st.heap o.session o.at;
    in_order = o.in_order;
    none_lost = λ e. (let bad : ⊥ = cc in absurd bad);
    open_until = λ h. absurd (h refl);
    shut_after = λ _. refl;
    released_after = λ _ e. (let bad : ⊥ = cc in bad);
    returned_after = λ _ e. (let bad : ⊥ = cc in bad);
  }

  -- A read pump that has not been heard has no part in the order.
  waiting-Ordered :
      (st st2 : Pumps) (o : Ordered st)
      → st2.heap ≡ st.heap
      → st2.writer ≡ st.writer
      → st2.accepted ≡ st.accepted
      → st2.written ≡ st.written
      → st2.lost ≡ st.lost
      → (st2.reader ≡ Reader.reading) ⊎ (st2.reader ≡ Reader.signalling)
      → Ordered st2
  waiting-Ordered st st2 o h w a wr l r = record {
    session = o.session;
    at = ap (λ x. session_at x.sessions p) h ∙ o.at;
    in_order =
        a
        ∙ o.in_order
        ∙ ap (λ x. x ++ (st.lost ++ o.session.write_chan)) (sym wr)
        ∙ ap (λ x. st2.written ++ (x ++ o.session.write_chan)) (sym l);
    none_lost = λ e. l ∙ o.none_lost (sym w ∙ e);
    open_until = λ n. o.open_until (λ e. n (w ∙ e));
    shut_after = λ e. o.shut_after (sym w ∙ e);
    released_after = λ e. absurd (not_heard st2.reader r (inl e));
    returned_after = λ e. absurd (not_heard st2.reader r (inr e));
  }

  pub read_one-Ordered :
      (inc : Incoming) (st : Pumps)
      → st.reader ≡ Reader.reading
      → Ordered st
      → Ordered (read_one inc st)
  unfolding read_one
  read_one-Ordered (Incoming.text msg) st busy o =
      waiting-Ordered st _ o refl refl refl refl refl (inl busy)
  read_one-Ordered Incoming.non_text st busy o =
      waiting-Ordered st _ o refl refl refl refl refl (inr refl)
  read_one-Ordered Incoming.failed st busy o =
      waiting-Ordered st _ o refl refl refl refl refl (inr refl)

  -- With no message lost, the order of a message that leaves the channel.
  head_first :
      (accepted written lost : List Bytes) (msg : Bytes) (msgs chan : List Bytes)
      → accepted ≡ written ++ (lost ++ chan)
      → lost ≡ []
      → chan ≡ msg ∷ msgs
      → accepted ≡ written ++ (msg ∷ msgs)
  head_first accepted written lost msg msgs chan order none_lost head =
      order ∙ ap (λ l. written ++ (l ++ chan)) none_lost ∙ ap (written ++◌) head

  take_message-Ordered :
      (fine : Bool) (st : Pumps) (l : List Bytes) (o : Ordered st)
      → o.session.write_chan ≡ l
      → st.writer ≡ Writer.running
      → Ordered (take_message p fine st o.session l)
  unfolding take_message after_write
  take_message-Ordered fine st [] o e busy = o
  take_message-Ordered true st (msg ∷ msgs) o e busy =
      let none_lost = o.none_lost busy in
      record {
        session = record o.session { write_chan = msgs };
        at = session_at-put (record o.session { write_chan = msgs }) o.session st.heap o.at;
        in_order =
            head_first st.accepted st.written st.lost msg msgs o.session.write_chan o.in_order
              none_lost e
            ∙ sym (append_assoc st.written (msg ∷ []) msgs)
            ∙ ap (λ l. (st.written ++ msg ∷ []) ++ (l ++ msgs)) (sym none_lost);
        none_lost = o.none_lost;
        open_until = o.open_until;
        shut_after = o.shut_after;
        released_after = o.released_after;
        returned_after = o.returned_after;
      }
  take_message-Ordered false st (msg ∷ msgs) o e busy = record {
    session = record o.session { write_chan = msgs };
    at = session_at-put (record o.session { write_chan = msgs }) o.session st.heap o.at;
    in_order =
        head_first st.accepted st.written st.lost msg msgs o.session.write_chan o.in_order
          (o.none_lost busy) e;
    none_lost = λ e2. (let bad : ⊥ = cc in absurd bad);
    open_until = λ _. o.open_until (λ e2. (let bad : ⊥ = cc in bad));
    shut_after = λ e2. (let bad : ⊥ = cc in absurd bad);
    released_after = λ _ e2. (let bad : ⊥ = cc in bad);
    returned_after = λ _ e2. (let bad : ⊥ = cc in bad);
  }

  pub write_one-Ordered :
      (fine : Bool) (st : Pumps)
      → st.writer ≡ Writer.running
      → Ordered st
      → Ordered (write_one p fine st)
  unfolding write_one write_from
  write_one-Ordered fine st busy o =
      rw (o.at, write_from) (take_message-Ordered fine st o.session.write_chan o refl busy)
