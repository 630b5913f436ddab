-- ===== src/Server/Sessions/Pumps/Stuck.antt =====
-- A read pump of server/websocket.go that outlives its write pump.
use eris_db.Base.{
  ℕ, ◌≡◌, ◌≢◌, ◌⊎◌, Option, none, some, List, [], ◌∷◌, Bytes, false, refl, Result-cases, inl, inr,
}
use eris_db.Server.Sessions.{WsSession, Heap, session_at, write}
use eris_db.Server.Sessions.Pumps.{
  Incoming, Reader, Writer, Pumps, started, read_one, write_one, write_from, take_message,
  after_write, finish, sent, send_to, send, Step, Steps,
}
use eris_db.Server.Sessions.Pumps.Order.{Steps-Ordered}

-- The read pump has not been heard by the write pump.
abbrev Unheard : Pumps → Type 0
Unheard st = (st.reader ≡ Reader.reading) ⊎ (st.reader ≡ Reader.signalling)

unheard :
    (r : Reader)
    → r ≢ Reader.released
    → r ≢ Reader.returned
    → (r ≡ Reader.reading) ⊎ (r ≡ Reader.signalling)
unheard Reader.reading h h2 = inl refl
unheard Reader.signalling h h2 = inr refl
unheard Reader.released h h2 = absurd (h refl)
unheard Reader.returned h h2 = absurd (h2 refl)

module _ (p : ℕ) where
  -- The write pump has left its loop without hearing the read pump.
  abbrev Stuck : Pumps → Type 0
  Stuck st = (st.writer ≢ Writer.running) × Unheard st

  sent-Stuck :
      (msg : Bytes) (st : Pumps) (o : Option WsSession) → Stuck st → Stuck (send_to p msg st o)
  unfolding send_to sent
  sent-Stuck msg st none h = h
  sent-Stuck msg st (some s) h = elim (Result-cases (write s msg)) [
    | inl (s2, e) ↦ rw (e, sent) h
    | inr (inl (x, e)) ↦ rw (e, sent) h
    | inr (inr e) ↦ rw (e, sent) h
  ]

  not_released : (st : Pumps) → Unheard st → st.reader ≡ Reader.released → ⊥
  not_released st (inl e) f = (let bad : ⊥ = cc in bad)
  not_released st (inr e) f = (let bad : ⊥ = cc in bad)

  Step-Stuck : {st st2 : Pumps} → Step p st st2 → Stuck st → Stuck st2
  Step-Stuck (Step.reads {st = st} (Incoming.text msg) busy) h = unfold read_one in h
  Step-Stuck (Step.reads {st = st} Incoming.non_text busy) h = unfold read_one in (h.0, inr refl)
  Step-Stuck (Step.reads {st = st} Incoming.failed busy) h = unfold read_one in (h.0, inr refl)
  Step-Stuck (Step.writes {st = st} fine busy) h = absurd (h.0 busy)
  Step-Stuck (Step.signals {st = st} waits busy) h = absurd (h.0 busy)
  Step-Stuck (Step.returns {st = st} free) h = absurd (not_released st h.1 free)
  Step-Stuck (Step.finishes {st = st} leaves) h =
      unfold finish in (λ e. (let bad : ⊥ = cc in bad), h.1)
  Step-Stuck (Step.sends {st = st} msg) h =
      unfold send in sent-Stuck msg st (session_at st.heap.sessions p) h

  Steps-keeps : {st st2 : Pumps} → Steps p st st2 → Stuck st → Stuck st2
  Steps-keeps Steps.here h = h
  Steps-keeps (Steps.next r step) h = Step-Stuck step (Steps-keeps r h)

  never : (st : Pumps) → Unheard st → st.reader ≢ Reader.returned
  never st (inl e) f = (let bad : ⊥ = cc in bad)
  never st (inr e) f = (let bad : ⊥ = cc in bad)

  failed-Stuck :
      (st : Pumps) (s : WsSession) (msg : Bytes) (msgs : List Bytes)
      → session_at st.heap.sessions p ≡ some s
      → s.write_chan ≡ msg ∷ msgs
      → Unheard st
      → Stuck (write_one p false st)
  unfolding write_one write_from take_message after_write
  failed-Stuck st s msg msgs at waits h =
      rw (at, write_from, waits, take_message) ((λ e. (let bad : ⊥ = cc in bad)), h)

  -- From the opening of a new session, in every history: when the write of a waiting message to the
  -- socket fails while the write pump runs, the read pump never returns, whatever happens next,
  -- because nothing is left to take its signal.
  pub Steps-Stuck :
      (h : Heap) (s s2 : WsSession) {st st2 : Pumps} (msg : Bytes) (msgs : List Bytes)
      → session_at h.sessions p ≡ some s
      → s.write_chan ≡ []
      → s.closed ≡ false
      → Steps p (started p h) st
      → st.writer ≡ Writer.running
      → session_at st.heap.sessions p ≡ some s2
      → s2.write_chan ≡ msg ∷ msgs
      → Steps p (write_one p false st) st2
      → st2.reader ≢ Reader.returned
  Steps-Stuck h s s2 {st} {st2} msg msgs at empty live before busy at2 waits after =
      let o = Steps-Ordered p h s at empty live before in
      let quiet = unheard st.reader (λ e. o.released_after e busy) (λ e. o.returned_after e busy) in
      never st2 (Steps-keeps after (failed-Stuck st s2 msg msgs at2 waits quiet)).1
