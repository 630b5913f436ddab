-- ===== src/ErisDb/Events/Leaks.antt =====
-- `remove` of erisdb/event_cache.go forgets a subscription, but does not tell the event switch.
use eris_db.Base.{
  ℕ, ◌≡◌, refl, ◌∙◌, ap, Bool, true, false, not, ◌&&◌, Option, none, some, List, [], ◌∷◌, Bytes,
  bytes_eq, ok, err, if◌then◌else◌, if_rule, bytes_eq_refl, eq_of_bytes_eq,
}
use eris_db.ErisDb.Events.{
  EventSwitch, EventCache, EventSubscriptions, find_sub, put_sub, cache_at, add, fire, reap,
  poll_at, poll_sub, poll, remove_sub, remove, not_active,
}
use eris_db.ErisDb.Events.Keys.{find_sub-delete_sub}
use eris_db.ErisDb.Events.Reaping.{
  RemovesListener, reaped-none, reap_subs-find_sub, reap_subs-listens,
}

pub none_anyway : (b : Bool) → if◌then◌else◌ {A = Option ℕ} b none none ≡ none
none_anyway true = refl
none_anyway false = refl

pub find_sub-put_other :
    (k id : Bytes) (v : ℕ) (m : List (Bytes × ℕ))
    → bytes_eq id k ≡ false
    → find_sub k (put_sub id v m) ≡ find_sub k m
unfolding find_sub put_sub
find_sub-put_other k id v [] apart = rw apart
find_sub-put_other k id v ((j, p) ∷ m) apart =
    if_rule (λ m2. find_sub k m2 ≡ (if bytes_eq j k then some p else find_sub k m)) (bytes_eq j id)
      ((id, v) ∷ m) ((j, p) ∷ put_sub id v m)
      (λ e. rw (apart, ap (λ b. bytes_eq b k) (eq_of_bytes_eq j id e) ∙ apart))
      (λ _. ap (λ o. if bytes_eq j k then some p else o) (find_sub-put_other k id v m apart))

module _ {S : Type 0} (sw : EventSwitch S) where
  -- A new listener goes on listening, and so does every other one.
  abbrev pub AddKeepsListeners : Type 0
  AddKeepsListeners =
      (s : S) (id event_id k : Bytes) (p : ℕ)
      → sw.listens s k ≡ true
      → sw.listens (sw.add_listener_for_event s id event_id p) k ≡ true

module _ {S E : Type 0} (sw : EventSwitch S) where
  -- What may happen next, where no new subscription gets the id `k`.
  pub data Step (k : Bytes) : EventSubscriptions S E → EventSubscriptions S E → Type 0 where
    adds :
        {st : EventSubscriptions S E} (id event_id : Bytes) (now : ℕ)
        → bytes_eq id k ≡ false
        → Step k st (add sw (ok id) event_id now st).1
    fires :
        {st : EventSubscriptions S E} (event_id : Bytes) (evt : E)
        → Step k st (fire sw event_id evt st)
    polls : {st : EventSubscriptions S E} (id : Bytes) (now : ℕ) → Step k st (poll id now st).1
    removes : {st : EventSubscriptions S E} (id : Bytes) → Step k st (remove id st).1
    reaps : {st : EventSubscriptions S E} (now : ℕ) → Step k st (reap sw now st)

  pub data Steps (k : Bytes) : EventSubscriptions S E → EventSubscriptions S E → Type 0 where
    done : {st : EventSubscriptions S E} → Steps k st st
    next : {st st1 st2 : EventSubscriptions S E} → Step k st st1 → Steps k st1 st2 → Steps k st st2

  -- The id is in no map, but its callback still listens.
  abbrev pub Leaked : Bytes → EventSubscriptions S E → Type 0
  Leaked k st = (find_sub k st.subs ≡ none) × (sw.listens st.event_emitter k ≡ true)

  add-Leaked :
      (k id event_id : Bytes) (now : ℕ) (st : EventSubscriptions S E)
      → AddKeepsListeners sw
      → bytes_eq id k ≡ false
      → Leaked k st
      → Leaked k (add sw (ok id) event_id now st).1
  unfolding add
  add-Leaked k id event_id now st law apart (gone, listening) = (
    find_sub-put_other k id _ st.subs apart ∙ gone,
    law st.event_emitter id event_id k _ listening,
  )

  -- Neither outcome of a poll changes the map or the switch.
  poll_at-Leaked :
      (k : Bytes) (now p : ℕ) (st : EventSubscriptions S E) (o : Option (EventCache E))
      → Leaked k st
      → Leaked k (poll_at now p st o).1
  unfolding poll_at
  poll_at-Leaked k now p st none h = h
  poll_at-Leaked k now p st (some c) h = h

  poll_sub-Leaked :
      (k id : Bytes) (now : ℕ) (st : EventSubscriptions S E) (o : Option ℕ)
      → Leaked k st
      → Leaked k (poll_sub id now st o).1
  unfolding poll_sub
  poll_sub-Leaked k id now st none h = h
  poll_sub-Leaked k id now st (some p) h = poll_at-Leaked k now p st (cache_at st.caches p) h

  remove_sub-Leaked :
      (k id : Bytes) (st : EventSubscriptions S E) (o : Option ℕ)
      → Leaked k st
      → Leaked k (remove_sub id st o).1
  unfolding remove_sub
  remove_sub-Leaked k id st none h = h
  remove_sub-Leaked k id st (some p) (gone, listening) = (
    find_sub-delete_sub k id st.subs
        ∙ ap (λ o. if bytes_eq id k then none else o) gone
        ∙ none_anyway (bytes_eq id k),
    listening,
  )

  poll-Leaked :
      (k id : Bytes) (now : ℕ) (st : EventSubscriptions S E)
      → Leaked k st
      → Leaked k (poll id now st).1
  unfolding poll
  poll-Leaked k id now st h = poll_sub-Leaked k id now st (find_sub id st.subs) h

  remove-Leaked :
      (k id : Bytes) (st : EventSubscriptions S E) → Leaked k st → Leaked k (remove id st).1
  unfolding remove
  remove-Leaked k id st h = remove_sub-Leaked k id st (find_sub id st.subs) h

  reap-Leaked :
      (k : Bytes) (now : ℕ) (st : EventSubscriptions S E)
      → RemovesListener sw
      → Leaked k st
      → Leaked k (reap sw now st)
  unfolding reap
  reap-Leaked k now st law (gone, listening) =
      let spared = reaped-none sw now st.caches k st.subs gone in
      (
        reap_subs-find_sub sw now k st.subs st
            ∙ ap (λ b. if b then none else find_sub k st.subs) spared
            ∙ gone,
        reap_subs-listens sw now k st.subs st law
            ∙ ap (λ b. sw.listens st.event_emitter k && not b) spared
            ∙ ap (◌&& true) listening,
      )

  Step-Leaked :
      {k : Bytes} {st st1 : EventSubscriptions S E}
      → AddKeepsListeners sw
      → RemovesListener sw
      → Step k st st1
      → Leaked k st
      → Leaked k st1
  Step-Leaked law_add law_remove (Step.adds id event_id now apart) h =
      add-Leaked _ id event_id now _ law_add apart h
  Step-Leaked law_add law_remove (Step.fires event_id evt) h = unfold fire in h
  Step-Leaked law_add law_remove (Step.polls id now) h = poll-Leaked _ id now _ h
  Step-Leaked law_add law_remove (Step.removes id) h = remove-Leaked _ id _ h
  Step-Leaked law_add law_remove (Step.reaps now) h = reap-Leaked _ now _ law_remove h

  Steps-Leaked :
      {k : Bytes} {st st1 : EventSubscriptions S E}
      → AddKeepsListeners sw
      → RemovesListener sw
      → Steps k st st1
      → Leaked k st
      → Leaked k st1
  Steps-Leaked law_add law_remove Steps.done h = h
  Steps-Leaked law_add law_remove (Steps.next step steps) h =
      Steps-Leaked law_add law_remove steps (Step-Leaked law_add law_remove step h)

  remove_sub-found :
      (k : Bytes) (p : ℕ) (st : EventSubscriptions S E) (o : Option ℕ)
      → o ≡ some p
      → sw.listens st.event_emitter k ≡ true
      → Leaked k (remove_sub k st o).1
  unfolding remove_sub
  remove_sub-found k p st none found listening = cc
  remove_sub-found k p st (some q) found listening = (
    find_sub-delete_sub k k st.subs
        ∙ ap (λ b. if b then none else find_sub k st.subs) (bytes_eq_refl k),
    listening,
  )

  removed-Leaked :
      (k : Bytes) (p : ℕ) (st : EventSubscriptions S E)
      → find_sub k st.subs ≡ some p
      → sw.listens st.event_emitter k ≡ true
      → Leaked k (remove k st).1
  unfolding remove
  removed-Leaked k p st found listening =
      remove_sub-found k p st (find_sub k st.subs) found listening

  poll-Leaked_err :
      (k : Bytes) (now : ℕ) (st : EventSubscriptions S E)
      → Leaked k st
      → (poll {E = E} k now st).0 ≡ err (not_active k)
  unfolding poll poll_sub
  poll-Leaked_err k now st (gone, listening) = rw gone

  -- After `remove` of a subscription that the event switch listens for, whatever is added under
  -- other ids, fired, polled, removed or reaped next, a poll of the id fails, but the switch still
  -- listens for it: its events are kept for nobody. The switch is assumed to keep its listeners
  -- where one is added, and to forget only the id that it is told to forget.
  pub remove-leaks :
      (k : Bytes) (st st1 : EventSubscriptions S E) (p now : ℕ)
      → AddKeepsListeners sw
      → RemovesListener sw
      → find_sub k st.subs ≡ some p
      → sw.listens st.event_emitter k ≡ true
      → Steps k (remove k st).1 st1
      → ((poll k now st1).0 ≡ err (not_active k)) × (sw.listens st1.event_emitter k ≡ true)
  remove-leaks k st st1 p now law_add law_remove found listening steps =
      let leaked = Steps-Leaked law_add law_remove steps (removed-Leaked k p st found listening) in
      (poll-Leaked_err k now st1 leaked, leaked.1)
