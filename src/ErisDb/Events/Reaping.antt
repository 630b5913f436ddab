-- ===== src/ErisDb/Events/Reaping.antt =====
-- Which subscriptions of erisdb/event_cache.go end, and what still listens to the event switch.
use eris_db.Base.{
  ℕ, ◌-◌, ◌<◌, ◌≤◌, ◌⊎◌, true, ltb, arith, ◌≡◌, refl, ◌∙◌, ap, sym, subst, Bool, false, not, ◌&&◌,
  ◌||◌, none, some, List, [], ◌∷◌, Bytes, bytes_eq, eq_of_bytes_eq, if◌then◌else◌, if_rule,
  Bool-cases, inl, inr,
}
use eris_db.ErisDb.Events.{
  EventSwitch, EventCache, EventSubscriptions, find_sub, expired, reap_sub, reap_subs, reap,
  cache_at, poll, poll_cache, poll_at,
}
use eris_db.ErisDb.Events.Firing.{cache_at-same}
use eris_db.ErisDb.Events.Delivery.{poll_cache_lem}
use eris_db.ErisDb.Events.Keys.{
  find_sub-delete_sub, either_test, Distinct, none_here, some_here, later_found, not_here,
  both_tests, and_true, and_false,
}

and_not-true : (b : Bool) → b && not true ≡ false
and_not-true b = ground arith

module _ {S : Type 0} (sw : EventSwitch S) where
  -- The switch forgets the id that is removed, and no other.
  abbrev pub RemovesListener : Type 0
  RemovesListener =
      (s : S) (id k : Bytes)
      → sw.listens (sw.remove_listener s id) k ≡ sw.listens s k && not (bytes_eq id k)

module _ {S E : Type 0} (sw : EventSwitch S) where
  -- The entry at `k` goes: its cache was last polled, or made, longer ago than the threshold.
  abbrev pub reaped : ℕ → List (EventCache E) → Bytes → List (Bytes × ℕ) → Bool
  reaped now cs k [] = false
  reaped now cs k ((j, p) ∷ m) = (bytes_eq j k && expired now cs p) || reaped now cs k m

  reap_sub-find_sub :
      (now : ℕ) (k j : Bytes) (p : ℕ) (st : EventSubscriptions S E)
      → find_sub k (reap_sub sw now (j, p) st).subs
        ≡ (if bytes_eq j k && expired now st.caches p then none else find_sub k st.subs)
  unfolding reap_sub
  reap_sub-find_sub now k j p st =
      if_rule
        (λ (r : EventSubscriptions S E).
          find_sub k r.subs
          ≡ (if bytes_eq j k && expired now st.caches p then none else find_sub k st.subs))
        (expired now st.caches p) _ _
        (λ e. rw (e, find_sub-delete_sub k j st.subs, and_true (bytes_eq j k)))
        (λ e. rw (e, and_false (bytes_eq j k)))

  reap_sub-caches :
      (now : ℕ) (e : Bytes × ℕ) (st : EventSubscriptions S E)
      → (reap_sub sw now e st).caches ≡ st.caches
  unfolding reap_sub
  reap_sub-caches now (j, p) st =
      if_rule (λ (r : EventSubscriptions S E). r.caches ≡ st.caches) (expired now st.caches p) _ _
        (λ _. refl) (λ _. refl)

  pub reap_subs-find_sub :
      (now : ℕ) (k : Bytes) (m : List (Bytes × ℕ)) (st : EventSubscriptions S E)
      → find_sub k (reap_subs sw now m st).subs
        ≡ (if reaped now st.caches k m then none else find_sub k st.subs)
  unfolding reap_subs
  reap_subs-find_sub now k [] st = refl
  reap_subs-find_sub now k ((j, p) ∷ m) st =
      let st1 = reap_sub sw now (j, p) st in
      reap_subs-find_sub now k m st1
      ∙ ap (λ cs. if reaped now cs k m then none else find_sub k st1.subs)
          (reap_sub-caches now (j, p) st)
      ∙ ap (λ o. if reaped now st.caches k m then none else o) (reap_sub-find_sub now k j p st)
      ∙ either_test (bytes_eq j k && expired now st.caches p) (reaped now st.caches k m)
          (find_sub k st.subs)

  -- Nothing is dropped at a key that is not there.
  pub reaped-none :
      (now : ℕ) (cs : List (EventCache E)) (k : Bytes) (m : List (Bytes × ℕ))
      → find_sub k m ≡ none
      → reaped now cs k m ≡ false
  unfolding find_sub
  reaped-none now cs k [] h = refl
  reaped-none now cs k ((j, p) ∷ m) h =
      none_here (bytes_eq j k) (expired now cs p) (reaped now cs k m) p (find_sub k m) h
        (reaped-none now cs k m)

  reaped-some :
      (now : ℕ) (cs : List (EventCache E)) (k : Bytes) (p : ℕ) (m : List (Bytes × ℕ))
      → Distinct m
      → find_sub k m ≡ some p
      → reaped now cs k m ≡ expired now cs p
  unfolding find_sub
  reaped-some now cs k p [] d h = cc
  reaped-some now cs k p ((j, q) ∷ m) d h = elim (Bool-cases (bytes_eq j k)) [
    | inl e ↦
        some_here (bytes_eq j k) (reaped now cs k m) p q (find_sub k m) (expired now cs) e h
          (reaped-none now cs k m (subst (λ i. find_sub i m ≡ none) (eq_of_bytes_eq j k e) d.0))
    | inr e ↦
        not_here (bytes_eq j k) (expired now cs q) (reaped now cs k m) e
        ∙ reaped-some now cs k p m d.1 (later_found (bytes_eq j k) p q (find_sub k m) e h)
  ]

  reap_sub-listens :
      (now : ℕ) (k j : Bytes) (p : ℕ) (st : EventSubscriptions S E)
      → RemovesListener sw
      → sw.listens (reap_sub sw now (j, p) st).event_emitter k
        ≡ sw.listens st.event_emitter k && not (bytes_eq j k && expired now st.caches p)
  unfolding reap_sub
  reap_sub-listens now k j p st law =
      if_rule
        (λ (r : EventSubscriptions S E).
          sw.listens r.event_emitter k
          ≡ sw.listens st.event_emitter k && not (bytes_eq j k && expired now st.caches p))
        (expired now st.caches p) _ _
        (λ e. rw (e, law st.event_emitter j k, and_true (bytes_eq j k)))
        (λ e. rw (e, and_false (bytes_eq j k), and_true (sw.listens st.event_emitter k)))

  pub reap_subs-listens :
      (now : ℕ) (k : Bytes) (m : List (Bytes × ℕ)) (st : EventSubscriptions S E)
      → RemovesListener sw
      → sw.listens (reap_subs sw now m st).event_emitter k
        ≡ sw.listens st.event_emitter k && not (reaped now st.caches k m)
  unfolding reap_subs
  reap_subs-listens now k [] st law = sym (and_true (sw.listens st.event_emitter k))
  reap_subs-listens now k ((j, p) ∷ m) st law =
      let st1 = reap_sub sw now (j, p) st in
      reap_subs-listens now k m st1 law
      ∙ ap (λ cs. sw.listens st1.event_emitter k && not (reaped now cs k m))
          (reap_sub-caches now (j, p) st)
      ∙ ap (◌&& not (reaped now st.caches k m)) (reap_sub-listens now k j p st law)
      ∙ both_tests (sw.listens st.event_emitter k) (bytes_eq j k && expired now st.caches p)
          (reaped now st.caches k m)

  reap-find_sub :
      (now : ℕ) (id : Bytes) (p : ℕ) (st : EventSubscriptions S E)
      → RemovesListener sw
      → Distinct st.subs
      → find_sub id st.subs ≡ some p
      → (find_sub id (reap sw now st).subs ≡ (if expired now st.caches p then none else some p))
        × (sw.listens (reap sw now st).event_emitter id
            ≡ sw.listens st.event_emitter id && not (expired now st.caches p))
  unfolding reap
  reap-find_sub now id p st law distinct found =
      let known = reaped-some now st.caches id p st.subs distinct found in
      (
        reap_subs-find_sub now id st.subs st
            ∙ ap (λ b. if b then none else find_sub id st.subs) known
            ∙ ap (λ o. if expired now st.caches p then none else o) found,
        reap_subs-listens now id st.subs st law
            ∙ ap (λ b. sw.listens st.event_emitter id && not b) known,
      )

  expired_lem :
      (now p : ℕ) (cs : List (EventCache E)) (c : EventCache E)
      → cache_at cs p ≡ some c
      → expired now cs p ≡ ltb 10000000000 (now - c.ts)
  unfolding expired
  expired_lem now p cs c at = rw (at, expired) refl

  -- What has become of the subscription, by how long ago it was polled.
  abbrev pub ReapedAfter : ℕ → Bytes → ℕ → EventSubscriptions S E → EventSubscriptions S E → Type 0
  ReapedAfter since id p st st2 =
      ((10000000000 < since)
        × (find_sub id st2.subs ≡ none)
        × (sw.listens st2.event_emitter id ≡ false))
      ⊎ ((since ≤ 10000000000)
          × (find_sub id st2.subs ≡ some p)
          × (sw.listens st2.event_emitter id ≡ sw.listens st.event_emitter id))

  by_age :
      (since p : ℕ) (id : Bytes) (st st2 : EventSubscriptions S E) (b : Bool)
      → b ≡ ltb 10000000000 since
      → find_sub id st2.subs ≡ (if b then none else some p)
      → sw.listens st2.event_emitter id ≡ sw.listens st.event_emitter id && not b
      → ReapedAfter since id p st st2
  by_age since p id st st2 true age found heard =
      inl (ground (arith, age), found, heard ∙ and_not-true (sw.listens st.event_emitter id))
  by_age since p id st st2 false age found heard =
      inr (ground (arith, age), found, heard ∙ and_true (sw.listens st.event_emitter id))

  -- A poll sets the time of the cache, and changes neither the subscriptions nor the switch.
  poll_parts :
      (id : Bytes) (t p : ℕ) (st : EventSubscriptions S E) (c : EventCache E)
      → find_sub id st.subs ≡ some p
      → cache_at st.caches p ≡ some c
      → (cache_at (poll id t st).1.caches p ≡ some (record c { events = []; ts = t }))
        × ((poll id t st).1.subs ≡ st.subs)
        × ((poll id t st).1.event_emitter ≡ st.event_emitter)
  unfolding poll poll_at
  poll_parts id t p st c found at =
      rw (found, at)
        (
          cache_at-same (λ d. (poll_cache t d).1) st.caches p c at
              ∙ ap (λ r. some r.1) (poll_cache_lem t c),
          refl,
          refl,
        )

  -- A round of the reaper after a poll ends the subscription, and has the switch forget its id, if
  -- the poll was more than ten seconds ago; else the subscription stays, and the switch listens for it
  -- as before. No key stands twice in the map, and the switch is assumed to forget the id it is told
  -- to and no other.
  pub reap-poll :
      (now t : ℕ) (id : Bytes) (p : ℕ) (st : EventSubscriptions S E) (c : EventCache E)
      → RemovesListener sw
      → Distinct st.subs
      → find_sub id st.subs ≡ some p
      → cache_at st.caches p ≡ some c
      → ReapedAfter (now - t) id p st (reap sw now (poll id t st).1)
  reap-poll now t id p st c law distinct found at =
      let st1 = (poll id t st).1 in
      let (at1, same_subs, same_switch) = poll_parts id t p st c found at in
      let (gone, heard) =
        reap-find_sub now id p st1 law (subst Distinct (sym same_subs) distinct)
          (ap (find_sub id) same_subs ∙ found) in
      by_age (now - t) p id st (reap sw now st1) (expired now st1.caches p)
        (expired_lem now p st1.caches _ at1) gone
        (heard ∙ ap (λ s. sw.listens s id && not (expired now st1.caches p)) same_switch)
