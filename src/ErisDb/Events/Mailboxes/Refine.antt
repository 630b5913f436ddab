-- ===== src/ErisDb/Events/Mailboxes/Refine.antt =====
-- The caches of erisdb/event_cache.go implement the mailboxes.
use eris_db.Base.{
  ℕ, ◌≡◌, refl, ◌∙◌, ap, sym, subst, Bool, true, false, Option, none, some, List, [], ◌∷◌, Bytes,
  bytes_eq, ok, if◌then◌else◌, inl, inr, Option-cases,
}
use eris_db.ErisDb.Events.{
  EventSwitch, EventSubscriptions, find_sub, delete_sub, add, poll_sub, poll, remove_sub, remove,
}
use eris_db.ErisDb.Events.Firing.{times}
use eris_db.ErisDb.Events.Delivery.{AddsListener}
use eris_db.ErisDb.Events.Keys.{find_sub-delete_sub}
use eris_db.ErisDb.Events.Mailboxes.Matching.{Match, Refines, fire-Refines, add-Refines}
use eris_db.ErisDb.Events.Mailboxes.Taking.{poll-wiped, wiped-Refines, Match-none, unopened-Refines}
use eris_db.ErisDb.Events.Mailboxes.{
  Op, Seen, Mailbox, Mailboxes, emptied, closing, spec_step, spec_run, no_mailboxes, step, run,
  IsFresh, AllFresh,
}

found_kept : (b : Bool) (p : ℕ) (o : Option ℕ) → (if b then none else o) ≡ some p → o ≡ some p
found_kept true p o h = (let bad : ⊥ = cc in absurd bad)
found_kept false p o h = h

kept_found :
    (id k : Bytes) (p : ℕ) (m : List (Bytes × ℕ))
    → find_sub k (delete_sub id m) ≡ some p
    → find_sub k m ≡ some p
kept_found id k p m h =
    found_kept (bytes_eq id k) p (find_sub k m) (sym (find_sub-delete_sub k id m) ∙ h)

module _ {S E : Type 0} (sw : EventSwitch S) where
  -- What an operation shows, and what it leaves.
  abbrev Simulates : Seen E × EventSubscriptions S E → Seen E × Mailboxes E → Type 0
  Simulates (seen, st) (spec_seen, m) = (seen ≡ spec_seen) × Refines sw st m

  opened :
      (id : Bytes) (p : ℕ) (st : EventSubscriptions S E) (m : Mailboxes E)
      → find_sub id st.subs ≡ some p
      → Refines sw st m
      → Match sw st.caches st.event_emitter (some p) (m id)
  opened id p st m found r =
      subst (λ o. Match sw st.caches st.event_emitter o (m id)) found (r.boxes id)

  unopened :
      (id : Bytes) (st : EventSubscriptions S E) (m : Mailboxes E)
      → find_sub id st.subs ≡ none
      → Refines sw st m
      → m id ≡ none
  unopened id st m missing r =
      Match-none sw st.caches st.event_emitter (m id)
        (subst (λ o. Match sw st.caches st.event_emitter o (m id)) missing (r.boxes id))

  take-Simulates :
      (id : Bytes) (now : ℕ) (st : EventSubscriptions S E) (m : Mailboxes E)
      → Refines sw st m
      → Simulates (step sw (Op.take id now) st) (spec_step (Op.take id now) m)
  take-Simulates id now st m r = elim (Option-cases (find_sub id st.subs)) [
    | inl missing ↦
        let none_open = unopened id st m missing r in
        unfold poll poll_sub in
        rw (missing, poll_sub)
          (rw none_open refl, unopened-Refines sw id emptied st m none_open refl r)
    | inr (p, found) ↦
        rw (poll-wiped sw id now p st (m id) found (opened id p st m found r))
          (refl, wiped-Refines sw id now p st m found r)
  ]

  closed_lem :
      (id : Bytes) (p : ℕ) (st : EventSubscriptions S E) (b : Option (Mailbox E))
      → Match sw st.caches st.event_emitter (some p) b
      → closing id b ≡ ok tt
  closed_lem id p st (some (k, es)) h = refl
  closed_lem id p st none h = absurd h

  both_none :
      (b : Bool) (st : EventSubscriptions S E) (o : Option ℕ) (x : Option (Mailbox E))
      → Match sw st.caches st.event_emitter o x
      → Match sw st.caches st.event_emitter (if b then none else o) (if b then none else x)
  both_none true st o x h = tt
  both_none false st o x h = h

  removed-Refines :
      (id : Bytes) (st : EventSubscriptions S E) (m : Mailboxes E)
      → Refines sw st m
      → Refines sw
          (record st { subs = delete_sub id st.subs })
          (λ k. if bytes_eq id k then none else m k)
  removed-Refines id st m r = record {
    bounded = r.bounded;
    apart = λ j k p at_j at_k.
        r.apart j k p (kept_found id j p st.subs at_j) (kept_found id k p st.subs at_k);
    boxes = λ k.
        rw (find_sub-delete_sub k id st.subs)
          (both_none (bytes_eq id k) st (find_sub k st.subs) (m k) (r.boxes k));
  }

  unsubscribe-Simulates :
      (id : Bytes) (st : EventSubscriptions S E) (m : Mailboxes E)
      → Refines sw st m
      → Simulates (step sw (Op.unsubscribe id) st) (spec_step (Op.unsubscribe id) m)
  unfolding remove remove_sub
  unsubscribe-Simulates id st m r = elim (Option-cases (find_sub id st.subs)) [
    | inl missing ↦
        let none_open = unopened id st m missing r in
        rw (missing, remove_sub)
          (rw none_open refl, unopened-Refines sw id (λ _. none) st m none_open refl r)
    | inr (p, found) ↦
        rw (found, remove_sub)
          (
            rw (closed_lem id p st (m id) (opened id p st m found r)) refl,
            removed-Refines id st m r,
          )
  ]

  step-Simulates :
      (op : Op E) (st : EventSubscriptions S E) (m : Mailboxes E)
      → AddsListener sw
      → IsFresh sw op st
      → Refines sw st m
      → Simulates (step sw op st) (spec_step op m)
  step-Simulates (Op.subscribe id kind now) st m law fresh r =
      (unfold add in refl, add-Refines sw id kind now st m law fresh r)
  step-Simulates (Op.publish kind evt) st m law fresh r = (refl, fire-Refines sw kind evt st m r)
  step-Simulates (Op.take id now) st m law fresh r = take-Simulates id now st m r
  step-Simulates (Op.unsubscribe id) st m law fresh r = unsubscribe-Simulates id st m r

  run-Simulates :
      (ops : List (Op E)) (st : EventSubscriptions S E) (m : Mailboxes E)
      → AddsListener sw
      → AllFresh sw ops st
      → Refines sw st m
      → run sw ops st ≡ spec_run ops m
  run-Simulates [] st m law fresh r = refl
  run-Simulates (op ∷ ops) st m law (first, later) r =
      let (seen, r2) = step-Simulates op st m law first r in
      ap (◌∷ run sw ops (step sw op st).1) seen
      ∙ ap ((spec_step op m).0 ∷◌)
          (run-Simulates ops (step sw op st).1 (spec_step op m).1 law later r2)

  -- The event cache refines the mailboxes: from no subscription, whatever is subscribed, published,
  -- polled and ended between two rounds of the reaper, callers see exactly what the mailboxes show,
  -- errors included. Each new subscription gets an id at which nothing listens, the event switch
  -- calls nothing at first, and is assumed to add one callback for a new listener.
  pub run-spec_run :
      (idle : S) (ops : List (Op E))
      → AddsListener sw
      → ((e : Bytes) → sw.callbacks idle e ≡ [])
      → AllFresh sw ops (record { event_emitter = idle; subs = []; caches = [] })
      → run sw ops (record { event_emitter = idle; subs = []; caches = [] })
        ≡ spec_run ops no_mailboxes
  run-spec_run idle ops law silent fresh =
      run-Simulates ops (record { event_emitter = idle; subs = []; caches = [] }) no_mailboxes law
        fresh
        (record {
          bounded = λ e q more. ap (times q) (silent e);
          apart = unfold find_sub in λ j k p at_j at_k. cc;
          boxes = unfold find_sub in λ k. tt;
        })
