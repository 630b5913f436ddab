-- ===== src/ErisDb/Events/Mailboxes/Taking.antt =====
-- What taking the events that are pending does to the caches of erisdb/event_cache.go and to the
-- mailboxes.
use eris_db.Base.{
  ℕ, ◌≡◌, ◌≢◌, refl, ◌∙◌, ap, sym, subst, Option, none, some, List, Bytes, bytes_eq, ok,
  if◌then◌else◌, arith,
}
use eris_db.ErisDb.Events.{
  EventSwitch, EventCache, EventSubscriptions, find_sub, cache_at, change_cache, poll_cache,
  poll_at, poll_sub, poll,
}
use eris_db.ErisDb.Events.Firing.{cache_at-same, cache_at-other}
use eris_db.ErisDb.Events.Delivery.{poll_cache_lem}
use eris_db.ErisDb.Events.History.{length-change_cache}
use eris_db.ErisDb.Events.Mailboxes.Matching.{Match, Refines, by_id}
use eris_db.ErisDb.Events.Mailboxes.{Mailbox, Mailboxes, emptied, contents}

module _ {S E : Type 0} (sw : EventSwitch S) where
  -- Taking what is pending.
  abbrev pub wiped : ℕ → ℕ → EventSubscriptions S E → EventSubscriptions S E
  wiped now p st = record st { caches = change_cache (λ c. (poll_cache now c).1) st.caches p }

  poll_at-wiped :
      (id : Bytes) (now p : ℕ) (st : EventSubscriptions S E) (b : Option (Mailbox E))
      → Match sw st.caches st.event_emitter (some p) b
      → poll_at now p st (cache_at st.caches p) ≡ (contents id b, wiped now p st)
  unfolding poll_at
  poll_at-wiped id now p st (some (k, es)) ((c, at, held), calls) =
      rw at (ap (λ l. (ok l, wiped now p st)) (ap (λ r. r.0) (poll_cache_lem now c) ∙ held))
  poll_at-wiped id now p st none h = absurd h

  pub poll-wiped :
      (id : Bytes) (now p : ℕ) (st : EventSubscriptions S E) (b : Option (Mailbox E))
      → find_sub id st.subs ≡ some p
      → Match sw st.caches st.event_emitter (some p) b
      → poll id now st ≡ (contents id b, wiped now p st)
  unfolding poll poll_sub
  poll-wiped id now p st b found h = rw found (poll_at-wiped id now p st b h)

  wiped-same :
      (now p : ℕ) (st : EventSubscriptions S E) (b : Option (Mailbox E))
      → Match sw st.caches st.event_emitter (some p) b
      → Match sw (wiped now p st).caches st.event_emitter (some p) (emptied b)
  wiped-same now p st (some (k, es)) ((c, at, held), calls) = (
    (
      (poll_cache now c).1,
      cache_at-same (λ x. (poll_cache now x).1) st.caches p c at,
      ap (λ r. r.1.events) (poll_cache_lem now c),
    ),
    calls,
  )
  wiped-same now p st none h = absurd h

  wiped-other :
      (now p : ℕ) (st : EventSubscriptions S E) (o : Option ℕ) (b : Option (Mailbox E))
      → ((q : ℕ) → o ≡ some q → q ≢ p)
      → Match sw st.caches st.event_emitter o b
      → Match sw (wiped now p st).caches st.event_emitter o b
  wiped-other now p st none none apart h = tt
  wiped-other now p st (some q) (some (k, es)) apart ((c, at, held), calls) = (
    (c, cache_at-other (λ x. (poll_cache now x).1) st.caches p q (apart q refl) ∙ at, held),
    calls,
  )
  wiped-other now p st none (some b) apart h = h
  wiped-other now p st (some q) none apart h = h

  pub wiped-Refines :
      (id : Bytes) (now p : ℕ) (st : EventSubscriptions S E) (m : Mailboxes E)
      → find_sub id st.subs ≡ some p
      → Refines sw st m
      → Refines sw (wiped now p st) (λ k. if bytes_eq id k then emptied (m k) else m k)
  wiped-Refines id now p st m found r = record {
    bounded = λ e q more.
        r.bounded e q
          (omega (arith, more, length-change_cache (λ c. (poll_cache now c).1) st.caches p));
    apart = r.apart;
    boxes =
        by_id id
          (λ k b.
            Match sw (wiped now p st).caches st.event_emitter (find_sub k st.subs)
              (if b then emptied (m k) else m k))
          (rw found (
            wiped-same now p st (m id)
              (subst (λ o. Match sw st.caches st.event_emitter o (m id)) found (r.boxes id))))
          (λ k e.
            wiped-other now p st (find_sub k st.subs) (m k)
              (λ q at_k same.
                let twice = r.apart id k p found (at_k ∙ ap some same) in
                (let bad : ⊥ = cc in absurd bad))
              (r.boxes k));
  }

  pub Match-none :
      (cs : List (EventCache E)) (em : S) (b : Option (Mailbox E))
      → Match sw cs em none b
      → b ≡ none
  Match-none cs em none h = refl
  Match-none cs em (some b) h = absurd h

  -- Where no mailbox is open under an id, changing it changes nothing.
  pub unopened-Refines :
      (id : Bytes) (f : Option (Mailbox E) → Option (Mailbox E)) (st : EventSubscriptions S E)
      (m : Mailboxes E)
      → m id ≡ none
      → f none ≡ none
      → Refines sw st m
      → Refines sw st (λ k. if bytes_eq id k then f (m k) else m k)
  unopened-Refines id f st m none_open kept r = record {
    bounded = r.bounded;
    apart = r.apart;
    boxes =
        by_id id
          (λ k b.
            Match sw st.caches st.event_emitter (find_sub k st.subs) (if b then f (m k) else m k))
          (subst (Match sw st.caches st.event_emitter (find_sub id st.subs))
            (none_open ∙ sym kept ∙ ap f (sym none_open)) (r.boxes id))
          (λ k e. r.boxes k);
  }
