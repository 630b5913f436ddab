-- ===== src/ErisDb/Events/Delivery.antt =====
-- What the callers of erisdb/event_cache.go get: every event of the subscribed kind, in order, once.
use eris_db.Base.{
  ℕ, ◌+◌, ◌≤◌, ◌≡◌, refl, ◌∙◌, ap, sym, subst, Bool, true, false, ◌&&◌, Option, none, some, List,
  [], ◌∷◌, ◌++◌, Bytes, bytes_eq, bytes_eq_refl, ok, ◌==◌, if◌then◌else◌, if_rule, length, arith,
}
use eris_db.ErisDb.Events.{
  EventSwitch, EventCache, EventSubscriptions, find_sub, put_sub, cache_at, new_event_cache,
  poll_cache, add, poll_at, poll_sub, poll,
}
use eris_db.ErisDb.Events.Firing.{
  times, repeated, Holds, cache_at-same, fire_all, heard, fire_all-Holds, fire_all-subs,
}

poll_cache-parts :
    {E : Type 0} (now ts : ℕ) (sub_id : Bytes) (es : List E)
    → poll_cache {E = E} now (record { events = es; ts = ts; sub_id = sub_id })
      ≡ (es, record { events = []; ts = now; sub_id = sub_id })
unfolding poll_cache
poll_cache-parts now ts sub_id [] = refl
poll_cache-parts now ts sub_id (e ∷ es) = ground arith

pub poll_cache_lem :
    {E : Type 0} (now : ℕ) (c : EventCache E)
    → poll_cache now c ≡ (c.events, record c { events = []; ts = now })
poll_cache_lem now c = poll_cache-parts now c.ts c.sub_id c.events

module _ {S E : Type 0} where
  poll_at-Holds :
      (now p : ℕ) (st : EventSubscriptions S E) (o : Option (EventCache E)) (es : List E)
      → cache_at st.caches p ≡ o
      → Holds st.caches p es
      → ((poll_at now p st o).0 ≡ ok es) × Holds (poll_at now p st o).1.caches p []
  unfolding poll_at
  poll_at-Holds now p st none es e (c, at, held) = (let bad : ⊥ = cc in absurd bad)
  poll_at-Holds now p st (some d) es e (c, at, held) =
      let same : d ≡ c = cc in
      (
        ap (λ r. ok r.0) (poll_cache_lem now d) ∙ ap ok (ap (λ x. x.events) same ∙ held),
        (
          (poll_cache now d).1,
          cache_at-same (λ x. (poll_cache now x).1) st.caches p d e,
          ap (λ r. r.1.events) (poll_cache_lem now d),
        ),
      )

  poll-found :
      (id : Bytes) (now p : ℕ) (st : EventSubscriptions S E)
      → find_sub id st.subs ≡ some p
      → poll id now st ≡ poll_at now p st (cache_at st.caches p)
  unfolding poll poll_sub
  poll-found id now p st found = rw found

  poll-Holds :
      (id : Bytes) (now p : ℕ) (st : EventSubscriptions S E) (es : List E)
      → find_sub id st.subs ≡ some p
      → Holds st.caches p es
      → ((poll id now st).0 ≡ ok es) × Holds (poll id now st).1.caches p []
  poll-Holds id now p st es found h =
      subst (λ r. (r.0 ≡ ok es) × Holds r.1.caches p []) (sym (poll-found id now p st found))
        (poll_at-Holds now p st (cache_at st.caches p) es refl h)

pub find_sub-put_sub :
    (k : Bytes) (p : ℕ) (m : List (Bytes × ℕ)) → find_sub k (put_sub k p m) ≡ some p
unfolding find_sub put_sub
find_sub-put_sub k p [] = rw (bytes_eq_refl k)
find_sub-put_sub k p ((j, q) ∷ m) =
    if_rule (λ m2. find_sub k m2 ≡ some p) (bytes_eq j k) ((k, p) ∷ m) ((j, q) ∷ put_sub k p m)
      (λ _. rw (bytes_eq_refl k)) (λ e. rw e (find_sub-put_sub k p m))

picked :
    {E : Type 0} (b : Bool) (evt : E) (rest : List E)
    → repeated (if b then 1 else 0) evt ++ rest ≡ (if b then evt ∷ rest else rest)
picked true evt rest = refl
picked false evt rest = refl

same_place : (b : Bool) (n : ℕ) → 0 + (if b && (n == n) then 1 else 0) ≡ (if b then 1 else 0)
same_place b n = ground arith

pub cache_at-length :
    {E : Type 0} (cs : List (EventCache E)) (c : EventCache E)
    → cache_at (cs ++ c ∷ []) (length cs) ≡ some c
unfolding cache_at
cache_at-length [] c = refl
cache_at-length (d ∷ cs) c = cache_at-length cs c

module _ {S : Type 0} (sw : EventSwitch S) where
  -- An event switch that calls what listens to the event: a new listener adds one callback to its
  -- own event, and changes nothing else.
  abbrev pub AddsListener : Type 0
  AddsListener =
      (s : S) (id event_id e : Bytes) (p q : ℕ)
      → sw.listens s id ≡ false
      → times q (sw.callbacks (sw.add_listener_for_event s id event_id p) e)
        ≡ times q (sw.callbacks s e) + (if bytes_eq event_id e && (q == p) then 1 else 0)

module _ {S E : Type 0} (sw : EventSwitch S) where
  -- No callback belongs to a cache that is not made yet.
  abbrev pub Bounded : EventSubscriptions S E → Type 0
  Bounded st =
      (e : Bytes) (q : ℕ) → length st.caches ≤ q → times q (sw.callbacks st.event_emitter e) ≡ 0

  -- A poll returns what was pending and then every event that has called the subscription's
  -- callback, in the order in which they were fired, and leaves nothing pending.
  pub poll-fire_all :
      (id : Bytes) (now p : ℕ) (st : EventSubscriptions S E) (es : List E) (fs : List (Bytes × E))
      → find_sub id st.subs ≡ some p
      → Holds st.caches p es
      → ((poll id now (fire_all sw fs st)).0 ≡ ok (es ++ heard sw st.event_emitter p fs))
        × Holds (poll id now (fire_all sw fs st)).1.caches p []
  poll-fire_all id now p st es fs found h =
      poll-Holds id now p (fire_all sw fs st) (es ++ heard sw st.event_emitter p fs)
        (ap (find_sub id) (fire_all-subs sw fs st) ∙ found) (fire_all-Holds sw fs st p es h)

  -- The events of one kind.
  abbrev pub of_kind : Bytes → List (Bytes × E) → List E
  of_kind event_id [] = []
  of_kind event_id ((e, evt) ∷ fs) =
      if bytes_eq event_id e then evt ∷ of_kind event_id fs else of_kind event_id fs

  heard-of_kind :
      (s : S) (event_id : Bytes) (p : ℕ) (fs : List (Bytes × E))
      → ((e : Bytes) → times p (sw.callbacks s e) ≡ (if bytes_eq event_id e then 1 else 0))
      → heard sw s p fs ≡ of_kind event_id fs
  heard-of_kind s event_id p [] h = refl
  heard-of_kind s event_id p ((e, evt) ∷ fs) h =
      ap (λ n. repeated n evt ++ heard sw s p fs) (h e)
      ∙ picked (bytes_eq event_id e) evt (heard sw s p fs)
      ∙ ap (λ rest. if bytes_eq event_id e then evt ∷ rest else rest)
          (heard-of_kind s event_id p fs h)

  add-found :
      (id event_id : Bytes) (now : ℕ) (st : EventSubscriptions S E)
      → find_sub id (add sw (ok id) event_id now st).1.subs ≡ some (length st.caches)
  unfolding add
  add-found id event_id now st = find_sub-put_sub id (length st.caches) st.subs

  pub add-Holds :
      (id event_id : Bytes) (now : ℕ) (st : EventSubscriptions S E)
      → Holds (add sw (ok id) event_id now st).1.caches (length st.caches) []
  unfolding add new_event_cache
  add-Holds id event_id now st = (_, cache_at-length st.caches _, refl)

  pub times-add :
      (id event_id e : Bytes) (now : ℕ) (st : EventSubscriptions S E)
      → AddsListener sw
      → Bounded st
      → sw.listens st.event_emitter id ≡ false
      → times (length st.caches) (sw.callbacks (add sw (ok id) event_id now st).1.event_emitter e)
        ≡ (if bytes_eq event_id e then 1 else 0)
  unfolding add
  times-add id event_id e now st adds bounded fresh =
      adds st.event_emitter id event_id e (length st.caches) (length st.caches) fresh
      ∙ ap (◌+ (if bytes_eq event_id e && (length st.caches == length st.caches) then 1 else 0))
          (bounded e (length st.caches) (omega arith))
      ∙ same_place (bytes_eq event_id e) (length st.caches)

  -- After a subscription to an event under an id at which nothing listens yet, a poll returns
  -- exactly the events of that kind that were fired since, in order, and leaves nothing pending.
  -- The event switch is assumed to add one callback for a new listener, and no callback belongs
  -- to a cache that is not made yet.
  pub poll-add :
      (id event_id : Bytes) (now later : ℕ) (st : EventSubscriptions S E) (fs : List (Bytes × E))
      → AddsListener sw
      → Bounded st
      → sw.listens st.event_emitter id ≡ false
      → ((poll id later (fire_all sw fs (add sw (ok id) event_id now st).1)).0
          ≡ ok (of_kind event_id fs))
        × Holds
            (poll id later (fire_all sw fs (add sw (ok id) event_id now st).1)).1.caches
            (length st.caches)
            []
  poll-add id event_id now later st fs adds bounded fresh =
      let st1 = (add sw (ok id) event_id now st).1 in
      let place = length st.caches in
      let polled =
        poll-fire_all id later place st1 [] fs (add-found id event_id now st)
          (add-Holds id event_id now st) in
      (
        polled.0
            ∙ ap ok (
                heard-of_kind st1.event_emitter event_id place fs
                  (λ e. times-add id event_id e now st adds bounded fresh)),
        polled.1,
      )
