-- ===== src/ErisDb/Events/Mailboxes/Matching.antt =====
-- When the caches of erisdb/event_cache.go hold what the mailboxes do, and what firing an event and
-- a new subscription do to both.
use eris_db.Base.{
  ℕ, zero, suc, ◌+◌, ◌<◌, ◌≡◌, ◌⊎◌, refl, ◌∙◌, sym, subst, Bool, true, false, ◌&&◌, Option, none,
  some, List, [], ◌∷◌, ◌++◌, Bytes, bytes_eq, bytes_eq_refl, eq_of_bytes_eq, ok, ◌==◌,
  if◌then◌else◌, length, arith, inl, inr, Bool-cases,
}
use eris_db.ErisDb.Events.{
  EventSwitch, EventCache, EventSubscriptions, find_sub, put_sub, cache_at, new_event_cache, add,
  fire,
}
use eris_db.ErisDb.Events.Firing.{times, repeated, Holds, fire_all-Holds}
use eris_db.ErisDb.Events.Delivery.{AddsListener, Bounded, find_sub-put_sub, times-add, add-Holds}
use eris_db.ErisDb.Events.Leaks.{find_sub-put_other}
use eris_db.ErisDb.Events.History.{add-Bounded, length-call_all}
use eris_db.ErisDb.Events.Mailboxes.{Mailbox, Mailboxes, deliver}

module _ {E : Type 0} where
  cache_at-append :
      (cs : List (EventCache E)) (d c : EventCache E) (p : ℕ)
      → cache_at cs p ≡ some c
      → (cache_at (cs ++ d ∷ []) p ≡ some c) × (p < length cs)
  unfolding cache_at
  cache_at-append [] d c p h = (let bad : ⊥ = cc in absurd bad)
  cache_at-append (b ∷ cs) d c zero h = (h, omega arith)
  cache_at-append (b ∷ cs) d c (suc p) h =
      let (at, lt) = cache_at-append cs d c p h in (at, omega (arith, lt))

once :
    {E : Type 0} (b : Bool) (n : ℕ) (es : List E) (evt : E)
    → n ≡ (if b then 1 else 0)
    → es ++ (repeated n evt ++ []) ≡ es ++ (if b then evt ∷ [] else [])
once true n es evt h = rw h refl
once false n es evt h = rw h refl

unrelated : (b : Bool) (p n x : ℕ) → p < n → x + (if b && (p == n) then 1 else 0) ≡ x
unrelated b p n x h = ground (arith, h)

put_found :
    (id k : Bytes) (n p : ℕ) (m : List (Bytes × ℕ))
    → find_sub k (put_sub id n m) ≡ some p
    → ((id ≡ k) × (p ≡ n)) ⊎ (find_sub k m ≡ some p)
put_found id k n p m h = elim (Bool-cases (bytes_eq id k)) [
  | inl e ↦
      let same = eq_of_bytes_eq id k e in
      let here = subst (λ j. find_sub j (put_sub id n m) ≡ some n) same (find_sub-put_sub id n m) in
      inl (same, cc)
  | inr e ↦ inr (sym (find_sub-put_other k id n m e) ∙ h)
]

-- What holds at an id, and at every other one.
pub by_id :
    (id : Bytes) (Q : Bytes → Bool → Type 0)
    → Q id true
    → ((k : Bytes) → bytes_eq id k ≡ false → Q k false)
    → (k : Bytes) → Q k (bytes_eq id k)
by_id id Q here others k = elim (Bool-cases (bytes_eq id k)) [
  | inl e ↦
      subst (λ j. Q j (bytes_eq id j)) (eq_of_bytes_eq id k e)
        (subst (Q id) (sym (bytes_eq_refl id)) here)
  | inr e ↦ subst (Q k) (sym e) (others k e)
]

module _ {S E : Type 0} (sw : EventSwitch S) where
  -- The cache at `p` holds what is pending, and an event of its kind calls its callback once.
  abbrev pub Match : List (EventCache E) → S → Option ℕ → Option (Mailbox E) → Type 0
  Match cs em none none = Unit
  Match cs em (some p) (some (kind, es)) =
      Holds cs p es
      × ((e : Bytes) → times p (sw.callbacks em e) ≡ (if bytes_eq kind e then 1 else 0))
  Match cs em _ _ = ⊥

  pub record Refines (st : EventSubscriptions S E) (m : Mailboxes E) : Type 0 where
    pub bounded : Bounded sw st
    pub apart :
        (j k : Bytes) (p : ℕ)
        → find_sub j st.subs ≡ some p
        → find_sub k st.subs ≡ some p
        → bytes_eq j k ≡ true
    pub boxes : (k : Bytes) → Match st.caches st.event_emitter (find_sub k st.subs) (m k)

  -- Firing an event.
  fire-Match :
      (kind : Bytes) (evt : E) (st : EventSubscriptions S E) (o : Option ℕ) (b : Option (Mailbox E))
      → Match st.caches st.event_emitter o b
      → Match (fire sw kind evt st).caches st.event_emitter o (deliver kind evt b)
  unfolding fire
  fire-Match kind evt st none none h = tt
  fire-Match kind evt st (some p) (some (k, es)) (holds, calls) = (
    subst (Holds (fire sw kind evt st).caches p)
        (once (bytes_eq k kind) (times p (sw.callbacks st.event_emitter kind)) es evt (calls kind))
        (fire_all-Holds sw ((kind, evt) ∷ []) st p es holds),
    calls,
  )
  fire-Match kind evt st none (some b) h = h
  fire-Match kind evt st (some p) none h = h

  pub fire-Refines :
      (kind : Bytes) (evt : E) (st : EventSubscriptions S E) (m : Mailboxes E)
      → Refines st m
      → Refines (fire sw kind evt st) (λ k. deliver kind evt (m k))
  unfolding fire
  fire-Refines kind evt st m r = record {
    bounded = λ e q more.
        r.bounded e q
          (omega (arith, more, length-call_all evt (sw.callbacks st.event_emitter kind) st.caches));
    apart = r.apart;
    boxes = λ k. fire-Match kind evt st (find_sub k st.subs) (m k) (r.boxes k);
  }

  -- A new subscription.
  Match-lt :
      (cs : List (EventCache E)) (em : S) (p : ℕ) (b : Option (Mailbox E))
      → Match cs em (some p) b
      → p < length cs
  Match-lt cs em p (some (k, es)) ((c, at, held), calls) = (cache_at-append cs c c p at).1
  Match-lt cs em p none h = absurd h

  found-lt :
      (st : EventSubscriptions S E) (m : Mailboxes E) (k : Bytes) (p : ℕ)
      → Refines st m
      → find_sub k st.subs ≡ some p
      → p < length st.caches
  found-lt st m k p r e =
      Match-lt st.caches st.event_emitter p (m k)
        (subst (λ o. Match st.caches st.event_emitter o (m k)) e (r.boxes k))

  add-Match :
      (id kind : Bytes) (now : ℕ) (st : EventSubscriptions S E) (o : Option ℕ)
      (b : Option (Mailbox E))
      → AddsListener sw
      → sw.listens st.event_emitter id ≡ false
      → Match st.caches st.event_emitter o b
      → Match (add sw (ok id) kind now st).1.caches (add sw (ok id) kind now st).1.event_emitter o b
  unfolding add new_event_cache
  add-Match id kind now st none none law fresh h = tt
  add-Match id kind now st (some p) (some (k, es)) law fresh ((c, at, held), calls) =
      let (there, lt) = cache_at-append st.caches _ c p at in
      (
        (c, there, held),
        λ e.
            law st.event_emitter id kind e (length st.caches) p fresh
            ∙ unrelated (bytes_eq kind e) p (length st.caches) _ lt
            ∙ calls e,
      )
  add-Match id kind now st none (some b) law fresh h = h
  add-Match id kind now st (some p) none law fresh h = h

  pub add-Refines :
      (id kind : Bytes) (now : ℕ) (st : EventSubscriptions S E) (m : Mailboxes E)
      → AddsListener sw
      → sw.listens st.event_emitter id ≡ false
      → Refines st m
      → Refines (add sw (ok id) kind now st).1 (λ k. if bytes_eq id k then some (kind, []) else m k)
  add-Refines id kind now st m law fresh r = record {
    bounded = add-Bounded sw id kind now st law fresh r.bounded;
    apart =
        unfold add in
        λ j k p at_j at_k. elim (put_found id j (length st.caches) p st.subs at_j) [
          | inl (same_j, new_j) ↦ elim (put_found id k (length st.caches) p st.subs at_k) [
            | inl (same_k, _) ↦
                subst (λ i. bytes_eq j i ≡ true) (sym same_j ∙ same_k) (bytes_eq_refl j)
            | inr old_k ↦ absurd (omega (arith, new_j, found-lt st m k p r old_k))
          ]
          | inr old_j ↦ elim (put_found id k (length st.caches) p st.subs at_k) [
            | inl (_, new_k) ↦ absurd (omega (arith, new_k, found-lt st m j p r old_j))
            | inr old_k ↦ r.apart j k p old_j old_k
          ]
        ];
    boxes =
        unfold add in
        by_id id
          (λ k b.
            Match (add sw (ok id) kind now st).1.caches (add sw (ok id) kind now st).1.event_emitter
              (find_sub k (put_sub id (length st.caches) st.subs))
              (if b then some (kind, []) else m k))
          (rw (find_sub-put_sub id (length st.caches) st.subs)
            (add-Holds sw id kind now st, λ e. times-add sw id kind e now st law r.bounded fresh))
          (λ k e.
            rw (find_sub-put_other k id (length st.caches) st.subs e)
              (add-Match id kind now st (find_sub k st.subs) (m k) law fresh (r.boxes k)));
  }
