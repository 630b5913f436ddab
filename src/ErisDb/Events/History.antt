-- ===== src/ErisDb/Events/History.antt =====
-- Every history of the subscriptions of erisdb/event_cache.go.
use eris_db.Base.{
  ℕ, zero, suc, ◌+◌, ◌≤◌, ◌≡◌, refl, ◌∙◌, ap, subst, Bool, false, not, ◌&&◌, Option, none, some,
  List, [], ◌∷◌, Bytes, bytes_eq, bytes_eq_sym, eq_of_bytes_eq, ok, if◌then◌else◌, if_rule, ◌==◌,
  arith, length, length-append,
}
use eris_db.ErisDb.Events.{
  EventSwitch, EventCache, EventSubscriptions, find_sub, put_sub, delete_sub, cache_at,
  change_cache, call_all, catch, new_event_cache, add, fire, reap_sub, reap_subs, reap, poll_cache,
  poll_at, poll_sub, poll, remove_sub, remove, expired,
}
use eris_db.ErisDb.Events.Firing.{times}
use eris_db.ErisDb.Events.Delivery.{AddsListener, Bounded}
use eris_db.ErisDb.Events.Keys.{Distinct, find_sub-delete_sub}
use eris_db.ErisDb.Events.Leaks.{find_sub-put_other, none_anyway}

put_sub-Distinct :
    (k : Bytes) (v : ℕ) (m : List (Bytes × ℕ)) → Distinct m → Distinct (put_sub k v m)
unfolding put_sub find_sub
put_sub-Distinct k v [] d = (refl, tt)
put_sub-Distinct k v ((j, p) ∷ m) d =
    if_rule Distinct (bytes_eq j k) ((k, v) ∷ m) ((j, p) ∷ put_sub k v m)
      (λ e. (subst (λ i. find_sub i m ≡ none) (eq_of_bytes_eq j k e) d.0, d.1))
      (λ e. (find_sub-put_other j k v m (bytes_eq_sym k j ∙ e) ∙ d.0, put_sub-Distinct k v m d.1))

delete_sub-Distinct : (k : Bytes) (m : List (Bytes × ℕ)) → Distinct m → Distinct (delete_sub k m)
unfolding delete_sub
delete_sub-Distinct k [] d = tt
delete_sub-Distinct k ((j, p) ∷ m) d =
    if_rule Distinct (not (bytes_eq j k)) ((j, p) ∷ delete_sub k m) (delete_sub k m)
      (λ e. (
        find_sub-delete_sub j k m
            ∙ ap (λ o. if bytes_eq k j then none else o) d.0
            ∙ none_anyway (bytes_eq k j),
        delete_sub-Distinct k m d.1,
      ))
      (λ e. delete_sub-Distinct k m d.1)

module _ {E : Type 0} where
  pub length-change_cache :
      (f : EventCache E → EventCache E) (cs : List (EventCache E)) (p : ℕ)
      → length (change_cache f cs p) ≡ length cs
  unfolding change_cache
  length-change_cache f [] p = refl
  length-change_cache f (c ∷ cs) zero = refl
  length-change_cache f (c ∷ cs) (suc p) = ap suc (length-change_cache f cs p)

  pub length-call_all :
      (evt : E) (ps : List ℕ) (cs : List (EventCache E)) → length (call_all evt ps cs) ≡ length cs
  unfolding call_all
  length-call_all evt [] cs = refl
  length-call_all evt (p ∷ ps) cs =
      length-call_all evt ps (change_cache (catch evt) cs p) ∙ length-change_cache (catch evt) cs p

nothing_added :
    (b : Bool) (n q before : ℕ)
    → suc n ≤ q
    → before ≡ 0
    → before + (if b && (q == n) then 1 else 0) ≡ 0
nothing_added b n q before h e = ground (arith, e)

module _ {S : Type 0} (sw : EventSwitch S) where
  -- Removing a listener calls nothing more than before.
  abbrev pub RemovesCallbacks : Type 0
  RemovesCallbacks =
      (s : S) (id e : Bytes) (q : ℕ)
      → times q (sw.callbacks (sw.remove_listener s id) e) ≤ times q (sw.callbacks s e)

module _ {S E : Type 0} (sw : EventSwitch S) where
  -- No key stands twice, and no callback belongs to a cache that is not made.
  pub record Kept (st : EventSubscriptions S E) : Type 0 where
    pub distinct : Distinct st.subs
    pub bounded : Bounded sw st

  -- What may happen next; a new subscription gets an id at which nothing listens.
  pub data Step : EventSubscriptions S E → EventSubscriptions S E → Type 0 where
    adds :
        {st : EventSubscriptions S E} (id event_id : Bytes) (now : ℕ)
        → sw.listens st.event_emitter id ≡ false
        → Step st (add sw (ok id) event_id now st).1
    fires :
        {st : EventSubscriptions S E} (event_id : Bytes) (evt : E)
        → Step st (fire sw event_id evt st)
    polls : {st : EventSubscriptions S E} (id : Bytes) (now : ℕ) → Step st (poll id now st).1
    removes : {st : EventSubscriptions S E} (id : Bytes) → Step st (remove id st).1
    reaps : {st : EventSubscriptions S E} (now : ℕ) → Step st (reap sw now st)

  pub data Reach (st : EventSubscriptions S E) : EventSubscriptions S E → Type 0 where
    here : Reach st st
    next : {st1 st2 : EventSubscriptions S E} → Reach st st1 → Step st1 st2 → Reach st st2

  pub add-Bounded :
      (id event_id : Bytes) (now : ℕ) (st : EventSubscriptions S E)
      → AddsListener sw
      → sw.listens st.event_emitter id ≡ false
      → Bounded sw st
      → Bounded sw (add sw (ok id) event_id now st).1
  unfolding add new_event_cache
  add-Bounded id event_id now st law fresh h e q more =
      let beyond : suc (length st.caches) ≤ q = omega (
        arith,
        more,
        length-append st.caches (record { events = []; ts = now; sub_id = id } ∷ []),
      ) in
      law st.event_emitter id event_id e (length st.caches) q fresh
      ∙ nothing_added (bytes_eq event_id e) (length st.caches) q
          (times q (sw.callbacks st.event_emitter e)) beyond (h e q (omega (arith, beyond)))

  add-Kept :
      (id event_id : Bytes) (now : ℕ) (st : EventSubscriptions S E)
      → AddsListener sw
      → sw.listens st.event_emitter id ≡ false
      → Kept st
      → Kept (add sw (ok id) event_id now st).1
  add-Kept id event_id now st law fresh h = record {
    distinct = unfold add in put_sub-Distinct id (length st.caches) st.subs h.distinct;
    bounded = add-Bounded id event_id now st law fresh h.bounded;
  }

  fire-Kept :
      (event_id : Bytes) (evt : E) (st : EventSubscriptions S E)
      → Kept st
      → Kept (fire sw event_id evt st)
  unfolding fire
  fire-Kept event_id evt st h = record {
    distinct = h.distinct;
    bounded = λ e q more. h.bounded e q (
        omega
          (arith, more, length-call_all evt (sw.callbacks st.event_emitter event_id) st.caches));
  }

  reap_sub-Kept :
      (now : ℕ) (e : Bytes × ℕ) (st : EventSubscriptions S E)
      → RemovesCallbacks sw
      → Kept st
      → Kept (reap_sub sw now e st)
  unfolding reap_sub
  reap_sub-Kept now (id, p) st law h =
      if_rule Kept (expired now st.caches p) _ st
        (λ _. record {
          distinct = delete_sub-Distinct id st.subs h.distinct;
          bounded = λ e q more. omega (arith, law st.event_emitter id e q, h.bounded e q more);
        })
        (λ _. h)

  reap_subs-Kept :
      (now : ℕ) (m : List (Bytes × ℕ)) (st : EventSubscriptions S E)
      → RemovesCallbacks sw
      → Kept st
      → Kept (reap_subs sw now m st)
  unfolding reap_subs
  reap_subs-Kept now [] st law h = h
  reap_subs-Kept now (e ∷ m) st law h =
      reap_subs-Kept now m (reap_sub sw now e st) law (reap_sub-Kept now e st law h)

  poll_at-Kept :
      (now p : ℕ) (st : EventSubscriptions S E) (o : Option (EventCache E))
      → Kept st
      → Kept (poll_at now p st o).1
  unfolding poll_at
  poll_at-Kept now p st none h = h
  poll_at-Kept now p st (some c) h = record {
    distinct = h.distinct;
    bounded = λ e q more.
        h.bounded e q
          (omega (arith, more, length-change_cache (λ d. (poll_cache now d).1) st.caches p));
  }

  poll_sub-Kept :
      (id : Bytes) (now : ℕ) (st : EventSubscriptions S E) (o : Option ℕ)
      → Kept st
      → Kept (poll_sub id now st o).1
  unfolding poll_sub
  poll_sub-Kept id now st none h = h
  poll_sub-Kept id now st (some p) h = poll_at-Kept now p st (cache_at st.caches p) h

  remove_sub-Kept :
      (id : Bytes) (st : EventSubscriptions S E) (o : Option ℕ)
      → Kept st
      → Kept (remove_sub id st o).1
  unfolding remove_sub
  remove_sub-Kept id st none h = h
  remove_sub-Kept id st (some p) h = record {
    distinct = delete_sub-Distinct id st.subs h.distinct;
    bounded = h.bounded;
  }

  Step-Kept :
      {st st1 : EventSubscriptions S E}
      → AddsListener sw
      → RemovesCallbacks sw
      → Step st st1
      → Kept st
      → Kept st1
  Step-Kept law_add law_remove (adds id event_id now fresh) h =
      add-Kept id event_id now _ law_add fresh h
  Step-Kept law_add law_remove (fires event_id evt) h = fire-Kept event_id evt _ h
  Step-Kept law_add law_remove (polls {st = st} id now) h =
      unfold poll in poll_sub-Kept id now st (find_sub id st.subs) h
  Step-Kept law_add law_remove (removes {st = st} id) h =
      unfold remove in remove_sub-Kept id st (find_sub id st.subs) h
  Step-Kept law_add law_remove (reaps {st = st} now) h =
      unfold reap in reap_subs-Kept now st.subs st law_remove h

  -- In every history that starts with no subscription and no listener, in which an id is used only
  -- where nothing listens for it, no key stands twice in the map, and no callback belongs to a cache
  -- that is not made. The event switch is assumed to add one callback for a new listener, and to
  -- call nothing more once a listener is removed.
  Reach-Kept :
      (idle : S) {st : EventSubscriptions S E}
      → AddsListener sw
      → RemovesCallbacks sw
      → ((e : Bytes) → sw.callbacks idle e ≡ [])
      → Reach (record { event_emitter = idle; subs = []; caches = [] }) st
      → Kept st
  Reach-Kept idle law_add law_remove silent here = record {
    distinct = tt;
    bounded = λ e q more. ap (times q) (silent e);
  }
  Reach-Kept idle law_add law_remove silent (next r s) =
      Step-Kept law_add law_remove s (Reach-Kept idle law_add law_remove silent r)
