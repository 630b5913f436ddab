-- ===== src/ErisDb/Events/Firing.antt =====
-- What firing events does to the caches of erisdb/event_cache.go.
use eris_db.Base.{
  ℕ, zero, suc, ◌≡◌, ◌≢◌, refl, ◌∙◌, ap, sym, subst, some, List, [], ◌∷◌, ◌++◌, Bytes, ◌==◌,
  if◌then◌else◌, if_rule, ==_iff, append_assoc, append-nil, arith,
}
use eris_db.ErisDb.Events.{
  EventSwitch, EventCache, EventSubscriptions, cache_at, change_cache, catch, call_all, fire,
}

-- How often a place stands among the callbacks.
abbrev pub times : ℕ → List ℕ → ℕ
times p [] = 0
times p (q ∷ qs) = if p == q then suc (times p qs) else times p qs

abbrev pub repeated {ℓ} : {A : Type ℓ} → ℕ → A → List A
repeated zero x = []
repeated (suc n) x = x ∷ repeated n x

module _ {E : Type 0} where
  pub cache_at-same :
      (f : EventCache E → EventCache E) (cs : List (EventCache E)) (p : ℕ) (c : EventCache E)
      → cache_at cs p ≡ some c
      → cache_at (change_cache f cs p) p ≡ some (f c)
  unfolding cache_at change_cache
  cache_at-same f [] p c h = cc
  cache_at-same f (d ∷ cs) zero c h = cc
  cache_at-same f (d ∷ cs) (suc p) c h = cache_at-same f cs p c h

  pub cache_at-other :
      (f : EventCache E → EventCache E) (cs : List (EventCache E)) (q p : ℕ)
      → p ≢ q
      → cache_at (change_cache f cs q) p ≡ cache_at cs p
  unfolding cache_at change_cache
  cache_at-other f [] q p h = refl
  cache_at-other f (d ∷ cs) zero zero h = absurd (h refl)
  cache_at-other f (d ∷ cs) zero (suc p) h = refl
  cache_at-other f (d ∷ cs) (suc q) zero h = refl
  cache_at-other f (d ∷ cs) (suc q) (suc p) h = cache_at-other f cs q p (λ e. h (ap suc e))

  -- The cache at `p` holds the events `es`.
  abbrev pub Holds : List (EventCache E) → ℕ → List E → Type 0
  Holds cs p es = (c : EventCache E) × (cache_at cs p ≡ some c) × (c.events ≡ es)

  catch-same :
      (evt : E) (cs : List (EventCache E)) (p : ℕ) (es : List E)
      → Holds cs p es
      → Holds (change_cache (catch evt) cs p) p (es ++ evt ∷ [])
  catch-same evt cs p es (c, at, held) =
      (catch evt c, cache_at-same (catch evt) cs p c at, ap (λ x. x ++ evt ∷ []) held)

  catch-other :
      (evt : E) (cs : List (EventCache E)) (q p : ℕ) (es : List E)
      → p ≢ q
      → Holds cs p es
      → Holds (change_cache (catch evt) cs q) p es
  catch-other evt cs q p es h (c, at, held) = (c, cache_at-other (catch evt) cs q p h ∙ at, held)

  call_all-Holds :
      (evt : E) (ps : List ℕ) (cs : List (EventCache E)) (p : ℕ) (es : List E)
      → Holds cs p es
      → Holds (call_all evt ps cs) p (es ++ repeated (times p ps) evt)
  unfolding call_all
  call_all-Holds evt [] cs p es h = subst (Holds cs p) (sym (append-nil es)) h
  call_all-Holds evt (q ∷ ps) cs p es h =
      let n = times p ps in
      let after = change_cache (catch evt) cs q in
      let Goal = λ (k : ℕ). Holds (call_all evt ps after) p (es ++ repeated k evt) in
      if_rule Goal (p == q) (suc n) n
        (λ e.
          subst (Holds (call_all evt ps after) p) (append_assoc es (evt ∷ []) (repeated n evt)) (
            call_all-Holds evt ps after p (es ++ evt ∷ []) (
              subst (λ r. Holds (change_cache (catch evt) cs r) p (es ++ evt ∷ []))
                ((==_iff p q).0 e) (catch-same evt cs p es h))))
        (λ e. call_all-Holds evt ps after p es (catch-other evt cs q p es (ground (arith, e)) h))

module _ {S E : Type 0} (sw : EventSwitch S) where
  abbrev pub fire_all : List (Bytes × E) → EventSubscriptions S E → EventSubscriptions S E
  fire_all [] st = st
  fire_all ((event_id, evt) ∷ fs) st = fire_all fs (fire sw event_id evt st)

  -- Of the events that are fired, those that call the callback of the cache at `p`.
  abbrev pub heard : S → ℕ → List (Bytes × E) → List E
  heard s p [] = []
  heard s p ((event_id, evt) ∷ fs) =
      repeated (times p (sw.callbacks s event_id)) evt ++ heard s p fs

  pub fire_all-Holds :
      (fs : List (Bytes × E)) (st : EventSubscriptions S E) (p : ℕ) (es : List E)
      → Holds st.caches p es
      → Holds (fire_all fs st).caches p (es ++ heard st.event_emitter p fs)
  unfolding fire
  fire_all-Holds [] st p es h = subst (Holds st.caches p) (sym (append-nil es)) h
  fire_all-Holds ((event_id, evt) ∷ fs) st p es h =
      let new = repeated (times p (sw.callbacks st.event_emitter event_id)) evt in
      subst (Holds (fire_all fs (fire sw event_id evt st)).caches p)
        (append_assoc es new (heard st.event_emitter p fs))
        (fire_all-Holds fs (fire sw event_id evt st) p (es ++ new)
          (call_all-Holds evt (sw.callbacks st.event_emitter event_id) st.caches p es h))

  pub fire_all-subs :
      (fs : List (Bytes × E)) (st : EventSubscriptions S E) → (fire_all fs st).subs ≡ st.subs
  unfolding fire
  fire_all-subs [] st = refl
  fire_all-subs ((event_id, evt) ∷ fs) st = fire_all-subs fs (fire sw event_id evt st)

  pub fire_all-event_emitter :
      (fs : List (Bytes × E)) (st : EventSubscriptions S E)
      → (fire_all fs st).event_emitter ≡ st.event_emitter
  unfolding fire
  fire_all-event_emitter [] st = refl
  fire_all-event_emitter ((event_id, evt) ∷ fs) st =
      fire_all-event_emitter fs (fire sw event_id evt st)
