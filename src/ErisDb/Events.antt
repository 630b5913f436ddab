-- ===== src/ErisDb/Events.antt =====
-- erisdb/event_cache.go: subscriptions whose events are kept until they are polled. A cache is an
-- object that the map of subscriptions and the callback of the event switch share: it stands in a
-- store and is named by its place there. Each method is one step. `remove` and
-- the reaper hold the mutex of the map; `add` and `poll` do not, so histories in which those two overlap
-- with another method on the map are not modelled.
pub mod SmallSwitch
mod Examples
pub mod Firing
pub mod Delivery
pub mod Keys
pub mod Reaping
pub mod Leaks
pub mod Mailboxes
pub mod History
use eris_db.Base.{
  ℕ, zero, suc, ◌+◌, ◌-◌, Bool, true, false, not, ◌&&◌, ◌||◌, Option, none, some, List, [], ◌∷◌,
  ◌++◌, Bytes, bytes_eq, str, Result, ok, err, panic, Error, ltb, ◌==◌, if◌then◌else◌, length,
  select,
}

-- What the code calls of tendermint's `EventSwitch`, with what can be seen of its state: the
-- callbacks that an event calls, each named by the place of its cache, and which ids listen.
pub record EventSwitch (S : Type 0) : Type 0 where
  pub add_listener_for_event : S → Bytes → Bytes → ℕ → S
  pub remove_listener : S → Bytes → S
  pub callbacks : S → Bytes → List ℕ
  pub listens : S → Bytes → Bool

pub record EventCache (E : Type 0) : Type 0 where
  pub events : List E
  pub ts : ℕ
  pub sub_id : Bytes

-- `caches` holds every cache that was ever made.
pub record EventSubscriptions (S E : Type 0) : Type 0 where
  pub event_emitter : S
  pub subs : List (Bytes × ℕ)
  pub caches : List (EventCache E)

unfoldable pub find_sub : Bytes → List (Bytes × ℕ) → Option ℕ
find_sub k [] = none
find_sub k ((j, p) ∷ m) = if bytes_eq j k then some p else find_sub k m

unfoldable pub put_sub : Bytes → ℕ → List (Bytes × ℕ) → List (Bytes × ℕ)
put_sub k v [] = (k, v) ∷ []
put_sub k v ((j, p) ∷ m) = if bytes_eq j k then (k, v) ∷ m else (j, p) ∷ put_sub k v m

unfoldable pub delete_sub : Bytes → List (Bytes × ℕ) → List (Bytes × ℕ)
delete_sub k = select (λ e. not (bytes_eq e.0 k))

-- Nanoseconds.
abbrev pub reaper_threshold : ℕ
reaper_threshold = 10000000000

module _ {E : Type 0} where
  unfoldable pub cache_at : List (EventCache E) → ℕ → Option (EventCache E)
  cache_at [] i = none
  cache_at (c ∷ cs) zero = some c
  cache_at (c ∷ cs) (suc i) = cache_at cs i

  -- The store with the cache at a place changed.
  unfoldable pub change_cache :
      (EventCache E → EventCache E) → List (EventCache E) → ℕ → List (EventCache E)
  change_cache f [] i = []
  change_cache f (c ∷ cs) zero = f c ∷ cs
  change_cache f (c ∷ cs) (suc i) = c ∷ change_cache f cs i

  unfoldable pub new_event_cache : ℕ → EventCache E
  new_event_cache now = record { events = []; ts = now; sub_id = [] }

  unfoldable pub poll_cache : ℕ → EventCache E → List E × EventCache E
  poll_cache now c =
      if ltb 0 (length c.events)
      then (c.events, record c { events = []; ts = now })
      else ([], record c { ts = now })

  -- The callback that `add` subscribes.
  abbrev pub catch : E → EventCache E → EventCache E
  catch evt c = record c { events = c.events ++ evt ∷ [] }

  -- The callbacks of one event, one after the other.
  unfoldable pub call_all : E → List ℕ → List (EventCache E) → List (EventCache E)
  call_all evt [] cs = cs
  call_all evt (p ∷ ps) cs = call_all evt ps (change_cache (catch evt) cs p)

  -- `time.Since(sub.ts) > reaperThreshold`
  unfoldable pub expired : ℕ → List (EventCache E) → ℕ → Bool
  expired now cs p = elim (cache_at cs p) [
    | none ↦ false
    | some c ↦ ltb reaper_threshold (now - c.ts)
  ]

abbrev not_active : Bytes → Error
not_active sub_id = Error.other_error (str "Subscription not active. ID: " ++ sub_id)

module _ {S E : Type 0} (sw : EventSwitch S) where
  -- `event_emitter.Subscribe` and `Unsubscribe` return true and no error. The cache is made before
  -- it is subscribed; `generated` is what `generateSubId` returns.
  unfoldable pub add :
      Result Bytes → Bytes → ℕ → EventSubscriptions S E → Result Bytes × EventSubscriptions S E
  add (ok sub_id) event_id now st =
      let place = length st.caches in
      (
        ok sub_id,
        record {
          event_emitter = sw.add_listener_for_event st.event_emitter sub_id event_id place;
          subs = put_sub sub_id place st.subs;
          caches = st.caches ++ record (new_event_cache now) { sub_id = sub_id } ∷ [];
        },
      )
  add (err e) event_id now st = (err e, st)
  add panic event_id now st = (panic, st)

  -- The switch fires an event.
  unfoldable pub fire : Bytes → E → EventSubscriptions S E → EventSubscriptions S E
  fire event_id evt st = record st {
    caches = call_all evt (sw.callbacks st.event_emitter event_id) st.caches;
  }

  unfoldable pub reap_sub : ℕ → Bytes × ℕ → EventSubscriptions S E → EventSubscriptions S E
  reap_sub now (id, p) st =
      if expired now st.caches p
      then record st {
        subs = delete_sub id st.subs;
        event_emitter = sw.remove_listener st.event_emitter id;
      }
      else st

  -- The loop of `reap` over the entries of the map.
  unfoldable pub reap_subs : ℕ → List (Bytes × ℕ) → EventSubscriptions S E → EventSubscriptions S E
  reap_subs now [] st = st
  reap_subs now (e ∷ m) st = reap_subs now m (reap_sub now e st)

  -- One round of the reaper, after its sleep.
  unfoldable pub reap : ℕ → EventSubscriptions S E → EventSubscriptions S E
  unfolding reap_subs
  reap now st = reap_subs now st.subs st

module _ {S E : Type 0} where
  poll_at :
      ℕ
      → ℕ
      → EventSubscriptions S E
      → Option (EventCache E)
      → Result (List E) × EventSubscriptions S E
  poll_at now p st none = (panic, st)
  poll_at now p st (some c) =
      let (evts, _) = poll_cache now c in
      (ok evts, record st { caches = change_cache (λ d. (poll_cache now d).1) st.caches p })

  poll_sub :
      Bytes → ℕ → EventSubscriptions S E → Option ℕ → Result (List E) × EventSubscriptions S E
  unfolding poll_at
  poll_sub sub_id now st none = (err (not_active sub_id), st)
  poll_sub sub_id now st (some p) = poll_at now p st (cache_at st.caches p)

  unfoldable pub poll :
      Bytes → ℕ → EventSubscriptions S E → Result (List E) × EventSubscriptions S E
  unfolding poll_sub
  poll sub_id now st = poll_sub sub_id now st (find_sub sub_id st.subs)

  remove_sub :
      Bytes → EventSubscriptions S E → Option ℕ → Result (Unit {0}) × EventSubscriptions S E
  remove_sub sub_id st none = (err (not_active sub_id), st)
  remove_sub sub_id st (some p) = (ok tt, record st { subs = delete_sub sub_id st.subs })

  unfoldable pub remove :
      Bytes → EventSubscriptions S E → Result (Unit {0}) × EventSubscriptions S E
  unfolding remove_sub
  remove sub_id st = remove_sub sub_id st (find_sub sub_id st.subs)
