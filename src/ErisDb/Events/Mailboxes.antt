-- ===== src/ErisDb/Events/Mailboxes.antt =====
-- What erisdb/event_cache.go promises: a mailbox for each subscription. It knows the kind of its
-- events and what is pending, and nothing of caches, places or listeners.
pub mod Matching
pub mod Taking
pub mod Refine
use eris_db.Base.{
  ℕ, Bool, Option, none, some, List, [], ◌∷◌, ◌++◌, Bytes, bytes_eq, Result, ok, err, if◌then◌else◌,
  ◌≡◌, false,
}
use eris_db.ErisDb.Events.{EventSwitch, EventSubscriptions, not_active, add, fire, poll, remove}

-- What callers and the event switch do between two rounds of the reaper.
pub data Op (E : Type 0) : Type 0 where
  subscribe : Bytes → Bytes → ℕ → Op E
  publish : Bytes → E → Op E
  take : Bytes → ℕ → Op E
  unsubscribe : Bytes → Op E

-- What a caller sees of an operation.
pub data Seen (E : Type 0) : Type 0 where
  nothing : Seen E
  sub_id : Result Bytes → Seen E
  events : Result (List E) → Seen E
  ended : Result (Unit {0}) → Seen E

abbrev pub Mailbox : Type 0 → Type 0
Mailbox E = Bytes × List E

abbrev pub Mailboxes : Type 0 → Type 0
Mailboxes E = Bytes → Option (Mailbox E)

module _ {E : Type 0} where
  abbrev pub deliver : Bytes → E → Option (Mailbox E) → Option (Mailbox E)
  deliver kind evt (some (k, es)) = some (k, es ++ (if bytes_eq k kind then evt ∷ [] else []))
  deliver kind evt none = none

  abbrev pub emptied : Option (Mailbox E) → Option (Mailbox E)
  emptied (some (k, es)) = some (k, [])
  emptied none = none

  abbrev pub contents : Bytes → Option (Mailbox E) → Result (List E)
  contents id (some (k, es)) = ok es
  contents id none = err (not_active id)

  abbrev pub closing : Bytes → Option (Mailbox E) → Result (Unit {0})
  closing id (some (k, es)) = ok tt
  closing id none = err (not_active id)

  -- One operation on mailboxes.
  abbrev pub spec_step : Op E → Mailboxes E → Seen E × Mailboxes E
  spec_step (subscribe id kind now) m =
      (sub_id (ok id), λ k. if bytes_eq id k then some (kind, []) else m k)
  spec_step (publish kind evt) m = (nothing, λ k. deliver kind evt (m k))
  spec_step (take id now) m =
      (events (contents id (m id)), λ k. if bytes_eq id k then emptied (m k) else m k)
  spec_step (unsubscribe id) m =
      (ended (closing id (m id)), λ k. if bytes_eq id k then none else m k)

  abbrev pub spec_run : List (Op E) → Mailboxes E → List (Seen E)
  spec_run [] m = []
  spec_run (op ∷ ops) m = let (seen, m2) = spec_step op m in seen ∷ spec_run ops m2

  -- No mailbox is open.
  abbrev pub no_mailboxes : Mailboxes E
  no_mailboxes = λ k. none

module _ {S E : Type 0} (sw : EventSwitch S) where
  -- The same operation on the caches; the id of a subscription is the one that is generated.
  abbrev pub step : Op E → EventSubscriptions S E → Seen E × EventSubscriptions S E
  step (subscribe id kind now) st = let (r, st2) = add sw (ok id) kind now st in (sub_id r, st2)
  step (publish kind evt) st = (nothing, fire sw kind evt st)
  step (take id now) st = let (r, st2) = poll id now st in (events r, st2)
  step (unsubscribe id) st = let (r, st2) = remove id st in (ended r, st2)

  abbrev pub run : List (Op E) → EventSubscriptions S E → List (Seen E)
  run [] st = []
  run (op ∷ ops) st = let (seen, st2) = step op st in seen ∷ run ops st2

  -- A new subscription gets an id at which nothing listens.
  abbrev pub IsFresh : Op E → EventSubscriptions S E → Type 0
  IsFresh (subscribe id kind now) st = sw.listens st.event_emitter id ≡ false
  IsFresh _ st = Unit

  abbrev pub AllFresh : List (Op E) → EventSubscriptions S E → Type 0
  AllFresh [] st = Unit
  AllFresh (op ∷ ops) st = IsFresh op st × AllFresh ops (step op st).1
