-- ===== src/ErisDb/Events/SmallSwitch.antt =====
-- An event switch that the tests share, which keeps its listeners in a list.
use eris_db.Base.{
  ◌+◌, ℕ, Bytes, bytes_eq, str, Bool, true, false, not, ◌&&◌, ◌||◌, List, [], ◌∷◌, ◌≡◌, refl, arith,
  ◌==◌, if_rule, ap, ◌∙◌, eq_of_bytes_eq, if◌then◌else◌,
}
use eris_db.ErisDb.Events.{EventSwitch, EventSubscriptions}
use eris_db.ErisDb.Events.Firing.{times}
use eris_db.ErisDb.Events.Delivery.{AddsListener, Bounded}
use eris_db.ErisDb.Events.Keys.{differ}
use eris_db.ErisDb.Events.Reaping.{RemovesListener}
use eris_db.ErisDb.Events.Leaks.{AddKeepsListeners}

-- Who listens to which event, with the place of the cache.
abbrev pub Listener : Type 0
Listener = Bytes × Bytes × ℕ

abbrev pub called_by : Bytes → List Listener → List ℕ
called_by e [] = []
called_by e ((id, event_id, p) ∷ ls) =
    if bytes_eq event_id e then p ∷ called_by e ls else called_by e ls

abbrev pub is_known : Bytes → List Listener → Bool
is_known k [] = false
is_known k ((id, event_id, p) ∷ ls) = bytes_eq id k || is_known k ls

abbrev pub forget : Bytes → List Listener → List Listener
forget k [] = []
forget k ((id, event_id, p) ∷ ls) =
    if bytes_eq id k then forget k ls else (id, event_id, p) ∷ forget k ls

abbrev pub list_switch : EventSwitch (List Listener)
list_switch = record {
  add_listener_for_event = λ s id event_id p. (id, event_id, p) ∷ s;
  remove_listener = λ s id. forget id s;
  callbacks = λ s e. called_by e s;
  listens = λ s k. is_known k s;
}

one_more :
    (b : Bool) (p q : ℕ) (rest : List ℕ)
    → times q (if b then p ∷ rest else rest) ≡ times q rest + (if b && (q == p) then 1 else 0)
one_more true p q rest = ground arith
one_more false p q rest = ground arith

pub list_switch-AddsListener : AddsListener list_switch
list_switch-AddsListener s id event_id e p q fresh =
    one_more (bytes_eq event_id e) p q (called_by e s)

or_true : (b : Bool) → b || true ≡ true
or_true b = ground arith

pub list_switch-AddKeepsListeners : AddKeepsListeners list_switch
list_switch-AddKeepsListeners s id event_id k p h =
    ap (bytes_eq id k ||◌) h ∙ or_true (bytes_eq id k)

forgotten : (a r n : Bool) → a ≡ n → r && not n ≡ (a || r) && not n
forgotten true r true e = ground arith
forgotten true r false e = cc
forgotten false r n e = refl

kept : (a r n : Bool) → (a ≡ true → n ≡ false) → a || (r && not n) ≡ (a || r) && not n
kept true r n h = rw (h refl)
kept false r n h = refl

pub list_switch-RemovesListener : RemovesListener list_switch
list_switch-RemovesListener [] id k = refl
list_switch-RemovesListener ((j, event_id, p) ∷ s) id k =
    if_rule (λ ls. is_known k ls ≡ (bytes_eq j k || is_known k s) && not (bytes_eq id k))
      (bytes_eq j id) (forget id s) ((j, event_id, p) ∷ forget id s)
      (λ e.
        list_switch-RemovesListener s id k
        ∙ forgotten (bytes_eq j k) (is_known k s) (bytes_eq id k)
            (ap (λ b. bytes_eq b k) (eq_of_bytes_eq j id e)))
      (λ e.
        ap (bytes_eq j k ||◌) (list_switch-RemovesListener s id k)
        ∙ kept (bytes_eq j k) (is_known k s) (bytes_eq id k) (differ j id k e))

abbrev pub Subs : Type 0
Subs = EventSubscriptions (List Listener) ℕ

abbrev pub no_subs : Subs
no_subs = record { event_emitter = []; subs = []; caches = [] }

pub no_subs-Bounded : Bounded list_switch no_subs
no_subs-Bounded e q h = refl

-- Three events, two of them of the kind "NewBlock".
abbrev pub fired : List (Bytes × ℕ)
fired = (str "NewBlock", 1) ∷ (str "Fork", 2) ∷ (str "NewBlock", 3) ∷ []
