-- ===== src/ErisDb/Events/Examples.antt =====
-- Runs of an event cache over an event switch that keeps its listeners in a list.
use eris_db.Base.{ℕ, bytes_eq, str, true, List, [], ◌∷◌, ◌≡◌, refl, ok, err}
use eris_db.ErisDb.Events.{find_sub, add, poll, remove, reap, not_active, cache_at, fire}
use eris_db.ErisDb.Events.Firing.{Holds, fire_all}
use eris_db.ErisDb.Events.Delivery.{poll-add}
use eris_db.ErisDb.Events.Reaping.{ReapedAfter, reap-poll}
use eris_db.ErisDb.Events.Mailboxes.{Op, spec_run, no_mailboxes, run}
use eris_db.ErisDb.Events.Mailboxes.Refine.{run-spec_run}
use eris_db.ErisDb.Events.Leaks.{Step, Steps, remove-leaks}
use eris_db.ErisDb.Events.SmallSwitch.{
  is_known, list_switch, Subs, no_subs, fired, no_subs-Bounded, list_switch-AddsListener,
  list_switch-AddKeepsListeners, list_switch-RemovesListener,
}

poll-add_example :
    ((poll (str "A1") 9 (
        fire_all list_switch fired
          (add list_switch (ok (str "A1")) (str "NewBlock") 5 no_subs).1)).0
      ≡ ok (1 ∷ 3 ∷ []))
    × Holds
        (poll (str "A1") 9 (
          fire_all list_switch fired
            (add list_switch (ok (str "A1")) (str "NewBlock") 5 no_subs).1)).1.caches
        0
        []
unfolding bytes_eq
poll-add_example =
    poll-add list_switch (str "A1") (str "NewBlock") 5 9 no_subs fired list_switch-AddsListener
      no_subs-Bounded refl

-- A subscription with one event pending, which was made at 5.
abbrev one_sub : Subs
one_sub = record {
  event_emitter = (str "A1", str "NewBlock", 0) ∷ [];
  subs = (str "A1", 0) ∷ [];
  caches = record { events = 8 ∷ []; ts = 5; sub_id = str "A1" } ∷ [];
}

reap-poll_example :
    ReapedAfter list_switch 10000000001
      (str "A1")
      0
      one_sub
      (reap list_switch 10000000009 (poll (str "A1") 8 one_sub).1)
unfolding find_sub cache_at bytes_eq
reap-poll_example =
    reap-poll list_switch 10000000009 8 (str "A1") 0 one_sub
      (record { events = 8 ∷ []; ts = 5; sub_id = str "A1" }) list_switch-RemovesListener (refl, tt)
      refl refl

after_removal :
    Steps list_switch
      (str "A1")
      (remove (str "A1") one_sub).1
      (fire list_switch (str "NewBlock") 4 (reap list_switch 7 (remove (str "A1") one_sub).1))
after_removal = Steps.next (Step.reaps 7) (Steps.next (Step.fires (str "NewBlock") 4) Steps.done)

remove-leaks_example :
    ((poll
        (str "A1")
        9
        (fire list_switch (str "NewBlock") 4 (reap list_switch 7 (remove (str "A1") one_sub).1))).0
      ≡ err (not_active (str "A1")))
    × (is_known
          (str "A1")
          (fire list_switch
            (str "NewBlock")
            4
            (reap list_switch 7 (remove (str "A1") one_sub).1)).event_emitter
        ≡ true)
unfolding find_sub bytes_eq
remove-leaks_example =
    remove-leaks list_switch (str "A1") one_sub
      (fire list_switch (str "NewBlock") 4 (reap list_switch 7 (remove (str "A1") one_sub).1)) 0 9
      list_switch-AddKeepsListeners list_switch-RemovesListener refl refl after_removal

-- A subscription that hears one of two events, is polled twice and ended, and polled again.
abbrev ops : List (Op ℕ)
ops =
    Op.subscribe (str "A1") (str "NewBlock") 5
    ∷ Op.publish (str "NewBlock") 1
    ∷ Op.publish (str "Fork") 2
    ∷ Op.take (str "A1") 7
    ∷ Op.take (str "A1") 8
    ∷ Op.unsubscribe (str "A1")
    ∷ Op.take (str "A1") 9
    ∷ []

run-spec_run_example : run list_switch ops no_subs ≡ spec_run ops no_mailboxes
run-spec_run_example =
    run-spec_run list_switch [] ops list_switch-AddsListener (λ e. refl)
      (refl, (tt, (tt, (tt, (tt, (tt, (tt, tt)))))))
