-- ===== src/ErisDb/ServerManager/Ids.antt =====
-- The ids of erisdb/erisdbss/server_manager.go: what a failed start loses is never given back.
use eris_db.Base.{
  ℕ, suc, ◌+◌, ◌≤◌, ◌≡◌, refl, ap, inl, inr, Bool-cases, List, [], ◌∷◌, Bytes, str, Result, ok, err,
  panic, Error, length, length-append, arith,
}
use eris_db.Server.IdPool.{IdPool, get_id-front, get_id-empty, length-new_id_pool}
use eris_db.ErisDb.ServerManager.{
  Machine, RequestData, ResponseData, ServerManager, Step, new_server_manager, port_of, launch,
  launched, add_with, add, reap, kill_all, step, run,
}
use eris_db.ErisDb.ServerManager.Reaper.{kill_tasks-Released, reap-Reaped, Released-length}

-- The ids of the pool and of the servers that run.
abbrev pub left : {P : Type 0} → ServerManager P → ℕ
left sm = length sm.id_pool.ids + length sm.running

-- The ids that a call of `add` takes out of the pool and does not use.
abbrev pub lost_by : List ℕ → Result ResponseData → ℕ
lost_by [] r = 0
lost_by (id ∷ ids) (ok resp) = 0
lost_by (id ∷ ids) _ = 1

module _ {W F P J : Type 0} (m : Machine W F P J) (config_default : Bytes) where
  abbrev pub lost : Step J → ServerManager P × W → ℕ
  lost (Step.add_server data_in now) (sm, w) =
      let (r, _, _) = add m config_default data_in now sm w in lost_by sm.id_pool.ids r
  lost _ st = 0

  -- The ids that a sequence of steps loses.
  abbrev pub losses : List (Step J) → ServerManager P × W → ℕ
  losses [] st = 0
  losses (s ∷ ss) st = lost s st + losses ss (step m config_default s st)

  -- An id that is taken is left with a new server, or lost.
  abbrev Accounts : List ℕ → ℕ → Result ResponseData × ServerManager P × W → Type 0
  Accounts ids n (r, sm, w) = left sm + lost_by ids r ≡ n

  launched-Accounts :
      (data_in : RequestData J) (now port id : ℕ) (rest : List ℕ) (sm : ServerManager P)
      (r : Result (Bytes × P)) (w : W)
      → Accounts
          (id ∷ rest)
          (suc (length sm.id_pool.ids) + length sm.running)
          (launched m data_in now port sm (r, w))
  unfolding launched
  launched-Accounts data_in now port id rest sm (ok (dir, proc)) w =
      omega (arith, length-append sm.running (_ ∷ []))
  launched-Accounts data_in now port id rest sm (err e) w = omega arith
  launched-Accounts data_in now port id rest sm panic w = omega arith

  add-Accounts :
      (data_in : RequestData J) (now : ℕ) (sm : ServerManager P) (w : W) (ids : List ℕ)
      → sm.id_pool.ids ≡ ids
      → Accounts ids (length ids + length sm.running) (add m config_default data_in now sm w)
  unfolding add add_with
  add-Accounts data_in now sm w [] e = rw (get_id-empty sm.id_pool e) (omega (arith, ap length e))
  add-Accounts data_in now sm w (id ∷ rest) e =
      let pool : IdPool = record { ids = rest } in
      rw (get_id-front sm.id_pool id rest e) (
        launched-Accounts data_in now (port_of id) id rest (record sm { id_pool = pool })
          (launch m config_default sm.base_dir data_in (port_of id) w).0
          (launch m config_default sm.base_dir data_in (port_of id) w).1)

  reap-left : (now : ℕ) (sm : ServerManager P) (w : W) → left (reap m now sm w).0 ≡ left sm
  reap-left now sm w = elim (Bool-cases sm.reap) [
    | inl on ↦ Released-length (reap-Reaped m now sm w on).released
    | inr off ↦ unfold reap in rw off refl
  ]

  kill_all-left : (sm : ServerManager P) (w : W) → left (kill_all m sm w).0 ≡ left sm
  unfolding kill_all
  kill_all-left sm w = Released-length (kill_tasks-Released m sm.running sm.id_pool w).1

  step-left :
      (s : Step J) (sm : ServerManager P) (w : W)
      → left (step m config_default s (sm, w)).0 + lost s (sm, w) ≡ left sm
  step-left (Step.add_server data_in now) sm w = add-Accounts data_in now sm w sm.id_pool.ids refl
  step-left (Step.reap_round now) sm w = omega (arith, reap-left now sm w)
  step-left Step.shut_down sm w = omega (arith, kill_all-left sm w)

  losses-left :
      (ss : List (Step J)) (sm : ServerManager P) (w : W)
      → left (run m config_default ss (sm, w)).0 + losses ss (sm, w) ≡ left sm
  losses-left [] sm w = omega arith
  losses-left (s ∷ ss) sm w =
      let (sm2, w2) = step m config_default s (sm, w) in
      omega (arith, step-left s sm w, losses-left ss sm2 w2)

  -- Whatever a manager does, the ids of the pool, the servers that run and the ids that failed
  -- starts have taken add up to the number of ids that it was made with: neither the reaper nor
  -- the shutdown gives back the id of a start that failed.
  pub run-left :
      (max : ℕ) (base_dir : Bytes) (w : W) (ss : List (Step J))
      → left (run m config_default ss (new_server_manager max base_dir, w)).0
          + losses ss (new_server_manager max base_dir, w)
        ≡ max
  unfolding new_server_manager
  run-left max base_dir w ss =
      omega (arith, losses-left ss (new_server_manager max base_dir) w, length-new_id_pool max)

  empty-of-length : (ids : List ℕ) → length ids ≡ 0 → ids ≡ []
  empty-of-length [] h = refl
  empty-of-length (x ∷ xs) h = (let bad : ⊥ = omega (arith, h) in absurd bad)

  add-empty :
      (data_in : RequestData J) (now : ℕ) (sm : ServerManager P) (w : W)
      → sm.id_pool.ids ≡ []
      → add m config_default data_in now sm w ≡ (err (Error.other_error (str "Out of IDs")), sm, w)
  unfolding add add_with
  add-empty data_in now sm w e = rw (get_id-empty sm.id_pool e) refl

  -- Once as many starts have failed as there were ids, no server is ever started again: a further
  -- request gets an error and changes nothing, though no server runs.
  pub run_exhausted :
      (max : ℕ) (base_dir : Bytes) (w : W) (ss : List (Step J)) (data_in : RequestData J) (now : ℕ)
      → max ≤ losses ss (new_server_manager max base_dir, w)
      → let (sm2, w2) = run m config_default ss (new_server_manager max base_dir, w) in
        (add m config_default data_in now sm2 w2
          ≡ (err (Error.other_error (str "Out of IDs")), sm2, w2))
        × (length sm2.running ≡ 0)
  run_exhausted max base_dir w ss data_in now all_lost =
      let (sm2, w2) = run m config_default ss (new_server_manager max base_dir, w) in
      let total = run-left max base_dir w ss in
      (
        add-empty data_in now sm2 w2
            (empty-of-length sm2.id_pool.ids (omega (arith, total, all_lost))),
        omega (arith, total, all_lost),
      )
