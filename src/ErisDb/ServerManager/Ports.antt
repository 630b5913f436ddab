-- ===== src/ErisDb/ServerManager/Ports.antt =====
-- The ports of erisdb/erisdbss/server_manager.go.
use eris_db.Base.{
  ℕ, ◌+◌, ◌^◌, ◌≤◌, ◌<◌, ◌≡◌, refl, ap, subst, inl, inr, Bool-cases, List, [], ◌∷◌, Bytes, Result,
  ok, err, panic, length, arith, All, All-append, All-right,
}
use eris_db.Server.IdPool.{
  IdPool, get_id-front, get_id-empty, count, count-append, in_range, count-new_id_pool,
}
use eris_db.ErisDb.ServerManager.{
  Machine, RequestData, ResponseData, ServeTask, ServerManager, Step, port_base, new_server_manager,
  port_of, id_of, launch, launched, add_with, add, reap, kill_all, step, run,
}
use eris_db.ErisDb.ServerManager.Reaper.{
  ids, ids-append, Released, Released-count, kill_tasks-Released, reap-Reaped,
}
use eris_db.ErisDb.ServerManager.Ids.{run-left}

abbrev IsPort : {P : Type 0} → ServeTask P → Type 0
IsPort task = task.port < 2 ^ 16

-- No id is in use twice, or outside of 1 to `max`.
record Valid {P : Type 0} (max : ℕ) (pool : IdPool) (tasks : List (ServeTask P)) : Type 0 where
  once : (n : ℕ) → count n pool.ids + count n (ids tasks) ≤ in_range 1 max n
  fit : All IsPort tasks

id_of-port_of : (id : ℕ) → id < 2 ^ 16 → id_of (port_of id) ≡ id
unfolding id_of port_of
id_of-port_of id h = ground (arith, h)

port_of-lt : (id : ℕ) → port_of id < 2 ^ 16
unfolding port_of
port_of-lt id = omega arith

Released-Valid :
    {P : Type 0} {Gone : ServeTask P → Type 0} {tasks : List (ServeTask P)} {pool : IdPool}
    {rest : List (ServeTask P)} {pool2 : IdPool} (max : ℕ)
    → Released Gone tasks pool rest pool2
    → Valid max pool tasks
    → Valid max pool2 rest
Released-Valid {P} {Gone} {tasks} {pool} {rest} max r v = record {
  once = λ n. omega (arith, Released-count n r, v.once n);
  fit = All-right IsPort r.taken rest (subst (All IsPort) r.split v.fit);
}

taken_id :
    (id max : ℕ) (rest : List ℕ) (n : ℕ) → count id (id ∷ rest) + n ≤ in_range 1 max id → id ≤ max
taken_id id max rest n h = ground (arith, h)

module _ {W F P J : Type 0} (m : Machine W F P J) (config_default : Bytes) where
  abbrev ValidManager : ℕ → ServerManager P → Type 0
  ValidManager max sm = Valid max sm.id_pool sm.running

  abbrev ValidEnd : ℕ → Result ResponseData × ServerManager P × W → Type 0
  ValidEnd max (r, sm, w) = ValidManager max sm

  launched-Valid :
      (max : ℕ) (data_in : RequestData J) (now id : ℕ) (rest : List ℕ) (sm : ServerManager P)
      (r : Result (Bytes × P)) (w : W)
      → max < 2 ^ 16
      → sm.id_pool.ids ≡ rest
      → ((n : ℕ) → count n (id ∷ rest) + count n (ids sm.running) ≤ in_range 1 max n)
      → All IsPort sm.running
      → ValidEnd max (launched m data_in now (port_of id) sm (r, w))
  unfolding launched
  launched-Valid max data_in now id rest sm (ok (dir, proc)) w small e once fit =
      let back = id_of-port_of id (omega (arith, small, taken_id id max rest _ (once id))) in
      record {
        once = λ n.
            rw (ids-append sm.running (_ ∷ []), back, e)
              (ground (arith, once n, count-append n (ids sm.running) (id ∷ [])));
        fit = All-append IsPort sm.running (_ ∷ []) fit (port_of-lt id, tt);
      }
  launched-Valid max data_in now id rest sm (err x) w small e once fit = record {
    once = λ n. rw e (ground (arith, once n));
    fit = fit;
  }
  launched-Valid max data_in now id rest sm panic w small e once fit = record {
    once = λ n. rw e (ground (arith, once n));
    fit = fit;
  }

  add-Valid :
      (max : ℕ) (data_in : RequestData J) (now : ℕ) (sm : ServerManager P) (w : W) (all : List ℕ)
      → max < 2 ^ 16
      → sm.id_pool.ids ≡ all
      → ValidManager max sm
      → ValidEnd max (add m config_default data_in now sm w)
  unfolding add add_with
  add-Valid max data_in now sm w [] small e v = rw (get_id-empty sm.id_pool e) v
  add-Valid max data_in now sm w (id ∷ rest) small e v =
      let pool : IdPool = record { ids = rest } in
      let (r, w2) = launch m config_default sm.base_dir data_in (port_of id) w in
      rw (get_id-front sm.id_pool id rest e) (
        launched-Valid max data_in now id rest (record sm { id_pool = pool }) r w2 small refl
          (λ n. subst (λ l. count n l + count n (ids sm.running) ≤ in_range 1 max n) e (v.once n))
          v.fit)

  reap-Valid :
      (max now : ℕ) (sm : ServerManager P) (w : W)
      → ValidManager max sm
      → ValidManager max (reap m now sm w).0
  reap-Valid max now sm w v = elim (Bool-cases sm.reap) [
    | inl on ↦ Released-Valid max (reap-Reaped m now sm w on).released v
    | inr off ↦ unfold reap in rw off v
  ]

  step-Valid :
      (max : ℕ) (s : Step J) (sm : ServerManager P) (w : W)
      → max < 2 ^ 16
      → ValidManager max sm
      → ValidManager max (step m config_default s (sm, w)).0
  step-Valid max (Step.add_server data_in now) sm w small v =
      add-Valid max data_in now sm w sm.id_pool.ids small refl v
  step-Valid max (Step.reap_round now) sm w small v = reap-Valid max now sm w v
  step-Valid max Step.shut_down sm w small v =
      unfold kill_all in Released-Valid max (kill_tasks-Released m sm.running sm.id_pool w).1 v

  run-Valid :
      (max : ℕ) (ss : List (Step J)) (sm : ServerManager P) (w : W)
      → max < 2 ^ 16
      → ValidManager max sm
      → ValidManager max (run m config_default ss (sm, w)).0
  run-Valid max [] sm w small v = v
  run-Valid max (s ∷ ss) sm w small v =
      let (sm2, w2) = step m config_default s (sm, w) in
      run-Valid max ss sm2 w2 small (step-Valid max s sm w small v)

abbrev pub ports : {P : Type 0} → List (ServeTask P) → List ℕ
ports [] = []
ports (task ∷ tasks) = task.port ∷ ports tasks

count-ports :
    {P : Type 0} (p : ℕ) (tasks : List (ServeTask P))
    → count p (ports tasks) ≤ count (id_of p) (ids tasks)
count-ports p [] = omega arith
count-ports p (task ∷ tasks) =
    ground (arith, count-ports p tasks, λ (e : p ≡ task.port). ap id_of e)

abbrev pub InPorts : {P : Type 0} → ℕ → ServeTask P → Type 0
InPorts max task = (port_base < task.port) × (task.port ≤ port_base + max)

port_bounds :
    (port max : ℕ)
    → max ≤ 36535
    → port < 2 ^ 16
    → 1 ≤ in_range 1 max (id_of port)
    → (port_base < port) × (port ≤ port_base + max)
unfolding id_of
port_bounds port max small fit used = ground (arith, small, fit, used)

ports-InPorts :
    {P : Type 0} (max : ℕ) (tasks : List (ServeTask P))
    → max ≤ 36535
    → ((n : ℕ) → count n (ids tasks) ≤ in_range 1 max n)
    → All IsPort tasks
    → All (InPorts max) tasks
ports-InPorts max [] small once fit = tt
ports-InPorts max (task ∷ tasks) small once fit = (
  port_bounds task.port max small fit.0 (ground (arith, once (id_of task.port))),
  ports-InPorts max tasks small (λ n. ground (arith, once n)) fit.1,
)

module _ {W F P J : Type 0} (m : Machine W F P J) (config_default : Bytes) where
  -- Whatever a manager of at most 36535 servers does, every server that runs has a port between
  -- 29001 and 29000 plus that number, no two have the same port, and no more run than that number.
  pub run-InPorts :
      (max : ℕ) (base_dir : Bytes) (w : W) (ss : List (Step J))
      → max ≤ 36535
      → let sm = (run m config_default ss (new_server_manager max base_dir, w)).0 in
        All (InPorts max) sm.running
        × ((p : ℕ) → count p (ports sm.running) ≤ 1)
        × (length sm.running ≤ max)
  unfolding new_server_manager
  run-InPorts max base_dir w ss small =
      let sm0 : ServerManager P = new_server_manager max base_dir in
      let sm = (run m config_default ss (sm0, w)).0 in
      let v =
        run-Valid m config_default max ss sm0 w (omega (arith, small))
          (record { once = λ n. omega (arith, count-new_id_pool n max); fit = tt }) in
      (
        ports-InPorts max sm.running small (λ n. omega (arith, v.once n)) v.fit,
        (λ p. ground (arith, count-ports p sm.running, v.once (id_of p))),
        omega (arith, run-left m config_default max base_dir w ss),
      )
