-- ===== src/ErisDb/ServerManager/Examples.antt =====
-- A machine on which some processes do not start, and three requests.
use eris_db.Base.{
  ℕ, zero, suc, ◌≤◌, ◌≡◌, refl, ◌++◌, Bytes, str, List, [], ◌∷◌, Result, ok, err, Error, length,
  arith, All, true,
}
use eris_db.Files.{FileInfo}
use eris_db.Base.Int.{pos}
use eris_db.Server.IdPool.{count, new_id_pool, get_id}
use eris_db.ErisDb.ServerManager.{
  Race, Machine, RequestData, ServerManager, Step, ServeTask, new_server_manager, launched, launch,
  create_work_dir, add_with, add, reap, run,
}
use eris_db.ErisDb.ServerManager.Ids.{run_exhausted}
use eris_db.ErisDb.ServerManager.Ports.{InPorts, ports, run-InPorts}
use eris_db.ErisDb.ServerManager.Reaper.{Reaped, reap-Reaped}

-- The machine counts its folders, and the second one cannot be made.
abbrev made : ℕ → Result (Unit {0})
made (suc zero) = err (Error.other_error (str "no space left"))
made _ = ok tt

abbrev machine : Machine ℕ (Unit {0}) Bytes (Unit {0})
machine = record {
  os = record {
    create = λ _ w. (ok tt, w);
    write = λ _ bts w. (ok (length bts), w);
    close = λ _ w. (ok tt, w);
    stat = λ _ _. FileInfo.missing;
    remove = λ _ w. (ok tt, w);
    read_file = λ _ _. ok [];
  };
  join = λ a b. a ++ str "/" ++ b;
  remove_all = λ _ w. w;
  ensure_dir = λ _ w. (made w, suc w);
  write_json = λ _ _ w. (ok tt, w);
  marshal = λ _. ok [];
  command = λ _ dir. dir;
  start = λ _ w. (Race.done (ok tt), w);
  kill = λ _ w. w;
}

abbrev request : RequestData (Unit {0})
request = record { priv_validator = tt; genesis = tt; max_duration = 1 }

abbrev steps : List (Step (Unit {0}))
steps = Step.add_server request 0 ∷ Step.add_server request 5 ∷ Step.reap_round 7 ∷ []

-- Two servers run; the first one's time is over.
abbrev running : List (ServeTask Bytes)
running =
    record { sp = str "a"; work_dir = []; start = 0; max_duration = pos 10; port = 29001 }
    ∷ record { sp = str "b"; work_dir = []; start = 5; max_duration = pos 10; port = 29002 }
    ∷ []

abbrev managed : ServerManager Bytes
managed = record {
  id_pool = record { ids = 3 ∷ [] };
  max_procs = 3;
  running = running;
  reap = true;
  base_dir = [];
}

run-InPorts_example :
    let sm = (run machine [] steps (new_server_manager 2 (str "/tmp"), 0)).0 in
    All (InPorts 2) sm.running
    × ((p : ℕ) → count p (ports sm.running) ≤ 1)
    × (length sm.running ≤ 2)
run-InPorts_example = run-InPorts machine [] 2 (str "/tmp") 0 steps (omega arith)

run_exhausted_example :
    let (sm2, w2) =
      run machine [] (Step.add_server request 0 ∷ []) (new_server_manager 1 (str "/tmp"), 1) in
    (add machine [] request 9 sm2 w2 ≡ (err (Error.other_error (str "Out of IDs")), sm2, w2))
    × (length sm2.running ≡ 0)
unfolding new_server_manager new_id_pool add add_with get_id launched launch create_work_dir
run_exhausted_example =
    run_exhausted machine [] 1 (str "/tmp") 1 (Step.add_server request 0 ∷ []) request 9
      (omega arith)

reap-Reaped_example :
    Reaped machine 12 managed.running managed.id_pool 2
      (reap machine 12 managed 2).0.running
      (reap machine 12 managed 2).0.id_pool
      (reap machine 12 managed 2).1
reap-Reaped_example = reap-Reaped machine 12 managed 2 refl
