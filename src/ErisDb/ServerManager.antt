-- ===== src/ErisDb/ServerManager.antt =====
-- erisdb/erisdbss/server_manager.go: servers that are started for tests, each a process with a port.
-- `W` is the state of the machine, `P` a process and `J` a value that is written as JSON. A method
-- holds the mutex, so it is one step; the time is in nanoseconds.
mod Examples
pub mod Ids
pub mod Ports
pub mod Reaper
pub mod Process
pub mod Http
use eris_db.Base.{
  ℕ, ◌+◌, ◌-◌, ◌*◌, ◌%◌, ◌^◌, Bool, true, not, ◌&&◌, ◌||◌, Option, none, some, Bytes, str, List, [],
  ◌∷◌, ◌++◌, Result, ok, err, panic, Error, and_then, if◌then◌else◌, ltb, ◌==◌, map,
}
use eris_db.Base.Int.{ℤ, pos, ltb_ℤ, eqb_ℤ, wrap64}
use eris_db.Go.Strconv.Decimal.{format_int}
use eris_db.Files.{Os, write_file_rw}
use eris_db.Server.IdPool.{IdPool, new_id_pool, get_id, release_id}
use eris_db.Server.Config.{ServerConfig, default_server_config, write_server_config}

abbrev pub port_base : ℕ
port_base = 29000

abbrev pub reaper_threshold : ℕ
reaper_threshold = 10000000000

-- Which of the two channels of `waitForProcStarted` is ready first.
pub data Race : Type 0 where
  done : Result (Unit {0}) → Race
  timed_out : Race

-- The machine: what the code calls of os, path, exec, toml and wire.
pub record Machine (W F P J : Type 0) : Type 0 where
  pub os : Os W F
  pub join : Bytes → Bytes → Bytes
  pub remove_all : Bytes → W → W
  pub ensure_dir : Bytes → W → Result (Unit {0}) × W
  pub write_json : J → F → W → Result (Unit {0}) × W
  pub marshal : ServerConfig → Result Bytes
  pub command : Bytes → Bytes → P
  pub start : P → W → Race × W
  pub kill : P → W → W

pub record RequestData (J : Type 0) : Type 0 where
  pub priv_validator : J
  pub genesis : J
  pub max_duration : ℕ

pub record ResponseData : Type 0 where
  pub port : Bytes

pub record ServeTask (P : Type 0) : Type 0 where
  pub sp : P
  pub work_dir : Bytes
  pub start : ℕ
  pub max_duration : ℤ
  pub port : ℕ

pub record ServerManager (P : Type 0) : Type 0 where
  pub id_pool : IdPool
  pub max_procs : ℕ
  pub running : List (ServeTask P)
  pub reap : Bool
  pub base_dir : Bytes

unfoldable pub new_server_manager : {P : Type 0} → ℕ → Bytes → ServerManager P
new_server_manager max_procs base_dir = record {
  id_pool = new_id_pool max_procs;
  max_procs = max_procs;
  running = [];
  reap = true;
  base_dir = base_dir;
}

-- `uint16(PORT_BASE + id)` and `uint(task.port - PORT_BASE)`, which wrap around.
unfoldable pub port_of : ℕ → ℕ
port_of id = (port_base + id) % 2 ^ 16

unfoldable pub id_of : ℕ → ℕ
id_of port = (port + 2 ^ 16 - port_base) % 2 ^ 16

-- `time.Duration(data.MaxDuration) * time.Second`, and the default for 0.
unfoldable pub duration : ℕ → ℤ
duration seconds =
    let d = wrap64 (pos (seconds * 1000000000)) in
    if eqb_ℤ d (pos 0) then pos reaper_threshold else d

-- `task.maxDuration != 0 && time.Since(task.start) > task.maxDuration`
unfoldable pub overdue : {P : Type 0} → ℕ → ServeTask P → Bool
overdue now task =
    not (eqb_ℤ task.max_duration (pos 0)) && ltb_ℤ task.max_duration (pos (now - task.start))

module _ {W F P J : Type 0} (m : Machine W F P J) where
  -- A process that is too slow is killed.
  raced : P → Race × W → Result (Unit {0}) × W
  raced proc (Race.done r, w) = (r, w)
  raced proc (Race.timed_out, w) =
      (err (Error.other_error (str "Process start timed out")), m.kill proc w)

  pub wait_for_proc_started : P → W → Result (Unit {0}) × W
  wait_for_proc_started proc w = raced proc (m.start proc w)

  -- The file is not closed when its writing fails.
  pub write_json : Bytes → J → W → Result (Unit {0}) × W
  write_json file v w =
      and_then (m.os.create file w) λ fo w. and_then (m.write_json v fo w) λ _ w. m.os.close fo w

  pub create_work_dir : Bytes → Bytes → RequestData J → ServerConfig → Bytes → W → Result Bytes × W
  create_work_dir config_default base_dir data_in config folder_name w =
      let work_dir = m.join base_dir folder_name in
      let in_dir : Bytes → Bytes = m.join work_dir in
      and_then (m.ensure_dir work_dir (m.remove_all work_dir w)) λ _ w.
        and_then (write_file_rw m.os (in_dir (str "config.toml")) config_default w) λ _ w.
          and_then (write_json (in_dir (str "priv_validator.json")) data_in.priv_validator w) λ _ w.
            and_then (write_json (in_dir (str "genesis.json")) data_in.genesis w) λ _ w.
              and_then
                (write_server_config m.os m.marshal (in_dir (str "server_conf.toml")) config w)
                λ _ w. (ok work_dir, w)

  -- The folder and the process of a new server: the part of `add` between the id and the task.
  pub launch : Bytes → Bytes → RequestData J → ℕ → W → Result (Bytes × P) × W
  launch config_default base_dir data_in port w =
      let config = record default_server_config {
        bind = record { address = default_server_config.bind.address; port = port };
      } in
      let folder_name = str "testnode" ++ format_int (pos port) in
      and_then (create_work_dir config_default base_dir data_in config folder_name w) λ work_dir w.
        let proc = m.command (str "erisdb") work_dir in
        and_then (wait_for_proc_started proc w) λ _ w. (ok (work_dir, proc), w)

  -- The end of `add`, with the manager that has given an id away.
  pub launched :
      RequestData J
      → ℕ
      → ℕ
      → ServerManager P
      → Result (Bytes × P) × W
      → Result ResponseData × ServerManager P × W
  launched data_in now port sm (ok (work_dir, proc), w) =
      let st : ServeTask P = record {
        sp = proc;
        work_dir = work_dir;
        start = now;
        max_duration = duration data_in.max_duration;
        port = port;
      } in
      (
        ok (record { port = format_int (pos port) }),
        record sm { running = sm.running ++ st ∷ [] },
        w,
      )
  launched data_in now port sm (err e, w) = (err e, sm, w)
  launched data_in now port sm (panic, w) = (panic, sm, w)

  pub add_with :
      Bytes
      → RequestData J
      → ℕ
      → ServerManager P
      → W
      → Result (ℕ × IdPool)
      → Result ResponseData × ServerManager P × W
  add_with config_default data_in now sm w (ok (id, pool)) =
      let port = port_of id in
      launched data_in now port (record sm { id_pool = pool })
        (launch config_default sm.base_dir data_in port w)
  add_with config_default data_in now sm w (err e) = (err e, sm, w)
  add_with config_default data_in now sm w panic = (panic, sm, w)

  -- `now` is the time when the task is made.
  unfoldable pub add :
      Bytes → RequestData J → ℕ → ServerManager P → W → Result ResponseData × ServerManager P × W
  add config_default data_in now sm w = add_with config_default data_in now sm w (get_id sm.id_pool)

  -- The loop of `killAll`, and that of `reap`, which stops at a task that is not overdue.
  pub kill_tasks : List (ServeTask P) → IdPool → W → List (ServeTask P) × IdPool × W
  kill_tasks [] pool w = ([], pool, w)
  kill_tasks (task ∷ tasks) pool w =
      kill_tasks tasks (release_id pool (id_of task.port)) (m.kill task.sp w)

  pub reap_tasks : ℕ → List (ServeTask P) → IdPool → W → List (ServeTask P) × IdPool × W
  reap_tasks now [] pool w = ([], pool, w)
  reap_tasks now (task ∷ tasks) pool w =
      let rest = reap_tasks now tasks (release_id pool (id_of task.port)) (m.kill task.sp w) in
      if overdue now task then rest else (task ∷ tasks, pool, w)

  unfoldable pub kill_all : ServerManager P → W → ServerManager P × W
  kill_all sm w =
      let (running, pool, w2) = kill_tasks sm.running sm.id_pool w in
      (record sm { running = running; id_pool = pool }, w2)

  -- One round of the reaper, after its sleep.
  unfoldable pub reap : ℕ → ServerManager P → W → ServerManager P × W
  reap now sm w =
      let (running, pool, w2) = reap_tasks now sm.running sm.id_pool w in
      if sm.reap then (record sm { running = running; id_pool = pool }, w2) else (sm, w)

-- What is done to a manager.
pub data Step (J : Type 0) : Type 0 where
  add_server : RequestData J → ℕ → Step J
  reap_round : ℕ → Step J
  shut_down : Step J

module _ {W F P J : Type 0} (m : Machine W F P J) (config_default : Bytes) where
  abbrev pub step : Step J → ServerManager P × W → ServerManager P × W
  step (add_server data_in now) (sm, w) =
      let (_, sm2, w2) = add m config_default data_in now sm w in (sm2, w2)
  step (reap_round now) (sm, w) = reap m now sm w
  step shut_down (sm, w) = kill_all m sm w

  abbrev pub run : List (Step J) → ServerManager P × W → ServerManager P × W
  run [] st = st
  run (s ∷ ss) st = run ss (step s st)
