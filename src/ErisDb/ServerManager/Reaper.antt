-- ===== src/ErisDb/ServerManager/Reaper.antt =====
-- Which servers the reaper and the shutdown of erisdb/erisdbss/server_manager.go kill, and what
-- becomes of their ids.
use eris_db.Base.{
  ℕ, ◌+◌, ◌-◌, ◌≡◌, ◌≢◌, not, ◌&&◌, Bool-cases, inl, inr, refl, ◌∙◌, sym, ap, true, false, List, [],
  ◌∷◌, ◌++◌, append-nil, append_assoc, All, length, length-append, if_rule, arith,
}
use eris_db.Base.Int.{ℤ, pos, ◌<ℤ◌, eqb_ℤ, eqb_ℤ_iff, ltb_ℤ}
use eris_db.Server.IdPool.{IdPool, release_id, count, count-append}
use eris_db.ErisDb.ServerManager.{
  Machine, ServeTask, ServerManager, id_of, overdue, kill_tasks, reap_tasks, reap,
}

abbrev pub ids : {P : Type 0} → List (ServeTask P) → List ℕ
ids [] = []
ids (task ∷ tasks) = id_of task.port ∷ ids tasks

pub ids-append : {P : Type 0} (xs ys : List (ServeTask P)) → ids (xs ++ ys) ≡ ids xs ++ ids ys
ids-append [] ys = refl
ids-append (x ∷ xs) ys = ap (id_of x.port ∷◌) (ids-append xs ys)

pub length-ids : {P : Type 0} (xs : List (ServeTask P)) → length (ids xs) ≡ length xs
length-ids [] = refl
length-ids (x ∷ xs) = omega (arith, length-ids xs)

-- Tasks at the front are gone, for one reason, and their ids are at the back of the pool.
pub record Released {P : Type 0} (Gone : ServeTask P → Type 0) (tasks : List (ServeTask P))
    (pool : IdPool) (rest : List (ServeTask P)) (pool2 : IdPool) : Type 0 where
  pub taken : List (ServeTask P)
  pub split : tasks ≡ taken ++ rest
  pub freed : pool2.ids ≡ pool.ids ++ ids taken
  pub gone : All Gone taken

pub Released-none :
    {P : Type 0} {Gone : ServeTask P → Type 0} {tasks : List (ServeTask P)} {pool : IdPool}
    → Released Gone tasks pool tasks pool
Released-none {P} {Gone} {tasks} {pool} = record {
  taken = [];
  split = refl;
  freed = sym (append-nil pool.ids);
  gone = tt;
}

module _ {P : Type 0} {Gone : ServeTask P → Type 0} {tasks : List (ServeTask P)} {pool : IdPool}
    {rest : List (ServeTask P)} {pool2 : IdPool} where
  pub Released-more :
      (task : ServeTask P)
      → Gone task
      → Released Gone tasks (release_id pool (id_of task.port)) rest pool2
      → Released Gone (task ∷ tasks) pool rest pool2
  unfolding release_id
  Released-more task why r = record {
    taken = task ∷ r.taken;
    split = ap (task ∷◌) r.split;
    freed = r.freed ∙ append_assoc pool.ids (id_of task.port ∷ []) (ids r.taken);
    gone = (why, r.gone);
  }

  pub Released-count :
      (n : ℕ)
      → Released Gone tasks pool rest pool2
      → count n pool2.ids + count n (ids rest) ≡ count n pool.ids + count n (ids tasks)
  Released-count n r =
      let tasks_split = ap (count n) (ap ids r.split ∙ ids-append r.taken rest) in
      let pool_split = ap (count n) r.freed in
      omega (
        arith,
        tasks_split,
        pool_split,
        count-append n (ids r.taken) (ids rest),
        count-append n pool.ids (ids r.taken),
      )

  pub Released-length :
      Released Gone tasks pool rest pool2
      → length pool2.ids + length rest ≡ length pool.ids + length tasks
  Released-length r =
      let tasks_split = ap length r.split in
      let pool_split = ap length r.freed in
      omega (
        arith,
        tasks_split,
        pool_split,
        length-append r.taken rest,
        length-append pool.ids (ids r.taken),
        length-ids r.taken,
      )

test_true :
    (d : ℤ) (n : ℕ) → not (eqb_ℤ d (pos 0)) && ltb_ℤ d (pos n) ≡ true → (d ≢ pos 0) × (d <ℤ pos n)
test_true d n h =
    (λ e. (let same = (eqb_ℤ_iff d (pos 0)).1 e in ground (arith, h, same)), ground (arith, h))

test_false :
    (d : ℤ) (n : ℕ) → not (eqb_ℤ d (pos 0)) && ltb_ℤ d (pos n) ≡ false → d ≢ pos 0 → d <ℤ pos n → ⊥
test_false d n h some_time less = elim (Bool-cases (eqb_ℤ d (pos 0))) [
  | inl e ↦ some_time ((eqb_ℤ_iff d (pos 0)).0 e)
  | inr e ↦ ground (arith, h, e, less)
]

-- The task has a longest time to run, and has run for longer.
abbrev pub IsOverdue : {P : Type 0} → ℕ → ServeTask P → Type 0
IsOverdue now task = (task.max_duration ≢ pos 0) × (task.max_duration <ℤ pos (now - task.start))

overdue-true :
    {P : Type 0} (now : ℕ) (task : ServeTask P) → overdue now task ≡ true → IsOverdue now task
unfolding overdue
overdue-true now task h = test_true task.max_duration (now - task.start) h

overdue-false :
    {P : Type 0} (now : ℕ) (task : ServeTask P) → overdue now task ≡ false → IsOverdue now task → ⊥
unfolding overdue
overdue-false now task h o = test_false task.max_duration (now - task.start) h o.0 o.1

-- The first of the tasks is not overdue.
abbrev pub Starts : {P : Type 0} → ℕ → List (ServeTask P) → Type 0
Starts now [] = Unit
Starts now (task ∷ tasks) = IsOverdue now task → ⊥

module _ {W F P J : Type 0} (m : Machine W F P J) where
  pub kill_tasks-Released :
      (tasks : List (ServeTask P)) (pool : IdPool) (w : W)
      → ((kill_tasks m tasks pool w).0 ≡ [])
        × Released
            (λ _. Unit)
            tasks
            pool
            (kill_tasks m tasks pool w).0
            (kill_tasks m tasks pool w).1
  unfolding kill_tasks
  kill_tasks-Released [] pool w = (refl, Released-none)
  kill_tasks-Released (task ∷ tasks) pool w =
      let (none_left, r) =
        kill_tasks-Released tasks (release_id pool (id_of task.port)) (m.kill task.sp w) in
      (none_left, Released-more task tt r)

  -- The machine when the processes of the tasks are killed, in order, and nothing else is done.
  abbrev pub killed : List (ServeTask P) → W → W
  killed [] w = w
  killed (task ∷ tasks) w = killed tasks (m.kill task.sp w)

  -- The end of a round: the tasks at the front that are overdue have gone, with their ids given back
  -- and their processes killed, and the first that stays is not overdue.
  pub record Reaped (now : ℕ) (tasks : List (ServeTask P)) (pool : IdPool) (w : W)
      (rest : List (ServeTask P)) (pool2 : IdPool) (w2 : W) : Type 0 where
    pub released : Released (IsOverdue now) tasks pool rest pool2
    pub starts : Starts now rest
    pub all_killed : w2 ≡ killed released.taken w

  abbrev Reaps : ℕ → List (ServeTask P) → IdPool → W → List (ServeTask P) × IdPool × W → Type 0
  Reaps now tasks pool w (rest, pool2, w2) = Reaped now tasks pool w rest pool2 w2

  reap_tasks-Reaped :
      (now : ℕ) (tasks : List (ServeTask P)) (pool : IdPool) (w : W)
      → Reaps now tasks pool w (reap_tasks m now tasks pool w)
  unfolding reap_tasks Released-none Released-more
  reap_tasks-Reaped now [] pool w = record {
    released = Released-none;
    starts = tt;
    all_killed = refl;
  }
  reap_tasks-Reaped now (task ∷ tasks) pool w =
      if_rule (Reaps now (task ∷ tasks) pool w) (overdue now task) _ _
        (λ e.
          let r =
            reap_tasks-Reaped now tasks (release_id pool (id_of task.port)) (m.kill task.sp w) in
          record {
            released = Released-more task (overdue-true now task e) r.released;
            starts = r.starts;
            all_killed = r.all_killed;
          })
        (λ e. record {
          released = Released-none;
          starts = overdue-false now task e;
          all_killed = refl;
        })

  -- A round of the reaper kills the processes of the longest run of overdue servers at the front of
  -- the list, in order, does nothing else to the machine, and gives their ids back to the pool, in
  -- order; a server is overdue if its longest time is not 0 and it has run for longer. The first server that
  -- stays is not overdue, and all that follow it stay too, overdue or
  -- not. The reaper is assumed to be on.
  pub reap-Reaped :
      (now : ℕ) (sm : ServerManager P) (w : W)
      → sm.reap ≡ true
      → Reaped now sm.running sm.id_pool w
          (reap m now sm w).0.running
          (reap m now sm w).0.id_pool
          (reap m now sm w).1
  unfolding reap
  reap-Reaped now sm w on = rw on (reap_tasks-Reaped now sm.running sm.id_pool w)
