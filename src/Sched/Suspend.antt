-- ===== src/Sched/Suspend.antt =====
-- The first part of `do_context_switch`: the running task is put back, when all tasks exist.
use mathlib.Core.List.{Perm, perm_append_singleton}
use mathlib.Core.List.Perm
use han_os.Base.{
  ℕ, ◌≡◌, ◌≢◌, refl, true, false, ◌||◌, Option, some, List, [], ◌∷◌, ◌++◌, ◌==◌, if◌then◌else◌, ◌⊎◌,
  inl, inr, arith, Bool-cases,
}
use han_os.Sched.{Task, Sched, put, suspend_task, suspend}
use han_os.Sched.Pick.{AllTasks, AllTasks-append}

-- The idle task waits in no queue.
abbrev pub Without : ℕ → List ℕ → Type 0
Without p [] = Unit {0}
Without p (q ∷ qs) = (q ≢ p) × Without p qs

pub Without-append : (p : ℕ) (xs ys : List ℕ) → Without p xs → Without p ys → Without p (xs ++ ys)
Without-append p [] ys hx hy = hy
Without-append p (x ∷ xs) ys hx hy = (hx.0, Without-append p xs ys hx.1 hy)

-- What `do_context_switch` relies on: every address that it may follow holds a task.
pub record Ready (cpu_id : ℕ) (s : Sched) : Type 0 where
  pub queued : AllTasks s.tasks s.tasks_active
  pub idle_apart : Without (s.tasks_idle cpu_id) s.tasks_active
  pub idle_there : s.tasks_idle cpu_id ≢ 0
  pub idle_task : (t : Task) × (s.tasks (s.tasks_idle cpu_id) ≡ some t)
  pub running_task :
      (s.tasks_running cpu_id ≡ 0) ⊎ ((t : Task) × (s.tasks (s.tasks_running cpu_id) ≡ some t))

-- The tasks that a processor holds: the one that it runs, unless that is its idle task, and the
-- queue.
abbrev pub held : ℕ → Sched → List ℕ
held cpu_id s =
    (if s.tasks_running cpu_id == 0 || s.tasks_running cpu_id == s.tasks_idle cpu_id
      then []
      else s.tasks_running cpu_id ∷ [])
    ++ s.tasks_active

pub put-some :
    (tasks : ℕ → Option Task) (p q : ℕ) (new : Task)
    → ((t : Task) × (tasks q ≡ some t))
    → (t : Task) × (put tasks p (some new) q ≡ some t)
put-some tasks p q new h = elim (Bool-cases (p == q)) [
  | inl same_task ↦ (new, rw (same_task))
  | inr other ↦ (h.0, rw (other) h.1)
]

pub AllTasks-put :
    (tasks : ℕ → Option Task) (p : ℕ) (new : Task) (qs : List ℕ)
    → AllTasks tasks qs
    → AllTasks (put tasks p (some new)) qs
AllTasks-put tasks p new [] h = tt
AllTasks-put tasks p new (q ∷ qs) h =
    (h.0, put-some tasks p q new h.1, AllTasks-put tasks p new qs h.2)

-- The state after the running task is put back: all tasks are in the queue.
pub record Suspended (cpu_id : ℕ) (s s1 : Sched) : Type 0 where
  pub ready1 : Ready cpu_id s1
  pub all_queued : Perm (held cpu_id s) s1.tasks_active
  pub idle_same : s1.tasks_idle cpu_id ≡ s.tasks_idle cpu_id
  pub cpus_same : s1.cpu_num ≡ s.cpu_num
  pub others_same : (q : ℕ) → s.tasks_running cpu_id ≢ q → s1.tasks q ≡ s.tasks q

-- The state that `suspend` leaves of a running task.
abbrev pub suspended : ℕ → ℕ → Sched → Task → Sched
suspended stack cpu_id s t = record s {
  tasks =
      put s.tasks (s.tasks_running cpu_id)
        (some (suspend_task stack (s.tasks_coordinate cpu_id) t));
  tasks_active =
      if s.tasks_running cpu_id == s.tasks_idle cpu_id
      then s.tasks_active
      else s.tasks_active ++ (s.tasks_running cpu_id ∷ []);
}

suspend-none :
    (stack cpu_id : ℕ) (s : Sched) → s.tasks_running cpu_id ≡ 0 → suspend stack cpu_id s ≡ some s
unfolding suspend
suspend-none stack cpu_id s e = rw (e, suspend)

pub suspend-some :
    (stack cpu_id : ℕ) (s : Sched) (t : Task)
    → (s.tasks_running cpu_id == 0) ≡ false
    → s.tasks (s.tasks_running cpu_id) ≡ some t
    → suspend stack cpu_id s ≡ some (suspended stack cpu_id s t)
unfolding suspend
suspend-some stack cpu_id s t e at = rw (e, at, suspend)

idle_running :
    (stack cpu_id : ℕ) (s : Sched) (t : Task)
    → Ready cpu_id s
    → (s.tasks_running cpu_id == s.tasks_idle cpu_id) ≡ true
    → (s.tasks_running cpu_id == 0) ≡ false
    → s.tasks (s.tasks_running cpu_id) ≡ some t
    → Suspended cpu_id s (suspended stack cpu_id s t)
idle_running stack cpu_id s t v idle task at = record {
  ready1 = record {
    queued = rw idle (AllTasks-put s.tasks _ _ _ v.queued);
    idle_apart = rw idle v.idle_apart;
    idle_there = v.idle_there;
    idle_task = put-some s.tasks _ _ _ v.idle_task;
    running_task = inr (put-some s.tasks _ _ _ (t, at));
  };
  all_queued = rw (idle, task) Perm.rfl;
  idle_same = refl;
  cpus_same = refl;
  others_same = λ q ne. ground (arith, ne);
}

other_running :
    (stack cpu_id : ℕ) (s : Sched) (t : Task)
    → Ready cpu_id s
    → (s.tasks_running cpu_id == s.tasks_idle cpu_id) ≡ false
    → (s.tasks_running cpu_id == 0) ≡ false
    → s.tasks (s.tasks_running cpu_id) ≡ some t
    → Suspended cpu_id s (suspended stack cpu_id s t)
other_running stack cpu_id s t v other task at =
    let p : ℕ = s.tasks_running cpu_id in
    let nonnull : p ≢ 0 = ground arith in
    let apart : p ≢ s.tasks_idle cpu_id = ground arith in
    record {
      ready1 = record {
        queued = rw other (
            AllTasks-append _ s.tasks_active (p ∷ []) (AllTasks-put s.tasks p _ _ v.queued)
              (nonnull, put-some s.tasks p p _ (t, at), tt));
        idle_apart = rw other (Without-append _ s.tasks_active (p ∷ []) v.idle_apart (apart, tt));
        idle_there = v.idle_there;
        idle_task = put-some s.tasks _ _ _ v.idle_task;
        running_task = inr (put-some s.tasks _ _ _ (t, at));
      };
      all_queued = rw (other, task) (Perm.symm (perm_append_singleton p s.tasks_active));
      idle_same = refl;
      cpus_same = refl;
      others_same = λ q ne. ground (arith, ne);
    }

nothing_running :
    (cpu_id : ℕ) (s : Sched) → Ready cpu_id s → s.tasks_running cpu_id ≡ 0 → Suspended cpu_id s s
nothing_running cpu_id s v e = record {
  ready1 = v;
  all_queued = rw e Perm.rfl;
  idle_same = refl;
  cpus_same = refl;
  others_same = λ q ne. refl;
}

pub suspend_lem :
    (stack cpu_id : ℕ) (s : Sched)
    → Ready cpu_id s
    → (s1 : Sched) × (suspend stack cpu_id s ≡ some s1) × Suspended cpu_id s s1
suspend_lem stack cpu_id s v = elim (Bool-cases (s.tasks_running cpu_id == 0)) [
  | inl no_task ↦
      let e : s.tasks_running cpu_id ≡ 0 = ground arith in
      (s, suspend-none stack cpu_id s e, nothing_running cpu_id s v e)
  | inr task ↦ elim v.running_task [
    | inl e ↦ absurd (ground arith)
    | inr (t, at) ↦ (
      suspended stack cpu_id s t,
      suspend-some stack cpu_id s t task at,
      elim (Bool-cases (s.tasks_running cpu_id == s.tasks_idle cpu_id)) [
        | inl idle ↦ idle_running stack cpu_id s t v idle task at
        | inr other ↦ other_running stack cpu_id s t v other task at
      ],
    )
  ]
]
