-- ===== src/Sched/Switch.antt =====
-- The rest of `do_context_switch`: the loop and the switch itself.
use mathlib.Core.List.{Perm, perm_middle, perm_append_comm}
use mathlib.Core.List.Perm
use han_os.Base.{
  ℕ, ◌+◌, ◌≡◌, ◌≢◌, refl, true, false, ◌||◌, Option, some, List, [], ◌∷◌, ◌++◌, length, ◌==◌,
  if◌then◌else◌, ◌⊎◌, inl, inr, arith, u64,
}
use han_os.Sched.{
  Task, Sched, switched, put, suspend, enter, resume, pick_loop, do_context_switch, kstack_size,
  running,
}
use han_os.Sched.Pick.{can_run, AllTasks, AllTasks-append, Chosen, found, nobody, pick_loop-Chosen}
use han_os.Sched.Suspend.{
  Ready, held, Without, Without-append, put-some, AllTasks-put, Suspended, suspend_lem,
}

-- The state that `resume` leaves when the task at `next` starts to run.
abbrev resumed : ℕ → ℕ → List ℕ → Sched → Task → Sched
resumed cpu_id next active s t = record s {
  tasks = put s.tasks next (some (record t { status = running }));
  tasks_running = put s.tasks_running cpu_id next;
  tasks_coordinate = put s.tasks_coordinate cpu_id (u64 (s.tasks_coordinate cpu_id + 1));
  tasks_active = active;
  rsp0 = put s.rsp0 cpu_id (t.kstack_limit + kstack_size);
}

enter-some :
    (cpu_id next : ℕ) (active : List ℕ) (s : Sched) (t : Task)
    → s.tasks next ≡ some t
    → enter cpu_id next active s ≡ some (resumed cpu_id next active s t, t.kstack_top)
unfolding enter
enter-some cpu_id next active s t at = rw (at, enter)

resume_idle :
    (cpu_id : ℕ) (active : List ℕ) (s : Sched) (t : Task)
    → s.tasks (s.tasks_idle cpu_id) ≡ some t
    → resume cpu_id 0 active s
      ≡ some (resumed cpu_id (s.tasks_idle cpu_id) active s t, t.kstack_top)
unfolding resume
resume_idle cpu_id active s t at = enter-some cpu_id (s.tasks_idle cpu_id) active s t at

resume_chosen :
    (cpu_id next : ℕ) (active : List ℕ) (s : Sched) (t : Task)
    → (next == 0) ≡ false
    → s.tasks next ≡ some t
    → resume cpu_id next active s ≡ some (resumed cpu_id next active s t, t.kstack_top)
unfolding resume
resume_chosen cpu_id next active s t nonnull at = rw nonnull (enter-some cpu_id next active s t at)

AllTasks-split :
    (tasks : ℕ → Option Task) (xs ys : List ℕ)
    → AllTasks tasks (xs ++ ys)
    → AllTasks tasks xs × AllTasks tasks ys
AllTasks-split tasks [] ys h = (tt, h)
AllTasks-split tasks (x ∷ xs) ys h =
    let rest = AllTasks-split tasks xs ys h.2 in ((h.0, h.1, rest.0), rest.1)

Without-split : (p : ℕ) (xs ys : List ℕ) → Without p (xs ++ ys) → Without p xs × Without p ys
Without-split p [] ys h = (tt, h)
Without-split p (x ∷ xs) ys h = (let rest = Without-split p xs ys h.1 in ((h.0, rest.0), rest.1))

-- What a context switch does: the processor holds the same tasks as before, and the task that it runs
-- is entered on its own saved stack and has its kernel stack in the task state segment.
pub record Switched (cpu_id : ℕ) (s s2 : Sched) (top : ℕ) : Type 0 where
  pub ready2 : Ready cpu_id s2
  pub kept : Perm (held cpu_id s) (held cpu_id s2)
  pub runs :
      (t : Task) × (s2.tasks (s2.tasks_running cpu_id) ≡ some t)
      × (t.status ≡ running)
      × (t.kstack_top ≡ top)
      × (s2.rsp0 cpu_id ≡ t.kstack_limit + kstack_size)

-- The task that runs is the idle task or one that the loop found fit to run, in some round of it; no
-- other task changes.
pub record Entitled (cpu_id : ℕ) (now : ℕ → ℕ) (s1 s2 : Sched) : Type 0 where
  pub fit :
      (s2.tasks_running cpu_id ≡ s1.tasks_idle cpu_id)
      ⊎ ((k : ℕ) × (can_run now s1.tasks k (s2.tasks_running cpu_id) ≡ true))
  pub same_idle : s2.tasks_idle cpu_id ≡ s1.tasks_idle cpu_id
  pub same_cpus : s2.cpu_num ≡ s1.cpu_num
  pub same_others : (q : ℕ) → s2.tasks_running cpu_id ≢ q → s2.tasks q ≡ s1.tasks q

pub put_self : {A : Type 0} (f : ℕ → A) (i : ℕ) (v : A) → put f i v i ≡ v
put_self f i v = ground arith

put_other :
    (cpu_id next q : ℕ) (s1 : Sched) (new : Option Task)
    → put s1.tasks_running cpu_id next cpu_id ≢ q
    → put s1.tasks next new q ≡ s1.tasks q
put_other cpu_id next q s1 new ne =
    let apart : next ≢ q = rw (put_self s1.tasks_running cpu_id next) at ne in ground (arith, apart)

-- The queue `active` is what is left of the queue of `s1` when the task at `next` is taken.
resumed_lem :
    (cpu_id next : ℕ) (active : List ℕ) (s s1 : Sched) (t : Task)
    → Suspended cpu_id s s1
    → s1.tasks next ≡ some t
    → AllTasks s1.tasks active
    → Without (s1.tasks_idle cpu_id) active
    → Perm s1.tasks_active
        ((if next == 0 || next == s1.tasks_idle cpu_id then [] else next ∷ []) ++ active)
    → Switched cpu_id s (resumed cpu_id next active s1 t) t.kstack_top
resumed_lem cpu_id next active s s1 t sus at all without perm = record {
  ready2 = record {
    queued = AllTasks-put s1.tasks _ _ _ all;
    idle_apart = without;
    idle_there = sus.ready1.idle_there;
    idle_task = put-some s1.tasks _ _ _ sus.ready1.idle_task;
    running_task = rw (put_self s1.tasks_running cpu_id next) (inr (_, put_self s1.tasks next _));
  };
  kept = Perm.trans sus.all_queued (rw (put_self s1.tasks_running cpu_id next) perm);
  runs = (
    record t { status = running },
    rw (put_self s1.tasks_running cpu_id next) (put_self s1.tasks next _),
    refl,
    refl,
    put_self s1.rsp0 cpu_id _,
  );
}

-- A task taken from the middle of the queue, with the queue turned.
perm_turned : (before after : List ℕ) (p : ℕ) → Perm (before ++ (p ∷ after)) (p ∷ (after ++ before))
perm_turned before after p =
    Perm.trans (perm_middle before after) (Perm.cons p (perm_append_comm before after))

-- The last step, for either choice of the loop.
resume_lem :
    (cpu_id next : ℕ) (active : List ℕ) (now : ℕ → ℕ) (s s1 : Sched)
    → Suspended cpu_id s s1
    → Chosen now s1.tasks s1.tasks_active next active
    → (s2 : Sched) × (top : ℕ) × (resume cpu_id next active s1 ≡ some (s2, top))
      × Switched cpu_id s s2 top
      × Entitled cpu_id now s1 s2
resume_lem cpu_id next active now s s1 sus (nobody e left none_runs) =
    let (t, at) = sus.ready1.idle_task in
    let idle : ℕ = s1.tasks_idle cpu_id in
    let flag : (idle == 0 || idle == idle) ≡ true = ground arith in
    rw (e, left)
      (
        _,
        _,
        resume_idle cpu_id s1.tasks_active s1 t at,
        resumed_lem cpu_id (s1.tasks_idle cpu_id) s1.tasks_active s s1 t sus at sus.ready1.queued
            sus.ready1.idle_apart (rw flag Perm.rfl),
        record {
          fit = inl (put_self s1.tasks_running cpu_id idle);
          same_idle = refl;
          same_cpus = refl;
          same_others = λ q ne. put_other cpu_id idle q s1 _ ne;
        },
      )
resume_lem cpu_id next active now s s1 sus (found before after queue left none_runs can) =
    let all = AllTasks-split s1.tasks before (next ∷ after) (rw (← queue) sus.ready1.queued) in
    let apart =
      Without-split (s1.tasks_idle cpu_id) before (next ∷ after)
        (rw (← queue) sus.ready1.idle_apart) in
    let (t, at) = all.1.1 in
    let nonnull : (next == 0) ≡ false = ground (arith, all.1.0) in
    let other : (next == s1.tasks_idle cpu_id) ≡ false = ground (arith, apart.1.0) in
    rw left (
      _,
      _,
      resume_chosen cpu_id next (after ++ before) s1 t nonnull at,
      resumed_lem cpu_id next (after ++ before) s s1 t sus at
          (AllTasks-append s1.tasks after before all.1.2 all.0)
          (Without-append _ after before apart.1.1 apart.0)
          (rw (nonnull, other, queue) (perm_turned before after next)),
      record {
        fit = inr (length before, rw (put_self s1.tasks_running cpu_id next) can);
        same_idle = refl;
        same_cpus = refl;
        same_others = λ q ne. put_other cpu_id next q s1 _ ne;
      },
    )

context_switch :
    (num_cpus stack cpu_id next top : ℕ) (now : ℕ → ℕ) (active : List ℕ) (s s1 s2 : Sched)
    → num_cpus ≡ s.cpu_num
    → suspend stack cpu_id s ≡ some s1
    → pick_loop (length s1.tasks_active + 1) now s1.tasks 0 s1.tasks_active ≡ some (next, active)
    → resume cpu_id next active s1 ≡ some (s2, top)
    → do_context_switch (some num_cpus) cpu_id stack now s ≡ switched s2 top
unfolding do_context_switch
context_switch num_cpus stack cpu_id next top now active s s1 s2 e suspends picks resumes =
    let all_cpus : (num_cpus == s.cpu_num) ≡ true = ground arith in
    rw (all_cpus, suspends, picks, resumes)

pub context_switch_lem :
    (num_cpus cpu_id stack : ℕ) (now : ℕ → ℕ) (s : Sched)
    → num_cpus ≡ s.cpu_num
    → Ready cpu_id s
    → (s1 s2 : Sched) × (top : ℕ) × (suspend stack cpu_id s ≡ some s1)
      × (do_context_switch (some num_cpus) cpu_id stack now s ≡ switched s2 top)
      × Switched cpu_id s s2 top
      × Suspended cpu_id s s1
      × Entitled cpu_id now s1 s2
context_switch_lem num_cpus cpu_id stack now s e v =
    let (s1, suspends, sus) = suspend_lem stack cpu_id s v in
    let (next, active, picks, chosen) =
      pick_loop-Chosen now s1.tasks s1.tasks_active sus.ready1.queued in
    let (s2, top, resumes, done, fit) = resume_lem cpu_id next active now s s1 sus chosen in
    (
      s1,
      s2,
      top,
      suspends,
      context_switch num_cpus stack cpu_id next top now active s s1 s2 e suspends picks resumes,
      done,
      sus,
      fit,
    )

-- A timer interrupt, once all processors run, on a processor whose tasks exist, ends without a
-- fault. The processor holds the same tasks after as before; the task it runs, one of them or its
-- idle task, has the status running, is entered on its saved stack and has its kernel stack in the
-- processor's task state segment; and all tasks exist still.
pub do_context_switch-Switched :
    (num_cpus cpu_id stack : ℕ) (now : ℕ → ℕ) (s : Sched)
    → num_cpus ≡ s.cpu_num
    → Ready cpu_id s
    → (s2 : Sched) × (top : ℕ) × (do_context_switch (some num_cpus) cpu_id stack now s
        ≡ switched s2 top)
      × Switched cpu_id s s2 top
do_context_switch-Switched num_cpus cpu_id stack now s e v =
    let (s1, s2, top, suspends, switches, done, sus, fit) =
      context_switch_lem num_cpus cpu_id stack now s e v in
    (s2, top, switches, done)
