-- ===== src/Sched/Sleep.antt =====
-- `sched_sleep`: the task that calls it leaves the processor until its time has come.
use mathlib.Core.Option.{some-injective}
use han_os.Base.{
  ℕ, ◌+◌, ◌*◌, ◌<◌, ◌≡◌, ◌≢◌, refl, ◌∙◌, sym, true, false, Option, none, some, ◌==◌, inl, inr,
  arith, u64, List, [], ◌∷◌,
}
use han_os.Sched.{
  Task, Sched, skipped, fault, switched, put, do_context_switch, sched_sleep, sleeping,
  suspend_task, runnable,
}
use han_os.Sched.Pick.{can_run_at}
use han_os.Sched.Suspend.{Ready, put-some, AllTasks-put, suspended, suspend-some}
use han_os.Sched.Switch.{Entitled, context_switch_lem, put_self}

-- The state that `sched_sleep` leaves.
abbrev slept : ℕ → ℕ → Sched → Task → Sched
slept cpu_id wakeup s t = record s {
  tasks =
      put s.tasks (s.tasks_running cpu_id)
        (some (record t { wakeup_time = wakeup; status = sleeping }));
}

sched_sleep-some :
    (cpu_id millis nanos : ℕ) (s : Sched) (t : Task)
    → (s.tasks_running cpu_id == 0) ≡ false
    → s.tasks (s.tasks_running cpu_id) ≡ some t
    → sched_sleep cpu_id millis nanos s
      ≡ some (slept cpu_id (u64 (nanos + u64 (millis * 1000000))) s t)
unfolding sched_sleep
sched_sleep-some cpu_id millis nanos s t task at = rw (at, task, sched_sleep)

slept-Ready :
    (cpu_id wakeup : ℕ) (s : Sched) (t : Task)
    → Ready cpu_id s
    → Ready cpu_id (slept cpu_id wakeup s t)
slept-Ready cpu_id wakeup s t v = record {
  queued = AllTasks-put s.tasks _ _ _ v.queued;
  idle_apart = v.idle_apart;
  idle_there = v.idle_there;
  idle_task = put-some s.tasks _ _ _ v.idle_task;
  running_task = elim v.running_task [ inl e ↦ inl e | inr h ↦ inr (put-some s.tasks _ _ _ h) ];
}

-- A timer interrupt: where the stack pointer stands, and what the clock says in each round of the loop.
pub record Tick : Type 0 where
  pub stack : ℕ
  pub now : ℕ → ℕ

-- The clock stays below a time throughout these interrupts.
abbrev pub AllBefore : ℕ → List Tick → Type 0
AllBefore wakeup [] = Unit {0}
AllBefore wakeup (tick ∷ ticks) = ((k : ℕ) → tick.now k < wakeup) × AllBefore wakeup ticks

-- The interrupts of a processor one after the other; `none` is a fault.
pub interrupts : ℕ → ℕ → List Tick → Sched → Option Sched
interrupts num_cpus cpu_id [] s = some s
interrupts num_cpus cpu_id (tick ∷ ticks) s =
    elim (do_context_switch (some num_cpus) cpu_id tick.stack tick.now s) [
      | skipped ↦ interrupts num_cpus cpu_id ticks s
      | fault ↦ none
      | switched s' top ↦ interrupts num_cpus cpu_id ticks s'
    ]

-- The task at `p` sleeps until `wakeup`, and is not the one that runs.
record Asleep (cpu_id p wakeup : ℕ) (s : Sched) : Type 0 where
  away : s.tasks_running cpu_id ≢ p
  apart : s.tasks_idle cpu_id ≢ p
  waits : (t : Task) × (s.tasks p ≡ some t) × (t.status ≡ sleeping) × (t.wakeup_time ≡ wakeup)

-- A task that is asleep when the loop starts is passed over, and sleeps on.
passed_over :
    (cpu_id p wakeup : ℕ) (now : ℕ → ℕ) (s1 s2 : Sched) (t : Task)
    → s1.tasks_idle cpu_id ≢ p
    → ((k : ℕ) → now k < wakeup)
    → s1.tasks p ≡ some t
    → t.status ≡ sleeping
    → t.wakeup_time ≡ wakeup
    → Entitled cpu_id now s1 s2
    → Asleep cpu_id p wakeup s2
passed_over cpu_id p wakeup now s1 s2 t apart early at asleep until entitled =
    let away : s2.tasks_running cpu_id ≢ p = λ runs. elim entitled.fit [
      | inl idle ↦ apart (sym idle ∙ runs)
      | inr (k, can) ↦
          (let can_now : runnable (now k) t ≡ true =
              sym (can_run_at now s1.tasks k p t at) ∙ rw runs at can in
            absurd (ground (arith, early k, asleep, until, can_now)))
    ] in
    record {
      away = away;
      apart = rw entitled.same_idle apart;
      waits = (t, entitled.same_others p away ∙ at, asleep, until);
    }

-- An interrupt ends, and a task that was asleep before it still is.
interrupt-Asleep :
    (num_cpus cpu_id p wakeup stack : ℕ) (now : ℕ → ℕ) (s : Sched)
    → num_cpus ≡ s.cpu_num
    → Ready cpu_id s
    → ((k : ℕ) → now k < wakeup)
    → Asleep cpu_id p wakeup s
    → (s2 : Sched) × (top : ℕ) × (do_context_switch (some num_cpus) cpu_id stack now s
        ≡ switched s2 top)
      × Ready cpu_id s2
      × (num_cpus ≡ s2.cpu_num)
      × Asleep cpu_id p wakeup s2
interrupt-Asleep num_cpus cpu_id p wakeup stack now s e v early a =
    let (s1, s2, top, suspends, switches, done, sus, entitled) =
      context_switch_lem num_cpus cpu_id stack now s e v in
    let (t, at, asleep, until) = a.waits in
    (
      s2,
      top,
      switches,
      done.ready2,
      e ∙ sym (entitled.same_cpus ∙ sus.cpus_same),
      passed_over cpu_id p wakeup now s1 s2 t (rw sus.idle_same a.apart) early
          (sus.others_same p a.away ∙ at) asleep until entitled,
    )

interrupts-next :
    (num_cpus cpu_id top : ℕ) (tick : Tick) (ticks : List Tick) (s s' : Sched) (o : Option Sched)
    → do_context_switch (some num_cpus) cpu_id tick.stack tick.now s ≡ switched s' top
    → interrupts num_cpus cpu_id ticks s' ≡ o
    → interrupts num_cpus cpu_id (tick ∷ ticks) s ≡ o
unfolding interrupts
interrupts-next num_cpus cpu_id top tick ticks s s' o switches rest = rw (interrupts, switches) rest

interrupts-Asleep :
    (num_cpus cpu_id p wakeup : ℕ) (ticks : List Tick) (s : Sched)
    → num_cpus ≡ s.cpu_num
    → Ready cpu_id s
    → AllBefore wakeup ticks
    → Asleep cpu_id p wakeup s
    → (s2 : Sched) × (interrupts num_cpus cpu_id ticks s ≡ some s2) × Asleep cpu_id p wakeup s2
unfolding interrupts
interrupts-Asleep num_cpus cpu_id p wakeup [] s e v early a = (s, refl, a)
interrupts-Asleep num_cpus cpu_id p wakeup (tick ∷ ticks) s e v (early, later) a =
    let (s1, top, switches, v1, e1, a1) =
      interrupt-Asleep num_cpus cpu_id p wakeup tick.stack tick.now s e v early a in
    let (s2, runs, a2) = interrupts-Asleep num_cpus cpu_id p wakeup ticks s1 e1 v1 later a1 in
    (s2, interrupts-next num_cpus cpu_id top tick ticks s s1 (some s2) switches runs, a2)

-- The interrupt after `sched_sleep` takes the processor from the task that called it.
slept-Asleep :
    (num_cpus cpu_id wakeup stack : ℕ) (now : ℕ → ℕ) (s : Sched) (t : Task)
    → num_cpus ≡ s.cpu_num
    → Ready cpu_id s
    → s.tasks_running cpu_id ≢ 0
    → s.tasks_running cpu_id ≢ s.tasks_idle cpu_id
    → ((k : ℕ) → now k < wakeup)
    → (s2 : Sched) × (top : ℕ) × (do_context_switch
          (some num_cpus)
          cpu_id
          stack
          now
          (slept cpu_id wakeup s t)
        ≡ switched s2 top)
      × Ready cpu_id s2
      × (num_cpus ≡ s2.cpu_num)
      × Asleep cpu_id (s.tasks_running cpu_id) wakeup s2
slept-Asleep num_cpus cpu_id wakeup stack now s t e v nonnull apart early =
    let s0 = slept cpu_id wakeup s t in
    let p : ℕ = s.tasks_running cpu_id in
    let asleep = record t { wakeup_time = wakeup; status = sleeping } in
    let task : (p == 0) ≡ false = ground arith in
    let (s1, s2, top, suspends, switches, done, sus, entitled) =
      context_switch_lem num_cpus cpu_id stack now s0 e (slept-Ready cpu_id wakeup s t v) in
    let put_back : suspended stack cpu_id s0 asleep ≡ s1 = some-injective _ _ (
      sym (suspend-some stack cpu_id s0 asleep task (put_self s.tasks p (some asleep)))
      ∙ suspends) in
    let at : s1.tasks p ≡ some (suspend_task stack (s.tasks_coordinate cpu_id) asleep) =
      rw (← put_back) (put_self s0.tasks p _) in
    (
      s2,
      top,
      switches,
      done.ready2,
      e ∙ sym (entitled.same_cpus ∙ sus.cpus_same),
      passed_over cpu_id p wakeup now s1 s2 _ (λ idle. apart (sym (sym sus.idle_same ∙ idle))) early
          at refl refl entitled,
    )

-- A task other than the idle task that called `sched_sleep` runs in no state that any sequence of
-- interrupts of its processor leads to, one or more, as long as the clock stays below its wakeup time
-- throughout: no interrupt faults, and when they have ended another task runs.
pub interrupts-sched_sleep :
    (num_cpus cpu_id millis nanos : ℕ) (first : Tick) (ticks : List Tick) (s : Sched)
    → num_cpus ≡ s.cpu_num
    → Ready cpu_id s
    → s.tasks_running cpu_id ≢ 0
    → s.tasks_running cpu_id ≢ s.tasks_idle cpu_id
    → AllBefore (u64 (nanos + u64 (millis * 1000000))) (first ∷ ticks)
    → (s1 s2 : Sched) × (sched_sleep cpu_id millis nanos s ≡ some s1)
      × (interrupts num_cpus cpu_id (first ∷ ticks) s1 ≡ some s2)
      × (s2.tasks_running cpu_id ≢ s.tasks_running cpu_id)
interrupts-sched_sleep num_cpus cpu_id millis nanos first ticks s e v nonnull apart (early, later) =
    let wakeup : ℕ = u64 (nanos + u64 (millis * 1000000)) in
    let p : ℕ = s.tasks_running cpu_id in
    elim v.running_task [
      | inl none_runs ↦ absurd (nonnull none_runs)
      | inr (t, at) ↦
          let (s', top, switches, v', e', a) =
            slept-Asleep num_cpus cpu_id wakeup first.stack first.now s t e v nonnull apart early in
          let (s2, runs, a2) = interrupts-Asleep num_cpus cpu_id p wakeup ticks s' e' v' later a in
          (
            slept cpu_id wakeup s t,
            s2,
            sched_sleep-some cpu_id millis nanos s t (ground arith) at,
            interrupts-next num_cpus cpu_id top first ticks _ s' (some s2) switches runs,
            a2.away,
          )
    ]
