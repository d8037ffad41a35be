-- ===== src/Sched/Tests.antt =====
-- Runs of the scheduler, and its theorems at a concrete state of one processor.
use han_os.Base.{ℕ, ◌+◌, ◌*◌, ◌≡◌, ◌≢◌, refl, inr, arith, some, none, List, [], ◌∷◌}
use han_os.Sched.{
  Task, Sched, Status, Outcome, switched, ready, running, sleeping, kernel_mode, put, pick_loop,
  do_context_switch, sched_sleep, new_task, suspend, enter, resume,
}
use han_os.Sched.Suspend.{Ready}
use han_os.Sched.Switch.{Switched, do_context_switch-Switched}
use han_os.Sched.Sleep.{Tick, interrupts, interrupts-sched_sleep}

abbrev a_task : ℕ → Status → ℕ → Task
a_task tid status wakeup = record (new_task tid (tid * 8192) (tid * 8192 + 4096) 0 kernel_mode) {
  status = status;
  wakeup_time = wakeup;
}

-- Processor 0 runs the task at 20; 30 sleeps until 500, 40 is ready, and 10 is the idle task.
abbrev two_waiting : Sched
two_waiting = record {
  tasks =
      put
        (put (put (put (λ p. none) 10 (some (a_task 1 ready 0))) 20 (some (a_task 2 running 0))) 30
          (some (a_task 3 sleeping 500)))
        40 (some (a_task 4 ready 0));
  tasks_running = λ c. 20;
  tasks_idle = λ c. 10;
  tasks_coordinate = λ c. 7;
  tasks_active = 30 ∷ 40 ∷ [];
  cpu_num = 1;
  rsp0 = λ c. 0;
}

two_waiting-Ready : Ready 0 two_waiting
two_waiting-Ready = record {
  queued = (omega arith, (_, refl), (omega arith, (_, refl), tt));
  idle_apart = (omega arith, (omega arith, tt));
  idle_there = omega arith;
  idle_task = (_, refl);
  running_task = inr (_, refl);
}

abbrev running_after : Outcome → ℕ
running_after (switched s top) = s.tasks_running 0
running_after _ = 0

abbrev queue_after : Outcome → List ℕ
queue_after (switched s top) = s.tasks_active
queue_after _ = []

-- At time 400 the sleeper is passed over; at 600 it runs.
early_run : queue_after (do_context_switch (some 1) 0 0x5000 (λ k. 400) two_waiting) ≡ 20 ∷ 30 ∷ []
unfolding do_context_switch suspend pick_loop resume enter
early_run = refl

late_run : running_after (do_context_switch (some 1) 0 0x5000 (λ k. 600) two_waiting) ≡ 30
unfolding do_context_switch suspend pick_loop resume enter
late_run = refl

do_context_switch-Switched_example :
    (s2 : Sched) × (top : ℕ) × (do_context_switch (some 1) 0 0x5000 (λ k. 400) two_waiting
      ≡ switched s2 top)
    × Switched 0 two_waiting s2 top
do_context_switch-Switched_example =
    do_context_switch-Switched 1 0 0x5000 (λ k. 400) two_waiting refl two_waiting-Ready

abbrev tick : ℕ → Tick
tick time = record { stack = 0x5000; now = λ k. time }

interrupts-sched_sleep_example :
    (s1 s2 : Sched) × (sched_sleep 0 5 300 two_waiting ≡ some s1)
    × (interrupts 1 0 (tick 400 ∷ tick 500 ∷ tick 600 ∷ []) s1 ≡ some s2)
    × (s2.tasks_running 0 ≢ 20)
interrupts-sched_sleep_example =
    interrupts-sched_sleep 1 0 5 300 (tick 400) (tick 500 ∷ tick 600 ∷ []) two_waiting refl
      two_waiting-Ready (omega arith) (omega arith)
      ((λ k. omega arith), ((λ k. omega arith), ((λ k. omega arith), tt)))
