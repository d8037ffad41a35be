-- ===== src/Sched.antt =====
-- kernel/proc/sched.c and task.c: the round-robin scheduler. Tasks live at addresses and the queues
-- hold addresses, 0 for NULL; a read through an address that holds no task is a fault. A critical
-- section under `sched_lock` is one step.
pub mod Pick
pub mod Suspend
pub mod Switch
pub mod Sleep
pub mod Make
mod Tests
use han_os.Base.{
  ℕ, zero, suc, ◌+◌, ◌-◌, ◌*◌, ◌/◌, ◌%◌, Bool, true, false, not, ◌&&◌, ◌||◌, Option, none, some,
  List, [], ◌∷◌, ◌++◌, ltb, leb, ◌==◌, if◌then◌else◌, u16, u64, length,
}

pub data Status : Type 0 where
  ready running sleeping dead : Status

pub data Mode : Type 0 where
  kernel_mode user_mode : Mode

-- `task_t`, but for `next` and `prev`, which nothing uses
pub record Task : Type 0 where
  pub kstack_top : ℕ
  pub kstack_limit : ℕ
  pub ustack_top : ℕ
  pub ustack_limit : ℕ
  pub tid : ℕ
  pub priority : ℕ
  pub last_tick : ℕ
  pub wakeup_time : ℕ
  pub status : Status
  pub mode : Mode

-- The static variables of sched.c; `tasks` is the memory that the addresses point to, and `rsp0` the
-- stack pointer in the task state segment of each processor.
pub record Sched : Type 0 where
  pub tasks : ℕ → Option Task
  pub tasks_running : ℕ → ℕ
  pub tasks_idle : ℕ → ℕ
  pub tasks_coordinate : ℕ → ℕ
  pub tasks_active : List ℕ
  pub cpu_num : ℕ
  pub rsp0 : ℕ → ℕ

-- One cell of an array or of memory written.
abbrev pub put {ℓ} : {A : Type ℓ} → (ℕ → A) → ℕ → A → ℕ → A
put f i v j = if i == j then v else f j

abbrev pub is_ready : Status → Bool
is_ready ready = true
is_ready _ = false

abbrev pub is_sleeping : Status → Bool
is_sleeping sleeping = true
is_sleeping _ = false

abbrev pub is_running : Status → Bool
is_running running = true
is_running _ = false

-- The two tests of the loop that end it with a task.
abbrev pub runnable : ℕ → Task → Bool
runnable nanos t = is_ready t.status || (is_sleeping t.status && leb t.wakeup_time nanos)

-- The loop of `do_context_switch`; `now k` is what the clock says in round `k`. The result is the
-- task chosen, 0 for none, and the queue left; `none` is a fault, or the end of the fuel.
pub pick_loop : ℕ → (ℕ → ℕ) → (ℕ → Option Task) → ℕ → List ℕ → Option (ℕ × List ℕ)
pick_loop zero now tasks loop_size active = none
pick_loop (suc fuel) now tasks loop_size [] = some (0, [])
pick_loop (suc fuel) now tasks loop_size (next ∷ others) =
    let active = others ++ (next ∷ []) in
    let rest = pick_loop fuel now tasks (loop_size + 1) active in
    elim (tasks next) [
      | none ↦ none
      | some t ↦
          if runnable (now loop_size) t
          then some (next, others)
          else (if leb (length active) (loop_size + 1) then some (0, active) else rest)
    ]

-- `if (curr) { ... }`
abbrev pub suspend_task : ℕ → ℕ → Task → Task
suspend_task stack ticks t = record t {
  kstack_top = stack;
  last_tick = ticks;
  status = if is_running t.status then ready else t.status;
}

pub suspend : ℕ → ℕ → Sched → Option Sched
suspend stack cpu_id s =
    let curr : ℕ = s.tasks_running cpu_id in
    if curr == 0 then some s else elim (s.tasks curr) [
      | none ↦ none
      | some t ↦ some (record s {
        tasks = put s.tasks curr (some (suspend_task stack (s.tasks_coordinate cpu_id) t));
        tasks_active =
            if curr == s.tasks_idle cpu_id then s.tasks_active else s.tasks_active ++ (curr ∷ []);
      })
    ]

abbrev pub kstack_size : ℕ
kstack_size = 4096

-- The task at `next` starts to run: the new state, and the stack that is entered.
pub enter : ℕ → ℕ → List ℕ → Sched → Option (Sched × ℕ)
enter cpu_id next active s = elim (s.tasks next) [
  | none ↦ none
  | some t ↦ some (
    record s {
      tasks = put s.tasks next (some (record t { status = running }));
      tasks_running = put s.tasks_running cpu_id next;
      tasks_coordinate = put s.tasks_coordinate cpu_id (u64 (s.tasks_coordinate cpu_id + 1));
      tasks_active = active;
      rsp0 = put s.rsp0 cpu_id (t.kstack_limit + kstack_size);
    },
    t.kstack_top,
  )
]

-- The task chosen, or the idle task when there is none, starts to run.
pub resume : ℕ → ℕ → List ℕ → Sched → Option (Sched × ℕ)
resume cpu_id chosen active s =
    enter cpu_id (if chosen == 0 then s.tasks_idle cpu_id else chosen) active s

pub data Outcome : Type 0 where
  skipped : Outcome
  fault : Outcome
  switched : Sched → ℕ → Outcome

-- `smp` is the number of processors, if `smp_get_info` knows it. The queue has one task more than
-- the rounds that the loop needs, so its length is fuel enough.
pub do_context_switch : Option ℕ → ℕ → ℕ → (ℕ → ℕ) → Sched → Outcome
do_context_switch none cpu_id stack now s = skipped
do_context_switch (some num_cpus) cpu_id stack now s =
    if not (num_cpus == s.cpu_num) then skipped else elim (suspend stack cpu_id s) [
      | none ↦ fault
      | some s1 ↦ elim (pick_loop (length s1.tasks_active + 1) now s1.tasks 0 s1.tasks_active) [
        | none ↦ fault
        | some (chosen, active) ↦ elim (resume cpu_id chosen active s1) [
          | none ↦ fault
          | some (s2, top) ↦ switched s2 top
        ]
      ]
    ]

-- `sched_sleep` on a processor: `nanos` is the clock. It then waits for the next interrupt.
pub sched_sleep : ℕ → ℕ → ℕ → Sched → Option Sched
sched_sleep cpu_id millis nanos s =
    let curr : ℕ = s.tasks_running cpu_id in
    if curr == 0 then some s else elim (s.tasks curr) [
      | none ↦ none
      | some t ↦ some (record s {
        tasks = put s.tasks curr (
            some
              (record t { wakeup_time = u64 (nanos + u64 (millis * 1000000)); status = sleeping }));
      })
    ]

abbrev pub tid_max : ℕ
tid_max = 65535

abbrev pub regs_size : ℕ
regs_size = 160

-- The registers that `task_make` sets; the others of `task_regs_t` are zero.
pub record Regs : Type 0 where
  pub rdi : ℕ
  pub rip : ℕ
  pub cs : ℕ
  pub rflags : ℕ
  pub rsp : ℕ
  pub ss : ℕ

abbrev pub is_kernel : Mode → Bool
is_kernel kernel_mode = true
is_kernel user_mode = false

-- The end of the stack that a new task starts on.
abbrev pub stack_end : ℕ → ℕ → Mode → ℕ
stack_end kstack ustack mode = (if is_kernel mode then kstack else ustack) + kstack_size

-- What `task_make` writes: the task, with `mode` as `memset` left it, and its registers.
abbrev pub new_task : ℕ → ℕ → ℕ → ℕ → Mode → Task
new_task curr_tid kstack ustack priority mode = record {
  kstack_top = stack_end kstack ustack mode - regs_size;
  kstack_limit = kstack;
  ustack_top = ustack + kstack_size;
  ustack_limit = ustack;
  tid = curr_tid;
  priority = priority;
  last_tick = 0;
  wakeup_time = 0;
  status = ready;
  mode = kernel_mode;
}

abbrev pub new_regs : ℕ → ℕ → ℕ → ℕ → Mode → Regs
new_regs curr_tid kstack ustack entry mode = record {
  rdi = curr_tid;
  rip = entry;
  cs = 0x08;
  rflags = 0x0202;
  rsp = stack_end kstack ustack mode;
  ss = 0x10;
}

-- `task_make` with `curr_tid` before and after; `kstack` and `ustack` are the blocks that `kmalloc`
-- returns. The registers are written at `kstack_top`. `none` is NULL.
pub task_make : ℕ → ℕ → ℕ → ℕ → ℕ → Mode → Option (Task × Regs × ℕ)
task_make curr_tid kstack ustack entry priority mode =
    if curr_tid == tid_max
    then none
    else some (
      new_task curr_tid kstack ustack priority mode,
      new_regs curr_tid kstack ustack entry mode,
      u16 (curr_tid + 1),
    )

-- `sched_add` with the address at which the task is made; NULL is put into the queue as it is.
pub sched_add : ℕ → ℕ → ℕ → ℕ → ℕ → Sched → Sched × ℕ
sched_add curr_tid address kstack ustack entry s =
    elim (task_make curr_tid kstack ustack entry 0 kernel_mode) [
      | none ↦ (record s { tasks_active = s.tasks_active ++ (0 ∷ []) }, curr_tid)
      | some (t, regs, next_tid) ↦ (
        record s {
          tasks = put s.tasks address (some t);
          tasks_active = s.tasks_active ++ (address ∷ []);
        },
        next_tid,
      )
    ]

-- `sched_init`, but for the timer of the processor, which it starts: `address` is where the idle
-- task is made. The result has `curr_tid` after.
pub sched_init : ℕ → ℕ → ℕ → ℕ → ℕ → ℕ → Sched → Sched × ℕ
sched_init curr_tid address kstack ustack entry cpu_id s =
    let mode = if cpu_id == 100 then user_mode else kernel_mode in
    let cpu_num' : ℕ = u16 (s.cpu_num + 1) in
    elim (task_make curr_tid kstack ustack entry 255 mode) [
      | none ↦ (record s { tasks_idle = put s.tasks_idle cpu_id 0; cpu_num = cpu_num' }, curr_tid)
      | some (t, regs, next_tid) ↦ (
        record s {
          tasks = put s.tasks address (some t);
          tasks_idle = put s.tasks_idle cpu_id address;
          cpu_num = cpu_num';
        },
        next_tid,
      )
    ]

-- `cpu` is what `smp_get_current_cpu` knows of the processor.
pub sched_get_current_task : Option ℕ → Sched → ℕ
sched_get_current_task none s = 0
sched_get_current_task (some cpu_id) s = s.tasks_running cpu_id

pub sched_get_ticks : Option ℕ → Sched → ℕ
sched_get_ticks none s = 0
sched_get_ticks (some cpu_id) s = s.tasks_coordinate cpu_id
