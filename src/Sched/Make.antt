-- ===== src/Sched/Make.antt =====
-- `sched_add`, which makes a task with `task_make`.
use han_os.Sched.{Sched}
