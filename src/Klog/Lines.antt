-- ===== src/Klog/Lines.antt =====
-- kernel/lib/klog.c: a line of the log, with the time stamp and the level before its text, and
-- `kprintf`. What the clocks and the processors answer are arguments.
use han_os.Base.{
  ℕ, ◌+◌, ◌/◌, ◌%◌, ◌==◌, Option, none, some, List, [], ◌∷◌, ◌++◌, Bool, if◌then◌else◌, u64,
}
use han_os.Cmos.{Rtc}
use han_os.Time.{Tm, localtime}
use han_os.Klog.{Klog, klog_refresh}
use han_os.Klog.Printf.{Arg, word, klog_vprintf_core}

-- Undefined behaviour ends the function.
infixl 5 ◌>>=◌
abbrev ◌>>=◌ {ℓ κ} : {A : Type ℓ} {B : Type κ} → Option A → (A → Option B) → Option B
none >>= f = none
some a >>= f = f a

pub data Level : Type 0 where
  verbose : Level
  debug : Level
  info : Level
  warn : Level
  error : Level
  unk : Level

-- What `klog_vprintf` asks of the machine: the nanoseconds of the HPET twice, the boot time, the
-- real-time clock, and the number of the processor when it has one.
pub record Machine : Type 0 where
  pub nanos_for_seconds : ℕ
  pub nanos_for_millis : ℕ
  pub boot_time : ℕ
  pub rtc : Rtc
  pub cpu_id : Option ℕ

abbrev pub zero_tm : Tm
zero_tm = record {
  sec = 0;
  min = 0;
  hour = 0;
  mday = 0;
  mon = 0;
  year = 0;
  wday = 0;
  yday = 0;
  isdst = 0;
}

abbrev pub now_tm : Machine → Tm
now_tm m = localtime (u64 (m.nanos_for_seconds / 1000000000 + m.boot_time)) zero_tm

-- The words of the stamp. The clock's year and month are counted down and up again.
pub stamp_args : Machine → List Arg
stamp_args m =
    let ms : List Arg = word (m.nanos_for_millis / 1000000 % 1000) ∷ [] in
    if m.boot_time == 0
    then word m.rtc.year
      ∷ word m.rtc.month
      ∷ word m.rtc.day
      ∷ word m.rtc.hours
      ∷ word m.rtc.minutes
      ∷ word m.rtc.seconds
      ∷ ms
    else word (1900 + (now_tm m).year)
      ∷ word ((now_tm m).mon + 1)
      ∷ word (now_tm m).mday
      ∷ word (now_tm m).hour
      ∷ word (now_tm m).min
      ∷ word (now_tm m).sec
      ∷ ms

-- `%0` with a width of one digit and `d`, then the rest of the format.
abbrev zero_filled : ℕ → List ℕ → List ℕ
zero_filled digit rest = b'%' ∷ b'0' ∷ digit ∷ b'd' ∷ rest

pub stamp_format : List ℕ
stamp_format =
    let millis : List ℕ = zero_filled b'3' (b' ' ∷ []) in
    let seconds : List ℕ = zero_filled b'2' (b' ' ∷ millis) in
    let minutes : List ℕ = zero_filled b'2' (b':' ∷ seconds) in
    let hours : List ℕ = zero_filled b'2' (b':' ∷ minutes) in
    let days : List ℕ = zero_filled b'2' (b' ' ∷ hours) in
    let months : List ℕ = zero_filled b'2' (b'-' ∷ days) in zero_filled b'4' (b'-' ∷ months)

-- The processor's number, or two dashes.
abbrev cpu_stamp : Option ℕ → Klog → Option Klog
cpu_stamp none k = klog_vprintf_core (b'-' ∷ b'-' ∷ b' ' ∷ []) [] k
cpu_stamp (some id) k = klog_vprintf_core (zero_filled b'2' (b' ' ∷ [])) (word id ∷ []) k

-- The texts of the levels: a colour, the name in brackets, and the colour's end.
abbrev coloured : ℕ → List ℕ → List ℕ
coloured digit name =
    (b'?' ∷ b'[' ∷ b'1' ∷ digit ∷ b';' ∷ b'1' ∷ b'm' ∷ [])
    ++ (name ++ (b'?' ∷ b'[' ∷ b'0' ∷ b'm' ∷ b' ' ∷ []))

pub level_text : Level → List ℕ
level_text verbose = coloured b'5' (b'[' ∷ b'V' ∷ b'E' ∷ b'R' ∷ b'B' ∷ b']' ∷ b' ' ∷ [])
level_text debug = coloured b'5' (b'[' ∷ b'D' ∷ b'E' ∷ b'B' ∷ b'U' ∷ b'G' ∷ b']' ∷ [])
level_text info = coloured b'2' (b'[' ∷ b'I' ∷ b'N' ∷ b'F' ∷ b'O' ∷ b']' ∷ b' ' ∷ [])
level_text warn = coloured b'3' (b'[' ∷ b'W' ∷ b'A' ∷ b'R' ∷ b'N' ∷ b']' ∷ b' ' ∷ [])
level_text error = coloured b'1' (b'[' ∷ b'E' ∷ b'R' ∷ b'R' ∷ b'O' ∷ b'R' ∷ b']' ∷ [])
level_text unk = []

-- The stamp of a line, which the level KLOG_LEVEL_UNK has not.
stamp : Level → Machine → Klog → Option Klog
stamp unk m k = some k
stamp level m k = do k ← klog_vprintf_core stamp_format (stamp_args m) k; cpu_stamp m.cpu_id k

-- `klog_vprintf`: `unknown` is whether the terminal's mode is TERM_MODE_UNKNOWN.
pub klog_vprintf : Level → List ℕ → List Arg → Machine → Bool → Klog → Option Klog
klog_vprintf level s args m unknown k = do
  k ← stamp level m k
  k ← klog_vprintf_core (level_text level) [] k
  k ← klog_vprintf_core s args k
  klog_refresh unknown k

pub kprintf : List ℕ → List Arg → Bool → Klog → Option Klog
kprintf s args unknown k = do k ← klog_vprintf_core s args k; klog_refresh unknown k
