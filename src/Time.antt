-- ===== src/Time.antt =====
-- kernel/src/time.rs: the clock and the timer of one core. The readings of the counter are arguments; a
-- core's timer is the counter value at which it fires. Registers and the interrupt controller are
-- outside, and so is the count of interrupts that a core keeps for itself.
pub mod Deadline
mod Tests
use jungey_os.Prelude.{
  ℕ, ◌+◌, ◌-◌, ◌*◌, ◌/◌, ◌%◌, ◌^◌, Bool, true, false, not, ◌||◌, Option, none, some, List, leb,
  ◌==◌, if◌then◌else◌,
}
use jungey_os.Sched.{Thread, wake_sleepers_and_survey}

abbrev pub hz : ℕ
hz = 100

abbrev pub max_idle_ticks : ℕ
max_idle_ticks = 100

pub record Timer : Type 0 where
  pub interval : ℕ
  pub boot_cycles : ℕ
  pub timer_irqs : ℕ
  pub tickless : Bool
  pub fires_at : ℕ

abbrev pub larger : ℕ → ℕ → ℕ
larger a b = if leb a b then b else a

unfoldable pub set_tickless : Bool → Timer → Timer
set_tickless on t = record t { tickless = on }

-- `now` is the reading of the counter.
unfoldable pub ticks : Timer → (now : ℕ) → ℕ
ticks t now = let since = (now - t.boot_cycles) / t.interval in if t.interval == 0 then 0 else since

unfoldable pub now_us : (frequency now : ℕ) → ℕ
now_us frequency now = let us = now / (frequency / 1000000) in if frequency == 0 then 0 else us

unfoldable pub uptime_ms : Timer → (now : ℕ) → ℕ
uptime_ms t now = ticks t now * 1000 % 2 ^ 64 / hz

-- The first core to come sets the origin, the others adopt it.
unfoldable pub start : (frequency now : ℕ) → Timer → Timer
start frequency now t = record t {
  interval = frequency / hz;
  boot_cycles = if t.boot_cycles == 0 then now else t.boot_cycles;
  fires_at = (now + frequency / hz) % 2 ^ 64;
}

abbrev pub arm_at : (cycles : ℕ) → Timer → Timer
arm_at cycles t = record t { fires_at = cycles }

-- The tick to wait for: the earliest sleeper's, or a second from now.
unfoldable pub target_of : Option ℕ → (ticks_now : ℕ) → ℕ
target_of none ticks_now = ticks_now + max_idle_ticks
target_of (some until) ticks_now = until

-- `now` is read first, and `later` for the clock when there is no sleeper.
unfoldable pub arm_next :
    (now later : ℕ) → (have_work : Bool) → (earliest_sleeper : Option ℕ) → Timer → Timer
arm_next now later have_work earliest_sleeper t =
    if t.interval == 0
    then t
    else if have_work || not t.tickless
    then arm_at ((now + t.interval) % 2 ^ 64) t
    else arm_at
        (larger ((t.boot_cycles + target_of earliest_sleeper (ticks t later) * t.interval) % 2 ^ 64)
          ((now + t.interval / 4) % 2 ^ 64))
        t

unfoldable pub took_interrupt : Timer → Timer
took_interrupt t = record t { timer_irqs = t.timer_irqs + 1 }

-- `tick` of kernel/src/sched/mod.rs up to the switch: the sweep at one reading of the counter, and the
-- timer armed by what it found.
unfoldable pub tick : (at now later : ℕ) → List Thread → Timer → List Thread × Timer
tick at now later threads t =
    let (threads, survey) = wake_sleepers_and_survey threads (ticks t at) in
    (threads, arm_next now later survey.work survey.earliest t)
