-- ===== src/Time/Deadline.antt =====
-- kernel/src/time.rs, `arm_next`: when the timer fires, and whom that serves.
use jungey_os.Prelude.{
  ℕ, ◌+◌, ◌-◌, ◌*◌, ◌/◌, ◌%◌, ◌^◌, ◌<◌, ◌≤◌, ◌≡◌, ◌≢◌, inl, inr, arith, Bool, true, false, not,
  ◌||◌, Bool-cases, dec_le, Option, some, List, leb, leb→le, ==_ne, get_elem?,
}
use native.Mathlib.Nat.{mul-le-mul_right}
use jungey_os.Sched.{Thread, sleeping, wake_sleepers_and_survey}
use jungey_os.Sched.Sleepers.{wake_sleepers_and_survey_lem}
use jungey_os.Time.{Timer, larger, ticks, target_of, arm_next, tick}

larger_at_most : (a b c : ℕ) → a ≤ c → b ≤ c → larger a b ≤ c
larger_at_most a b c h g = elim (Bool-cases (leb a b)) [ inl e ↦ rw e g | inr e ↦ rw e h ]

wrapped : (n : ℕ) → n % 2 ^ 64 ≤ n
wrapped n = omega arith

-- The timer never waits longer than one quantum, or than for the target.
arm_next-by :
    (now later : ℕ) (work : Bool) (earliest : Option ℕ) (t : Timer) (c : ℕ)
    → t.interval ≢ 0
    → now + t.interval ≤ c
    → t.boot_cycles + target_of earliest (ticks t later) * t.interval ≤ c
    → (arm_next now later work earliest t).fires_at ≤ c
unfolding arm_next
arm_next-by now later work earliest t c h q g = elim (Bool-cases (work || not t.tickless)) [
  | inl quantum ↦ rw (==_ne t.interval 0 h, quantum) (omega arith)
  | inr idle ↦
      let due = t.boot_cycles + target_of earliest (ticks t later) * t.interval in
      let soon = now + t.interval / 4 in
      let by_due : due % 2 ^ 64 ≤ c = omega (arith, wrapped due) in
      let by_soon : soon % 2 ^ 64 ≤ c = omega (arith, wrapped soon) in
      rw (==_ne t.interval 0 h, idle)
        (larger_at_most (due % 2 ^ 64) (soon % 2 ^ 64) c by_due by_soon)
]

-- No sleeper is kept waiting. After a core has swept the threads and armed its timer, at three successive
-- readings of the counter, every thread that is still asleep finds the timer set to fire no later than
-- one quantum from now or the cycle at which the thread is due, whichever is later; also when the core
-- is tickless and idle, and also when the target wraps around.
pub tick-ByDue :
    (at now later : ℕ) (threads : List Thread) (t : Timer) (i : ℕ) (u : Thread) (until c : ℕ)
    → t.interval ≢ 0
    → get_elem? (tick at now later threads t).0 i ≡ some u
    → u.state ≡ sleeping until
    → now + t.interval ≤ c
    → t.boot_cycles + until * t.interval ≤ c
    → (tick at now later threads t).1.fires_at ≤ c
unfolding tick target_of
tick-ByDue at now later threads t i u until c h found asleep q due =
    let s = wake_sleepers_and_survey threads (ticks t at) in
    let (ahead, (e, eq, le)) =
      (wake_sleepers_and_survey_lem threads (ticks t at)).none_due i u until found asleep in
    let first : e * t.interval ≤ until * t.interval = mul-le-mul_right t.interval le in
    let target : t.boot_cycles + target_of s.1.earliest (ticks t later) * t.interval ≤ c =
      rw (eq, target_of) (omega (arith, first)) in
    arm_next-by now later s.1.work s.1.earliest t c h q target

larger_left : (a b : ℕ) → a ≤ larger a b
larger_left a b = elim (Bool-cases (leb a b)) [
  | inl e ↦ rw e (leb→le a b e)
  | inr e ↦ rw e (omega arith)
]

larger_right : (a b : ℕ) → b ≤ larger a b
larger_right a b = elim (Bool-cases (leb a b)) [
  | inl e ↦ rw e (omega arith)
  | inr e ↦ rw e (ground arith)
]

le-div : (k n p : ℕ) → 0 < p → k * p ≤ n → k ≤ n / p
le-div k n p h g = elim (dec_le k (n / p)) [
  | yes le ↦ le
  | no gt ↦ let below : n / p < k = omega arith in absurd (omega (arith, mul-le-mul_right p below))
]

-- An idle tickless core is not woken for nothing: when the timer that was armed for the earliest sleeper
-- fires, the clock has reached that sleeper's tick, and the core has had at least a quarter of a
-- quantum, if neither instant is past the end of the 64-bit counter.
pub arm_next-Due :
    (now later e : ℕ) (t : Timer)
    → t.interval ≢ 0
    → t.tickless ≡ true
    → t.boot_cycles + e * t.interval < 2 ^ 64
    → now + t.interval / 4 < 2 ^ 64
    → (e ≤ ticks t (arm_next now later false (some e) t).fires_at)
      × (now + t.interval / 4 ≤ (arm_next now later false (some e) t).fires_at)
unfolding arm_next ticks target_of
arm_next-Due now later e t h idle far near =
    let due = t.boot_cycles + e * t.interval in
    let soon = now + t.interval / 4 in
    let left : due ≤ larger (due % 2 ^ 64) (soon % 2 ^ 64) =
      omega (arith, larger_left (due % 2 ^ 64) (soon % 2 ^ 64)) in
    let right : soon ≤ larger (due % 2 ^ 64) (soon % 2 ^ 64) =
      omega (arith, larger_right (due % 2 ^ 64) (soon % 2 ^ 64)) in
    rw (==_ne t.interval 0 h, idle)
      (
        le-div e (larger (due % 2 ^ 64) (soon % 2 ^ 64) - t.boot_cycles) t.interval (omega arith)
            (omega arith),
        right,
      )
