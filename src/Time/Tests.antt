-- ===== src/Time/Tests.antt =====
-- kernel/src/time.rs: a clock of a million cycles a quantum, and a thread that sleeps until tick 30.
use jungey_os.Prelude.{◌≤◌, ◌≡◌, refl, arith, true, false, some, none, [], ◌∷◌, get_elem?}
use jungey_os.Sched.{Thread, sleeping, wake_sleepers_and_survey}
use jungey_os.Time.{Timer, ticks, tick}
use jungey_os.Time.Deadline.{tick-ByDue}

abbrev timer : Timer
timer = record {
  interval = 1000000;
  boot_cycles = 5000;
  timer_irqs = 0;
  tickless = true;
  fires_at = 0;
}

abbrev sleeper : Thread
sleeper = record {
  id = 0;
  name = "sleeper";
  state = sleeping 30;
  slices = 0;
  on_cpu = none;
  affinity = none;
  service = false;
  cpus_seen = 0;
  pid = none;
  ttbr0 = 0;
  stack_phys = 0;
}

still_asleep : get_elem? (tick 2005000 2005100 2005200 (sleeper ∷ []) timer).0 0 ≡ some sleeper
unfolding tick ticks wake_sleepers_and_survey
still_asleep = refl

tick-ByDue_example : (tick 2005000 2005100 2005200 (sleeper ∷ []) timer).1.fires_at ≤ 30005000
tick-ByDue_example =
    tick-ByDue 2005000 2005100 2005200 (sleeper ∷ []) timer 0 sleeper 30 30005000
      (λ e. absurd (omega arith)) still_asleep refl (omega arith) (omega arith)
