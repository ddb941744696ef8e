-- ===== src/Sched/Tests.antt =====
-- Runs of the scheduler: two cores, their idle threads and one thread that either may run.
use jungey_os.Prelude.{
  ℕ, zero, suc, ◌+◌, ◌≡◌, ◌≢◌, ◌⊎◌, ◌≤◌, ◌<◌, refl, true, false, not, ◌&&◌, Option, none, some,
  List, [], ◌∷◌, length, ◌==◌, if◌then◌else◌, arith, get_elem?, set,
}
use jungey_os.Sched.{
  Thread, Cpu, State, runnable, sleeping, pick_next, runnable_at, schedule, spawn_pinned, start,
  eligible,
}
use jungey_os.Sched.Pick.{Passed, FirstFrom, place, pick_next_lem}
use jungey_os.Sched.Exclusion.{
  Machine, IsHeld, IsExclusive, Reach, switches, works, joins, here, more,
}
use jungey_os.Sched.Claims.{spawns, starts}
use jungey_os.Sched.Boot.{
  init_boot_cpu, install_cpu, thread_on, init, adopt_as_idle, secondary_main, spawn,
}
use jungey_os.Sched.Exclusion.Safety.{no_shared_thread_since_init}

abbrev thread : ℕ → State → Option ℕ → Option ℕ → Thread
thread id state on_cpu affinity = record {
  id = id;
  name = "thread";
  state = state;
  slices = 0;
  on_cpu = on_cpu;
  affinity = affinity;
  service = false;
  cpus_seen = 0;
  pid = none;
  ttbr0 = 0;
  stack_phys = 0;
}

abbrev core : ℕ → Cpu
core k = record {
  id = k;
  mpidr = k;
  current = k;
  idle = k;
  cursor = 0;
  switches = 0;
  ticks = 0;
  online = true;
  release_prev = none;
}

abbrev boot_threads : List Thread
boot_threads =
    thread 0 runnable (some 0) (some 0)
    ∷ thread 1 runnable (some 1) (some 1)
    ∷ thread 2 runnable none none
    ∷ []

abbrev boot : Machine
boot = record { threads = boot_threads; cpus = core 0 ∷ core 1 ∷ [] }

picks : pick_next boot_threads (core 0) ≡ 2
unfolding pick_next
picks = refl

pick_next_lem_example :
    ((k : ℕ) × (pick_next boot_threads (core 0) ≡ place boot_threads (core 0) k)
      × FirstFrom boot_threads (core 0) 1 (1 + length boot_threads) k)
    ⊎ (((j : ℕ)
          → 1 ≤ j
          → j < 1 + length boot_threads
          → Passed boot_threads (core 0) (place boot_threads (core 0) j))
        × (pick_next boot_threads (core 0)
            ≡ (if runnable_at (get_elem? boot_threads 0) && not (0 == 0) then 0 else 0)))
pick_next_lem_example = pick_next_lem boot_threads (core 0)

abbrev sleepers : List Thread
sleepers = thread 0 (sleeping 5) none none ∷ thread 1 (sleeping 9) none none ∷ []

core-IsHeld : (k : ℕ) (c : Cpu) → get_elem? boot.cpus k ≡ some c → IsHeld boot_threads k c
core-IsHeld zero c e =
    let same : core 0 ≡ c = ground arith in
    rw (← same) (record {
      numbered = refl;
      runs = (thread 0 runnable (some 0) (some 0), refl, refl);
      saves = λ p h. absurd (cc);
      idles = (thread 0 runnable (some 0) (some 0), refl, refl);
    })
core-IsHeld (suc zero) c e =
    let same : core 1 ≡ c = ground arith in
    rw (← same) (record {
      numbered = refl;
      runs = (thread 1 runnable (some 1) (some 1), refl, refl);
      saves = λ p h. absurd (cc);
      idles = (thread 1 runnable (some 1) (some 1), refl, refl);
    })
core-IsHeld (suc (suc k)) c e = absurd (cc)

boot-IsExclusive : IsExclusive boot
boot-IsExclusive = record {
  held = core-IsHeld;
  pinned = elim [
    | zero ↦ λ t a b e f g. ground arith
    | suc zero ↦ λ t a b e f g. ground arith
    | suc (suc zero) ↦ λ t a b e f g. ground arith
    | suc (suc (suc i)) ↦ λ t a b e f g. absurd (cc)
  ];
}

abbrev switched : Machine
switched = record {
  threads = (schedule true boot_threads (core 0)).0;
  cpus = set boot.cpus 0 (schedule true boot_threads (core 0)).1;
}

-- Two cores come up, and the second takes a thread that was spawned.
abbrev at_init : List Thread × Cpu
at_init = (
  thread_on 0 "boot" 0 none 0
      ∷ record (thread_on 1 "idle0" 0 (some 0) 0) {
        slices = 0;
        on_cpu = none;
        cpus_seen = 0;
        stack_phys = 4096;
      }
      ∷ [],
  record (init_boot_cpu 0) { idle = 1 },
)

starts_so : init (some 4096) 0 (init_boot_cpu 0) ≡ some at_init
unfolding init init_boot_cpu thread_on spawn_pinned start install_cpu
starts_so = refl

abbrev joined : List Thread × Cpu
joined = secondary_main 1 1 0 at_init.0

abbrev spawned : List Thread
spawned = (spawn_pinned joined.0 "job" 8192 0 none).1

abbrev job_ready : Machine
job_ready = record { threads = start spawned 3; cpus = at_init.1 ∷ joined.1 ∷ [] }

spawn_so : spawn "job" (some 8192) 0 joined.0 ≡ (some 3, job_ready.threads)
unfolding spawn secondary_main adopt_as_idle thread_on install_cpu spawn_pinned start
spawn_so = refl

abbrev job_taken : List Thread × Cpu
job_taken = schedule true job_ready.threads joined.1

takes_job : job_taken.1.current ≡ 3
unfolding schedule secondary_main adopt_as_idle thread_on install_cpu spawn_pinned start pick_next
    eligible
takes_job = refl

job_run :
    Reach
      (record { threads = at_init.0; cpus = at_init.1 ∷ [] })
      (record { threads = job_taken.0; cpus = at_init.1 ∷ job_taken.1 ∷ [] })
unfolding secondary_main adopt_as_idle install_cpu
job_run =
    more (more (more (more here (joins 1 0)) (works (spawns "job" 8192 0 none))) (works (starts 3)))
      (switches 1 joined.1 refl refl)

no_shared_thread_since_init_example :
    (at_init.1.current ≢ job_taken.1.current)
    × ((p : ℕ) → job_taken.1.release_prev ≡ some p → at_init.1.current ≢ p)
no_shared_thread_since_init_example =
    no_shared_thread_since_init (some 4096) 0 0 at_init.0 at_init.1 starts_so job_run 0 1 at_init.1
      job_taken.1 refl refl (λ e. omega arith)
