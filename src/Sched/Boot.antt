-- ===== src/Sched/Boot.antt =====
-- kernel/src/sched/mod.rs and kernel/src/smp.rs: how threads and cores come to be. A stack is what the
-- frame allocator gave for it, and `empty_ttbr0` the address space of a thread without a process. The
-- registers that a core sets for itself are outside.
use jungey_os.Prelude.{
  ℕ, ◌^◌, true, false, String, Option, none, some, List, [], ◌∷◌, ◌++◌, ◌==◌, if◌then◌else◌, length,
}
use jungey_os.Sched.{Thread, runnable, Cpu, spawn_pinned, start}

abbrev pub new_cpu : Cpu
new_cpu = record {
  id = 0;
  mpidr = 0;
  current = 0;
  idle = 0;
  cursor = 0;
  switches = 0;
  ticks = 0;
  online = false;
  release_prev = none;
}

unfoldable pub install_cpu : (id mpidr : ℕ) → Cpu
install_cpu id mpidr = record new_cpu { id = id; mpidr = mpidr }

unfoldable pub init_boot_cpu : (mpidr : ℕ) → Cpu
unfolding install_cpu
init_boot_cpu mpidr = record (install_cpu 0 mpidr) { online = true }

-- A thread that the core is on already.
unfoldable pub thread_on : (id : ℕ) → String → (cpu_id : ℕ) → Option ℕ → (empty_ttbr0 : ℕ) → Thread
thread_on id name cpu_id affinity empty_ttbr0 = record {
  id = id;
  name = name;
  state = runnable;
  slices = 1;
  on_cpu = some cpu_id;
  affinity = affinity;
  service = false;
  cpus_seen = 2 ^ cpu_id;
  pid = none;
  ttbr0 = empty_ttbr0;
  stack_phys = 0;
}

-- The table and the boot core afterwards. Without a stack for the idle thread the kernel panics.
unfoldable pub init : (stack : Option ℕ) → (empty_ttbr0 : ℕ) → Cpu → Option (List Thread × Cpu)
unfolding thread_on
init none empty_ttbr0 cpu = none
init (some stack) empty_ttbr0 cpu =
    let (idle, threads) =
      spawn_pinned (thread_on 0 "boot" 0 none empty_ttbr0 ∷ []) "idle0" stack empty_ttbr0
        (some 0) in
    some (start threads idle, record cpu { current = 0; idle = idle })

unfoldable pub idle_name : (cpu_id : ℕ) → String
idle_name cpu_id =
    if cpu_id == 1
    then "idle1"
    else if cpu_id == 2
    then "idle2"
    else if cpu_id == 3
    then "idle3"
    else if cpu_id == 4
    then "idle4"
    else if cpu_id == 5
    then "idle5"
    else if cpu_id == 6
    then "idle6"
    else if cpu_id == 7
    then "idle7"
    else "idle"

unfoldable pub adopt_as_idle : (cpu_id empty_ttbr0 : ℕ) → List Thread → Cpu → List Thread × Cpu
unfolding thread_on
adopt_as_idle cpu_id empty_ttbr0 threads cpu =
    let id = length threads in
    (
      threads ++ thread_on id (idle_name cpu_id) cpu_id (some cpu_id) empty_ttbr0 ∷ [],
      record cpu { current = id; idle = id; cursor = id },
    )

-- A secondary core up to its idle loop.
unfoldable pub secondary_main : (id mpidr empty_ttbr0 : ℕ) → List Thread → List Thread × Cpu
unfolding install_cpu
secondary_main id mpidr empty_ttbr0 threads =
    adopt_as_idle id empty_ttbr0 threads (record (install_cpu id mpidr) { online = true })

unfoldable pub spawn_stopped :
    String → (stack : Option ℕ) → (empty_ttbr0 : ℕ) → List Thread → Option ℕ × List Thread
spawn_stopped name none empty_ttbr0 threads = (none, threads)
spawn_stopped name (some stack) empty_ttbr0 threads =
    let (id, threads) = spawn_pinned threads name stack empty_ttbr0 none in (some id, threads)

unfoldable pub spawn :
    String → (stack : Option ℕ) → (empty_ttbr0 : ℕ) → List Thread → Option ℕ × List Thread
spawn name none empty_ttbr0 threads = (none, threads)
spawn name (some stack) empty_ttbr0 threads =
    let (id, threads) = spawn_pinned threads name stack empty_ttbr0 none in
    (some id, start threads id)
