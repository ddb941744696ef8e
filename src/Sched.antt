-- ===== src/Sched.antt =====
-- kernel/src/sched/mod.rs: the thread table and what each core does with it; `Cpu` is of
-- kernel/src/smp.rs. The lock makes each function one step on the table, so each is a function from
-- the table to the table. What is hardware stays outside: the saved registers, the switch of the
-- address space, the interrupt that `kick_others` sends.
pub mod Pick
pub mod Sleepers
pub mod Claims
pub mod Boot
pub mod Exclusion
mod Tests
use jungey_os.Prelude.{
  ℕ, zero, suc, ◌+◌, ◌%◌, ◌^◌, bit_or, min, Bool, true, false, not, ◌&&◌, ◌||◌, String, Option,
  none, some, List, [], ◌∷◌, ◌++◌, leb, ◌==◌, if◌then◌else◌, length, get_elem?, modify, map,
}

pub data State : Type 0 where
  new : State
  runnable : State
  sleeping : (until : ℕ) → State
  blocked : (token : ℕ) → State
  finished : State

pub record Thread : Type 0 where
  pub id : ℕ
  pub name : String
  pub state : State
  pub slices : ℕ
  pub on_cpu : Option ℕ
  pub affinity : Option ℕ
  pub service : Bool
  pub cpus_seen : ℕ
  pub pid : Option ℕ
  pub ttbr0 : ℕ
  pub stack_phys : ℕ

-- `release_prev` is a pointer there, null for none; here it is the index of the thread.
pub record Cpu : Type 0 where
  pub id : ℕ
  pub mpidr : ℕ
  pub current : ℕ
  pub idle : ℕ
  pub cursor : ℕ
  pub switches : ℕ
  pub ticks : ℕ
  pub online : Bool
  pub release_prev : Option ℕ

abbrev pub is_runnable : State → Bool
is_runnable runnable = true
is_runnable _ = false

abbrev pub is_new : State → Bool
is_new new = true
is_new _ = false

abbrev pub is_finished : State → Bool
is_finished finished = true
is_finished _ = false

abbrev pub is_blocked_on : ℕ → State → Bool
is_blocked_on token (blocked t) = t == token
is_blocked_on token _ = false

abbrev pub is_blocked : State → Bool
is_blocked (blocked t) = true
is_blocked _ = false

abbrev pub is_none {ℓ} : {A : Type ℓ} → Option A → Bool
is_none none = true
is_none (some a) = false

-- `match affinity { Some(a) => a == cpu_id, None => true }`
abbrev pub may_run_on : ℕ → Option ℕ → Bool
may_run_on cpu_id none = true
may_run_on cpu_id (some a) = a == cpu_id

unfoldable pub eligible : Thread → ℕ → Bool
eligible t cpu_id = is_runnable t.state && is_none t.on_cpu && may_run_on cpu_id t.affinity

eligible_at : Option Thread → ℕ → Bool
unfolding eligible
eligible_at none cpu_id = false
eligible_at (some t) cpu_id = eligible t cpu_id

unfoldable pub runnable_at : Option Thread → Bool
runnable_at none = false
runnable_at (some t) = is_runnable t.state

-- `for step in 1..=n`: `left` rounds to go.
scan : List Thread → Cpu → (left step : ℕ) → Option ℕ
unfolding eligible_at
scan threads cpu zero step = none
scan threads cpu (suc left) step =
    let i = (cpu.cursor + step) % length threads in
    let rest = scan threads cpu left (step + 1) in
    if i == cpu.idle || i == cpu.current
    then rest
    else if eligible_at (get_elem? threads i) cpu.id
    then some i
    else rest

fall_back : List Thread → Cpu → ℕ
unfolding runnable_at
fall_back threads cpu =
    if runnable_at (get_elem? threads cpu.current) && not (cpu.current == cpu.idle)
    then cpu.current
    else cpu.idle

unfoldable pub pick_next : List Thread → Cpu → ℕ
unfolding scan fall_back
pick_next threads cpu = elim (scan threads cpu (length threads) 1) [
  | some i ↦ i
  | none ↦ fall_back threads cpu
]

abbrev pub claim : ℕ → Thread → Thread
claim cpu_id t = record t {
  slices = t.slices + 1;
  on_cpu = some cpu_id;
  cpus_seen = bit_or t.cpus_seen (2 ^ cpu_id);
}

abbrev pub release : Thread → Thread
release t = record t { on_cpu = none }

switch_to : List Thread → Cpu → ℕ → List Thread × Cpu
switch_to threads cpu next = (
  modify threads next (claim cpu.id),
  record cpu {
    current = next;
    cursor = next;
    switches = cpu.switches + 1;
    release_prev = some cpu.current;
  },
)

-- `schedule` up to `cpu_switch_to`; what follows it is `finish_switch`.
unfoldable pub schedule : Bool → List Thread → Cpu → List Thread × Cpu
unfolding switch_to
schedule started threads cpu =
    let next = pick_next threads cpu in
    if not started || next == cpu.current then (threads, cpu) else switch_to threads cpu next

unfoldable pub finish_switch : List Thread → Cpu → List Thread × Cpu
finish_switch threads cpu = elim cpu.release_prev [
  | none ↦ (threads, cpu)
  | some prev ↦ (modify threads prev release, record cpu { release_prev = none })
]

unfoldable pub spawn_pinned :
    List Thread → String → (stack_phys empty_ttbr0 : ℕ) → Option ℕ → ℕ × List Thread
spawn_pinned threads name stack_phys empty_ttbr0 affinity = (
  length threads,
  threads
      ++ record {
        id = length threads;
        name = name;
        state = new;
        slices = 0;
        on_cpu = none;
        affinity = affinity;
        service = false;
        cpus_seen = 0;
        pid = none;
        ttbr0 = empty_ttbr0;
        stack_phys = stack_phys;
      }
        ∷ [],
)

unfoldable pub start : List Thread → ℕ → List Thread
start threads tid =
    modify threads tid (λ t. if is_new t.state then record t { state = runnable } else t)

unfoldable pub mark_service : List Thread → ℕ → List Thread
mark_service threads tid = modify threads tid (λ t. record t { service = true })

unfoldable pub attach_process : List Thread → (tid pid ttbr0 : ℕ) → List Thread
attach_process threads tid pid ttbr0 =
    modify threads tid (λ t. record t { pid = some pid; ttbr0 = ttbr0 })

-- `me` is the thread that the calling core is on.
unfoldable pub prepare_block : List Thread → (me token : ℕ) → List Thread
prepare_block threads me token = modify threads me (λ t. record t { state = blocked token })

unfoldable pub cancel_block : List Thread → ℕ → List Thread
cancel_block threads me =
    modify threads me (λ t. if is_blocked t.state then record t { state = runnable } else t)

unfoldable pub thread_exit : List Thread → ℕ → List Thread
thread_exit threads me = modify threads me (λ t. record t { state = finished })

-- The first step of `sleep_ticks`.
unfoldable pub sleep_until : List Thread → (me until : ℕ) → List Thread
sleep_until threads me until = modify threads me (λ t. record t { state = sleeping until })

abbrev pub wake : ℕ → Thread → Thread
wake token t = if is_blocked_on token t.state then record t { state = runnable } else t

unfoldable pub wake_all_on : List Thread → ℕ → List Thread
wake_all_on threads token = map (wake token) threads

pub record Survey : Type 0 where
  pub work : Bool
  pub earliest : Option ℕ

sooner : ℕ → Option ℕ → Option ℕ
sooner until none = some until
sooner until (some e) = some (min e until)

-- One round of the sweep: the thread afterwards, and what the survey says then.
survey_thread : (now : ℕ) → Thread → State → Survey → Thread × Survey
unfolding sooner
survey_thread now t (sleeping until) s =
    if leb until now
    then (record t { state = runnable }, record s { work = true })
    else (t, record s { earliest = sooner until s.earliest })
survey_thread now t runnable s = (t, if is_none t.affinity then record s { work = true } else s)
survey_thread now t _ s = (t, s)

survey_from : (now : ℕ) → List Thread → Survey → List Thread × Survey
unfolding survey_thread
survey_from now [] s = ([], s)
survey_from now (t ∷ ts) s =
    let (t', s') = survey_thread now t t.state s in
    let (ts', s'') = survey_from now ts s' in (t' ∷ ts', s'')

unfoldable pub wake_sleepers_and_survey : List Thread → (now : ℕ) → List Thread × Survey
unfolding survey_from
wake_sleepers_and_survey threads now =
    survey_from now threads (record { work = false; earliest = none })

counts_as_live : Thread → Bool
counts_as_live t = is_none t.affinity && not t.service && not (is_finished t.state)

unfoldable pub live_count : List Thread → ℕ
unfolding counts_as_live
live_count [] = 0
live_count (t ∷ ts) = (if counts_as_live t then 1 else 0) + live_count ts
