-- ===== src/Sched/Exclusion.antt =====
-- Several cores over one table: `schedule` and `finish_switch` of each, and any other operation on
-- the table, in any order. `Cpu.release_prev` keeps a thread claimed while its context is saved.
pub mod Stays
pub mod Switch
pub mod Finish
pub mod Join
pub mod Safety
use jungey_os.Prelude.{ℕ, ◌≡◌, ◌≢◌, true, none, some, List, [], ◌∷◌, ◌++◌, length, get_elem?, set}
use jungey_os.Sched.{Thread, Cpu, schedule, finish_switch}
use jungey_os.Sched.Boot.{secondary_main}
use jungey_os.Sched.Claims.{TableOp}

pub record Machine : Type 0 where
  pub threads : List Thread
  pub cpus : List Cpu

-- The thread at `i` is claimed by the core `k`.
abbrev pub Claimed : List Thread → ℕ → ℕ → Type 0
Claimed threads i k = (t : Thread) × (get_elem? threads i ≡ some t) × (t.on_cpu ≡ some k)

-- One core's part of the invariant.
pub record IsHeld (threads : List Thread) (k : ℕ) (c : Cpu) : Type 0 where
  pub numbered : c.id ≡ k
  pub runs : Claimed threads c.current k
  pub saves : (p : ℕ) → c.release_prev ≡ some p → Claimed threads p k × (p ≢ c.current)
  pub idles : (t : Thread) × (get_elem? threads c.idle ≡ some t) × (t.affinity ≡ some k)

-- A thread pinned to one core is claimed by no other.
abbrev pub IsPinned : List Thread → Type 0
IsPinned threads =
    (i : ℕ) (t : Thread) (a b : ℕ)
    → get_elem? threads i ≡ some t
    → t.affinity ≡ some a
    → t.on_cpu ≡ some b
    → a ≡ b

pub record IsExclusive (m : Machine) : Type 0 where
  pub held : (k : ℕ) (c : Cpu) → get_elem? m.cpus k ≡ some c → IsHeld m.threads k c
  pub pinned : IsPinned m.threads

-- A core that has switched finishes the switch before it schedules again, and the cores come up in the
-- order of their numbers.
pub data Step (m : Machine) : Machine → Type 0 where
  switches :
      (k : ℕ) (c : Cpu)
      → get_elem? m.cpus k ≡ some c
      → c.release_prev ≡ none
      → Step m (record {
        threads = (schedule true m.threads c).0;
        cpus = set m.cpus k (schedule true m.threads c).1;
      })
  finishes :
      (k : ℕ) (c : Cpu)
      → get_elem? m.cpus k ≡ some c
      → Step m (record {
        threads = (finish_switch m.threads c).0;
        cpus = set m.cpus k (finish_switch m.threads c).1;
      })
  works :
      {threads' : List Thread}
      → TableOp m.threads threads'
      → Step m (record m { threads = threads' })
  joins :
      (mpidr empty_ttbr0 : ℕ)
      → Step m (record {
        threads = (secondary_main (length m.cpus) mpidr empty_ttbr0 m.threads).0;
        cpus = m.cpus ++ (secondary_main (length m.cpus) mpidr empty_ttbr0 m.threads).1 ∷ [];
      })

pub data Reach (m : Machine) : Machine → Type 0 where
  here : Reach m m
  more : {n o : Machine} → Reach m n → Step n o → Reach m o
