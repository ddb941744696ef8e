-- ===== src/Sched/Exclusion/Safety.antt =====
-- Two cores never run one thread.
use jungey_os.Prelude.{ℕ, ◌≡◌, ◌≢◌, sym, Option, some, List, [], ◌∷◌, get_elem?, subst}
use jungey_os.Sched.{Thread, Cpu}
use jungey_os.Sched.Boot.{init, init_boot_cpu}
use jungey_os.Sched.Exclusion.{
  Machine, Claimed, IsExclusive, Step, Reach, switches, finishes, works, joins, here, more,
}
use jungey_os.Sched.Claims.{TableOp-KeepsClaims}
use jungey_os.Sched.Exclusion.Stays.{keeps-IsHeld, keeps-IsPinned, claims-agree}
use jungey_os.Sched.Exclusion.Switch.{schedule-IsExclusive}
use jungey_os.Sched.Exclusion.Finish.{finish_switch-IsExclusive}
use jungey_os.Sched.Exclusion.Join.{secondary_main-IsExclusive, init-IsExclusive}

-- Each step of any core keeps the claims exclusive: switching, finishing a switch, coming up, and every
-- other operation on the thread table.
pub Step-IsExclusive : {m n : Machine} → Step m n → IsExclusive m → IsExclusive n
Step-IsExclusive {m} (switches k c mine idle) inv = schedule-IsExclusive m inv k c mine
Step-IsExclusive {m} (finishes k c mine) inv = finish_switch-IsExclusive m k c inv mine
Step-IsExclusive {m} (joins mpidr empty_ttbr0) inv =
    secondary_main-IsExclusive m mpidr empty_ttbr0 inv
Step-IsExclusive {m} (works op) inv =
    let keeps = TableOp-KeepsClaims op in
    record {
      held = λ k c e. keeps-IsHeld keeps (inv.held k c e);
      pinned = keeps-IsPinned keeps inv.pinned;
    }

Reach-IsExclusive : {m n : Machine} → IsExclusive m → Reach m n → IsExclusive n
Reach-IsExclusive inv here = inv
Reach-IsExclusive inv (more r s) = Step-IsExclusive s (Reach-IsExclusive inv r)

-- Whatever the interleaving of the cores' steps, two different cores never run the same thread, and
-- no core runs a thread whose context another core has yet to finish saving.
pub no_shared_thread :
    {m n : Machine} (j k : ℕ) (c d : Cpu)
    → IsExclusive m
    → Reach m n
    → get_elem? n.cpus j ≡ some c
    → get_elem? n.cpus k ≡ some d
    → j ≢ k
    → (c.current ≢ d.current) × ((p : ℕ) → d.release_prev ≡ some p → c.current ≢ p)
no_shared_thread {m} {n} j k c d inv r at_j at_k ne =
    let ex = Reach-IsExclusive inv r in
    let hc = ex.held j c at_j in
    let hd = ex.held k d at_k in
    (
      λ same. ne (
          claims-agree n.threads c.current j k hc.runs
            (subst (λ (i : ℕ). Claimed n.threads i k) (sym same) hd.runs)),
      λ p e same. ne (
          claims-agree n.threads c.current j k hc.runs
            (subst (λ (i : ℕ). Claimed n.threads i k) (sym same) (hd.saves p e).0)),
    )

-- From boot on two different cores never run the same thread, and no core runs a thread whose context
-- another core has yet to finish saving: whatever the cores do after `init`, in any order, and whenever
-- further cores come up, one after the other.
pub no_shared_thread_since_init :
    (stack : Option ℕ) (mpidr empty_ttbr0 : ℕ) (threads : List Thread) (cpu : Cpu)
    → init stack empty_ttbr0 (init_boot_cpu mpidr) ≡ some (threads, cpu)
    → {n : Machine} → Reach (record { threads = threads; cpus = cpu ∷ [] }) n
    → (j k : ℕ) (c d : Cpu) → get_elem? n.cpus j ≡ some c
    → get_elem? n.cpus k ≡ some d
    → j ≢ k
    → (c.current ≢ d.current) × ((p : ℕ) → d.release_prev ≡ some p → c.current ≢ p)
no_shared_thread_since_init stack mpidr empty_ttbr0 threads cpu up r j k c d =
    no_shared_thread j k c d (init-IsExclusive stack mpidr empty_ttbr0 threads cpu up) r
