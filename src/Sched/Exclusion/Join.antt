-- ===== src/Sched/Exclusion/Join.antt =====
-- The cores that come up hold what they run, and nobody else does.
use jungey_os.Prelude.{
  ℕ, zero, suc, ◌≡◌, inl, inr, refl, ◌∙◌, sym, ap, true, false, Option, none, some, List, [], ◌∷◌,
  ◌++◌, length, arith, get_elem?, get_elem?-append_old, get_elem?-append_last, get_elem?-lt,
  get_elem?-snoc, subst,
}
use jungey_os.Sched.{Thread, runnable, Cpu, spawn_pinned, start}
use jungey_os.Sched.Boot.{
  init_boot_cpu, install_cpu, new_cpu, thread_on, idle_name, init, adopt_as_idle, secondary_main,
}
use jungey_os.Sched.Exclusion.{Machine, Claimed, IsHeld, IsPinned, IsExclusive}

-- One more thread, that a core is on.
module _ (threads : List Thread) (t : Thread) where
  snoc-Claimed : (i k : ℕ) → Claimed threads i k → Claimed (threads ++ t ∷ []) i k
  snoc-Claimed i k (u, found, on) =
      (u, get_elem?-append_old threads (t ∷ []) i (get_elem?-lt threads i u found) ∙ found, on)

  snoc-IsHeld : (k : ℕ) (c : Cpu) → IsHeld threads k c → IsHeld (threads ++ t ∷ []) k c
  snoc-IsHeld k c h = record {
    numbered = h.numbered;
    runs = snoc-Claimed c.current k h.runs;
    saves = λ p e. (snoc-Claimed p k (h.saves p e).0, (h.saves p e).1);
    idles =
        let (u, found, pin) = h.idles in
        (
          u,
          get_elem?-append_old threads (t ∷ []) c.idle (get_elem?-lt threads c.idle u found)
              ∙ found,
          pin,
        );
  }

  snoc-IsPinned :
      (k : ℕ)
      → t.affinity ≡ some k
      → t.on_cpu ≡ some k
      → IsPinned threads
      → IsPinned (threads ++ t ∷ [])
  snoc-IsPinned k pin on pinned i u a b e pin' on' = elim (get_elem?-snoc threads t i u e) [
    | inl old ↦ pinned i u a b old.1 pin' on'
    | inr added ↦
        let p : u.affinity ≡ some k = subst (λ (x : Thread). x.affinity ≡ some k) added.1 pin in
        let o : u.on_cpu ≡ some k = subst (λ (x : Thread). x.on_cpu ≡ some k) added.1 on in cc
  ]

pub secondary_main-IsExclusive :
    (m : Machine) (mpidr empty_ttbr0 : ℕ)
    → IsExclusive m
    → IsExclusive (record {
      threads = (secondary_main (length m.cpus) mpidr empty_ttbr0 m.threads).0;
      cpus = m.cpus ++ (secondary_main (length m.cpus) mpidr empty_ttbr0 m.threads).1 ∷ [];
    })
unfolding secondary_main adopt_as_idle thread_on install_cpu
secondary_main-IsExclusive m mpidr empty_ttbr0 inv =
    let k = length m.cpus in
    let last = length m.threads in
    let t : Thread = thread_on last (idle_name k) k (some k) empty_ttbr0 in
    let here : get_elem? (m.threads ++ t ∷ []) last ≡ some t =
      get_elem?-append_last m.threads t last refl in
    record {
      held = λ j c e. elim (get_elem?-snoc m.cpus _ j c e) [
        | inl old ↦ snoc-IsHeld m.threads t j c (inv.held j c old.1)
        | inr added ↦
            subst (λ (d : Cpu). IsHeld (m.threads ++ t ∷ []) j d) added.1
              (record {
                numbered = sym added.0;
                runs = (t, here, ap some (sym added.0));
                saves = λ p h. absurd (cc);
                idles = (t, here, ap some (sym added.0));
              })
      ];
      pinned = snoc-IsPinned m.threads t k refl refl inv.pinned;
    }

-- The boot core is on the thread that booted, and its idle thread waits for it.
module _ (stack mpidr empty_ttbr0 : ℕ) where
  abbrev boot_thread : Thread
  boot_thread = thread_on 0 "boot" 0 none empty_ttbr0

  abbrev idle_thread : Thread
  idle_thread = record {
    id = 1;
    name = "idle0";
    state = runnable;
    slices = 0;
    on_cpu = none;
    affinity = some 0;
    service = false;
    cpus_seen = 0;
    pid = none;
    ttbr0 = empty_ttbr0;
    stack_phys = stack;
  }

  abbrev boot_cpu : Cpu
  boot_cpu = record new_cpu { mpidr = mpidr; online = true; idle = 1 }

  abbrev booted : Machine
  booted = record { threads = boot_thread ∷ idle_thread ∷ []; cpus = boot_cpu ∷ [] }

  boot_cpu-IsHeld : IsHeld booted.threads 0 boot_cpu
  unfolding thread_on
  boot_cpu-IsHeld = record {
    numbered = refl;
    runs = (boot_thread, refl, refl);
    saves = λ p h. absurd (cc);
    idles = (idle_thread, refl, refl);
  }

  booted-IsPinned :
      (i : ℕ) (t : Thread) (a b : ℕ)
      → get_elem? booted.threads i ≡ some t
      → t.affinity ≡ some a
      → t.on_cpu ≡ some b
      → a ≡ b
  unfolding thread_on
  booted-IsPinned zero t a b e pin on = ground arith
  booted-IsPinned (suc zero) t a b e pin on = ground arith
  booted-IsPinned (suc (suc i)) t a b e pin on = absurd (cc)

  booted-held : (k : ℕ) (c : Cpu) → get_elem? booted.cpus k ≡ some c → IsHeld booted.threads k c
  booted-held zero c e = let same : boot_cpu ≡ c = cc in rw (← same) boot_cpu-IsHeld
  booted-held (suc k) c e = cc

  booted-IsExclusive : IsExclusive booted
  booted-IsExclusive = record { held = booted-held; pinned = booted-IsPinned }

-- The machine as the boot core leaves it.
pub init-IsExclusive :
    (stack : Option ℕ) (mpidr empty_ttbr0 : ℕ) (threads : List Thread) (cpu : Cpu)
    → init stack empty_ttbr0 (init_boot_cpu mpidr) ≡ some (threads, cpu)
    → IsExclusive (record { threads = threads; cpus = cpu ∷ [] })
unfolding init init_boot_cpu thread_on spawn_pinned start install_cpu
init-IsExclusive none mpidr empty_ttbr0 threads cpu h = cc
init-IsExclusive (some stack) mpidr empty_ttbr0 threads cpu h =
    let same : ((booted stack mpidr empty_ttbr0).threads, boot_cpu stack mpidr empty_ttbr0)
        ≡ (threads, cpu) =
      cc in
    subst (λ (p : List Thread × Cpu). IsExclusive (record { threads = p.0; cpus = p.1 ∷ [] })) same
      (booted-IsExclusive stack mpidr empty_ttbr0)
