-- ===== src/Sched/Exclusion/Finish.antt =====
-- `finish_switch` keeps the claims exclusive.
use jungey_os.Prelude.{
  ℕ, ◌≡◌, ◌≢◌, inl, inr, refl, sym, none, some, arith, get_elem?, modify, set, get_elem?-modify,
  set_all, Option-cases, subst,
}
use jungey_os.Sched.{Cpu, release, finish_switch}
use jungey_os.Sched.Exclusion.Stays.{claims-agree, stays-Claimed, stays-Pins, stays-IsHeld}
use jungey_os.Sched.Exclusion.{Machine, Claimed, IsHeld, IsPinned, IsExclusive}

module _ (m : Machine) (inv : IsExclusive m) (k : ℕ) (c : Cpu) (mine : get_elem? m.cpus k ≡ some c)
    (prev : ℕ) (saving : c.release_prev ≡ some prev) where
  abbrev done : Cpu
  done = record c { release_prev = none }

  mine_after : IsHeld (modify m.threads prev release) k done
  mine_after =
      let h = inv.held k c mine in
      record {
        numbered = h.numbered;
        runs =
            stays-Claimed m.threads prev release (λ t. refl) c.current k (h.saves prev saving).1
              h.runs;
        saves = λ p e. absurd (cc);
        idles = stays-Pins m.threads prev release (λ t. refl) c.idle k h.idles;
      }

  -- The claim that this core still had on `prev` rules every other core's out.
  others_after :
      (j : ℕ) (d : Cpu)
      → get_elem? m.cpus j ≡ some d
      → j ≢ k
      → IsHeld (modify m.threads prev release) j d
  others_after j d e ne =
      let h = inv.held j d e in
      let kept = ((inv.held k c mine).saves prev saving).0 in
      stays-IsHeld m.threads prev release (λ t. refl)
        (λ same. ne (
          claims-agree m.threads prev j k
            (subst (λ (i : ℕ). Claimed m.threads i j) (sym same) h.runs) kept))
        (λ p e' same. ne (
          claims-agree m.threads prev j k
            (subst (λ (i : ℕ). Claimed m.threads i j) (sym same) (h.saves p e').0) kept))
        h

  IsPinned-after : IsPinned (modify m.threads prev release)
  IsPinned-after i u a b e pin on = elim (get_elem?-modify m.threads prev i release u e) [
    | inr (_, old) ↦ inv.pinned i u a b old pin on
    | inl (v, same, old, eq) ↦ absurd (ground arith)
  ]

  released-IsExclusive :
      IsExclusive (record { threads = modify m.threads prev release; cpus = set m.cpus k done })
  released-IsExclusive = record {
    held = set_all (IsHeld (modify m.threads prev release)) m.cpus k done mine_after others_after;
    pinned = IsPinned-after;
  }

pub finish_switch-IsExclusive :
    (m : Machine) (k : ℕ) (c : Cpu)
    → IsExclusive m
    → get_elem? m.cpus k ≡ some c
    → IsExclusive (record {
      threads = (finish_switch m.threads c).0;
      cpus = set m.cpus k (finish_switch m.threads c).1;
    })
unfolding finish_switch
finish_switch-IsExclusive m k c inv mine = elim (Option-cases c.release_prev) [
  | inl idle ↦
      rw (idle, finish_switch)
        (record {
          held =
              set_all (IsHeld m.threads) m.cpus k c (inv.held k c mine) (λ j d e _. inv.held j d e);
          pinned = inv.pinned;
        })
  | inr (prev, saving) ↦
      rw (saving, finish_switch) (released-IsExclusive m inv k c mine prev saving)
]
