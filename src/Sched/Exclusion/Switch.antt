-- ===== src/Sched/Exclusion/Switch.antt =====
-- `schedule` keeps the claims exclusive.
use jungey_os.Prelude.{
  ℕ, ◌≡◌, ◌≢◌, inl, inr, refl, sym, ap, ◌∙◌, true, none, some, arith, get_elem?, modify, set,
  get_elem?-modify, get_elem?-modify_self, get_elem?-same, set_all, ◌==◌, Bool-cases, subst,
  ne_of_test,
}
use jungey_os.Sched.{Thread, Cpu, claim, pick_next, schedule, switch_to, eligible}
use jungey_os.Sched.Pick.{IsChoice, pick_next-cases}
use jungey_os.Sched.Exclusion.Stays.{stays-Claimed, stays-Pins, stays-IsHeld}
use jungey_os.Sched.Exclusion.{Machine, Claimed, IsHeld, IsPinned, IsExclusive}

eligible-free :
    (t : Thread) (cpu_id : ℕ)
    → eligible t cpu_id ≡ true
    → (t.on_cpu ≡ none) × ((a : ℕ) → t.affinity ≡ some a → a ≡ cpu_id)
unfolding eligible
eligible-free t cpu_id h = (ground arith, λ a pin. ground arith)

module _ (m : Machine) (inv : IsExclusive m) (k : ℕ) (c : Cpu)
    (mine : get_elem? m.cpus k ≡ some c) where
  -- No other core has a claim on the thread at `next`, and it may run here.
  record IsFree (next : ℕ) : Type 0 where
    thread : Thread
    found : get_elem? m.threads next ≡ some thread
    free : (j : ℕ) → Claimed m.threads next j → j ≡ k
    pin : (a : ℕ) → thread.affinity ≡ some a → a ≡ k

  choice-IsFree : (next : ℕ) → IsChoice m.threads c next → IsFree next
  choice-IsFree next choice =
      let (unclaimed, pinned) = eligible-free choice.thread c.id choice.may in
      record {
        thread = choice.thread;
        found = choice.at;
        free = λ j (t, e, on). absurd (ground (arith, choice.at));
        pin = λ a e. pinned a e ∙ (inv.held k c mine).numbered;
      }

  idle-IsFree : IsFree c.idle
  idle-IsFree =
      let (t, e, pin) = (inv.held k c mine).idles in
      record {
        thread = t;
        found = e;
        free = λ j (u, e', on). sym (inv.pinned c.idle u k j e' (ground arith) on);
        pin = λ a pin'. ground arith;
      }

  next-IsFree : pick_next m.threads c ≢ c.current → IsFree (pick_next m.threads c)
  next-IsFree other = elim (pick_next-cases m.threads c) [
    | inl choice ↦ choice-IsFree _ choice
    | inr (inl same) ↦ absurd (other same)
    | inr (inr same) ↦ subst IsFree (sym same) idle-IsFree
  ]

  module _ (next : ℕ) (other : next ≢ c.current) (free : IsFree next) where
    mine_after : IsHeld (switch_to m.threads c next).0 k (switch_to m.threads c next).1
    unfolding switch_to
    mine_after =
        let h = inv.held k c mine in
        record {
          numbered = h.numbered;
          runs = (
            claim c.id free.thread,
            get_elem?-modify_self m.threads next (claim c.id) free.thread free.found,
            ap some h.numbered,
          );
          saves = λ p e.
              let from : c.current ≡ p = cc in
              subst (λ (q : ℕ). Claimed (modify m.threads next (claim c.id)) q k × (q ≢ next)) from
                (
                  stays-Claimed m.threads next (claim c.id) (λ t. refl) c.current k other h.runs,
                  λ same. other (sym same),
                );
          idles = stays-Pins m.threads next (claim c.id) (λ t. refl) c.idle k h.idles;
        }

    others_after :
        (j : ℕ) (d : Cpu)
        → get_elem? m.cpus j ≡ some d
        → j ≢ k
        → IsHeld (switch_to m.threads c next).0 j d
    unfolding switch_to
    others_after j d e ne =
        let h = inv.held j d e in
        stays-IsHeld m.threads next (claim c.id) (λ t. refl)
          (λ same. ne (free.free j (subst (λ (i : ℕ). Claimed m.threads i j) (sym same) h.runs)))
          (λ p e' same.
            ne (free.free j (subst (λ (i : ℕ). Claimed m.threads i j) (sym same) (h.saves p e').0)))
          h

    IsPinned-after : IsPinned (switch_to m.threads c next).0
    unfolding switch_to
    IsPinned-after i u a b e pin on = elim (get_elem?-modify m.threads next i (claim c.id) u e) [
      | inr (_, old) ↦ inv.pinned i u a b old pin on
      | inl (v, same, old, eq) ↦
          let one : free.thread ≡ v =
            get_elem?-same m.threads next i free.thread v same free.found old in
          ground (arith, free.pin a, (inv.held k c mine).numbered)
    ]

    switch_to-IsExclusive : IsExclusive (record {
      threads = (switch_to m.threads c next).0;
      cpus = set m.cpus k (switch_to m.threads c next).1;
    })
    switch_to-IsExclusive = record {
      held = set_all (IsHeld (switch_to m.threads c next).0) m.cpus k _ mine_after others_after;
      pinned = IsPinned-after;
    }

  pub schedule-IsExclusive : IsExclusive (record {
    threads = (schedule true m.threads c).0;
    cpus = set m.cpus k (schedule true m.threads c).1;
  })
  unfolding schedule
  schedule-IsExclusive = elim (Bool-cases (pick_next m.threads c == c.current)) [
    | inl stay ↦ rw stay (record {
      held = set_all (IsHeld m.threads) m.cpus k c (inv.held k c mine) (λ j d e _. inv.held j d e);
      pinned = inv.pinned;
    })
    | inr go ↦
        let other : pick_next m.threads c ≢ c.current = ne_of_test _ _ go in
        rw go (switch_to-IsExclusive (pick_next m.threads c) other (next-IsFree other))
  ]
