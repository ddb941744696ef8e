-- ===== src/Sched/Pick.antt =====
-- `pick_next`: whom a core runs next.
use jungey_os.Prelude.{
  ℕ, zero, suc, ◌+◌, ◌%◌, ◌≤◌, ◌<◌, ◌≡◌, ◌≢◌, ◌⊎◌, inl, inr, refl, true, false, not, ◌&&◌, ◌||◌,
  Option, none, some, List, arith, length, get_elem?, ◌==◌, Bool-cases, Option-cases, if◌then◌else◌,
  ◌∙◌, ℕ_discrete, subst,
}
use jungey_os.Sched.{Thread, Cpu, eligible, eligible_at, runnable_at, scan, pick_next}

-- The core passes over the thread at `i`.
abbrev pub Passed : List Thread → Cpu → ℕ → Type 0
Passed threads cpu i =
    (t : Thread)
    → get_elem? threads i ≡ some t
    → (i ≢ cpu.idle)
    → (i ≢ cpu.current)
    → eligible t cpu.id ≡ false

-- The core may take the thread at `i`: another one than it runs, claimed by nobody.
pub record IsChoice (threads : List Thread) (cpu : Cpu) (i : ℕ) : Type 0 where
  pub thread : Thread
  pub at : get_elem? threads i ≡ some thread
  pub may : eligible thread cpu.id ≡ true
  pub not_idle : i ≢ cpu.idle
  pub not_current : i ≢ cpu.current

-- The place of the thread that a core looks at in round `step`.
abbrev pub place : List Thread → Cpu → ℕ → ℕ
place threads cpu step = (cpu.cursor + step) % length threads

module _ (threads : List Thread) (cpu : Cpu) where
  abbrev round : ℕ → Option ℕ → Option ℕ
  round i rest =
      if i == cpu.idle || i == cpu.current
      then rest
      else if eligible_at (get_elem? threads i) cpu.id
      then some i
      else rest

  round-found :
      (i : ℕ) (rest : Option ℕ) (t : Thread)
      → get_elem? threads i ≡ some t
      → (Passed threads cpu i × (round i rest ≡ rest))
        ⊎ (IsChoice threads cpu i × (round i rest ≡ some i))
  unfolding eligible_at
  round-found i rest t e = elim (Bool-cases (i == cpu.idle || i == cpu.current)) [
    | inl skip ↦ inl (λ t' f ni nc. absurd (ground arith), rw skip)
    | inr look ↦ elim (Bool-cases (eligible t cpu.id)) [
      | inl may ↦ inr (
        record {
          thread = t;
          at = e;
          may = may;
          not_idle = ground arith;
          not_current = ground arith;
        },
        rw (look, e, may),
      )
      | inr out ↦ inl (λ t' f _ _. let same : t ≡ t' = cc in rw (← same) out, rw (look, e, out))
    ]
  ]

  round-cases :
      (i : ℕ) (rest : Option ℕ)
      → (Passed threads cpu i × (round i rest ≡ rest))
        ⊎ (IsChoice threads cpu i × (round i rest ≡ some i))
  unfolding eligible_at
  round-cases i rest = elim (Option-cases (get_elem? threads i)) [
    | inl e ↦ inl (λ t f _ _. cc, rw e (ground arith))
    | inr (t, e) ↦ round-found i rest t e
  ]

  -- Round `k` is the first, from `step` on, that finds a choice.
  pub record FirstFrom (step end k : ℕ) : Type 0 where
    pub from : step ≤ k
    pub below : k < end
    pub choice : IsChoice threads cpu (place threads cpu k)
    pub before : (j : ℕ) → step ≤ j → j < k → Passed threads cpu (place threads cpu j)

  Passed-from :
      (step end : ℕ)
      → Passed threads cpu (place threads cpu step)
      → ((j : ℕ) → step + 1 ≤ j → j < end → Passed threads cpu (place threads cpu j))
      → (j : ℕ) → step ≤ j
      → j < end
      → Passed threads cpu (place threads cpu j)
  Passed-from step end p all j lo hi = elim (ℕ_discrete step j) [
    | yes e ↦ subst (λ (k : ℕ). Passed threads cpu (place threads cpu k)) e p
    | no ne ↦ all j (omega arith) hi
  ]

  scan-cases :
      (left step end : ℕ)
      → step + left ≡ end
      → ((scan threads cpu left step ≡ none)
          × ((j : ℕ) → step ≤ j → j < end → Passed threads cpu (place threads cpu j)))
        ⊎ ((k : ℕ) × (scan threads cpu left step ≡ some (place threads cpu k))
            × FirstFrom step end k)
  unfolding scan
  scan-cases zero step end e = inl (refl, λ j lo hi. absurd (omega arith))
  scan-cases (suc left) step end e =
      elim (round-cases (place threads cpu step) (scan threads cpu left (step + 1))) [
        | inr (c, r) ↦ inr (
          step,
          r,
          record {
            from = omega arith;
            below = omega arith;
            choice = c;
            before = λ j lo hi. absurd (omega arith);
          },
        )
        | inl (p, r) ↦ elim (scan-cases left (step + 1) end (omega arith)) [
          | inl (s, all) ↦ inl (r ∙ s, Passed-from step end p all)
          | inr (k, s, f) ↦ inr (
            k,
            r ∙ s,
            record {
              from = omega (arith, f.from);
              below = f.below;
              choice = f.choice;
              before = Passed-from step k p f.before;
            },
          )
        ]
      ]

  -- Round robin: `pick_next` takes the first thread after the core's cursor, in cyclic order, that is
  -- neither what the core runs nor its idle thread and that it may run. When the whole table has
  -- none, the core goes on with its thread if that is runnable and not the idle one, and otherwise
  -- idles.
  pub pick_next_lem :
      ((k : ℕ) × (pick_next threads cpu ≡ place threads cpu k) × FirstFrom 1 (1 + length threads) k)
      ⊎ (((j : ℕ) → 1 ≤ j → j < 1 + length threads → Passed threads cpu (place threads cpu j))
          × (pick_next threads cpu ≡ (
              if runnable_at (get_elem? threads cpu.current) && not (cpu.current == cpu.idle)
              then cpu.current
              else cpu.idle)))
  unfolding pick_next
  pick_next_lem = elim (scan-cases (length threads) 1 (1 + length threads) refl) [
    | inl (s, all) ↦ inr (all, rw (s, pick_next))
    | inr (k, s, f) ↦ inl (k, rw (s, pick_next), f)
  ]

  -- What a core runs next is a choice, or what it runs already, or its idle thread.
  pub pick_next-cases :
      IsChoice threads cpu (pick_next threads cpu)
      ⊎ (pick_next threads cpu ≡ cpu.current)
      ⊎ (pick_next threads cpu ≡ cpu.idle)
  pick_next-cases = elim pick_next_lem [
    | inl (k, e, f) ↦ inl (rw e f.choice)
    | inr (_, e) ↦ inr (ground arith)
  ]
