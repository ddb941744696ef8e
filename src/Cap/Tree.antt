-- ===== src/Cap/Tree.antt =====
-- Walking the ledger towards the root: `is_descendant` decides descent, and `chain` lists the path.
use jungey_os.Prelude.{
  ℕ, zero, suc, ◌-◌, ◌≤◌, ◌<◌, ◌≡◌, ◌≢◌, ◌⊎◌, inl, inr, refl, ap, Bool, true, false, Option, none,
  some, List, [], ◌∷◌, arith, length, get_elem?, get_elem?-lt, get_elem?-past, get_elem?-same,
  get_elem?-some, take, ◌==◌, Bool-cases, Option-cases, ==_iff, ne_of_test, dec_lt, subst,
}
use jungey_os.Cap.{Provenance, climb, is_descendant, chain}
use jungey_os.Cap.Ledger.{IsLedger, Within}

-- `id` is the ancestor, or was derived from it in one or more steps.
pub data Descends (l : List Provenance) (ancestor : ℕ) : ℕ → Type 0 where
  here : {i : ℕ} → suc i ≡ ancestor → Descends l ancestor (suc i)
  up :
      {i : ℕ} (p : Provenance)
      → get_elem? l i ≡ some p
      → Descends l ancestor p.parent
      → Descends l ancestor (suc i)

-- A search that ends, with the answer to `P`.
abbrev pub Decides {ℓ} : Option Bool → Type ℓ → Type ℓ
Decides o P = ((o ≡ some true) × P) ⊎ ((o ≡ some false) × (¬ P))

not-Descends-unminted :
    {l : List Provenance} {ancestor i : ℕ}
    → suc i ≢ ancestor
    → get_elem? l i ≡ none
    → ¬ Descends l ancestor (suc i)
not-Descends-unminted ne e (here same) = ne same
not-Descends-unminted ne e (up p f d) = cc

Descends-parent :
    {l : List Provenance} {ancestor i : ℕ} (p : Provenance)
    → suc i ≢ ancestor
    → get_elem? l i ≡ some p
    → Descends l ancestor (suc i)
    → Descends l ancestor p.parent
Descends-parent p ne e (here same) = absurd (ne same)
Descends-parent {l} {ancestor} p ne e (up q f d) =
    let same : q.parent ≡ p.parent = cc in subst (Descends l ancestor) same d

Decides_iff {ℓ κ} :
    {P : Type ℓ} {Q : Type κ} {o : Option Bool} → (P → Q) → (Q → P) → Decides o P → Decides o Q
Decides_iff f g (inl (e, p)) = inl (e, f p)
Decides_iff f g (inr (e, np)) = inr (e, λ q. np (g q))

not-Descends-zero : {l : List Provenance} {ancestor : ℕ} → ¬ Descends l ancestor zero
not-Descends-zero d = elim d [ ]

module _ (l : List Provenance) (ancestor : ℕ) (ledger : IsLedger l) where
  -- Each step goes to an older entry, so the number itself is fuel enough.
  climb-Decides :
      (fuel cur : ℕ) → cur < fuel → Decides (climb fuel l cur ancestor) (Descends l ancestor cur)
  unfolding climb
  climb-Decides zero cur h = absurd (omega arith)
  climb-Decides (suc fuel) zero h = inr (refl, λ d. not-Descends-zero d)
  climb-Decides (suc fuel) (suc i) h = elim (Bool-cases (suc i == ancestor)) [
    | inl same ↦ rw same (inl (refl, here ((==_iff (suc i) ancestor).0 same)))
    | inr other ↦ elim (Option-cases (get_elem? l i)) [
      | inl g ↦
          rw (other, g) (inr (refl, not-Descends-unminted (ne_of_test (suc i) ancestor other) g))
      | inr (p, g) ↦
          rw (other, g)
            (Decides_iff (up p g) (Descends-parent p (ne_of_test (suc i) ancestor other) g)
              (climb-Decides fuel p.parent (omega (arith, ledger.earlier i p g))))
    ]
  ]

  climb-unminted :
      (fuel i : ℕ)
      → length l ≤ i
      → Decides (climb (suc fuel) l (suc i) ancestor) (Descends l ancestor (suc i))
  unfolding climb
  climb-unminted fuel i h = elim (Bool-cases (suc i == ancestor)) [
    | inl same ↦ rw same (inl (refl, here ((==_iff (suc i) ancestor).0 same)))
    | inr other ↦
        let g : get_elem? l i ≡ none = get_elem?-past l i h in
        rw (other, g) (inr (refl, not-Descends-unminted (ne_of_test (suc i) ancestor other) g))
  ]

  -- On a ledger, `is_descendant` ends for every pair of numbers, and its answer is descent: `true`
  -- when the first was derived from the second (or is it), `false` when it was not.
  pub is_descendant-Decides :
      (id : ℕ) → Decides (is_descendant l id ancestor) (Descends l ancestor id)
  unfolding is_descendant
  is_descendant-Decides zero = climb-Decides (suc (length l)) zero (omega arith)
  is_descendant-Decides (suc i) = elim (dec_lt i (length l)) [
    | yes h ↦ climb-Decides (suc (length l)) (suc i) (omega arith)
    | no h ↦ climb-unminted (length l) i (omega arith)
  ]

Descends-suc :
    {l : List Provenance} {ancestor id : ℕ} → Descends l ancestor id → (i : ℕ) × (id ≡ suc i)
Descends-suc (here {i = k} same) = (k, refl)
Descends-suc (up {i = k} p found d) = (k, refl)

-- Authority only shrinks: a descendant has no right that its ancestor was not minted with.
pub Descends-Within :
    {l : List Provenance} {ancestor id : ℕ}
    → IsLedger l
    → Descends l ancestor id
    → (i j : ℕ) (p q : Provenance) → id ≡ suc i
    → get_elem? l i ≡ some p
    → ancestor ≡ suc j
    → get_elem? l j ≡ some q
    → Within p.rights q.rights
Descends-Within {l} ledger (here {i = k} same) i j p q e f a g r h =
    let one : p ≡ q = get_elem?-same l i j p q (omega arith) f g in rw (← one) h
Descends-Within {l} ledger (up {i = k} m found d) i j p q e f a g r h =
    let (t, at) = Descends-suc d in
    let (n, g') =
      get_elem?-some l t (omega (arith, ledger.earlier k m found, get_elem?-lt l k m found)) in
    Descends-Within ledger d t j n q at g' a g r (
      ledger.narrower i t p n f
        (omega (
          arith,
          at,
          ap (λ (o : Provenance). o.parent) (get_elem?-same l i k p m (omega arith) f found),
        ))
        g' r h)

-- The whole path of delegation from `id` to a root, nearest first.
abbrev pub IsFullPath : List Provenance → ℕ → List (ℕ × Provenance) → Type 0
IsFullPath l id [] = id ≡ 0
IsFullPath l id ((j, p) ∷ rest) =
    (id ≡ j) × (0 < j) × (get_elem? l (j - 1) ≡ some p) × IsFullPath l p.parent rest

chain-zero : (l : List Provenance) (room : ℕ) → chain l room 0 ≡ []
unfolding chain
chain-zero l zero = refl
chain-zero l (suc room) = refl

take-nil : (room : ℕ) → take {A = ℕ × Provenance} room [] ≡ []
take-nil zero = refl
take-nil (suc room) = refl

abbrev HasPath : List Provenance → ℕ → Type 0
HasPath l id =
    (full : List (ℕ × Provenance)) × IsFullPath l id full
    × ((room : ℕ) → chain l room id ≡ take room full)

module _ (l : List Provenance) (ledger : IsLedger l) where
  extend-HasPath :
      (i : ℕ) (p : Provenance) → get_elem? l i ≡ some p → HasPath l p.parent → HasPath l (suc i)
  unfolding chain
  extend-HasPath i p g (full, path, taken) = (
    (suc i, p) ∷ full,
    (refl, omega arith, let e : suc i - 1 ≡ i = omega arith in rw e g, path),
    elim [ zero ↦ refl | suc room ↦ rw (g, chain, taken room) ],
  )

  path_below : (bound id : ℕ) → id < bound → id ≤ length l → HasPath l id
  path_below zero id h k = absurd (omega arith)
  path_below (suc bound) zero h k = ([], refl, λ room. rw (chain-zero l room, take-nil room))
  path_below (suc bound) (suc i) h k =
      let (p, g) = get_elem?-some l i (omega arith) in
      extend-HasPath i p g (
        path_below bound p.parent (omega (arith, ledger.earlier i p g))
          (omega (arith, ledger.earlier i p g)))

  -- `chain` lists the first `room` links of the one path from a minted capability to a root: every
  -- link is the ledger's entry, each is followed by its parent, and a long enough buffer gets all.
  pub chain_lem :
      (id : ℕ)
      → id ≤ length l
      → (full : List (ℕ × Provenance)) × IsFullPath l id full
        × ((room : ℕ) → chain l room id ≡ take room full)
  chain_lem id h = path_below (suc id) id (omega arith) h
