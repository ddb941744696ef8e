-- ===== src/Prelude/Find.antt =====
-- Iterator searches: `position`, `find`, and `iter_mut().find(..)` with a change to what it finds.
use Prim.Native.Nat.{ℕ, zero, suc, ◌<◌}
use mathlib.Core.Path.{◌≡◌, refl, ap}
use mathlib.Core.Logic.{◌⊎◌, inl, inr}
use mathlib.Core.Bool.{Bool, true, false}
use mathlib.Core.List.{List, [], ◌∷◌}
use mathlib.Core.Option.{Option, none, some}
use native.Mathlib.Omega.{arith}
use jungey_os.Prelude.Lists.{get_elem?, modify}
use jungey_os.Prelude.Tests.{if◌then◌else◌, Bool-cases}

module _ {ℓ} {A : Type ℓ} (p : A → Bool) where
  next : Option ℕ → Option ℕ
  next none = none
  next (some i) = some (suc i)

  unfoldable pub position : List A → Option ℕ
  unfolding next
  position [] = none
  position (x ∷ xs) = let rest = next (position xs) in if p x then some 0 else rest

  unfoldable pub find : List A → Option A
  find [] = none
  find (x ∷ xs) = let rest = find xs in if p x then some x else rest

  -- The change to the first that is found; the list as it was, if none is.
  unfoldable pub modify_first : (A → A) → List A → List A
  modify_first f [] = []
  modify_first f (x ∷ xs) = let rest = x ∷ modify_first f xs in if p x then f x ∷ xs else rest

  -- What a position found is: the first element that passes the test.
  pub record IsFirst (xs : List A) (i : ℕ) : Type ℓ where
    pub item : A
    pub at_place : get_elem? xs i ≡ some item
    pub passes : p item ≡ true
    pub first : (j : ℕ) (x : A) → j < i → get_elem? xs j ≡ some x → p x ≡ false

  abbrev pub NonePass : List A → Type ℓ
  NonePass xs = (j : ℕ) (x : A) → get_elem? xs j ≡ some x → p x ≡ false

  first_here : (x : A) (xs : List A) → p x ≡ true → IsFirst (x ∷ xs) 0
  first_here x xs h = record {
    item = x;
    at_place = refl;
    passes = h;
    first = λ j y lt e. elim lt [ ];
  }

  pass_none : (x : A) (xs : List A) → p x ≡ false → NonePass xs → NonePass (x ∷ xs)
  pass_none x xs h n zero y e = let e' : some x ≡ some y = e in cc
  pass_none x xs h n (suc j) y e = n j y e

  pass_before :
      (x : A) (xs : List A) (i : ℕ)
      → p x ≡ false
      → ((j : ℕ) (y : A) → j < i → get_elem? xs j ≡ some y → p y ≡ false)
      → (j : ℕ) (y : A) → j < suc i
      → get_elem? (x ∷ xs) j ≡ some y
      → p y ≡ false
  pass_before x xs i h n zero y lt e = let e' : some x ≡ some y = e in cc
  pass_before x xs i h n (suc j) y lt e = n j y (omega arith) e

  pass_later : (x : A) (xs : List A) (i : ℕ) → p x ≡ false → IsFirst xs i → IsFirst (x ∷ xs) (suc i)
  pass_later x xs i h f = record {
    item = f.item;
    at_place = f.at_place;
    passes = f.passes;
    first = λ j y lt e. pass_before x xs i h f.first j y lt e;
  }

  pub position_cases :
      (xs : List A)
      → ((position xs ≡ none) × NonePass xs) ⊎ ((i : ℕ) × (position xs ≡ some i) × IsFirst xs i)
  unfolding position
  position_cases [] = inl (refl, λ j x h. cc)
  position_cases (x ∷ xs) = elim (Bool-cases (p x)) [
    | inl yes' ↦ inr (0, rw yes' refl, first_here x xs yes')
    | inr no' ↦ elim (position_cases xs) [
      | inl (e, none') ↦ inl (rw (no', e) refl, pass_none x xs no' none')
      | inr (i, e, f) ↦ inr (suc i, rw (no', e) refl, pass_later x xs i no' f)
    ]
  ]

  -- `find` is what stands at the position.
  pub find_cases :
      (xs : List A)
      → ((find xs ≡ none) × NonePass xs)
        ⊎ ((i : ℕ) × (f : IsFirst xs i) × (find xs ≡ some f.item) × (position xs ≡ some i))
  unfolding find position pass_later first_here
  find_cases [] = inl (refl, λ j x h. cc)
  find_cases (x ∷ xs) = elim (Bool-cases (p x)) [
    | inl yes' ↦ inr (0, first_here x xs yes', rw yes' refl, rw yes' refl)
    | inr no' ↦ elim (find_cases xs) [
      | inl (e, none') ↦ inl (rw (no', e) refl, pass_none x xs no' none')
      | inr (i, f, e, at) ↦
          inr (suc i, pass_later x xs i no' f, rw (no', e) refl, rw (no', at) refl)
    ]
  ]

  -- The changed list is the old one, or it has a change at the first element that passes.
  pub modify_first_cases :
      (f : A → A) (xs : List A)
      → ((modify_first f xs ≡ xs) × NonePass xs)
        ⊎ ((i : ℕ) × IsFirst xs i × (modify_first f xs ≡ modify xs i f))
  unfolding modify_first
  modify_first_cases f [] = inl (refl, λ j x h. cc)
  modify_first_cases f (x ∷ xs) = elim (Bool-cases (p x)) [
    | inl yes' ↦ inr (0, first_here x xs yes', rw yes' refl)
    | inr no' ↦ elim (modify_first_cases f xs) [
      | inl (e, none') ↦ inl (rw no' (ap (◌∷◌ x) e), pass_none x xs no' none')
      | inr (i, g, e) ↦ inr (suc i, pass_later x xs i no' g, rw no' (ap (◌∷◌ x) e))
    ]
  ]
