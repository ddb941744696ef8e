-- ===== src/Prelude/Lists.antt =====
-- Lists measured and indexed by native numbers, under the library's names.
use Prim.Native.Nat.{ℕ, zero, suc, ◌+◌, ◌-◌, ◌<◌, ◌≤◌, min}
use mathlib.Core.Path.{◌≡◌, refl, ap, sym, ◌∙◌}
use mathlib.Core.Logic.{◌≢◌, ◌⊎◌, inl, inr}
use mathlib.Core.List.{List, [], ◌∷◌, ◌++◌, map}
use mathlib.Core.Option.{Option, none, some}
use native.Mathlib.Omega.{arith}
use native.Mathlib.Decide.{ℕ_discrete}

module _ {ℓ} {A : Type ℓ} where
  abbrev pub length : List A → ℕ
  length [] = 0
  length (x ∷ xs) = suc (length xs)

  abbrev pub get_elem? : List A → ℕ → Option A
  get_elem? [] i = none
  get_elem? (x ∷ xs) zero = some x
  get_elem? (x ∷ xs) (suc i) = get_elem? xs i

  -- A write out of bounds changes nothing.
  abbrev pub set : List A → ℕ → A → List A
  set [] i v = []
  set (x ∷ xs) zero v = v ∷ xs
  set (x ∷ xs) (suc i) v = x ∷ set xs i v

  abbrev pub take : ℕ → List A → List A
  take zero xs = []
  take (suc n) [] = []
  take (suc n) (x ∷ xs) = x ∷ take n xs

  abbrev pub drop : ℕ → List A → List A
  drop zero xs = xs
  drop (suc n) [] = []
  drop (suc n) (x ∷ xs) = drop n xs

  abbrev pub replicate : ℕ → A → List A
  replicate zero a = []
  replicate (suc n) a = a ∷ replicate n a

  abbrev pub All {κ} : (A → Type κ) → List A → Type κ
  All P [] = Unit
  All P (x ∷ xs) = P x × All P xs

module _ {ℓ} {A : Type ℓ} where
  pub length-append : (xs ys : List A) → length (xs ++ ys) ≡ length xs + length ys
  length-append [] ys = omega arith
  length-append (x ∷ xs) ys = omega (arith, length-append xs ys)

  pub length-set : (xs : List A) (i : ℕ) (v : A) → length (set xs i v) ≡ length xs
  length-set [] i v = refl
  length-set (x ∷ xs) zero v = refl
  length-set (x ∷ xs) (suc i) v = ap suc (length-set xs i v)

  pub length-take : (n : ℕ) (xs : List A) → length (take n xs) ≡ min n (length xs)
  length-take zero xs = omega arith
  length-take (suc n) [] = omega arith
  length-take (suc n) (x ∷ xs) = omega (arith, length-take n xs)

  pub length-drop : (n : ℕ) (xs : List A) → length (drop n xs) ≡ length xs - n
  length-drop zero xs = omega arith
  length-drop (suc n) [] = omega arith
  length-drop (suc n) (x ∷ xs) = omega (arith, length-drop n xs)

  pub length-replicate : (n : ℕ) (a : A) → length (replicate n a) ≡ n
  length-replicate zero a = refl
  length-replicate (suc n) a = ap suc (length-replicate n a)

  pub get_elem?-set_self :
      (xs : List A) (i : ℕ) (v : A) → i < length xs → get_elem? (set xs i v) i ≡ some v
  get_elem?-set_self [] i v h = elim h [ ]
  get_elem?-set_self (x ∷ xs) zero v h = refl
  get_elem?-set_self (x ∷ xs) (suc i) v h = get_elem?-set_self xs i v (omega arith)

  pub get_elem?-set_ne :
      (xs : List A) (i j : ℕ) (v : A) → i ≢ j → get_elem? (set xs i v) j ≡ get_elem? xs j
  get_elem?-set_ne [] i j v h = refl
  get_elem?-set_ne (x ∷ xs) zero zero v h = absurd (h refl)
  get_elem?-set_ne (x ∷ xs) zero (suc j) v h = refl
  get_elem?-set_ne (x ∷ xs) (suc i) zero v h = refl
  get_elem?-set_ne (x ∷ xs) (suc i) (suc j) v h = get_elem?-set_ne xs i j v (λ e. h (ap suc e))

  pub get_elem?-append_old :
      (xs ys : List A) (i : ℕ) → i < length xs → get_elem? (xs ++ ys) i ≡ get_elem? xs i
  get_elem?-append_old [] ys i h = elim h [ ]
  get_elem?-append_old (x ∷ xs) ys zero h = refl
  get_elem?-append_old (x ∷ xs) ys (suc i) h = get_elem?-append_old xs ys i (omega arith)

  pub get_elem?-append_last :
      (xs : List A) (y : A) (i : ℕ) → i ≡ length xs → get_elem? (xs ++ y ∷ []) i ≡ some y
  get_elem?-append_last [] y zero h = refl
  get_elem?-append_last [] y (suc i) h = absurd (omega arith)
  get_elem?-append_last (x ∷ xs) y zero h = absurd (omega arith)
  get_elem?-append_last (x ∷ xs) y (suc i) h = get_elem?-append_last xs y i (omega arith)

  pub get_elem?-past : (xs : List A) (i : ℕ) → length xs ≤ i → get_elem? xs i ≡ none
  get_elem?-past [] i h = refl
  get_elem?-past (x ∷ xs) zero h = absurd (omega arith)
  get_elem?-past (x ∷ xs) (suc i) h = get_elem?-past xs i (omega arith)

  pub get_elem?-lt : (xs : List A) (i : ℕ) (v : A) → get_elem? xs i ≡ some v → i < length xs
  get_elem?-lt [] i v h = cc
  get_elem?-lt (x ∷ xs) zero v h = omega arith
  get_elem?-lt (x ∷ xs) (suc i) v h = omega (arith, get_elem?-lt xs i v h)

  pub get_elem?-some : (xs : List A) (i : ℕ) → i < length xs → (v : A) × (get_elem? xs i ≡ some v)
  get_elem?-some [] i h = elim h [ ]
  get_elem?-some (x ∷ xs) zero h = (x, refl)
  get_elem?-some (x ∷ xs) (suc i) h = get_elem?-some xs i (omega arith)

  -- What stands in a list with one more entry: an old entry, or the new one at the end.
  pub get_elem?-snoc :
      (xs : List A) (y : A) (i : ℕ) (v : A)
      → get_elem? (xs ++ y ∷ []) i ≡ some v
      → ((i < length xs) × (get_elem? xs i ≡ some v)) ⊎ ((i ≡ length xs) × (y ≡ v))
  get_elem?-snoc [] y zero v h = inr (refl, cc)
  get_elem?-snoc [] y (suc i) v h = cc
  get_elem?-snoc (x ∷ xs) y zero v h = inl (omega arith, h)
  get_elem?-snoc (x ∷ xs) y (suc i) v h = elim (get_elem?-snoc xs y i v h) [
    | inl old ↦ inl (omega arith, old.1)
    | inr new ↦ inr (omega arith, new.1)
  ]

  -- One index holds one entry.
  pub get_elem?-same :
      (xs : List A) (i j : ℕ) (v w : A)
      → i ≡ j
      → get_elem? xs i ≡ some v
      → get_elem? xs j ≡ some w
      → v ≡ w
  get_elem?-same xs i j v w e f g = let g' : get_elem? xs i ≡ some w = rw e g in cc

module _ {ℓ κ} {A : Type ℓ} {B : Type κ} where
  pub get_elem?-map :
      (f : A → B) (xs : List A) (i : ℕ) (v : A)
      → get_elem? xs i ≡ some v
      → get_elem? (map f xs) i ≡ some (f v)
  get_elem?-map f [] i v h = cc
  get_elem?-map f (x ∷ xs) zero v h =
      ap (λ (o : Option A). elim o [ none ↦ none | some w ↦ some (f w) ]) h
  get_elem?-map f (x ∷ xs) (suc i) v h = get_elem?-map f xs i v h

  pub get_elem?-map-none :
      (f : A → B) (xs : List A) (i : ℕ) → get_elem? xs i ≡ none → get_elem? (map f xs) i ≡ none
  get_elem?-map-none f [] i h = refl
  get_elem?-map-none f (x ∷ xs) zero h = cc
  get_elem?-map-none f (x ∷ xs) (suc i) h = get_elem?-map-none f xs i h

module _ {ℓ} {A : Type ℓ} where
  -- xs[i] = f(xs[i]); out of range nothing changes.
  abbrev pub modify : List A → ℕ → (A → A) → List A
  modify [] i f = []
  modify (x ∷ xs) zero f = f x ∷ xs
  modify (x ∷ xs) (suc i) f = x ∷ modify xs i f

  pub get_elem?-modify_self :
      (xs : List A) (i : ℕ) (f : A → A) (v : A)
      → get_elem? xs i ≡ some v
      → get_elem? (modify xs i f) i ≡ some (f v)
  get_elem?-modify_self [] i f v h = cc
  get_elem?-modify_self (x ∷ xs) zero f v h =
      ap (λ (o : Option A). elim o [ none ↦ none | some w ↦ some (f w) ]) h
  get_elem?-modify_self (x ∷ xs) (suc i) f v h = get_elem?-modify_self xs i f v h

  pub get_elem?-modify_ne :
      (xs : List A) (i j : ℕ) (f : A → A) → i ≢ j → get_elem? (modify xs i f) j ≡ get_elem? xs j
  get_elem?-modify_ne [] i j f h = refl
  get_elem?-modify_ne (x ∷ xs) zero zero f h = absurd (h refl)
  get_elem?-modify_ne (x ∷ xs) zero (suc j) f h = refl
  get_elem?-modify_ne (x ∷ xs) (suc i) zero f h = refl
  get_elem?-modify_ne (x ∷ xs) (suc i) (suc j) f h =
      get_elem?-modify_ne xs i j f (λ e. h (ap suc e))

  pub length-modify : (xs : List A) (i : ℕ) (f : A → A) → length (modify xs i f) ≡ length xs
  length-modify [] i f = refl
  length-modify (x ∷ xs) zero f = refl
  length-modify (x ∷ xs) (suc i) f = ap suc (length-modify xs i f)

  pub get_elem?-modify_at :
      (xs : List A) (i j : ℕ) (f : A → A) (v : A)
      → i ≡ j
      → get_elem? xs j ≡ some v
      → get_elem? (modify xs i f) j ≡ some (f v)
  get_elem?-modify_at xs i j f v e h = rw e (get_elem?-modify_self xs j f v h)

  modify_inv :
      (xs : List A) (i : ℕ) (f : A → A) (w : A)
      → get_elem? (modify xs i f) i ≡ some w
      → (v : A) × (get_elem? xs i ≡ some v) × (f v ≡ w)
  modify_inv [] i f w h = cc
  modify_inv (x ∷ xs) zero f w h = (x, refl, cc)
  modify_inv (x ∷ xs) (suc i) f w h = modify_inv xs i f w h

  -- What stands in a modified list: the modified entry, or an entry that was there.
  pub get_elem?-modify :
      (xs : List A) (i j : ℕ) (f : A → A) (w : A)
      → get_elem? (modify xs i f) j ≡ some w
      → ((v : A) × (i ≡ j) × (get_elem? xs j ≡ some v) × (f v ≡ w))
        ⊎ ((i ≢ j) × (get_elem? xs j ≡ some w))
  get_elem?-modify xs i j f w h = elim (ℕ_discrete i j) [
    | yes e ↦
        let h' : get_elem? (modify xs j f) j ≡ some w = rw e at h in
        let (v, found, eq) = modify_inv xs j f w h' in inl (v, e, found, eq)
    | no ne ↦ inr (ne, sym (get_elem?-modify_ne xs i j f ne) ∙ h)
  ]

  -- What stands in a list after a write: the new value, or what was there.
  pub get_elem?-set :
      (xs : List A) (i j : ℕ) (v w : A)
      → get_elem? (set xs i v) j ≡ some w
      → ((i ≡ j) × (v ≡ w)) ⊎ ((i ≢ j) × (get_elem? xs j ≡ some w))
  get_elem?-set [] i j v w h = cc
  get_elem?-set (x ∷ xs) zero zero v w h = inl (refl, cc)
  get_elem?-set (x ∷ xs) zero (suc j) v w h = inr (omega arith, h)
  get_elem?-set (x ∷ xs) (suc i) zero v w h = inr (omega arith, h)
  get_elem?-set (x ∷ xs) (suc i) (suc j) v w h = elim (get_elem?-set xs i j v w h) [
    | inl (e, f) ↦ inl (ap suc e, f)
    | inr (n, f) ↦ inr (omega arith, f)
  ]

module _ {ℓ κ} {A : Type ℓ} (P : ℕ → A → Type κ) where
  -- A property of every place, after a write to one.
  pub set_all :
      (xs : List A) (i : ℕ) (v : A)
      → P i v
      → ((j : ℕ) (w : A) → get_elem? xs j ≡ some w → j ≢ i → P j w)
      → (j : ℕ) (w : A) → get_elem? (set xs i v) j ≡ some w
      → P j w
  set_all xs i v new old j w h = elim (get_elem?-set xs i j v w h) [
    | inl (e, f) ↦ rw (← e, ← f) new
    | inr (n, f) ↦ old j w f (λ e. n (sym e))
  ]

module _ {ℓ} {A : Type ℓ} where
  pub get_elem?-replicate :
      (n : ℕ) (x : A) (i : ℕ) (v : A) → get_elem? (replicate n x) i ≡ some v → x ≡ v
  get_elem?-replicate zero x i v h = cc
  get_elem?-replicate (suc n) x zero v h = let e : some x ≡ some v = h in cc
  get_elem?-replicate (suc n) x (suc i) v h = get_elem?-replicate n x i v h
