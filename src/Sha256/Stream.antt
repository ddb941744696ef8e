-- ===== src/Sha256/Stream.antt =====
-- `update` against hashing one byte at a time.
use jungey_os.Prelude.{
  ℕ, zero, suc, ◌+◌, ◌-◌, ◌%◌, ◌^◌, ◌≤◌, ◌<◌, ◌≡◌, refl, sym, ap, ap₂, ◌∙◌, min, List, [], ◌∷◌,
  ◌++◌, arith, ◌==◌, if◌then◌else◌, length, take, drop, length-append, length-take, length-drop,
  Bool-cases, inl, inr, ==_ne,
}
use jungey_os.Sha256.Rounds.{compress}
use jungey_os.Sha256.{Sha256, settle, absorb, update}

-- The chaining state, and the bytes of a block that is not full.
abbrev pub Core : Type 0
Core = List ℕ × List ℕ

abbrev pub core : Sha256 → Core
core h = (h.state, h.block)

abbrev pub close : Core → Core
close c = if length c.1 == 64 then (compress c.0 c.1, []) else c

unfoldable pub feed : Core → List ℕ → Core
feed c [] = c
feed c (x ∷ xs) = feed (close (c.0, c.1 ++ x ∷ [])) xs

append_nil : (xs : List ℕ) → xs ++ [] ≡ xs
append_nil [] = refl
append_nil (x ∷ xs) = ap (λ (ys : List ℕ). x ∷ ys) (append_nil xs)

append_assoc : (xs ys zs : List ℕ) → (xs ++ ys) ++ zs ≡ xs ++ (ys ++ zs)
append_assoc [] ys zs = refl
append_assoc (x ∷ xs) ys zs = ap (λ (l : List ℕ). x ∷ l) (append_assoc xs ys zs)

take-drop : (n : ℕ) (xs : List ℕ) → take n xs ++ drop n xs ≡ xs
take-drop zero xs = refl
take-drop (suc n) [] = refl
take-drop (suc n) (x ∷ xs) = ap (λ (ys : List ℕ). x ∷ ys) (take-drop n xs)

close-open : (c : Core) → length c.1 < 64 → close c ≡ c
close-open c h = rw (==_ne (length c.1) 64 (λ e. omega arith)) refl

pub length-close : (c : Core) → length c.1 ≤ 64 → length (close c).1 ≡ length c.1 % 64
length-close c h = elim (Bool-cases (length c.1 == 64)) [
  | inl full ↦ rw full (ground arith)
  | inr more ↦ rw more (ground arith)
]

pub feed-append : (xs : List ℕ) (c : Core) (ys : List ℕ) → feed (feed c xs) ys ≡ feed c (xs ++ ys)
unfolding feed
feed-append [] c ys = refl
feed-append (x ∷ xs) c ys = feed-append xs (close (c.0, c.1 ++ x ∷ [])) ys

-- Bytes that do not overfill the block go in at once.
pub feed-fits :
    (ys : List ℕ) (c : Core)
    → length c.1 < 64
    → length c.1 + length ys ≤ 64
    → feed c ys ≡ close (c.0, c.1 ++ ys)
unfolding feed
feed-fits [] c open_ fits = rw (append_nil c.1) (sym (close-open c open_))
feed-fits (y ∷ []) c open_ fits = refl
feed-fits (y ∷ z ∷ zs) c open_ fits =
    let one : length (c.1 ++ y ∷ []) ≡ length c.1 + 1 = length-append c.1 (y ∷ []) in
    let still : close (c.0, c.1 ++ y ∷ []) ≡ (c.0, c.1 ++ y ∷ []) = close-open _ (omega arith) in
    ap (λ (d : Core). feed d (z ∷ zs)) still
    ∙ feed-fits (z ∷ zs) (c.0, c.1 ++ y ∷ []) (omega arith) (omega arith)
    ∙ ap (λ (b : List ℕ). close (c.0, b)) (append_assoc c.1 (y ∷ []) (z ∷ zs))

core-settle : (h : Sha256) → core (settle h) ≡ close (core h)
core-settle h = elim (Bool-cases (length h.block == 64)) [
  | inl full ↦ rw full refl
  | inr more ↦ rw more refl
]

total-settle : (h : Sha256) → (settle h).total ≡ h.total
total-settle h = elim (Bool-cases (length h.block == 64)) [
  | inl full ↦ rw full refl
  | inr more ↦ rw more refl
]

record IsFed (h : Sha256) (xs : List ℕ) (h' : Sha256) : Type 0 where
  same : core h' ≡ feed (core h) xs
  uncounted : h'.total ≡ h.total

absorb_lem :
    (fuel : ℕ) (xs : List ℕ) (h : Sha256)
    → length h.block < 64
    → length xs ≤ fuel
    → IsFed h xs (absorb fuel h xs)
unfolding absorb feed
absorb_lem zero [] h open_ enough = record { same = refl; uncounted = refl }
absorb_lem zero (x ∷ xs) h open_ enough = absurd (omega arith)
absorb_lem (suc fuel) [] h open_ enough = record { same = refl; uncounted = refl }
absorb_lem (suc fuel) (x ∷ xs) h open_ enough =
    let n : ℕ = min (64 - length h.block) (suc (length xs)) in
    let chunk : List ℕ = take n (x ∷ xs) in
    let rest : List ℕ = drop n (x ∷ xs) in
    let g : Sha256 = settle (record h { block = h.block ++ chunk }) in
    let size : length chunk ≡ min n (suc (length xs)) = length-take n (x ∷ xs) in
    let left : length rest ≡ suc (length xs) - n = length-drop n (x ∷ xs) in
    let fed : core g ≡ feed (core h) chunk =
      core-settle (record h { block = h.block ++ chunk })
      ∙ sym (feed-fits chunk (core h) open_ (omega arith)) in
    let filled : Sha256 = record h { block = h.block ++ chunk } in
    let sum : length filled.block ≡ length h.block + length chunk = length-append h.block chunk in
    let settled : length g.block ≡ length filled.block % 64 =
      ap (λ (c : Core). length c.1) (core-settle filled)
      ∙ length-close (core filled) (omega arith) in
    let bound : length g.block < 64 = omega arith in
    let rec = absorb_lem fuel rest g bound (omega arith) in
    record {
      same =
          rec.same
          ∙ ap (λ (c : Core). feed c rest) fed
          ∙ feed-append chunk (core h) rest
          ∙ ap (feed (core h)) (take-drop n (x ∷ xs));
      uncounted = rec.uncounted ∙ total-settle (record h { block = h.block ++ chunk });
    }

pub update_lem :
    (h : Sha256) (xs : List ℕ)
    → length h.block < 64
    → (core (update h xs) ≡ feed (core h) xs)
      × ((update h xs).total ≡ (h.total + length xs) % 2 ^ 64)
unfolding update
update_lem h xs open_ =
    let f =
      absorb_lem (length xs) xs (record h { total = (h.total + length xs) % 2 ^ 64 }) open_
        (omega arith) in
    (f.same, f.uncounted)

pub length-feed :
    (xs : List ℕ) (c : Core)
    → length c.1 < 64
    → length (feed c xs).1 ≡ (length c.1 + length xs) % 64
unfolding feed
length-feed [] c open_ = omega arith
length-feed (x ∷ xs) c open_ =
    let one : length (c.1 ++ x ∷ []) ≡ length c.1 + 1 = length-append c.1 (x ∷ []) in
    let now : length (close (c.0, c.1 ++ x ∷ [])).1 ≡ length (c.1 ++ x ∷ []) % 64 =
      length-close (c.0, c.1 ++ x ∷ []) (omega arith) in
    omega (arith, length-feed xs (close (c.0, c.1 ++ x ∷ [])) (omega arith))

abbrev hash_of : Core → ℕ → Sha256
hash_of c total = record { state = c.0; block = c.1; total = total }

same_hash : (g h : Sha256) → core g ≡ core h → g.total ≡ h.total → g ≡ h
same_hash g h c t = ap₂ hash_of c t

-- A message may be hashed in any pieces: two updates are one with the bytes joined.
pub update-append :
    (h : Sha256) (xs ys : List ℕ)
    → length h.block < 64
    → update (update h xs) ys ≡ update h (xs ++ ys)
update-append h xs ys open_ =
    let first = update_lem h xs open_ in
    let size : length (update h xs).block ≡ (length h.block + length xs) % 64 =
      ap (λ (c : Core). length c.1) first.0 ∙ length-feed xs (core h) open_ in
    let second = update_lem (update h xs) ys (omega arith) in
    let both = update_lem h (xs ++ ys) open_ in
    same_hash _ _
      (second.0 ∙ ap (λ (c : Core). feed c ys) first.0 ∙ feed-append xs (core h) ys ∙ sym both.0)
      (omega (arith, second.1, first.1, both.1, length-append xs ys))
