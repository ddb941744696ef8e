-- ===== src/Wm/Topmost.antt =====
-- user/src/wm.rs: a tap belongs to the topmost window under it.
use jungey_os.Prelude.{
  ℕ, zero, suc, ◌-◌, ◌≤◌, ◌≡◌, ◌⊎◌, inl, inr, refl, ap, Bool, true, false, not, ◌&&◌, ◌||◌, Option,
  none, some, List, [], ◌∷◌, get_elem?, arith, Bool-cases, ltb,
}
use jungey_os.Wm.{Window, Wm, contains, hit_from, hit}

abbrev pub covers : (x y : ℕ) → Window → Bool
covers x y w = w.used && contains w.rect x y

abbrev pub NoneCovers : (x y : ℕ) → List Window → Type 0
NoneCovers x y ws = (j : ℕ) (v : Window) → get_elem? ws j ≡ some v → covers x y v ≡ false

abbrev pub Highest : (x y : ℕ) → List Window → Window → Type 0
Highest x y ws b = (j : ℕ) (v : Window) → get_elem? ws j ≡ some v → covers x y v ≡ true → v.z ≤ b.z

-- What the loop has made of the candidate that it started with.
abbrev Found : (x y : ℕ) → List Window → Option Window → Option Window → Type 0
Found x y ws best r =
    ((r ≡ none) × (best ≡ none) × NoneCovers x y ws)
    ⊎ ((b : Window) × (r ≡ some b)
        × ((best ≡ some b) ⊎ ((i : ℕ) × (get_elem? ws i ≡ some b) × (covers x y b ≡ true)))
        × Highest x y ws b
        × ((c : Window) → best ≡ some c → c.z ≤ b.z))

both :
    (a b : Bool)
    → (((a && b) ≡ true) × ((not a || not b) ≡ false))
      ⊎ (((a && b) ≡ false) × ((not a || not b) ≡ true))
both true true = inl (refl, refl)
both true false = inr (refl, refl)
both false true = inr (refl, refl)
both false false = inr (refl, refl)

module _ (x y : ℕ) where
  none_skipped :
      (w : Window) (ws : List Window)
      → covers x y w ≡ false
      → NoneCovers x y ws
      → NoneCovers x y (w ∷ ws)
  none_skipped w ws h n zero v e = let e' : some w ≡ some v = e in cc
  none_skipped w ws h n (suc j) v e = n j v e

  top_skipped :
      (w : Window) (ws : List Window) (b : Window)
      → (covers x y w ≡ true → w.z ≤ b.z)
      → Highest x y ws b
      → Highest x y (w ∷ ws) b
  top_skipped w ws b h n zero v e c =
      let e' : some w ≡ some v = e in let s : w ≡ v = cc in rw (← s) (h (rw s c))
  top_skipped w ws b h n (suc j) v e c = n j v e c

  skipped :
      (w : Window) (ws : List Window) (best r : Option Window)
      → covers x y w ≡ false
      → Found x y ws best r
      → Found x y (w ∷ ws) best r
  skipped w ws best r h (inl (e, f, n)) = inl (e, f, none_skipped w ws h n)
  skipped w ws best r h (inr (b, e, inl from, top, old)) =
      inr (b, e, inl from, top_skipped w ws b (λ c. cc) top, old)
  skipped w ws best r h (inr (b, e, inr (i, at, c), top, old)) =
      inr (b, e, inr (suc i, at, c), top_skipped w ws b (λ d. cc) top, old)

  -- The window takes the candidate's place, or there was none.
  taken :
      (w : Window) (ws : List Window) (best r : Option Window)
      → covers x y w ≡ true
      → ((c : Window) → best ≡ some c → c.z ≤ w.z)
      → Found x y ws (some w) r
      → Found x y (w ∷ ws) best r
  taken w ws best r h over (inl (e, f, n)) = cc
  taken w ws best r h over (inr (b, e, inl from, top, old)) =
      let s : w ≡ b = cc in
      inr (
        b,
        e,
        inr (0, ap some s, rw (← s) h),
        top_skipped w ws b (λ c. old w refl) top,
        λ c d. rw (← s) (over c d),
      )
  taken w ws best r h over (inr (b, e, inr (i, at, k), top, old)) =
      let up = old w refl in
      inr (
        b,
        e,
        inr (suc i, at, k),
        top_skipped w ws b (λ c. up) top,
        λ c d. let o = over c d in omega arith,
      )

  -- The candidate stays, since the window does not lie above it.
  passed :
      (w : Window) (ws : List Window) (b : Window) (r : Option Window)
      → w.z ≤ b.z
      → Found x y ws (some b) r
      → Found x y (w ∷ ws) (some b) r
  passed w ws b r h (inl (e, f, n)) = cc
  passed w ws b r h (inr (t, e, inl from, top, old)) =
      let o = old b refl in inr (t, e, inl from, top_skipped w ws t (λ c. omega arith) top, old)
  passed w ws b r h (inr (t, e, inr (i, at, c), top, old)) =
      let o = old b refl in
      inr (t, e, inr (suc i, at, c), top_skipped w ws t (λ d. omega arith) top, old)

  -- The test of the loop.
  covers_cases :
      (w : Window)
      → ((covers x y w ≡ true) × ((not w.used || not (contains w.rect x y)) ≡ false))
        ⊎ ((covers x y w ≡ false) × ((not w.used || not (contains w.rect x y)) ≡ true))
  covers_cases w = both w.used (contains w.rect x y)

  hit_from_lem :
      (ws : List Window) (best : Option Window) → Found x y ws best (hit_from x y ws best)
  unfolding hit_from
  hit_from_lem [] none = inl (refl, refl, λ j v e. cc)
  hit_from_lem [] (some b) =
      inr (b, refl, inl refl, λ j v e c. cc, λ c e. let k : b ≡ c = cc in rw k (omega arith))
  hit_from_lem (w ∷ ws) none = elim (covers_cases w) [
    | inl (c, t) ↦ rw t (taken w ws none _ c (λ d e. cc) (hit_from_lem ws (some w)))
    | inr (c, t) ↦ rw t (skipped w ws none _ c (hit_from_lem ws none))
  ]
  hit_from_lem (w ∷ ws) (some b) = elim (covers_cases w) [
    | inr (c, t) ↦ rw t (skipped w ws (some b) _ c (hit_from_lem ws (some b)))
    | inl (c, t) ↦ elim (Bool-cases (ltb b.z w.z)) [
      | inl over ↦
          rw (t, over)
            (taken w ws (some b) _ c (λ d e. let k : b ≡ d = cc in rw (← k) (ground arith))
              (hit_from_lem ws (some w)))
      | inr under ↦ rw (t, under) (passed w ws b _ (ground arith) (hit_from_lem ws (some b)))
    ]
  ]

-- A tap hits nothing exactly where no window in use covers the point. Otherwise it goes to the owner
-- and the id of a window that is in use and covers the point, and that no other such window lies
-- above, with the point measured from the window's corner.
pub hit_lem :
    (m : Wm) (x y : ℕ)
    → ((hit m x y ≡ none) × NoneCovers x y m.windows)
      ⊎ ((i : ℕ) × (w : Window) × (get_elem? m.windows i ≡ some w)
          × (covers x y w ≡ true)
          × Highest x y m.windows w
          × (hit m x y
              ≡ some (record { owner = w.owner; id = w.id; dx = x - w.rect.x; dy = y - w.rect.y })))
unfolding hit
hit_lem m x y = elim (hit_from_lem x y m.windows none) [
  | inl (e, f, n) ↦ inl (rw e refl, n)
  | inr (b, e, inl from, top, old) ↦ cc
  | inr (b, e, inr (i, at, c), top, old) ↦ inr (i, b, at, c, top, rw e refl)
]
