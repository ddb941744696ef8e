-- ===== src/Wm/Raise.antt =====
-- user/src/wm.rs: raising a window brings the taps to it.
use jungey_os.Prelude.{
  ℕ, ◌+◌, ◌-◌, ◌≡◌, inl, inr, ap, ap₂, ◌∙◌, true, some, get_elem?, set, arith, get_elem?-set,
  get_elem?-set_self, get_elem?-same, get_elem?-lt, ==_self, Bool,
}
use jungey_os.Wm.{Window, Wm, dirty, raise, hit}
use jungey_os.Wm.Owners.{with_window_lem}
use jungey_os.Wm.Topmost.{covers, hit_lem}
use jungey_os.Wm.Stack.{IsStack, IsWm}

-- The hit once the window in a slot has been put above all others.
lifted :
    (m : Wm) (n i x y : ℕ) (w : Window)
    → IsStack m.windows n
    → get_elem? m.windows i ≡ some w
    → covers x y w ≡ true
    → (m' : Wm) → m'.windows ≡ set m.windows i (record w { z = n })
    → hit m' x y
      ≡ some (record { owner = w.owner; id = w.id; dx = x - w.rect.x; dy = y - w.rect.y })
lifted m n i x y w s at c m' e =
    let top : Window = record w { z = n } in
    let placed : get_elem? m'.windows i ≡ some top =
      rw e (get_elem?-set_self m.windows i top (get_elem?-lt m.windows i w at)) in
    elim (hit_lem m' x y) [
      | inl (f, none') ↦ let g = none' i top placed in cc
      | inr (k, b, there, covered, highest, got) ↦
          let over = highest i top placed c in
          elim (get_elem?-set m.windows i k top b (rw e at there)) [
            | inl (same, new) ↦ rw (← new) at got
            | inr (other, old) ↦ let lower = s.below k b old (ground arith) in absurd (omega arith)
          ]
    ]

-- A window that its owner raises gets every tap that it covers.
pub hit-raise :
    (m : Wm) (i x y : ℕ) (w : Window)
    → IsWm m
    → get_elem? m.windows i ≡ some w
    → covers x y w ≡ true
    → hit (raise m w.owner w.id).1 x y
      ≡ some (record { owner = w.owner; id = w.id; dx = x - w.rect.x; dy = y - w.rect.y })
unfolding raise dirty
hit-raise m i x y w v at c =
    elim (with_window_lem (record m { next_z = m.next_z + 1 }) w.owner w.id
      (λ u. record u { z = m.next_z })) [
        | inl (e, none') ↦ let f = none' i w at in ground (arith, ==_self w.owner, ==_self w.id)
        | inr t ↦
            let same : t.slot ≡ i =
              v.1.unique t.slot i t.before w t.at_slot at t.in_use (ground arith) t.owned t.named in
            let held : t.before ≡ w =
              get_elem?-same m.windows t.slot i t.before w same t.at_slot at in
            lifted m m.next_z i x y w v.1 at c _ (
              ap (λ (r : Bool × Wm). r.1.windows) t.done
              ∙ ap₂ (λ (j : ℕ) (u : Window). set m.windows j (record u { z = m.next_z })) same held)
      ]
