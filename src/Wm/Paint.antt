-- ===== src/Wm/Paint.antt =====
-- user/src/wm.rs: the order of painting.
use jungey_os.Prelude.{ℕ, ◌≤◌, inl, inr, List, [], ◌∷◌, ◌++◌, arith, Bool-cases, ltb}
use mathlib.Core.List.{
  reverse, Perm, perm_middle, perm-append_left_iff, reverse_perm, reverse-cons, append-nil,
}
use mathlib.Core.List.Perm
use jungey_os.Wm.{Window, used_windows, sink, sort_onto, stacked}

-- Each window lies below every window that the list has before it.
abbrev AllBelow : ℕ → List Window → Type 0
AllBelow z [] = Unit
AllBelow z (w ∷ ws) = (w.z ≤ z) × AllBelow z ws

abbrev Falling : List Window → Type 0
Falling [] = Unit
Falling (w ∷ ws) = AllBelow w.z ws × Falling ws

below_trans : (y z : ℕ) (ws : List Window) → y ≤ z → AllBelow y ws → AllBelow z ws
below_trans y z [] h b = tt
below_trans y z (w ∷ ws) h b = (omega arith, below_trans y z ws h b.1)

sink-below :
    (z : ℕ) (w : Window) (ws : List Window) → w.z ≤ z → AllBelow z ws → AllBelow z (sink w ws)
unfolding sink
sink-below z w [] h b = (h, tt)
sink-below z w (p ∷ ps) h b = elim (Bool-cases (ltb w.z p.z)) [
  | inl lower ↦ rw lower (b.0, sink-below z w ps h b.1)
  | inr higher ↦ rw higher (h, b)
]

sink-Falling : (w : Window) (ws : List Window) → Falling ws → Falling (sink w ws)
unfolding sink
sink-Falling w [] f = (tt, tt)
sink-Falling w (p ∷ ps) f = elim (Bool-cases (ltb w.z p.z)) [
  | inl lower ↦ rw lower (sink-below p.z w ps (ground arith) f.0, sink-Falling w ps f.1)
  | inr higher ↦ rw higher ((ground arith, below_trans p.z w.z ps (ground arith) f.0), f)
]

sort_onto-Falling : (done rest : List Window) → Falling done → Falling (sort_onto done rest)
unfolding sort_onto
sort_onto-Falling done [] f = f
sort_onto-Falling done (w ∷ ws) f = sort_onto-Falling (sink w done) ws (sink-Falling w done f)

sink-perm : (w : Window) (ws : List Window) → Perm (sink w ws) (w ∷ ws)
unfolding sink
sink-perm w [] = Perm.refl (w ∷ [])
sink-perm w (p ∷ ps) = elim (Bool-cases (ltb w.z p.z)) [
  | inl lower ↦ rw lower (Perm.trans (Perm.cons p (sink-perm w ps)) (Perm.swap w p ps))
  | inr higher ↦ rw higher (Perm.refl (w ∷ p ∷ ps))
]

sort_onto-perm : (done rest : List Window) → Perm (sort_onto done rest) (rest ++ done)
unfolding sort_onto
sort_onto-perm done [] = Perm.refl done
sort_onto-perm done (w ∷ ws) =
    Perm.trans (sort_onto-perm (sink w done) ws)
      (Perm.trans ((perm-append_left_iff ws).1 (sink-perm w done)) (perm_middle ws done))

-- The windows of a list stand in the order of their height.
abbrev pub AllAbove : ℕ → List Window → Type 0
AllAbove z [] = Unit
AllAbove z (w ∷ ws) = (z ≤ w.z) × AllAbove z ws

abbrev pub Rising : List Window → Type 0
Rising [] = Unit
Rising (w ∷ ws) = AllAbove w.z ws × Rising ws

AllAbove-snoc :
    (z : ℕ) (ws : List Window) (w : Window) → AllAbove z ws → z ≤ w.z → AllAbove z (ws ++ w ∷ [])
AllAbove-snoc z [] w a h = (h, tt)
AllAbove-snoc z (v ∷ vs) w a h = (a.0, AllAbove-snoc z vs w a.1 h)

Rising-snoc : (ws : List Window) (w : Window) → Rising ws → AllBelow w.z ws → Rising (ws ++ w ∷ [])
Rising-snoc [] w r b = (tt, tt)
Rising-snoc (v ∷ vs) w r b = (AllAbove-snoc v.z vs w r.0 b.0, Rising-snoc vs w r.1 b.1)

AllBelow-snoc :
    (z : ℕ) (ws : List Window) (w : Window) → AllBelow z ws → w.z ≤ z → AllBelow z (ws ++ w ∷ [])
AllBelow-snoc z [] w a h = (h, tt)
AllBelow-snoc z (v ∷ vs) w a h = (a.0, AllBelow-snoc z vs w a.1 h)

AllBelow-reverse : (z : ℕ) (ws : List Window) → AllBelow z ws → AllBelow z (reverse ws)
AllBelow-reverse z [] b = tt
AllBelow-reverse z (w ∷ ws) b =
    rw (reverse-cons w ws) (AllBelow-snoc z (reverse ws) w (AllBelow-reverse z ws b.1) b.0)

Rising-reverse : (ws : List Window) → Falling ws → Rising (reverse ws)
Rising-reverse [] f = tt
Rising-reverse (w ∷ ws) f =
    rw (reverse-cons w ws)
      (Rising-snoc (reverse ws) w (Rising-reverse ws f.1) (AllBelow-reverse w.z ws f.0))

-- What is painted are the windows in use, each as often as it is there, and a window never before one
-- that lies below it.
pub stacked_lem : (ws : List Window) → Rising (stacked ws) × Perm (stacked ws) (used_windows ws)
unfolding stacked
stacked_lem ws = (
  Rising-reverse (sort_onto [] (used_windows ws)) (sort_onto-Falling [] (used_windows ws) tt),
  Perm.trans (reverse_perm (sort_onto [] (used_windows ws)))
      (rw append-nil at (sort_onto-perm [] (used_windows ws))),
)
