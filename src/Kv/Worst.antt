-- ===== src/Kv/Worst.antt =====
-- kernel/src/kv.rs, `make_room`: the block that is chosen.
use jungey_os.Prelude.{
  ℕ, zero, suc, ◌+◌, ◌≤◌, ◌≡◌, ◌⊎◌, inl, inr, refl, sym, ◌∙◌, ap, arith, Bool-cases, Option, none,
  some, List, [], ◌∷◌, get_elem?, ltb, ltb→lt,
}
use jungey_os.Kv.{
  Block, resident, spilling, spilled, Session, Victim, eviction_score, worse, scan_blocks,
  scan_sessions,
}

-- The best so far has this score at least.
abbrev pub AtLeast : Option Victim → ℕ → Type 0
AtLeast none n = ⊥
AtLeast (some v) n = n ≤ v.score

add_zero : (n : ℕ) → n + 0 ≡ n
add_zero n = omega arith

zero_add : (n : ℕ) → 0 + n ≡ n
zero_add n = omega arith

add_suc : (n m : ℕ) → n + suc m ≡ n + 1 + m
add_suc n m = omega arith

worse_new : (v : Victim) (best : Option Victim) → AtLeast (worse v best) v.score
worse_new v none = omega arith
worse_new v (some best) = elim (Bool-cases (ltb best.score v.score)) [
  | inl yes' ↦ rw yes' (omega arith)
  | inr no' ↦ rw no' (ground arith)
]

worse_old : (v : Victim) (best : Option Victim) (n : ℕ) → AtLeast best n → AtLeast (worse v best) n
worse_old v none n h = elim h [ ]
worse_old v (some best) n h = elim (Bool-cases (ltb best.score v.score)) [
  | inl yes' ↦ let lt = ltb→lt best.score v.score yes' in rw yes' (omega arith)
  | inr no' ↦ rw no' h
]

worse_source :
    (v : Victim) (best : Option Victim) (w : Victim)
    → worse v best ≡ some w
    → (best ≡ some w) ⊎ (v ≡ w)
worse_source v none w h = inr cc
worse_source v (some best) w h = elim (Bool-cases (ltb best.score v.score)) [
  | inl yes' ↦ let e : some v ≡ some w = rw yes' at h in inr cc
  | inr no' ↦ let e : some best ≡ some w = rw no' at h in inl e
]

scan_blocks_old :
    (now si bi : ℕ) (bs : List Block) (best : Option Victim) (n : ℕ)
    → AtLeast best n
    → AtLeast (scan_blocks now si bi bs best) n
unfolding scan_blocks
scan_blocks_old now si bi [] best n h = h
scan_blocks_old now si bi (resident frame used_tick ∷ bs) best n h =
    scan_blocks_old now si (bi + 1) bs _ n (worse_old _ best n h)
scan_blocks_old now si bi (spilling frame sector ∷ bs) best n h =
    scan_blocks_old now si (bi + 1) bs best n h
scan_blocks_old now si bi (spilled sector ∷ bs) best n h =
    scan_blocks_old now si (bi + 1) bs best n h

scan_blocks_all :
    (now si bi : ℕ) (bs : List Block) (best : Option Victim) (j frame used : ℕ)
    → get_elem? bs j ≡ some (resident frame used)
    → AtLeast (scan_blocks now si bi bs best) (eviction_score (bi + j) used now)
unfolding scan_blocks
scan_blocks_all now si bi [] best j frame used h = cc
scan_blocks_all now si bi (resident f u ∷ bs) best zero frame used h =
    let e : some (resident f u) ≡ some (resident frame used) = h in
    let same : u ≡ used = cc in
    scan_blocks_old now si (bi + 1) bs _ (eviction_score (bi + 0) used now)
      (rw (add_zero bi, ← same) (worse_new _ best))
scan_blocks_all now si bi (spilling f s ∷ bs) best zero frame used h = cc
scan_blocks_all now si bi (spilled s ∷ bs) best zero frame used h = cc
scan_blocks_all now si bi (resident f u ∷ bs) best (suc j) frame used h =
    rw (add_suc bi j) (scan_blocks_all now si (bi + 1) bs _ j frame used h)
scan_blocks_all now si bi (spilling f s ∷ bs) best (suc j) frame used h =
    rw (add_suc bi j) (scan_blocks_all now si (bi + 1) bs best j frame used h)
scan_blocks_all now si bi (spilled s ∷ bs) best (suc j) frame used h =
    rw (add_suc bi j) (scan_blocks_all now si (bi + 1) bs best j frame used h)

abbrev pub victim_at : (now si bi frame used : ℕ) → Victim
victim_at now si bi frame used = record {
  si = si;
  bi = bi;
  score = eviction_score bi used now;
  frame = frame;
}

-- A victim that is one of these blocks.
abbrev IsOf : (now si bi : ℕ) → List Block → Victim → Type 0
IsOf now si bi bs v =
    (j : ℕ) × (frame : ℕ) × (used : ℕ) × (get_elem? bs j ≡ some (resident frame used))
    × (victim_at now si (bi + j) frame used ≡ v)

IsOf-later :
    (now si bi : ℕ) (b : Block) (bs : List Block) (v : Victim)
    → IsOf now si (bi + 1) bs v
    → IsOf now si bi (b ∷ bs) v
IsOf-later now si bi b bs v (j, frame, used, at, e) =
    (suc j, frame, used, at, ap (λ i. victim_at now si i frame used) (add_suc bi j) ∙ e)

scan_blocks_source :
    (now si bi : ℕ) (bs : List Block) (best : Option Victim) (v : Victim)
    → scan_blocks now si bi bs best ≡ some v
    → (best ≡ some v) ⊎ IsOf now si bi bs v
unfolding scan_blocks
scan_blocks_source now si bi [] best v h = inl h
scan_blocks_source now si bi (resident frame used ∷ bs) best v h =
    elim (scan_blocks_source now si (bi + 1) bs _ v h) [
      | inl e ↦ elim (worse_source _ best v e) [
        | inl old ↦ inl old
        | inr new ↦
            inr (0, frame, used, refl, ap (λ i. victim_at now si i frame used) (add_zero bi) ∙ new)
      ]
      | inr of ↦ inr (IsOf-later now si bi _ bs v of)
    ]
scan_blocks_source now si bi (spilling frame sector ∷ bs) best v h =
    elim (scan_blocks_source now si (bi + 1) bs best v h) [
      | inl old ↦ inl old
      | inr of ↦ inr (IsOf-later now si bi _ bs v of)
    ]
scan_blocks_source now si bi (spilled sector ∷ bs) best v h =
    elim (scan_blocks_source now si (bi + 1) bs best v h) [
      | inl old ↦ inl old
      | inr of ↦ inr (IsOf-later now si bi _ bs v of)
    ]

scan_sessions_old :
    (now si : ℕ) (ss : List Session) (best : Option Victim) (n : ℕ)
    → AtLeast best n
    → AtLeast (scan_sessions now si ss best) n
unfolding scan_sessions
scan_sessions_old now si [] best n h = h
scan_sessions_old now si (s ∷ ss) best n h =
    scan_sessions_old now (si + 1) ss _ n (scan_blocks_old now si 0 s.blocks best n h)

pub scan_sessions_all :
    (now si : ℕ) (ss : List Session) (best : Option Victim) (i j frame used : ℕ) (s : Session)
    → get_elem? ss i ≡ some s
    → get_elem? s.blocks j ≡ some (resident frame used)
    → AtLeast (scan_sessions now si ss best) (eviction_score j used now)
unfolding scan_sessions
scan_sessions_all now si [] best i j frame used s h g = cc
scan_sessions_all now si (t ∷ ts) best zero j frame used s h g =
    let e : some t ≡ some s = h in
    let same : t ≡ s = cc in
    let g' : get_elem? t.blocks j ≡ some (resident frame used) = rw same g in
    let first : AtLeast (scan_blocks now si 0 t.blocks best) (eviction_score j used now) =
      rw (sym (zero_add j)) (scan_blocks_all now si 0 t.blocks best j frame used g') in
    scan_sessions_old now (si + 1) ts _ _ first
scan_sessions_all now si (t ∷ ts) best (suc i) j frame used s h g =
    scan_sessions_all now (si + 1) ts _ i j frame used s h g

abbrev IsAmong : (now si : ℕ) → List Session → Victim → Type 0
IsAmong now si ss v =
    (i : ℕ) × (s : Session) × (get_elem? ss i ≡ some s) × IsOf now (si + i) 0 s.blocks v

scan_sessions_source :
    (now si : ℕ) (ss : List Session) (best : Option Victim) (v : Victim)
    → scan_sessions now si ss best ≡ some v
    → (best ≡ some v) ⊎ IsAmong now si ss v
unfolding scan_sessions
scan_sessions_source now si [] best v h = inl h
scan_sessions_source now si (s ∷ ss) best v h = elim (scan_sessions_source now (si + 1) ss _ v h) [
  | inl e ↦ elim (scan_blocks_source now si 0 s.blocks best v e) [
    | inl old ↦ inl old
    | inr of ↦ inr (0, s, refl, rw (add_zero si) of)
  ]
  | inr (i, t, at, of) ↦ inr (suc i, t, at, rw (add_suc si i) of)
]

-- The same from the first session on.
pub scan_sessions_at :
    (now : ℕ) (ss : List Session) (v : Victim)
    → scan_sessions now 0 ss none ≡ some v
    → (i : ℕ) × (j : ℕ) × (frame : ℕ) × (used : ℕ) × (s : Session) × (get_elem? ss i ≡ some s)
      × (get_elem? s.blocks j ≡ some (resident frame used))
      × (v ≡ victim_at now i j frame used)
scan_sessions_at now ss v h = elim (scan_sessions_source now 0 ss none v h) [
  | inl old ↦ cc
  | inr (i, s, at, (j, frame, used, at_block, e)) ↦ (
    i,
    j,
    frame,
    used,
    s,
    at,
    at_block,
    sym e
        ∙ ap (λ a. victim_at now a (0 + j) frame used) (zero_add i)
        ∙ ap (λ b. victim_at now i b frame used) (zero_add j),
  )
]
