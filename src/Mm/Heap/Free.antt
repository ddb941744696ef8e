-- ===== src/Mm/Heap/Free.antt =====
-- The free list: sorted, without overlaps, and which bytes are free.
use jungey_os.Prelude.{
  ℕ, ◌+◌, ◌≤◌, ◌<◌, ◌≡◌, ◌⊎◌, ◌↔◌, inl, inr, false, List, [], ◌∷◌, arith, ltb, ◌==◌, Bool-cases,
  All, subst, ==_iff, dec_lt,
}
use jungey_os.Mm.Heap.{Block, merge_forward, merge_backward, goes_on, insert}

-- Ascending from `lo`, no block overlapping the next, each large enough for its header.
abbrev pub IsSorted : ℕ → List Block → Type 0
IsSorted lo [] = Unit
IsSorted lo (b ∷ bs) = (lo ≤ b.addr) × (16 ≤ b.size) × IsSorted (b.addr + b.size) bs

abbrev pub Within : Block → ℕ → Type 0
Within b x = (b.addr ≤ x) × (x < b.addr + b.size)

-- The byte at `x` is free.
abbrev pub IsFree : List Block → ℕ → Type 0
IsFree [] x = ⊥
IsFree (b ∷ bs) x = Within b x ⊎ IsFree bs x

-- The block shares no byte with any of the list.
abbrev pub Apart : Block → Block → Type 0
Apart b c = (b.addr + b.size ≤ c.addr) ⊎ (c.addr + c.size ≤ b.addr)

merge_forward-IsSorted :
    (b : Block) (bs : List Block)
    → 16 ≤ b.size
    → IsSorted (b.addr + b.size) bs
    → IsSorted b.addr (merge_forward b bs)
unfolding merge_forward
merge_forward-IsSorted b [] size h = (omega arith, size, tt)
merge_forward-IsSorted b (c ∷ cs) size h = elim (Bool-cases (b.addr + b.size == c.addr)) [
  | inl meets ↦ rw meets (
    omega arith,
    omega (arith, h.1),
    subst (λ (m : ℕ). IsSorted m cs) (omega (arith, (==_iff (b.addr + b.size) c.addr).0 meets)) h.2,
  )
  | inr gap ↦ rw gap (omega arith, size, h)
]

merge_backward-IsSorted :
    (lo : ℕ) (p : Block) (bs : List Block)
    → lo ≤ p.addr
    → 16 ≤ p.size
    → IsSorted (p.addr + p.size) bs
    → IsSorted lo (merge_backward p bs)
unfolding merge_backward
merge_backward-IsSorted lo p [] low size h = (low, size, tt)
merge_backward-IsSorted lo p (c ∷ cs) low size h = elim (Bool-cases (p.addr + p.size == c.addr)) [
  | inl meets ↦ rw meets (
    low,
    omega arith,
    subst (λ (m : ℕ). IsSorted m cs) (omega (arith, (==_iff (p.addr + p.size) c.addr).0 meets)) h.2,
  )
  | inr gap ↦ rw gap (low, size, h)
]

-- The list from the first block on that does not lie before `b` begins after `b` ends.
after_block :
    (b : Block) (lo : ℕ) (rest : List Block)
    → IsSorted lo rest
    → All (Apart b) rest
    → 16 ≤ b.size
    → goes_on rest b.addr ≡ false
    → IsSorted (b.addr + b.size) rest
unfolding goes_on
after_block b lo [] h apart size stop = tt
after_block b lo (c ∷ cs) h apart size stop =
    (elim apart.0 [ inl below ↦ below | inr above ↦ absurd (ground (arith, h.1)) ], h.1, h.2)

IsSorted-lower : (lo mid : ℕ) (bs : List Block) → lo ≤ mid → IsSorted mid bs → IsSorted lo bs
IsSorted-lower lo mid [] low h = tt
IsSorted-lower lo mid (c ∷ cs) low h = (omega (arith, h.0), h.1, h.2)

-- Giving a block back keeps the free list sorted and without overlaps: the block must be large enough for a
-- header and share no byte with a block of the list.
pub insert-IsSorted :
    (bs : List Block) (lo : ℕ) (b : Block)
    → IsSorted lo bs
    → lo ≤ b.addr
    → 16 ≤ b.size
    → All (Apart b) bs
    → IsSorted lo (insert bs b)
unfolding insert
insert-IsSorted [] lo b h low size apart =
    IsSorted-lower lo b.addr (merge_forward b []) low (merge_forward-IsSorted b [] size tt)
insert-IsSorted (p ∷ rest) lo b h low size apart = elim (Bool-cases (ltb p.addr b.addr)) [
  | inr behind ↦
      let all : IsSorted (b.addr + b.size) (p ∷ rest) =
        (elim apart.0 [ inl below ↦ below | inr above ↦ absurd (ground (arith, h.1)) ], h.1, h.2) in
      rw (behind, insert)
        (IsSorted-lower lo b.addr (merge_forward b (p ∷ rest)) low
          (merge_forward-IsSorted b (p ∷ rest) size all))
  | inl before ↦
      let ends : p.addr + p.size ≤ b.addr = elim apart.0 [
        | inl below ↦ absurd (ground arith)
        | inr above ↦ above
      ] in
      elim (Bool-cases (goes_on rest b.addr)) [
        | inl on ↦
            rw (before, on, insert)
              (h.0, h.1, insert-IsSorted rest (p.addr + p.size) b h.2 ends size apart.1)
        | inr stop ↦
            let tail =
              merge_forward-IsSorted b rest size
                (after_block b (p.addr + p.size) rest h.2 apart.1 size stop) in
            rw (before, stop, insert)
              (merge_backward-IsSorted lo p (merge_forward b rest) h.0 h.1
                (IsSorted-lower (p.addr + p.size) b.addr (merge_forward b rest) ends tail))
      ]
]

module _ (x : ℕ) where
  joined :
      (b c : Block) (cs : List Block)
      → b.addr + b.size ≡ c.addr
      → (Within (record b { size = b.size + c.size }) x ⊎ IsFree cs x)
        ↔ (Within b x ⊎ Within c x ⊎ IsFree cs x)
  joined b c cs e = (
    elim [
      | inr rest ↦ inr (inr rest)
      | inl w ↦ elim (dec_lt x (b.addr + b.size)) [
        | yes first ↦ inl (w.0, first)
        | no second ↦ inr (inl (omega arith, omega arith))
      ]
    ],
    elim [
      | inl first ↦ inl (first.0, omega arith)
      | inr (inl second) ↦ inl (omega arith, omega arith)
      | inr (inr rest) ↦ inr rest
    ],
  )

  under :
      (p b : Block) (bs bs' : List Block)
      → IsFree bs' x ↔ (Within b x ⊎ IsFree bs x)
      → (Within p x ⊎ IsFree bs' x) ↔ (Within b x ⊎ Within p x ⊎ IsFree bs x)
  under p b bs bs' i = (
    elim [ inl w ↦ inr (inl w) | inr f ↦ elim (i.0 f) [ inl w ↦ inl w | inr g ↦ inr (inr g) ] ],
    elim [ inl w ↦ inr (i.1 (inl w)) | inr (inl w) ↦ inl w | inr (inr g) ↦ inr (i.1 (inr g)) ],
  )

  merge_forward-IsFree :
      (b : Block) (bs : List Block) → IsFree (merge_forward b bs) x ↔ (Within b x ⊎ IsFree bs x)
  unfolding merge_forward
  merge_forward-IsFree b [] = (λ h. h, λ h. h)
  merge_forward-IsFree b (c ∷ cs) = elim (Bool-cases (b.addr + b.size == c.addr)) [
    | inr gap ↦ rw gap (λ h. h, λ h. h)
    | inl meets ↦ rw meets (joined b c cs ((==_iff (b.addr + b.size) c.addr).0 meets))
  ]

  merge_backward-IsFree :
      (p : Block) (bs : List Block) → IsFree (merge_backward p bs) x ↔ (Within p x ⊎ IsFree bs x)
  unfolding merge_backward
  merge_backward-IsFree p [] = (λ h. h, λ h. h)
  merge_backward-IsFree p (c ∷ cs) = elim (Bool-cases (p.addr + p.size == c.addr)) [
    | inr gap ↦ rw gap (λ h. h, λ h. h)
    | inl meets ↦ rw meets (joined p c cs ((==_iff (p.addr + p.size) c.addr).0 meets))
  ]

  -- The bytes that are free after a block is given back are those of the block and those that were free
  -- before: merging loses none and adds none.
  pub insert-IsFree :
      (bs : List Block) (b : Block) → IsFree (insert bs b) x ↔ (Within b x ⊎ IsFree bs x)
  unfolding insert
  insert-IsFree [] b = merge_forward-IsFree b []
  insert-IsFree (p ∷ rest) b = elim (Bool-cases (ltb p.addr b.addr)) [
    | inr behind ↦ rw (behind, insert) (merge_forward-IsFree b (p ∷ rest))
    | inl before ↦ elim (Bool-cases (goes_on rest b.addr)) [
      | inl on ↦ rw (before, on, insert) (under p b rest (insert rest b) (insert-IsFree rest b))
      | inr stop ↦
          let back = merge_backward-IsFree p (merge_forward b rest) in
          let both = under p b rest (merge_forward b rest) (merge_forward-IsFree b rest) in
          rw (before, stop, insert) (λ h. both.0 (back.0 h), λ h. back.1 (both.1 h))
    ]
  ]
