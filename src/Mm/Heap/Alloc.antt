-- ===== src/Mm/Heap/Alloc.antt =====
-- What `alloc` hands out.
use jungey_os.Prelude.{
  ℕ, ◌+◌, ◌-◌, ◌%◌, ◌^◌, ◌≤◌, ◌<◌, ◌≡◌, ◌⊎◌, inl, inr, refl, sym, ◌∙◌, ap, true, max, Option, none,
  some, List, [], ◌∷◌, arith, leb, Bool-cases, Option-cases, All, subst,
}
use jungey_os.Mm.Heap.{
  Block, Heap, align_up, fits, front_pad, unlink_fit, put_front, put_tail, insert, alloc,
  layout_size, min_align, block_size,
}
use jungey_os.Prelude.Bits.{bit_and-high}
use jungey_os.Mm.Heap.Free.{IsSorted, Within, IsFree, insert-IsFree}

-- Bytes below the first block are not free.
IsFree-from : (lo : ℕ) (bs : List Block) (x : ℕ) → IsSorted lo bs → IsFree bs x → lo ≤ x
IsFree-from lo [] x h f = elim f [ ]
IsFree-from lo (b ∷ bs) x h (inl w) = omega (arith, h.0)
IsFree-from lo (b ∷ bs) x h (inr f) = omega (arith, h.0, IsFree-from (b.addr + b.size) bs x h.2 f)

-- Rounding up the address of the block does not wrap.
abbrev pub IsLow : Block → Type 0
IsLow b = b.addr + 7 < 2 ^ 64

-- The block that fits, and the rest: the same free bytes, and none of the rest in the block.
record IsUnlinked (align size : ℕ) (bs : List Block) (c : Block) (rest : List Block) : Type 0 where
  fit : fits c align size ≡ true
  split : (x : ℕ) → (Within c x ⊎ IsFree rest x) → IsFree bs x
  apart : (x : ℕ) → Within c x → IsFree rest x → ⊥
  low : All IsLow bs → IsLow c

IsUnlinked-later :
    (align size lo : ℕ) (b c : Block) (bs rest : List Block)
    → IsSorted lo (b ∷ bs)
    → IsUnlinked align size bs c rest
    → IsUnlinked align size (b ∷ bs) c (b ∷ rest)
IsUnlinked-later align size lo b c bs rest h u = record {
  fit = u.fit;
  split = λ x. elim [
    | inl w ↦ inr (u.split x (inl w))
    | inr (inl w) ↦ inl w
    | inr (inr f) ↦ inr (u.split x (inr f))
  ];
  apart = λ x w. elim [
    | inl v ↦ omega (arith, IsFree-from (b.addr + b.size) bs x h.2 (u.split x (inl w)))
    | inr f ↦ u.apart x w f
  ];
  low = λ all. u.low all.1;
}

unlink_fit_lem :
    (align size lo : ℕ) (bs : List Block) (c : Block) (rest : List Block)
    → IsSorted lo bs
    → unlink_fit align size bs ≡ some (c, rest)
    → IsUnlinked align size bs c rest
unfolding unlink_fit
unlink_fit_lem align size lo [] c rest h e = absurd (cc)
unlink_fit_lem align size lo (b ∷ bs) c rest h e = elim (Bool-cases (fits b align size)) [
  | inl hit ↦
      let same : b ≡ c = ground arith in
      let same' : bs ≡ rest = ground arith in
      let here : IsUnlinked align size (b ∷ bs) b bs = record {
        fit = hit;
        split = λ x f. f;
        apart = λ x w f. omega (arith, IsFree-from (b.addr + b.size) bs x h.2 f);
        low = λ all. all.0;
      } in
      subst (λ (k : Block). IsUnlinked align size (b ∷ bs) k rest) same
        (subst (λ (r : List Block). IsUnlinked align size (b ∷ bs) b r) same' here)
  | inr miss ↦ elim (Option-cases (unlink_fit align size bs)) [
    | inl gone ↦ absurd (ground arith)
    | inr ((c', rest'), at) ↦
        let same : c' ≡ c = ground arith in
        let same' : b ∷ rest' ≡ rest = ground arith in
        let later =
          IsUnlinked-later align size lo b c' bs rest' h
            (unlink_fit_lem align size (b.addr + b.size) bs c' rest' h.2 at) in
        subst (λ (k : Block). IsUnlinked align size (b ∷ bs) k rest) same
          (subst (λ (r : List Block). IsUnlinked align size (b ∷ bs) c' r) same' later)
  ]
]

align_up_lem :
    (v : ℕ) → v + 7 < 2 ^ 64 → (v ≤ align_up v 8) × (align_up v 8 < v + 8) × (align_up v 8 % 8 ≡ 0)
unfolding align_up
align_up_lem v h = (
  omega (arith, bit_and-high 61 3 (v + 8 - 1) (omega arith)),
  omega (arith, bit_and-high 61 3 (v + 8 - 1) (omega arith)),
  omega (arith, bit_and-high 61 3 (v + 8 - 1) (omega arith)),
)

module _ (c : Block) (rest : List Block) (n : ℕ) (small : c.addr + 7 < 2 ^ 64)
    (fit : fits c 8 n ≡ true) where
  abbrev start : ℕ
  start = align_up c.addr 8

  fit_inside : (c.addr ≤ start) × (start + n ≤ c.addr + c.size) × (start % 8 ≡ 0)
  fit_inside = let a = align_up_lem c.addr small in (a.0, ground (arith, a.0), a.2)

  put_front-IsFree :
      (x : ℕ) → IsFree (put_front rest c 8) x → (Within c x × (x < start)) ⊎ IsFree rest x
  unfolding put_front
  put_front-IsFree x f = elim (Bool-cases (leb block_size (front_pad c 8))) [
    | inr none_ ↦ inr (rw none_ at f)
    | inl some_ ↦
        let g : IsFree (insert rest (record { addr = c.addr; size = front_pad c 8 })) x =
          rw some_ at f in
        elim ((insert-IsFree x rest (record { addr = c.addr; size = front_pad c 8 })).0 g) [
          | inl w ↦ inl ((w.0, omega (arith, fit_inside)), omega (arith, fit_inside))
          | inr r ↦ inr r
        ]
  ]

  put_tail-IsFree :
      (blocks : List Block) (x : ℕ)
      → IsFree (put_tail blocks c (start + n)) x
      → (Within c x × (start + n ≤ x)) ⊎ IsFree blocks x
  unfolding put_tail
  put_tail-IsFree blocks x f = elim (Bool-cases (leb block_size (c.addr + c.size - (start + n)))) [
    | inr none_ ↦ inr (rw none_ at f)
    | inl some_ ↦
        let b : Block = record { addr = start + n; size = c.addr + c.size - (start + n) } in
        let g : IsFree (insert blocks b) x = rw some_ at f in
        elim ((insert-IsFree x blocks b).0 g) [
          | inl w ↦ inl ((omega (arith, fit_inside), omega (arith, fit_inside)), w.0)
          | inr r ↦ inr r
        ]
  ]

-- What the client and the list have after the cut.
abbrev pub IsHanded : List Block → List Block → (start n : ℕ) → Type 0
IsHanded before after start n =
    (start % 8 ≡ 0)
    × ((x : ℕ) → start ≤ x → x < start + n → IsFree before x × (¬ IsFree after x))
    × ((x : ℕ) → IsFree after x → IsFree before x)

cut-IsHanded :
    (bs : List Block) (c : Block) (rest : List Block) (n : ℕ)
    → IsLow c
    → IsUnlinked 8 n bs c rest
    → IsHanded bs (put_tail (put_front rest c 8) c (align_up c.addr 8 + n)) (align_up c.addr 8) n
cut-IsHanded bs c rest n small u =
    let inside = fit_inside c rest n small u.fit in
    let where_ : (x : ℕ)
        → IsFree (put_tail (put_front rest c 8) c (align_up c.addr 8 + n)) x
        → (Within c x × ((align_up c.addr 8 + n ≤ x) ⊎ (x < align_up c.addr 8))) ⊎ IsFree rest x =
      λ x f. elim (put_tail-IsFree c rest n small u.fit (put_front rest c 8) x f) [
        | inl (w, past) ↦ inl (w, inl past)
        | inr g ↦ elim (put_front-IsFree c rest n small u.fit x g) [
          | inl (w, before) ↦ inl (w, inr before)
          | inr r ↦ inr r
        ]
      ] in
    (
      inside.2,
      λ x lo hi.
          let mine : Within c x = (omega (arith, inside), omega (arith, inside)) in
          (
            u.split x (inl mine),
            λ f. elim (where_ x f) [
              | inl (_, inl past) ↦ omega arith
              | inl (_, inr before) ↦ omega arith
              | inr r ↦ u.apart x mine r
            ],
          ),
      λ x f. elim (where_ x f) [ inl (w, _) ↦ u.split x (inl w) | inr r ↦ u.split x (inr r) ],
    )

-- What a successful `alloc` of alignment up to 8 hands out: a range aligned to 8 of the rounded size,
-- every byte of which was free and is free no longer; and no byte has become free.
pub alloc-IsFree :
    (h h' : Heap) (size align start_ : ℕ)
    → IsSorted 0 h.blocks
    → All IsLow h.blocks
    → align ≤ 8
    → alloc h size align ≡ (some start_, h')
    → IsHanded h.blocks h'.blocks start_ (layout_size size)
unfolding alloc
alloc-IsFree h h' size align start_ sorted small al e =
    let m : max align min_align ≡ 8 = omega arith in
    let n : ℕ = layout_size size in
    elim (Option-cases (unlink_fit 8 n h.blocks)) [
      | inl gone ↦
          let run : alloc h size align ≡ (none, h) = rw (m, gone, alloc) refl in
          let e' = sym run ∙ e in absurd (cc (ap (λ (r : Option ℕ × Heap). r.0) e'))
      | inr ((c, rest), at) ↦
          let u = unlink_fit_lem 8 n 0 h.blocks c rest sorted at in
          let after : List Block = put_tail (put_front rest c 8) c (align_up c.addr 8 + n) in
          let run : alloc h size align ≡ (
            some (align_up c.addr 8),
            record h { blocks = after; allocated = h.allocated + n },
          ) =
            rw (m, at, alloc, m) refl in
          let e' = sym run ∙ e in
          let got : some (align_up c.addr 8) ≡ some start_ = ap (λ (r : Option ℕ × Heap). r.0) e' in
          let same : align_up c.addr 8 ≡ start_ = cc in
          let list : after ≡ h'.blocks = ap (λ (r : Option ℕ × Heap). r.1.blocks) e' in
          subst (λ (s : ℕ). IsHanded h.blocks h'.blocks s n) same
            (subst (λ (bs : List Block). IsHanded h.blocks bs (align_up c.addr 8) n) list
              (cut-IsHanded h.blocks c rest n (u.low small) u))
    ]
