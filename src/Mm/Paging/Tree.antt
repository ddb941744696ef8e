-- ===== src/Mm/Paging/Tree.antt =====
-- kernel/src/mm/paging.rs: the tables of a space are a tree. Each table has a place, its level and the
-- part of the address that leads to it, and a table that is made changes no translation.
use jungey_os.Prelude.{
  ℕ, zero, suc, ◌+◌, ◌*◌, ◌%◌, ◌^◌, ◌<◌, ◌≡◌, ◌≢◌, inl, inr, refl, sym, ◌∙◌, arith, ℕ_discrete,
  true, false, Bool-cases, Option, none, some, ◌==◌, ==_self, ==_ne, if◌then◌else◌,
}
use jungey_os.Mm.Paging.{Tables, index, valid, address, put_word, zeroed, descend, word_of}

-- The bits of an address that lead to a table of this level.
abbrev pub prefix : (va level : ℕ) → ℕ
prefix va zero = 0
prefix va (suc l) = prefix va l * 512 + index va l

-- A table's place.
abbrev pub Places : Type 0
Places = (frame : ℕ) → Option (ℕ × ℕ)

abbrev pub IsClosed : Tables → Places → Type 0
IsClosed t places =
    (table l p i : ℕ)
    → places table ≡ some (l, p)
    → l < 3
    → i < 512
    → valid (t table i) ≡ true
    → places (address (t table i)) ≡ some (suc l, p * 512 + i)

pub record IsTree (t : Tables) (root : ℕ) (places : Places) : Type 0 where
  pub rooted : places root ≡ some (0, 0)
  pub closed : IsClosed t places

pub index-lt : (va l : ℕ) → index va l < 512
unfolding index
index-lt va l = omega arith

pub put_word_self : (t : Tables) (g i w : ℕ) → put_word t g i w g i ≡ w
unfolding put_word
put_word_self t g i w = rw (==_self g, ==_self i) refl

pub put_word-frame : (t : Tables) (g i w h j : ℕ) → h ≢ g → put_word t g i w h j ≡ t h j
unfolding put_word
put_word-frame t g i w h j ne = rw (==_ne h g ne) refl

pub put_word-index : (t : Tables) (g i w h j : ℕ) → j ≢ i → put_word t g i w h j ≡ t h j
unfolding put_word
put_word-index t g i w h j ne = elim (Bool-cases (h == g)) [
  | inl e ↦ rw (e, ==_ne j i ne) refl
  | inr e ↦ rw e refl
]

-- The last table of a walk stands where the address says.
pub descend-place :
    (t : Tables) (places : Places) (left l va table leaf : ℕ)
    → IsClosed t places
    → l + left ≡ 3
    → places table ≡ some (l, prefix va l)
    → descend left l va table t ≡ some leaf
    → places leaf ≡ some (3, prefix va 3)
unfolding descend
descend-place t places zero l va table leaf c h at e =
    let top : l ≡ 3 = omega arith in
    let same : table ≡ leaf = cc in
    let at' : places leaf ≡ some (l, prefix va l) = rw (← same) at in rw top at at'
descend-place t places (suc left) l va table leaf c h at e =
    elim (Bool-cases (valid (t table (index va l)))) [
      | inl v ↦
          let e' : descend left (suc l) va (address (t table (index va l))) t ≡ some leaf =
            rw v at e in
          descend-place t places left (suc l) va _ leaf c (omega arith)
            (c table l (prefix va l) (index va l) at (omega arith) (index-lt va l) v) e'
      | inr v ↦ let e' : none ≡ some leaf = rw v at e in cc
    ]

-- A frame f, fresh, is to become the table that the entry i of a table leads to.
pub record Plant : Type 0 where
  pub tables : Tables
  pub places : Places
  pub table : ℕ
  pub l : ℕ
  pub p : ℕ
  pub i : ℕ
  pub f : ℕ
  pub closed : IsClosed tables places
  pub at_place : places table ≡ some (l, p)
  pub low : l < 3
  pub off : valid (tables table i) ≡ false
  pub fresh : places f ≡ none
  pub aligned : f % 4096 ≡ 0
  pub small : f < 2 ^ 48

module _ (plant : Plant) where
  open plant use {
    tables, places, table, l, p, i, f, closed, at_place, low, off, fresh, aligned, small,
  }

  abbrev pub grown : Tables
  grown = put_word (zeroed tables f) table i (f + 1 + 2)

  abbrev pub placed : Places
  placed = λ g. if g == f then some (suc l, p * 512 + i) else places g

  pub not_fresh : (g : ℕ) (q : ℕ × ℕ) → places g ≡ some q → g ≢ f
  not_fresh g q h e = let h' : places f ≡ some q = rw e at h in cc

  pub grown-f : (j : ℕ) → grown f j ≡ 0
  unfolding zeroed
  grown-f j =
      put_word-frame (zeroed tables f) table i (f + 1 + 2) f j
        (λ e. not_fresh table (l, p) at_place (sym e))
      ∙ rw (==_self f) refl

  zeroed-other : (g j : ℕ) → g ≢ f → zeroed tables f g j ≡ tables g j
  unfolding zeroed
  zeroed-other g j ne = rw (==_ne g f ne) refl

  pub grown-frame : (g j : ℕ) → g ≢ f → g ≢ table → grown g j ≡ tables g j
  grown-frame g j ne nt = put_word-frame (zeroed tables f) table i _ g j nt ∙ zeroed-other g j ne

  pub grown-index : (g j : ℕ) → g ≢ f → j ≢ i → grown g j ≡ tables g j
  grown-index g j ne ni = put_word-index (zeroed tables f) table i _ g j ni ∙ zeroed-other g j ne

  pub linked_entry : (address (f + 1 + 2) ≡ f) × (valid (f + 1 + 2) ≡ true)
  unfolding address
  linked_entry = (omega arith, ground arith)

  pub placed-old : (g : ℕ) (q : ℕ × ℕ) → places g ≡ some q → placed g ≡ some q
  placed-old g q h = rw (==_ne g f (not_fresh g q h)) h

  pub grown-IsClosed : IsClosed grown placed
  grown-IsClosed g m q j h lt jl v = elim (ℕ_discrete g f) [
    | yes e ↦
        let v' : valid (grown f j) ≡ true = rw e at v in
        let zero' : valid 0 ≡ true = rw (grown-f j) at v' in cc
    | no ne ↦
        let h' : places g ≡ some (m, q) = rw (==_ne g f ne) at h in
        let old : grown g j ≡ tables g j
            → placed (address (grown g j)) ≡ some (suc m, q * 512 + j) =
          λ same. rw same (placed-old _ _ (closed g m q j h' lt jl (rw same at v))) in
        elim (ℕ_discrete g table) [
          | no nt ↦ old (grown-frame g j ne nt)
          | yes e ↦ elim (ℕ_discrete j i) [
            | no ni ↦ old (grown-index g j ne ni)
            | yes d ↦
                let entry : grown g j ≡ f + 1 + 2 =
                  rw (e, d) (put_word_self (zeroed tables f) table i (f + 1 + 2)) in
                let there : places table ≡ some (m, q) = rw e at h' in
                let level : m ≡ l = cc in
                let part : q ≡ p = cc in rw (entry, linked_entry.0, ==_self f, level, part, d) refl
          ]
        ]
  ]

  -- Nothing is reached through the new table.
  below_f : (left m va : ℕ) → word_of va (descend left m va f grown) grown ≡ 0
  unfolding descend
  below_f zero m va = grown-f (index va 3)
  below_f (suc left) m va =
      let off' : valid (grown f (index va m)) ≡ false = rw (grown-f (index va m)) refl in
      rw off' refl

  pub grown-word :
      (left m va g : ℕ)
      → m + left ≡ 3
      → places g ≡ some (m, prefix va m)
      → word_of va (descend left m va g grown) grown
        ≡ word_of va (descend left m va g tables) tables
  unfolding descend
  grown-word zero m va g top h =
      let ne = not_fresh g (m, prefix va m) h in
      grown-frame g (index va 3) ne (λ e.
        let h' : places table ≡ some (m, prefix va m) = rw e at h in
        let level : m ≡ l = cc in omega arith)
  grown-word (suc left) m va g top h =
      let ne = not_fresh g (m, prefix va m) h in
      let old : grown g (index va m) ≡ tables g (index va m)
          → word_of va (descend (suc left) m va g grown) grown
            ≡ word_of va (descend (suc left) m va g tables) tables =
        λ same. elim (Bool-cases (valid (tables g (index va m)))) [
          | inl v ↦
              let v' : valid (grown g (index va m)) ≡ true = rw same v in
              rw (v', v, same)
                (grown-word left (suc m) va (address (tables g (index va m))) (omega arith)
                  (closed g m (prefix va m) (index va m) h (omega arith) (index-lt va m) v))
          | inr v ↦ let v' : valid (grown g (index va m)) ≡ false = rw same v in rw (v', v) refl
        ] in
      elim (ℕ_discrete g table) [
        | no nt ↦ old (grown-frame g (index va m) ne nt)
        | yes e ↦ elim (ℕ_discrete (index va m) i) [
          | no ni ↦ old (grown-index g (index va m) ne ni)
          | yes d ↦
              let entry : grown g (index va m) ≡ f + 1 + 2 =
                rw (e, d) (put_word_self (zeroed tables f) table i (f + 1 + 2)) in
              let v : valid (grown g (index va m)) ≡ true = rw entry linked_entry.1 in
              let off' : valid (tables g (index va m)) ≡ false = rw (e, d) off in
              rw (v, off', entry, linked_entry.0) (below_f left (suc m) va)
        ]
      ]
