-- ===== src/Mm/Paging/Exclusive.antt =====
-- kernel/src/mm/paging.rs: no page is writable and executable, and the kernel executes no user page.
use jungey_os.Prelude.{
  ℕ, zero, suc, ◌+◌, ◌*◌, ◌/◌, ◌%◌, ◌^◌, ◌<◌, ◌≤◌, ◌≡◌, ◌≢◌, inl, inr, refl, sym, arith, ℕ_discrete,
  true, false, Bool-cases, Option-cases, none, some, [], ◌∷◌, ◌==◌, ==_self, ==_ne, if◌then◌else◌,
  subst,
}
use jungey_os.Mm.{page_size}
use jungey_os.Mm.Source.{FrameSource, FrameLaws}
use jungey_os.Mm.Paging.{
  Tables, Perm, user_text, user_read_only, user_data, user_device, bits, valid, zeroed, word_at,
  backing, translate, AddressSpace, alloc_table, new, index, descend, map_from,
}
use jungey_os.Mm.Paging.Tree.{Places}
use jungey_os.Mm.Paging.Grow.{IsSpace}
use jungey_os.Mm.Paging.Words.{page_of}
use jungey_os.Mm.Paging.Map.{View, set_pages, entries, map_from-IsMapped}

-- AP[2] clear: not read-only.
abbrev pub IsWritable : (entry : ℕ) → Type 0
IsWritable entry = entry / 2 ^ 7 % 2 ≡ 0

-- UXN clear.
abbrev pub IsExecutable : (entry : ℕ) → Type 0
IsExecutable entry = entry / 2 ^ 54 % 2 ≡ 0

-- PXN set.
abbrev pub IsPrivate : (entry : ℕ) → Type 0
IsPrivate entry = entry / 2 ^ 53 % 2 ≡ 1

abbrev pub IsExclusive : View → Type 0
IsExclusive view =
    (va : ℕ)
    → valid (view va) ≡ true
    → (¬ (IsWritable (view va) × IsExecutable (view va))) × IsPrivate (view va)

entry-IsExclusive :
    (pa : ℕ) (perm : Perm)
    → pa % 4096 ≡ 0
    → pa < 2 ^ 48
    → (¬ (IsWritable (pa + bits perm) × IsExecutable (pa + bits perm))) × IsPrivate (pa + bits perm)
unfolding bits
entry-IsExclusive pa user_text h s = (λ b. let (w, x) = b in absurd (omega arith), omega arith)
entry-IsExclusive pa user_read_only h s = (λ b. let (w, x) = b in absurd (omega arith), omega arith)
entry-IsExclusive pa user_data h s = (λ b. let (w, x) = b in absurd (omega arith), omega arith)
entry-IsExclusive pa user_device h s = (λ b. let (w, x) = b in absurd (omega arith), omega arith)

set_pages-IsExclusive :
    (count i va pa : ℕ) (perm : Perm) (view : View)
    → pa % 4096 ≡ 0
    → pa + (i + count) * page_size ≤ 2 ^ 48
    → IsExclusive view
    → IsExclusive (set_pages count i va pa perm view)
unfolding set_pages
set_pages-IsExclusive zero i va pa perm view h s x = x
set_pages-IsExclusive (suc count) i va pa perm view h s x =
    set_pages-IsExclusive count (i + 1) va pa perm _ h (omega arith) (λ vb v.
      elim (Bool-cases (page_of vb == page_of (va + i * page_size))) [
        | inl e ↦ rw e (entry-IsExclusive (pa + i * page_size) perm (omega arith) (omega arith))
        | inr e ↦ let v' : valid (view vb) ≡ true = rw e at v in rw e (x vb v')
      ])

module _ (frames : FrameSource) (laws : FrameLaws frames) where
  open laws use {IsFree}

  -- A space in which no page is both writable and executable by its process, and none is executable by
  -- the kernel, stays one through `map`, whatever is mapped over what and also when frames run out, as
  -- long as the memory mapped lies below 2^48.
  pub map_from-IsExclusive :
      (left i va pa : ℕ) (perm : Perm) (s : AddressSpace frames) (places : Places)
      → IsSpace frames laws s places
      → pa % 4096 ≡ 0
      → pa + (i + left) * page_size ≤ 2 ^ 48
      → IsExclusive (entries frames laws s)
      → IsExclusive (entries frames laws (map_from frames left i va pa perm s).1)
  map_from-IsExclusive left i va pa perm s places space h fits x =
      let m = map_from-IsMapped frames laws left i va pa perm s places space in
      let few = m.few in
      let set_ =
        set_pages-IsExclusive m.count i va pa perm (entries frames laws s) h (omega arith) x in
      λ vb v.
        let e = m.entered vb in
        let v' = subst (λ w. valid w ≡ true) e v in
        subst (λ w. (¬ (IsWritable w × IsExecutable w)) × IsPrivate w) (sym e) (set_ vb v')

  abbrev first : (next_asid f : ℕ) → Tables → frames.Pool → AddressSpace frames
  first next_asid f t pool = record {
    root = f;
    asid = next_asid % 2 ^ 16;
    owned = f ∷ [];
    tables = zeroed t f;
    pool = pool;
  }

  abbrev only : (root : ℕ) → Places
  only root g = if g == root then some (0, 0) else none

  zeroed_self : (t : Tables) (f j : ℕ) → zeroed t f f j ≡ 0
  unfolding zeroed
  zeroed_self t f j = rw (==_self f) refl

  first-IsSpace :
      (next_asid f : ℕ) (t : Tables) (pool : frames.Pool)
      → (frames.take_frame pool).0 ≡ some f
      → IsSpace frames laws (first next_asid f t (frames.take_frame pool).1) (only f)
  first-IsSpace next_asid f t pool e = record {
    tree = record {
      rooted = rw (==_self f) refl;
      closed = λ g l p i h lt il v. elim (ℕ_discrete g f) [
        | yes d ↦
            let v' : valid (zeroed t f f i) ≡ true = rw d at v in
            let off : valid 0 ≡ true = rw (zeroed_self t f i) at v' in cc
        | no ne ↦ let h' : none ≡ some (l, p) = rw (==_ne g f ne) at h in cc
      ];
    };
    fresh = λ g free.
        let ne : g ≢ f =
          λ d. laws.taken pool f e (subst (IsFree (frames.take_frame pool).1) d free) in
        rw (==_ne g f ne) refl;
  }

  first-translate : (next_asid f va : ℕ) (t : Tables) → translate (zeroed t f) f va ≡ none
  unfolding translate word_at descend backing
  first-translate next_asid f va t =
      let off : valid (zeroed t f f (index va 0)) ≡ false =
        rw (zeroed_self t f (index va 0)) refl in
      rw off refl

  -- A new space is a tree of one table, which maps nothing.
  pub new-IsSpace :
      (next_asid : ℕ) (t : Tables) (pool : frames.Pool) (s : AddressSpace frames)
      → (new frames next_asid t pool).0 ≡ some s
      → (places : Places) × IsSpace frames laws s places
        × ((va : ℕ) → translate s.tables s.root va ≡ none)
  unfolding new alloc_table
  new-IsSpace next_asid t pool s h = elim (Option-cases (frames.take_frame pool).0) [
    | inl e ↦
        let a : alloc_table frames t pool ≡ (none, t, (frames.take_frame pool).1) =
          rw (e, alloc_table) refl in
        let h' : none ≡ some s = rw a at h in cc
    | inr (f, e) ↦
        let a : alloc_table frames t pool ≡ (some f, zeroed t f, (frames.take_frame pool).1) =
          rw (e, alloc_table) refl in
        let h' : some (first next_asid f t (frames.take_frame pool).1) ≡ some s = rw a at h in
        let same : first next_asid f t (frames.take_frame pool).1 ≡ s = cc in
        subst
          (λ u.
            (places : Places) × IsSpace frames laws u places
            × ((va : ℕ) → translate u.tables u.root va ≡ none))
          same (only f, first-IsSpace next_asid f t pool e, λ va. first-translate next_asid f va t)
  ]
