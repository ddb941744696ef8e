-- ===== src/Mm/Paging/Map.antt =====
-- kernel/src/mm/paging.rs, `map` and `unmap`: what they do to the translation of every address.
use jungey_os.Prelude.{
  ◌≢◌, ◌%◌, ==_iff, ◌⊎◌, ℕ, zero, suc, ◌+◌, ◌*◌, ◌≤◌, ◌≡◌, inl, inr, refl, ◌∙◌, ap, arith,
  ℕ_discrete, true, Bool-cases, Option, Option-cases, none, some, ◌==◌, ==_self, ==_ne,
  if◌then◌else◌, Result, ok, err, String,
}
use jungey_os.Disk.{Done}
use jungey_os.Mm.{page_size}
use jungey_os.Mm.Source.{FrameSource, FrameLaws}
use jungey_os.Mm.Paging.{
  Perm, bits, descend, word_at, AddressSpace, map, entry_for, store_entry, map_from, clear_entry,
  unmap_from,
}
use jungey_os.Mm.Paging.Words.{page_of, same_page-descend, put-IsClosed, put_self, put-other}
use jungey_os.Mm.Paging.Tree.{Places, prefix, descend-place}
use jungey_os.Mm.Paging.Grow.{IsSpace, IsDry, entry_for-IsEntry}

-- The pages of a space as a client may think of them: the entry of each page, by its number.
abbrev pub View : Type 0
View = (va : ℕ) → ℕ

abbrev pub set_page : (va word : ℕ) → View → View
set_page va word view = λ vb. if page_of vb == page_of va then word else view vb

-- `count` entries, from the i-th page of a range on.
unfoldable pub set_pages : (count i va pa : ℕ) → Perm → View → View
set_pages zero i va pa perm view = view
set_pages (suc count) i va pa perm view =
    set_pages count (i + 1) va pa perm
      (set_page (va + i * page_size) (pa + i * page_size + bits perm) view)

unfoldable pub clear_pages : (count i va : ℕ) → View → View
clear_pages zero i va view = view
clear_pages (suc count) i va view =
    clear_pages count (i + 1) va (set_page (va + i * page_size) 0 view)

set_page_ext :
    (va w : ℕ) (f g : View)
    → ((vb : ℕ) → f vb ≡ g vb)
    → (vb : ℕ) → set_page va w f vb ≡ set_page va w g vb
set_page_ext va w f g h vb = elim (Bool-cases (page_of vb == page_of va)) [
  | inl e ↦ rw e refl
  | inr e ↦ rw e (h vb)
]

set_pages_ext :
    (count i va pa : ℕ) (perm : Perm) (f g : View)
    → ((vb : ℕ) → f vb ≡ g vb)
    → (vb : ℕ) → set_pages count i va pa perm f vb ≡ set_pages count i va pa perm g vb
unfolding set_pages
set_pages_ext zero i va pa perm f g h vb = h vb
set_pages_ext (suc count) i va pa perm f g h vb =
    set_pages_ext count (i + 1) va pa perm _ _ (set_page_ext (va + i * page_size) _ f g h) vb

clear_pages_ext :
    (count i va : ℕ) (f g : View)
    → ((vb : ℕ) → f vb ≡ g vb)
    → (vb : ℕ) → clear_pages count i va f vb ≡ clear_pages count i va g vb
unfolding clear_pages
clear_pages_ext zero i va f g h vb = h vb
clear_pages_ext (suc count) i va f g h vb =
    clear_pages_ext count (i + 1) va _ _ (set_page_ext (va + i * page_size) 0 f g h) vb

module _ (frames : FrameSource) (laws : FrameLaws frames) where
  abbrev pub entries : AddressSpace frames → View
  entries s = word_at s.tables s.root

  store_entry-IsSpace :
      (va w leaf : ℕ) (s : AddressSpace frames) (places : Places)
      → IsSpace frames laws s places
      → places leaf ≡ some (3, prefix va 3)
      → IsSpace frames laws (store_entry frames va w leaf s) places
  store_entry-IsSpace va w leaf s places space at = record {
    tree = record {
      rooted = space.tree.rooted;
      closed = put-IsClosed s.tables places space.tree.closed leaf va w at;
    };
    fresh = space.fresh;
  }

  store_entry-entries :
      (va w leaf : ℕ) (s : AddressSpace frames) (places : Places)
      → IsSpace frames laws s places
      → places leaf ≡ some (3, prefix va 3)
      → descend 3 0 va s.root s.tables ≡ some leaf
      → (vb : ℕ) → entries (store_entry frames va w leaf s) vb ≡ set_page va w (entries s) vb
  store_entry-entries va w leaf s places space at there vb =
      let c = space.tree.closed in
      let rooted = space.tree.rooted in
      elim (ℕ_discrete (page_of vb) (page_of va)) [
        | yes e ↦
            let test : (page_of vb == page_of va) ≡ true = rw e (==_self (page_of va)) in
            rw test (put_self s.tables places c leaf va w at s.root rooted vb there e)
        | no ne ↦
            rw (==_ne (page_of vb) (page_of va) ne)
              (put-other s.tables places c leaf va w at s.root rooted vb ne)
      ]

  -- What a call of `map` did: the first so many pages are mapped, all of them unless a frame was missing.
  pub record IsMapped (left i va pa : ℕ) (perm : Perm) (s : AddressSpace frames)
      (r : Result Done × AddressSpace frames) : Type 0 where
    pub places : Places
    pub space : IsSpace frames laws r.1 places
    pub count : ℕ
    pub few : count ≤ left
    pub entered : (vb : ℕ) → entries r.1 vb ≡ set_pages count i va pa perm (entries s) vb
    pub all : r.0 ≡ ok tt → count ≡ left
    pub stops : (e : String) → r.0 ≡ err e → IsDry frames laws r.1.pool

  -- The loop of `map`.
  pub map_from-IsMapped :
      (left i va pa : ℕ) (perm : Perm) (s : AddressSpace frames) (places : Places)
      → IsSpace frames laws s places
      → IsMapped left i va pa perm s (map_from frames left i va pa perm s)
  unfolding map_from set_pages
  map_from-IsMapped zero i va pa perm s places space = record {
    places = places;
    space = space;
    count = 0;
    few = omega arith;
    entered = λ vb. refl;
    all = λ h. refl;
    stops = λ e h. cc;
  }
  map_from-IsMapped (suc left) i va pa perm s places space =
      let addr = va + i * page_size in
      let w = pa + i * page_size + bits perm in
      let e = entry_for-IsEntry frames laws addr s places space in
      let s' = (entry_for frames addr s).1 in
      let same_words : (vb : ℕ) → entries s' vb ≡ entries s vb =
        λ vb. rw e.step.same_root (e.step.words vb) in
      elim (Option-cases (entry_for frames addr s).0) [
        | inl q ↦
            rw (q, map_from)
              (record {
                places = e.step.later;
                space = e.step.space;
                count = 0;
                few = omega arith;
                entered = same_words;
                all = λ h. cc;
                stops = λ message h. e.stops q;
              })
        | inr (leaf, q) ↦
            let at = e.leaf_place leaf q in
            let there : descend 3 0 addr s'.root s'.tables ≡ some leaf =
              rw e.step.same_root (e.reached leaf q) in
            let rest =
              map_from-IsMapped left (i + 1) va pa perm (store_entry frames addr w leaf s')
                e.step.later (store_entry-IsSpace addr w leaf s' e.step.later e.step.space at) in
            rw (q, map_from)
              (record {
                places = rest.places;
                space = rest.space;
                count = suc rest.count;
                few = omega (arith, rest.few);
                entered = λ vb.
                    rest.entered vb
                    ∙ set_pages_ext rest.count (i + 1) va pa perm _ _
                        (λ vc.
                          store_entry-entries addr w leaf s' e.step.later e.step.space at there vc
                          ∙ set_page_ext addr w (entries s') (entries s) same_words vc)
                        vb;
                all = λ h. ap suc (rest.all h);
                stops = rest.stops;
              })
      ]

  -- What a call of `map` comes to: it is refused, or the pages are mapped as far as frames went.
  pub data Maps (va pa pages : ℕ) (perm : Perm) (s : AddressSpace frames)
      : Result Done × AddressSpace frames → Type 0 where
    refused :
        (va % page_size ≢ 0) ⊎ (pa % page_size ≢ 0)
        → Maps va pa pages perm s (err "unaligned mapping", s)
    mapped :
        {r : Result Done × AddressSpace frames}
        → va % page_size ≡ 0
        → pa % page_size ≡ 0
        → IsMapped pages 0 va pa perm s r
        → Maps va pa pages perm s r

  -- `map` refuses an address that is not page-aligned, either one, and leaves the space as it was.
  -- Otherwise the space is still a tree of tables, and translates every address as the table of pages
  -- does in which the pages of the range were set one after the other: all of them if it succeeds, and
  -- the first few if it fails, which it then only does when the allocator had no frame for a table. No
  -- other page is touched, whatever tables were made on the way.
  pub map-Maps :
      (va pa pages : ℕ) (perm : Perm) (s : AddressSpace frames) (places : Places)
      → IsSpace frames laws s places
      → Maps va pa pages perm s (map frames va pa pages perm s)
  unfolding map
  map-Maps va pa pages perm s places space = elim (Bool-cases (va % page_size == 0)) [
    | inr off ↦
        rw off (refused (inl (λ e. let on : (va % page_size == 0) ≡ true = (==_iff _ 0).1 e in cc)))
    | inl on ↦ elim (Bool-cases (pa % page_size == 0)) [
      | inr off' ↦
          rw (on, off')
            (refused (inr (λ e. let on' : (pa % page_size == 0) ≡ true = (==_iff _ 0).1 e in cc)))
      | inl on' ↦
          rw (on, on')
            (mapped ((==_iff (va % page_size) 0).0 on) ((==_iff (pa % page_size) 0).0 on')
              (map_from-IsMapped pages 0 va pa perm s places space))
    ]
  ]

  clear_entry-IsSpace :
      (va : ℕ) (o : Option ℕ) (s : AddressSpace frames) (places : Places)
      → IsSpace frames laws s places
      → descend 3 0 va s.root s.tables ≡ o
      → IsSpace frames laws (clear_entry frames va o s) places
  clear_entry-IsSpace va none s places space e = space
  clear_entry-IsSpace va (some leaf) s places space e =
      store_entry-IsSpace va 0 leaf s places space (
        descend-place s.tables places 3 0 va s.root leaf space.tree.closed refl space.tree.rooted e)

  clear_entry-entries :
      (va : ℕ) (o : Option ℕ) (s : AddressSpace frames) (places : Places)
      → IsSpace frames laws s places
      → descend 3 0 va s.root s.tables ≡ o
      → (vb : ℕ) → entries (clear_entry frames va o s) vb ≡ set_page va 0 (entries s) vb
  unfolding word_at
  clear_entry-entries va none s places space e vb = elim (ℕ_discrete (page_of vb) (page_of va)) [
    | yes same ↦
        let test : (page_of vb == page_of va) ≡ true = rw same (==_self (page_of va)) in
        let none' : descend 3 0 vb s.root s.tables ≡ none =
          same_page-descend s.tables 3 0 vb va s.root same refl ∙ e in
        rw (test, none') refl
    | no ne ↦ rw (==_ne (page_of vb) (page_of va) ne) refl
  ]
  clear_entry-entries va (some leaf) s places space e vb =
      store_entry-entries va 0 leaf s places space
        (descend-place s.tables places 3 0 va s.root leaf space.tree.closed refl space.tree.rooted
          e)
        e vb

  -- After `unmap` no page of the range is mapped and every other page is as it was.
  pub unmap_from-entries :
      (left i va : ℕ) (s : AddressSpace frames) (places : Places)
      → IsSpace frames laws s places
      → (vb : ℕ) → entries (unmap_from frames left i va s) vb ≡ clear_pages left i va (entries s) vb
  unfolding unmap_from clear_pages
  unmap_from-entries zero i va s places space vb = refl
  unmap_from-entries (suc left) i va s places space vb =
      let addr = va + i * page_size in
      let o = descend 3 0 addr s.root s.tables in
      unmap_from-entries left (i + 1) va (clear_entry frames addr o s) places
        (clear_entry-IsSpace addr o s places space refl) vb
      ∙ clear_pages_ext left (i + 1) va _ _ (clear_entry-entries addr o s places space refl) vb
