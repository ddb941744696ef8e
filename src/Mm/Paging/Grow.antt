-- ===== src/Mm/Paging/Grow.antt =====
-- kernel/src/mm/paging.rs, `entry_for`: tables are made on the way, and no translation changes.
use jungey_os.Prelude.{
  ℕ, zero, suc, ◌+◌, ◌*◌, ◌<◌, ◌≡◌, ◌≢◌, inl, inr, refl, ◌∙◌, arith, ℕ_discrete, true, false,
  Bool-cases, Option, Option-cases, none, some, ==_self, ==_ne, subst,
}
use jungey_os.Mm.Source.{FrameSource, FrameLaws}
use jungey_os.Mm.Paging.{
  index, valid, address, zeroed, descend, word_at, AddressSpace, linked, present, grow, entry_for,
}
use jungey_os.Mm.Paging.Tree.{
  Places, Plant, prefix, IsTree, index-lt, put_word_self, placed, placed-old, grown-IsClosed,
  grown-word, linked_entry, grown-frame, grown-index, not_fresh,
}

module _ (frames : FrameSource) (laws : FrameLaws frames) where
  open laws use {IsFree}

  -- The tables of a space are a tree, and no free frame is one of them.
  pub record IsSpace (s : AddressSpace frames) (places : Places) : Type 0 where
    pub tree : IsTree s.tables s.root places
    pub fresh : (f : ℕ) → IsFree s.pool f → places f ≡ none

  -- Tables were made, perhaps; what was there is there, and every word is as it was.
  pub record IsGrown (s : AddressSpace frames) (places : Places) (s' : AddressSpace frames)
      : Type 0 where
    pub later : Places
    pub space : IsSpace s' later
    pub same_root : s'.root ≡ s.root
    pub onward : (g : ℕ) (q : ℕ × ℕ) → places g ≡ some q → later g ≡ some q
    pub kept :
        (g j : ℕ) (q : ℕ × ℕ)
        → places g ≡ some q
        → valid (s.tables g j) ≡ true
        → s'.tables g j ≡ s.tables g j
    pub words : (va : ℕ) → word_at s'.tables s.root va ≡ word_at s.tables s.root va

  abbrev IsGrown-refl :
      (s : AddressSpace frames) (places : Places) → IsSpace s places → IsGrown s places s
  IsGrown-refl s places p = record {
    later = places;
    space = p;
    same_root = refl;
    onward = λ g q h. h;
    kept = λ g j q h v. refl;
    words = λ va. refl;
  }

  abbrev IsGrown-trans :
      (s : AddressSpace frames) (places : Places) (s' s'' : AddressSpace frames)
      → (a : IsGrown s places s') → IsGrown s' a.later s''
      → IsGrown s places s''
  IsGrown-trans s places s' s'' a b = record {
    later = b.later;
    space = b.space;
    same_root = b.same_root ∙ a.same_root;
    onward = λ g q h. b.onward g q (a.onward g q h);
    kept = λ g j q h v.
        let v' : valid (s'.tables g j) ≡ true = rw (a.kept g j q h v) v in
        b.kept g j q (a.onward g q h) v' ∙ a.kept g j q h v;
    words = λ va.
        let next : word_at s''.tables s.root va ≡ word_at s'.tables s.root va =
          rw (← a.same_root) (b.words va) in
        next ∙ a.words va;
  }

  -- The allocator has just been asked, and had no frame.
  abbrev pub IsDry : frames.Pool → Type 0
  IsDry pool =
      (before : frames.Pool) × ((frames.take_frame before).0 ≡ none)
      × (pool ≡ (frames.take_frame before).1)

  -- The table that an entry leads to, when the walk goes on.
  record Leads (s' : AddressSpace frames) (later : Places) (table l p i next : ℕ) : Type 0 where
    place : later next ≡ some (suc l, p * 512 + i)
    entry : valid (s'.tables table i) ≡ true
    target : address (s'.tables table i) ≡ next

  record IsPresent (s : AddressSpace frames) (places : Places) (table l p i : ℕ)
      (r : Option ℕ × AddressSpace frames) : Type 0 where
    step : IsGrown s places r.1
    leads : (next : ℕ) → r.0 ≡ some next → Leads r.1 step.later table l p i next
    stops : r.0 ≡ none → IsDry r.1.pool

  module _ (s : AddressSpace frames) (places : Places) (space : IsSpace s places) (table l p i : ℕ)
      (at : places table ≡ some (l, p)) (low : l < 3) (short : i < 512) where
    linked-IsPresent :
        (f : ℕ)
        → (frames.take_frame s.pool).0 ≡ some f
        → valid (s.tables table i) ≡ false
        → IsPresent s places table l p i
            (linked frames table i (some f) (frames.take_frame s.pool).1 s)
    unfolding word_at
    linked-IsPresent f e off =
        let plant : Plant = record {
          tables = s.tables;
          places = places;
          table = table;
          l = l;
          p = p;
          i = i;
          f = f;
          closed = space.tree.closed;
          at_place = at;
          low = low;
          off = off;
          fresh = space.fresh f (laws.was_free s.pool f e);
          aligned = laws.aligned s.pool f e;
          small = laws.small s.pool f e;
        } in
        let later = placed plant in
        let old = placed-old plant in
        let entry = linked_entry plant in
        record {
          step = record {
            later = later;
            space = record {
              tree = record {
                rooted = old s.root (0, 0) space.tree.rooted;
                closed = grown-IsClosed plant;
              };
              fresh = λ g free.
                  let ne : g ≢ f = λ d.
                    laws.taken s.pool f e (subst (IsFree (frames.take_frame s.pool).1) d free) in
                  rw (==_ne g f ne) (space.fresh g (laws.no_more s.pool g free));
            };
            same_root = refl;
            onward = old;
            kept = λ g j q h v.
                let ne = not_fresh plant g q h in
                elim (ℕ_discrete g table) [
                  | no nt ↦ grown-frame plant g j ne nt
                  | yes d ↦ elim (ℕ_discrete j i) [
                    | no ni ↦ grown-index plant g j ne ni
                    | yes d' ↦ let v' : valid (s.tables table i) ≡ true = rw (d, d') at v in cc
                  ]
                ];
            words = λ va. grown-word plant 3 0 va s.root refl space.tree.rooted;
          };
          leads = λ next h.
              let same : f ≡ next = cc in
              let hit = put_word_self (zeroed s.tables f) table i (f + 1 + 2) in
              record {
                place = rw (← same, ==_self f) refl;
                entry = rw hit entry.1;
                target = rw (hit, entry.0) same;
              };
          stops = λ h. cc;
        }

    present-IsPresent : IsPresent s places table l p i (present frames table i s)
    unfolding present
    present-IsPresent = elim (Bool-cases (valid (s.tables table i))) [
      | inl v ↦ rw v (record {
        step = IsGrown-refl s places space;
        leads = λ next h.
            let same : address (s.tables table i) ≡ next = cc in
            record {
              place = rw (← same) (space.tree.closed table l p i at low short v);
              entry = v;
              target = same;
            };
        stops = λ h. cc;
      })
      | inr off ↦ elim (Option-cases (frames.take_frame s.pool).0) [
        | inl e ↦
            rw (off, e)
              (record {
                step = record {
                  later = places;
                  space = record {
                    tree = space.tree;
                    fresh = λ g free. space.fresh g (laws.no_more s.pool g free);
                  };
                  same_root = refl;
                  onward = λ g q h. h;
                  kept = λ g j q h v. refl;
                  words = λ va. refl;
                };
                leads = λ next h. cc;
                stops = λ h. (s.pool, e, refl);
              })
        | inr (f, e) ↦ rw (off, e) (linked-IsPresent f e off)
      ]
    ]

  -- A walk that makes its tables ends at the table of the address, and the walk that only reads finds it.
  pub record IsEntry (s : AddressSpace frames) (places : Places) (left l va table : ℕ)
      (r : Option ℕ × AddressSpace frames) : Type 0 where
    pub step : IsGrown s places r.1
    pub leaf_place : (leaf : ℕ) → r.0 ≡ some leaf → step.later leaf ≡ some (3, prefix va 3)
    pub reached : (leaf : ℕ) → r.0 ≡ some leaf → descend left l va table r.1.tables ≡ some leaf
    pub stops : r.0 ≡ none → IsDry r.1.pool

  grow-IsEntry :
      (left l va table : ℕ) (s : AddressSpace frames) (places : Places)
      → IsSpace s places
      → places table ≡ some (l, prefix va l)
      → l + left ≡ 3
      → IsEntry s places left l va table (grow frames left l va table s)
  unfolding grow descend
  grow-IsEntry zero l va table s places space at top = record {
    step = IsGrown-refl s places space;
    leaf_place = λ leaf h.
        let same : table ≡ leaf = cc in
        let level : l ≡ 3 = omega arith in
        let at' : places leaf ≡ some (l, prefix va l) = rw (← same) at in rw level at at';
    reached = λ leaf h. h;
    stops = λ h. cc;
  }
  grow-IsEntry (suc left) l va table s places space at top =
      let i = index va l in
      let one =
        present-IsPresent s places space table l (prefix va l) i at (omega arith) (index-lt va l) in
      let s' = (present frames table i s).1 in
      elim (Option-cases (present frames table i s).0) [
        | inl e ↦
            rw (e, grow)
              (record {
                step = one.step;
                leaf_place = λ leaf h. cc;
                reached = λ leaf h. cc;
                stops = λ h. one.stops e;
              })
        | inr (next, e) ↦
            let leads = one.leads next e in
            let rest =
              grow-IsEntry left (suc l) va next s' one.step.later one.step.space leads.place
                (omega arith) in
            rw (e, grow)
              (record {
                step = IsGrown-trans s places s' _ one.step rest.step;
                leaf_place = rest.leaf_place;
                stops = rest.stops;
                reached = λ leaf h.
                    let kept =
                      rest.step.kept table i (l, prefix va l) (one.step.onward table _ at)
                        leads.entry in
                    rw (kept, leads.entry, leads.target) (rest.reached leaf h);
              })
      ]

  pub entry_for-IsEntry :
      (va : ℕ) (s : AddressSpace frames) (places : Places)
      → IsSpace s places
      → IsEntry s places 3 0 va s.root (entry_for frames va s)
  unfolding entry_for
  entry_for-IsEntry va s places space =
      grow-IsEntry 3 0 va s.root s places space space.tree.rooted refl
