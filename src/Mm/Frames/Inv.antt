-- ===== src/Mm/Frames/Inv.antt =====
-- Who owns which frame: the intrusive free list, the frames handed out, and what is past the bump
-- pointer. `fl` and `used` are what the free list and the callers hold; the code stores neither.
use mathlib.Core.Logic.Or
use mathlib.Core.List.{
  Mem, Nodup, Perm, Nodup-cons, mem-cons, mem-cons_self, mem-cons_of_mem, mem-append_left,
  perm_middle,
}
use mathlib.Core.List.Perm
use native.Mathlib.Bridge.{le_prop}
use jungey_os.Prelude.{
  ℕ, suc, ◌+◌, ◌-◌, ◌%◌, ◌≤◌, ◌≡◌, ◌≢◌, inl, inr, refl, Option, none, some, List, [], ◌∷◌, ◌++◌,
  ◌==◌, ==_ne, ==_self, arith, Bool-cases, if◌then◌else◌, All, length,
}
use jungey_os.Mm.Frames.{Frames, bump_one, from_bump, alloc, free}
use jungey_os.Mm.Frames.Reserved.{IsRange, Overlaps, IsBump, bump_one_lem}

-- The list that the link words spell out from `head` on; address 0 ends it.
abbrev pub Links : (ℕ → ℕ) → ℕ → List ℕ → Type 0
Links link head [] = head ≡ 0
Links link head (a ∷ rest) = (head ≡ a) × (a ≢ 0) × Links link (link a) rest

pub record IsFrame (f : Frames) (a : ℕ) : Type 0 where
  pub nonzero : a ≢ 0
  pub aligned : a % 4096 ≡ 0
  pub passed : a + 4096 ≤ f.bump
  pub inside : a + 4096 ≤ f.end
  pub unreserved : ¬ Overlaps f.reserved a

pub record IsPool (f : Frames) (fl used : List ℕ) : Type 0 where
  pub ranges : All IsRange f.reserved
  pub aligned : f.bump % 4096 ≡ 0
  pub links : Links f.link f.free_list fl
  pub counted : f.free_list_len ≡ length fl
  pub distinct : Nodup (fl ++ used)
  pub frames : (a : ℕ) → Mem a (fl ++ used) → IsFrame f a

module _ (link : ℕ → ℕ) (a v : ℕ) where
  -- Writing the link word of a frame outside the list leaves the list.
  Links-other :
      (fl : List ℕ) (head : ℕ)
      → ¬ Mem a fl
      → Links link head fl
      → Links (λ x. if x == a then v else link x) head fl
  Links-other [] head out h = h
  Links-other (b ∷ fl) head out (e, nz, rest) =
      let other : b ≢ a = λ same. out (rw same mem-cons_self) in
      (e, nz, rw (==_ne b a other) (Links-other fl (link b) (λ m. out (mem-cons_of_mem b m)) rest))

-- What a frame is depends on the bounds alone, and the bump pointer only grows.
kept :
    (f g : Frames) {a : ℕ}
    → g.reserved ≡ f.reserved
    → g.end ≡ f.end
    → f.bump ≤ g.bump
    → IsFrame f a
    → IsFrame g a
kept f g {a} r e b h = record {
  nonzero = h.nonzero;
  aligned = h.aligned;
  passed = omega (arith, h.passed);
  inside = omega (arith, h.inside);
  unreserved = rw r h.unreserved;
}

-- Giving back an owned frame keeps the pool well-formed: the frame heads the free list, once, and its
-- former owner no longer has it.
pub free-IsPool :
    (f : Frames) (fl used used' : List ℕ) (a : ℕ)
    → IsPool f fl used
    → Perm used (a ∷ used')
    → IsPool (free f a) (a ∷ fl) used'
unfolding free
free-IsPool f fl used used' a p owned =
    let same : Perm (fl ++ used) (a ∷ fl ++ used') =
      Perm.trans (Perm.append_left fl owned) (perm_middle fl used') in
    let mine : (b : ℕ) → Mem b (a ∷ fl ++ used') → Mem b (fl ++ used) =
      λ b. (Perm.mem_iff same).1 in
    let apart : Nodup (a ∷ fl ++ used') = Perm.nodup same p.distinct in
    record {
      ranges = p.ranges;
      aligned = p.aligned;
      links = (
        refl,
        (p.frames a (mine a mem-cons_self)).nonzero,
        rw (==_self a) (
            Links-other f.link a f.free_list fl f.free_list
              (λ m. (Nodup-cons.0 apart).0 (mem-append_left used' m)) p.links),
      );
      counted = omega (arith, p.counted);
      distinct = apart;
      frames = λ b m. kept f (free f a) refl refl (omega arith) (p.frames b (mine b m));
    }

-- What `alloc` comes to, `f'` being the allocator afterwards.
pub record IsAlloc (f : Frames) (fl used : List ℕ) (r : Option ℕ) (f' : Frames) : Type 0 where
  pub got : (a : ℕ) → r ≡ some a → (fl' : List ℕ) × IsPool f' fl' (a ∷ used)
  pub out :
      r ≡ none
      → (fl ≡ [])
        × IsPool f' [] used
        × (f.bump ≢ 0 → (g : ℕ) → f.bump ≤ g → g + 4096 ≤ f.end → Overlaps f.reserved g)

pop_IsPool :
    (f : Frames) (a : ℕ) (rest used : List ℕ)
    → IsPool f (a ∷ rest) used
    → IsPool
        (record f { free_list = f.link a; free_list_len = f.free_list_len - 1 })
        rest
        (a ∷ used)
pop_IsPool f a rest used p =
    let moved : Perm (rest ++ a ∷ used) (a ∷ rest ++ used) = perm_middle rest used in
    record {
      ranges = p.ranges;
      aligned = p.aligned;
      links = p.links.2;
      counted = omega (arith, p.counted);
      distinct = Perm.nodup (Perm.symm moved) p.distinct;
      frames = λ b m.
          kept f (record f { free_list = f.link a; free_list_len = f.free_list_len - 1 }) refl refl
            (omega arith) (p.frames b ((Perm.mem_iff moved).0 m));
    }

pub IsFrame-IsProp : (f : Frames) (a : ℕ) → IsProp (IsFrame f a)
IsFrame-IsProp f a = hlevel (le_prop)

module _ (f : Frames) (used : List ℕ) {r : Option ℕ} {bump : ℕ} (p : IsPool f [] used)
    (nz : f.bump ≢ 0) (b : IsBump f.reserved f.end f.bump r bump) where
  -- A frame from past the bump pointer was never handed out.
  bump_IsPool : (a : ℕ) → r ≡ some a → IsPool (record f { bump = bump }) [] (a ∷ used)
  bump_IsPool a e =
      let (lo, at, below, unreserved, _) = b.got a e in
      let g : Frames = record f { bump = bump } in
      let fresh : IsFrame g a = record {
        nonzero = omega arith;
        aligned = omega (arith, b.whole);
        passed = omega arith;
        inside = omega arith;
        unreserved = unreserved;
      } in
      record {
        ranges = p.ranges;
        aligned = b.whole;
        links = p.links;
        counted = p.counted;
        distinct = Nodup-cons.1 (λ m. absurd (omega (arith, (p.frames a m).passed)), p.distinct);
        frames = λ c m.
            Or.elim (IsFrame-IsProp g c) (mem-cons.0 m) (λ same. rw same fresh)
              (λ old. kept f g refl refl b.onward (p.frames c old));
      }

  full_IsPool : IsPool (record f { bump = bump }) [] used
  full_IsPool = record {
    ranges = p.ranges;
    aligned = b.whole;
    links = p.links;
    counted = p.counted;
    distinct = p.distinct;
    frames = λ c m. kept f (record f { bump = bump }) refl refl b.onward (p.frames c m);
  }

-- From a well-formed pool `alloc` always returns. A frame that it hands out is page-aligned, not 0, below
-- the end, not reserved, and neither free nor owned by anyone already, and the pool stays well-formed
-- with the caller as its owner; it hands out none only if nothing is free and, where the pointer was
-- ever set, every frame from the pointer on is reserved.
pub alloc_lem :
    (f : Frames) (fl used : List ℕ)
    → IsPool f fl used
    → (r : Option ℕ) × (f' : Frames) × (alloc f ≡ some (r, f')) × IsAlloc f fl used r f'
unfolding alloc from_bump bump_one
alloc_lem f [] used p = elim (Bool-cases (f.bump == 0)) [
  | inl unset ↦ (
    none,
    f,
    rw (p.links, bump_one, unset) refl,
    record { got = λ a e. absurd (cc); out = λ e. (refl, p, λ nz. absurd (ground arith)) },
  )
  | inr set ↦
      let nz : f.bump ≢ 0 = ground arith in
      let (r, bump, run, b) =
        bump_one_lem f.reserved f.end p.ranges (suc f.end) f.bump nz p.aligned (omega arith) in
      (
        r,
        record f { bump = bump },
        rw (p.links, run) refl,
        record {
          got = λ a e. ([], bump_IsPool f used p nz b a e);
          out = λ e. (refl, full_IsPool f used p nz b, λ _. (b.out e).1);
        },
      )
]
alloc_lem f (a ∷ rest) used p =
    let (head, nz, _) = p.links in
    let g : Frames = record f { free_list = f.link a; free_list_len = f.free_list_len - 1 } in
    (
      some a,
      g,
      rw (head, ==_ne a 0 nz) refl,
      record {
        got = λ b e. let same : a ≡ b = cc in (rest, rw (← same) (pop_IsPool f a rest used p));
        out = λ e. absurd (cc);
      },
    )
