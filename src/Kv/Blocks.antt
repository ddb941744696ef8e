-- ===== src/Kv/Blocks.antt =====
-- kernel/src/kv.rs: where a block stands, what it must hold, and that no two blocks share a frame.
use jungey_os.Prelude.{
  ℕ, ◌+◌, ◌/◌, ◌%◌, ◌<◌, ◌≤◌, ◌≡◌, ◌≢◌, ◌⊎◌, inl, inr, refl, sym, ◌∙◌, ap, arith, Option, none,
  some, List, [], ◌∷◌, ◌++◌, length, get_elem?, set, modify, get_elem?-modify, get_elem?-set,
  get_elem?-snoc, subst,
}
use jungey_os.Disk.{Sector}
use jungey_os.Mm.Source.{FrameSource, FrameLaws}
use jungey_os.Kv.{
  Block, resident, spilling, spilled, Session, pattern_of, block_bytes, sectors_per_block,
}

pub record At (ss : List Session) (i j id : ℕ) (b : Block) : Type 0 where
  pub session : Session
  pub at_session : get_elem? ss i ≡ some session
  pub named : session.id ≡ id
  pub at_block : get_elem? session.blocks j ≡ some b

abbrev pub frame_of : Block → Option ℕ
frame_of (resident frame used) = some frame
frame_of (spilling frame sector) = some frame
frame_of (spilled sector) = none

-- The bytes that `append` gave the block of a session.
abbrev pub IsWritten : (ℕ → ℕ) → (id index : ℕ) → Type 0
IsWritten bytes id index = (o : ℕ) → o < block_bytes → bytes o ≡ pattern_of id index o

-- A block has them, in memory or in its eight sectors, which lie below the next to be given out.
abbrev pub IsTrue :
    (memory : ℕ → ℕ → ℕ) → (sectors : ℕ → Sector) → (spill_next id index : ℕ) → Block → Type 0
IsTrue m d next id index (resident frame used) = IsWritten (m frame) id index
IsTrue m d next id index (spilling frame sector) = IsWritten (m frame) id index
IsTrue m d next id index (spilled sector) =
    (sector + sectors_per_block ≤ next)
    × ((o : ℕ) → o < block_bytes → d (sector + o / 512) (o % 512) ≡ pattern_of id index o)

stays-IsTrue :
    (m m' : ℕ → ℕ → ℕ) (d d' : ℕ → Sector) (next next' id index : ℕ) (b : Block)
    → ((g : ℕ) → frame_of b ≡ some g → m' g ≡ m g)
    → ((n : ℕ) → n < next → d' n ≡ d n)
    → next ≤ next'
    → IsTrue m d next id index b
    → IsTrue m' d' next' id index b
stays-IsTrue m m' d d' next next' id index (resident frame used) mem disk le h =
    λ o lt. ap (λ (f : ℕ → ℕ). f o) (mem frame refl) ∙ h o lt
stays-IsTrue m m' d d' next next' id index (spilling frame sector) mem disk le h =
    λ o lt. ap (λ (f : ℕ → ℕ). f o) (mem frame refl) ∙ h o lt
stays-IsTrue m m' d d' next next' id index (spilled sector) mem disk le (low, h) = (
  omega arith,
  λ o lt. ap (λ (f : Sector). f (o % 512)) (disk (sector + o / 512) (omega arith)) ∙ h o lt,
)

-- Every block that stands there stood there.
abbrev pub IsOld : List Session → List Session → Type 0
IsOld ss ss' = (i j id : ℕ) (b : Block) → At ss' i j id b → At ss i j id b

-- Every block that stands there stood there, but this one.
abbrev pub IsChanged : List Session → List Session → (si bi id : ℕ) → Block → Type 0
IsChanged ss ss' si bi id0 c =
    (i j id : ℕ) (b : Block)
    → At ss' i j id b
    → ((i ≡ si) × (j ≡ bi) × (id ≡ id0) × (b ≡ c)) ⊎ ((¬ ((i ≡ si) × (j ≡ bi))) × At ss i j id b)

pub modify-IsOld :
    (ss : List Session) (si : ℕ) (f : Session → Session)
    → ((s : Session) → ((f s).id ≡ s.id) × ((f s).blocks ≡ s.blocks))
    → IsOld ss (modify ss si f)
modify-IsOld ss si f same i j id b p = elim (get_elem?-modify ss si i f p.session p.at_session) [
  | inl (v, e, found, eq) ↦ record {
    session = v;
    at_session = found;
    named = sym (same v).0 ∙ ap (λ (s : Session). s.id) eq ∙ p.named;
    at_block =
        ap (λ bs. get_elem? bs j) (sym (same v).1 ∙ ap (λ (s : Session). s.blocks) eq) ∙ p.at_block;
  }
  | inr (ne, found) ↦ record {
    session = p.session;
    at_session = found;
    named = p.named;
    at_block = p.at_block;
  }
]

pub replace-IsChanged :
    (ss : List Session) (si bi id0 : ℕ) (f : Session → Session) (b0 c : Block)
    → ((s : Session) → ((f s).id ≡ s.id) × ((f s).blocks ≡ set s.blocks bi c))
    → At ss si bi id0 b0
    → IsChanged ss (modify ss si f) si bi id0 c
replace-IsChanged ss si bi id0 f b0 c same was i j id b p =
    elim (get_elem?-modify ss si i f p.session p.at_session) [
      | inr (ne, found) ↦ inr (
        λ both. ne (sym both.0),
        record { session = p.session; at_session = found; named = p.named; at_block = p.at_block },
      )
      | inl (v, e, found, eq) ↦
          let named : v.id ≡ id = sym (same v).0 ∙ ap (λ (s : Session). s.id) eq ∙ p.named in
          let at : get_elem? (set v.blocks bi c) j ≡ some b =
            ap (λ bs. get_elem? bs j) (sym (same v).1 ∙ ap (λ (s : Session). s.blocks) eq)
            ∙ p.at_block in
          elim (get_elem?-set v.blocks bi j c b at) [
            | inl (here, is) ↦
                let found' : get_elem? ss si ≡ some v = rw e found in
                let first = was.at_session in
                let one : v ≡ was.session = cc in
                inl
                  (sym e, sym here, sym named ∙ ap (λ (s : Session). s.id) one ∙ was.named, sym is)
            | inr (off, old) ↦ inr (
              λ both. off (sym both.1),
              record { session = v; at_session = found; named = named; at_block = old },
            )
          ]
    ]

-- A block is added at the end of a session.
pub push-IsChanged :
    (ss : List Session) (si : ℕ) (s0 : Session) (f : Session → Session) (c : Block)
    → ((s : Session) → ((f s).id ≡ s.id) × ((f s).blocks ≡ s.blocks ++ c ∷ []))
    → get_elem? ss si ≡ some s0
    → IsChanged ss (modify ss si f) si (length s0.blocks) s0.id c
push-IsChanged ss si s0 f c same was i j id b p =
    elim (get_elem?-modify ss si i f p.session p.at_session) [
      | inr (ne, found) ↦ inr (
        λ both. ne (sym both.0),
        record { session = p.session; at_session = found; named = p.named; at_block = p.at_block },
      )
      | inl (v, e, found, eq) ↦
          let named : v.id ≡ id = sym (same v).0 ∙ ap (λ (s : Session). s.id) eq ∙ p.named in
          let found' : get_elem? ss si ≡ some v = rw e found in
          let one : v ≡ s0 = cc in
          let at : get_elem? (v.blocks ++ c ∷ []) j ≡ some b =
            ap (λ bs. get_elem? bs j) (sym (same v).1 ∙ ap (λ (s : Session). s.blocks) eq)
            ∙ p.at_block in
          elim (get_elem?-snoc v.blocks c j b at) [
            | inr (here, is) ↦ inl (
              sym e,
              here ∙ ap (λ (s : Session). length s.blocks) one,
              sym named ∙ ap (λ (s : Session). s.id) one,
              sym is,
            )
            | inl (lt, old) ↦
                let size : length v.blocks ≡ length s0.blocks =
                  ap (λ (s : Session). length s.blocks) one in
                inr (
                  λ both. absurd (omega (arith, lt, both.1, size)),
                  record { session = v; at_session = found; named = named; at_block = old },
                )
          ]
    ]

module _ (frames : FrameSource) (laws : FrameLaws frames) where
  open frames use {Pool}
  open laws use {IsFree}

  -- All blocks have their bytes, no two of them share a frame, and none has a free one.
  pub record IsFaithful (ss : List Session) (m : ℕ → ℕ → ℕ) (d : ℕ → Sector) (next : ℕ) (p : Pool)
      : Type 0 where
    pub content : (i j id : ℕ) (b : Block) → At ss i j id b → IsTrue m d next id j b
    pub alone :
        (i j id i' j' id' g : ℕ) (b b' : Block)
        → At ss i j id b
        → At ss i' j' id' b'
        → frame_of b ≡ some g
        → frame_of b' ≡ some g
        → (i ≡ i') × (j ≡ j')
    pub used : (i j id g : ℕ) (b : Block) → At ss i j id b → frame_of b ≡ some g → ¬ IsFree p g

  pub old-IsFaithful :
      (ss ss' : List Session) (m m' : ℕ → ℕ → ℕ) (d : ℕ → Sector) (next : ℕ) (p p' : Pool)
      → IsFaithful ss m d next p
      → IsOld ss ss'
      → ((i j id g : ℕ) (b : Block)
          → At ss i j id b
          → frame_of b ≡ some g
          → (m' g ≡ m g) × (¬ IsFree p' g))
      → IsFaithful ss' m' d next p'
  old-IsFaithful ss ss' m m' d next p p' h old keep = record {
    content = λ i j id b at.
        stays-IsTrue m m' d d next next id j b (λ g fr. (keep i j id g b (old i j id b at) fr).0)
          (λ n lt. refl) (omega arith) (h.content i j id b (old i j id b at));
    alone = λ i j id i' j' id' g b b' at at' fr fr'.
        h.alone i j id i' j' id' g b b' (old i j id b at) (old i' j' id' b' at') fr fr';
    used = λ i j id g b at fr. (keep i j id g b (old i j id b at) fr).1;
  }

  pub changed-IsFaithful :
      (ss ss' : List Session) (m m' : ℕ → ℕ → ℕ) (d d' : ℕ → Sector) (next next' : ℕ) (p p' : Pool)
      (si bi id0 : ℕ) (c : Block)
      → IsFaithful ss m d next p
      → IsChanged ss ss' si bi id0 c
      → IsTrue m' d' next' id0 bi c
      → ((g : ℕ) → frame_of c ≡ some g → ¬ IsFree p' g)
      → ((i j id g : ℕ) (b : Block)
          → At ss i j id b
          → ¬ ((i ≡ si) × (j ≡ bi))
          → frame_of b ≡ some g
          → (m' g ≡ m g) × (¬ IsFree p' g) × (frame_of c ≢ some g))
      → ((n : ℕ) → n < next → d' n ≡ d n)
      → next ≤ next'
      → IsFaithful ss' m' d' next' p'
  changed-IsFaithful ss ss' m m' d d' next next' p p' si bi id0 c h change true_ mine keep disk le =
      record {
        content = λ i j id b at. elim (change i j id b at) [
          | inl (ei, ej, eid, eb) ↦ rw (ej, eid, eb) true_
          | inr (off, old) ↦
              stays-IsTrue m m' d d' next next' id j b (λ g fr. (keep i j id g b old off fr).0) disk
                le (h.content i j id b old)
        ];
        alone = λ i j id i' j' id' g b b' at at' fr fr'. elim (change i j id b at) [
          | inl (ei, ej, eid, eb) ↦ elim (change i' j' id' b' at') [
            | inl (ei', ej', eid', eb') ↦ (ei ∙ sym ei', ej ∙ sym ej')
            | inr (off', old') ↦ absurd (
                (keep i' j' id' g b' old' off' fr').2
                  (subst (λ (x : Block). frame_of x ≡ some g) eb fr))
          ]
          | inr (off, old) ↦ elim (change i' j' id' b' at') [
            | inl (ei', ej', eid', eb') ↦ absurd (
                (keep i j id g b old off fr).2 (subst (λ (x : Block). frame_of x ≡ some g) eb' fr'))
            | inr (off', old') ↦ h.alone i j id i' j' id' g b b' old old' fr fr'
          ]
        ];
        used = λ i j id g b at fr. elim (change i j id b at) [
          | inl (ei, ej, eid, eb) ↦ mine g (subst (λ (x : Block). frame_of x ≡ some g) eb fr)
          | inr (off, old) ↦ (keep i j id g b old off fr).1
        ];
      }
