-- ===== src/Kv/Keep.antt =====
-- kernel/src/kv.rs: what eviction leaves as it is, and the blocks that a session finds by its id.
use jungey_os.Prelude.{
  ℕ, ◌+◌, ◌≡◌, inl, inr, refl, sym, ◌∙◌, ap, arith, ℕ_discrete, Bool-cases, ltb, ltb→lt, some, List,
  length, get_elem?, set, modify, get_elem?-lt, get_elem?-some, get_elem?-set_ne,
  get_elem?-modify_at, get_elem?-modify_ne, length-modify,
}
use jungey_os.Prelude.Find.{IsFirst, find, find_cases, modify_first, modify_first_cases}
use jungey_os.Kv.{Block, Session, put_block}
use jungey_os.Kv.Ops.{has_id}
use jungey_os.Kv.Count.{frames_of, framed, framed_in, framed-set, framed_in-modify}

module _ (Q : Block → Type 0) where
  -- The same session, with the same blocks of this kind.
  abbrev pub IsKept : Session → Session → Type 0
  IsKept s t =
      (t.id ≡ s.id)
      × ((j : ℕ) (b : Block) → Q b → get_elem? s.blocks j ≡ some b → get_elem? t.blocks j ≡ some b)

  pub record Keeps (ss ts : List Session) : Type 0 where
    pub same_length : length ts ≡ length ss
    pub kept :
        (i : ℕ) (s : Session)
        → get_elem? ss i ≡ some s
        → (t : Session) × (get_elem? ts i ≡ some t) × IsKept s t

  pub Keeps-refl : (ss : List Session) → Keeps ss ss
  Keeps-refl ss = record { same_length = refl; kept = λ i s h. (s, h, (refl, λ j b q g. g)) }

  pub Keeps-trans : (ss ts us : List Session) → Keeps ss ts → Keeps ts us → Keeps ss us
  Keeps-trans ss ts us a b = record {
    same_length = b.same_length ∙ a.same_length;
    kept = λ i s h.
        let (t, at, (same, blocks)) = a.kept i s h in
        let (u, at', (same', blocks')) = b.kept i t at in
        (u, at', (same' ∙ same, λ j b q g. blocks' j b q (blocks j b q g)));
  }

  pub Keeps-modify :
      (ss : List Session) (si : ℕ) (f : Session → Session)
      → ((s : Session) → get_elem? ss si ≡ some s → IsKept s (f s))
      → Keeps ss (modify ss si f)
  Keeps-modify ss si f h = record {
    same_length = length-modify ss si f;
    kept = λ i s at. elim (ℕ_discrete si i) [
      | yes e ↦ (f s, get_elem?-modify_at ss si i f s e at, h s (rw e at))
      | no ne ↦ (s, get_elem?-modify_ne ss si i f ne ∙ at, (refl, λ j b q g. g))
    ];
  }

  -- A block of another kind is replaced.
  pub IsKept-put :
      (s : Session) (bi : ℕ) (b c : Block)
      → get_elem? s.blocks bi ≡ some b
      → ¬ Q b
      → IsKept s (put_block bi c s)
  IsKept-put s bi b c at other = (
    refl,
    λ j d q g. elim (ℕ_discrete bi j) [
      | yes e ↦
          let g' : get_elem? s.blocks bi ≡ some d = rw e g in
          let same : d ≡ b = cc in let q' : Q b = rw (sym same) q in absurd (other q')
      | no ne ↦ get_elem?-set_ne s.blocks bi j c ne ∙ g
    ],
  )

-- The block of the session that is found by this id.
pub record BlockAt (ss : List Session) (id index : ℕ) (b : Block) : Type 0 where
  pub place : ℕ
  pub first : IsFirst (has_id id) ss place
  pub at_block : get_elem? first.item.blocks index ≡ some b

pub Keeps-BlockAt :
    (Q : Block → Type 0) (ss ts : List Session) (id index : ℕ) (b : Block)
    → Keeps Q ss ts
    → Q b
    → BlockAt ss id index b
    → BlockAt ts id index b
Keeps-BlockAt Q ss ts id index b k q p =
    let f = p.first in
    let (t, at, (same, blocks)) = k.kept p.place f.item f.at_place in
    record {
      place = p.place;
      first = record {
        item = t;
        at_place = at;
        passes = rw same f.passes;
        first = λ j x lt e.
            let in_range = get_elem?-lt ts j x e in
            let (y, at_y) = get_elem?-some ss j (omega (arith, k.same_length)) in
            let (z, at_z, (same_z, rest)) = k.kept j y at_y in
            let x_is : x ≡ z = cc in rw (x_is, same_z) (f.first j y lt at_y);
      };
      at_block = blocks index b q p.at_block;
    }

pub find-BlockAt :
    (ss : List Session) (id index : ℕ) (s : Session) (b : Block)
    → find (has_id id) ss ≡ some s
    → get_elem? s.blocks index ≡ some b
    → BlockAt ss id index b
find-BlockAt ss id index s b h g = elim (find_cases (has_id id) ss) [
  | inl (e, n) ↦ cc
  | inr (i, f, e, at) ↦
      let same : s ≡ f.item = cc in record { place = i; first = f; at_block = rw same at g }
]

-- There is one first.
pub first_same :
    (id : ℕ) (ss : List Session) (i j : ℕ)
    → IsFirst (has_id id) ss i
    → IsFirst (has_id id) ss j
    → i ≡ j
first_same id ss i j f g = elim (Bool-cases (ltb i j)) [
  | inl before ↦
      let no' = g.first i f.item (ltb→lt i j before) f.at_place in let yes' = f.passes in cc
  | inr later ↦ elim (Bool-cases (ltb j i)) [
    | inl before ↦
        let no' = f.first j g.item (ltb→lt j i before) g.at_place in let yes' = g.passes in cc
    | inr not_later ↦ ground arith
  ]
]

-- The block of that session is replaced by another.
pub replace-framed :
    (ss : List Session) (id index : ℕ) (b c : Block) (f : Session → Session)
    → ((s : Session) → (f s).blocks ≡ set s.blocks index c)
    → BlockAt ss id index b
    → framed_in (modify_first (has_id id) f ss) + frames_of b ≡ framed_in ss + frames_of c
replace-framed ss id index b c f h p = elim (modify_first_cases (has_id id) f ss) [
  | inl (e, none') ↦
      let no' = none' p.place p.first.item p.first.at_place in let yes' = p.first.passes in cc
  | inr (i, g, e) ↦
      let same = first_same id ss i p.place g p.first in
      let at : get_elem? ss i ≡ some p.first.item = rw same p.first.at_place in
      rw (e) (
        omega (
          arith,
          framed_in-modify ss i f p.first.item at,
          ap framed (h p.first.item),
          framed-set p.first.item.blocks index b c p.at_block,
        ))
]
