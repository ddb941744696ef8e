-- ===== src/Cap/Ledger.antt =====
-- The ledger: what every function that mints a capability keeps.
use jungey_os.Prelude.{
  ℕ, suc, ◌≤◌, ◌≡◌, ◌≢◌, String, some, List, [], ◌∷◌, ◌++◌, arith, bit_and, ◌^◌, ◌&&◌, not, ◌==◌,
  length, length-append, get_elem?, get_elem?-append_old, get_elem?-append_last, get_elem?-lt,
  get_elem?-snoc, ap, ◌∙◌, inl, inr, refl,
}
use jungey_os.Prelude.Bits.{bit_and_narrows, flag-bit_and}
use jungey_os.Cap.{Cap, Obj, Provenance, root_for, derive_for, allows}

-- Each right that `a` has, `b` has.
abbrev pub Within : ℕ → ℕ → Type 0
Within a b = (right : ℕ) → bit_and a right ≢ 0 → bit_and b right ≢ 0

-- A parent was minted before its child, and had every right that the child has.
pub record IsLedger (l : List Provenance) : Type 0 where
  pub earlier : (i : ℕ) (p : Provenance) → get_elem? l i ≡ some p → p.parent ≤ i
  pub narrower :
      (i j : ℕ) (p q : Provenance)
      → get_elem? l i ≡ some p
      → p.parent ≡ suc j
      → get_elem? l j ≡ some q
      → Within p.rights q.rights

-- The entry of a capability, with the rights that the capability has.
pub record IsMinted (l : List Provenance) (c : Cap) : Type 0 where
  pub index : ℕ
  pub entry : Provenance
  pub at_id : c.id ≡ suc index
  pub found : get_elem? l index ≡ some entry
  pub same_rights : entry.rights ≡ c.rights

module _ (l : List Provenance) (entry : Provenance) (ledger : IsLedger l)
    (before : entry.parent ≤ length l)
    (narrow : (j : ℕ) (q : Provenance)
      → entry.parent ≡ suc j
      → get_elem? l j ≡ some q
      → Within entry.rights q.rights) where
  snoc-earlier : (i : ℕ) (p : Provenance) → get_elem? (l ++ entry ∷ []) i ≡ some p → p.parent ≤ i
  snoc-earlier i p e = elim (get_elem?-snoc l entry i p e) [
    | inl old ↦ ledger.earlier i p old.1
    | inr new ↦ omega (arith, ap (λ (q : Provenance). q.parent) new.1)
  ]

  snoc-narrower :
      (i j : ℕ) (p q : Provenance)
      → get_elem? (l ++ entry ∷ []) i ≡ some p
      → p.parent ≡ suc j
      → get_elem? (l ++ entry ∷ []) j ≡ some q
      → Within p.rights q.rights
  snoc-narrower i j p q e up f = elim (get_elem?-snoc l entry j q f) [
    | inl below ↦ elim (get_elem?-snoc l entry i p e) [
      | inl old ↦ ledger.narrower i j p q old.1 up below.1
      | inr new ↦ rw (← new.1) (narrow j q (rw (← new.1) at up) below.1)
    ]
    | inr top ↦
        absurd
          (omega (arith, snoc-earlier i p e, get_elem?-lt _ i p e, length-append l (entry ∷ [])))
  ]

  pub snoc-IsLedger : IsLedger (l ++ entry ∷ [])
  snoc-IsLedger = record { earlier = snoc-earlier; narrower = snoc-narrower }

-- A new object starts a tree of its own.
pub root_for-IsLedger :
    (l : List Provenance) (obj : Obj) (rights : ℕ) (holder purpose : String)
    → IsLedger l
    → IsLedger (root_for l obj rights holder purpose).1
      × IsMinted (root_for l obj rights holder purpose).1 (root_for l obj rights holder purpose).0
unfolding root_for
root_for-IsLedger l obj rights holder purpose h = (
  snoc-IsLedger l _ h (omega arith) (λ j q e. absurd (omega arith)),
  record {
    index = length l;
    entry = record { parent = 0; holder = holder; purpose = purpose; rights = rights };
    at_id = omega (arith, length-append l (_ ∷ []));
    found = get_elem?-append_last l _ (length l) refl;
    same_rights = refl;
  },
)

-- The entry that a capability's identifier leads to is its own.
minted-rights :
    {l : List Provenance} {c : Cap} (m : IsMinted l c) (j : ℕ) (q : Provenance)
    → c.id ≡ suc j
    → get_elem? l j ≡ some q
    → q.rights ≡ c.rights
minted-rights {l} m j q e f =
    let same : j ≡ m.index = omega (arith, m.at_id) in
    let found : get_elem? l m.index ≡ some q = rw (← same) f in cc (m.found, m.same_rights)

-- Whatever is asked for, deriving keeps the ledger a record of narrowing authority.
pub derive_for-IsLedger :
    (l : List Provenance) (c : Cap) (rights : ℕ) (holder purpose : String)
    → IsLedger l
    → IsMinted l c
    → IsLedger (derive_for l c rights holder purpose).1
      × IsMinted (derive_for l c rights holder purpose).1 (derive_for l c rights holder purpose).0
unfolding derive_for
derive_for-IsLedger l c rights holder purpose h m = (
  snoc-IsLedger l _ h (omega (arith, m.at_id, get_elem?-lt l m.index m.entry m.found))
      (λ j q e f r k.
        let same : q.rights ≡ c.rights = minted-rights m j q e f in
        rw same (bit_and_narrows c.rights rights r k)),
  record {
    index = length l;
    entry = record {
      parent = c.id;
      holder = holder;
      purpose = purpose;
      rights = bit_and c.rights rights;
    };
    at_id = omega (arith, length-append l (_ ∷ []));
    found = get_elem?-append_last l _ (length l) refl;
    same_rights = refl;
  },
)

-- A capability minted before stays minted, under the same entry.
pub snoc-IsMinted :
    (l : List Provenance) (entry : Provenance) (c : Cap)
    → IsMinted l c
    → IsMinted (l ++ entry ∷ []) c
snoc-IsMinted l entry c m = record {
  index = m.index;
  entry = m.entry;
  at_id = m.at_id;
  same_rights = m.same_rights;
  found =
      get_elem?-append_old l (entry ∷ []) m.index (get_elem?-lt l m.index m.entry m.found)
      ∙ m.found;
}

-- Deriving hands on the object and the revocation, and the intersection of the rights: the new
-- capability allows a single right exactly when the old one does and it was asked for.
pub allows-derive_for :
    (l : List Provenance) (c : Cap) (rights : ℕ) (holder purpose : String) (k : ℕ)
    → (allows (derive_for l c rights holder purpose).0 (2 ^ k)
        ≡ (allows c (2 ^ k) && not (bit_and rights (2 ^ k) == 0)))
      × ((derive_for l c rights holder purpose).0.obj ≡ c.obj)
      × ((derive_for l c rights holder purpose).0.revoked ≡ c.revoked)
unfolding allows derive_for
allows-derive_for l c rights holder purpose k =
    (ground (arith, flag-bit_and k c.rights rights), refl, refl)
