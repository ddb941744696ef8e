-- ===== src/Proc/Revoke.antt =====
-- Revocation: the loop over every slot of every process.
use jungey_os.Prelude.{
  ℕ, zero, suc, ◌≡◌, ◌⊎◌, inl, inr, refl, subst, ap, ap₂, map, true, false, Option, none, some,
  List, [], ◌∷◌, arith, get_elem?, leb, Bool-cases, Option-cases, if◌then◌else◌,
}
use jungey_os.Sched.{Thread}
use jungey_os.Cap.{Cap, Provenance, allows}
use jungey_os.Cap.Ledger.{IsLedger}
use jungey_os.Cap.Tree.{Descends, is_descendant-Decides}
use jungey_os.Proc.{
  Process, Revoked, doomed, answer, revoke_slot, revoke_slots, revoke_table, kill, revoke,
  lookup_cap, get, held, slot_of, cap_slots,
}

-- What becomes of one capability.
pub cut : List Provenance → ℕ → Cap → Cap
cut l cap_id c = if doomed l cap_id c then record c { revoked = true } else c

pub cut_slot : List Provenance → ℕ → Option Cap → Option Cap
cut_slot l cap_id none = none
cut_slot l cap_id (some c) = some (cut l cap_id c)

module _ (l : List Provenance) (cap_id : ℕ) where
  slot-cut : (s : Option Cap) (r : Revoked) → (revoke_slot l cap_id s r).0 ≡ cut_slot l cap_id s
  unfolding revoke_slot cut_slot cut
  slot-cut none r = refl
  slot-cut (some c) r = ground arith

  slots-cut :
      (ss : List (Option Cap)) (r : Revoked)
      → (revoke_slots l cap_id ss r).0 ≡ map (cut_slot l cap_id) ss
  unfolding revoke_slots
  slots-cut [] r = refl
  slots-cut (s ∷ ss) r = ap₂ ◌∷◌ (slot-cut s r) (slots-cut ss (revoke_slot l cap_id s r).1)

  slot-map :
      (caps : List (Option Cap)) (slot : ℕ)
      → held (get_elem? (map (cut_slot l cap_id) caps) slot)
        ≡ cut_slot l cap_id (held (get_elem? caps slot))
  unfolding cut_slot held
  slot-map [] slot = refl
  slot-map (c ∷ caps) zero = refl
  slot-map (c ∷ caps) (suc slot) = slot-map caps slot

module _ {Space : Type 0} (l : List Provenance) (cap_id : ℕ) where
  abbrev cut_process : Process Space → Process Space
  cut_process p = record p { caps = map (cut_slot l cap_id) p.caps }

  table-cut :
      (ps : List (Process Space)) (r : Revoked)
      → (revoke_table l cap_id ps r).0 ≡ map cut_process ps
  unfolding revoke_table
  table-cut [] r = refl
  table-cut (p ∷ ps) r =
      ap₂ ◌∷◌
        (ap (λ (cs : List (Option Cap)). record p { caps = cs }) (slots-cut l cap_id p.caps r))
        (table-cut ps (revoke_slots l cap_id p.caps r).1)

  in_table-map :
      (table : List (Process Space)) (pid slot : ℕ)
      → slot_of (get (map cut_process table) pid) slot
        ≡ cut_slot l cap_id (slot_of (get table pid) slot)
  unfolding cut_slot slot_of
  in_table-map [] pid slot = refl
  in_table-map (p ∷ table) zero slot = slot-map l cap_id p.caps slot
  in_table-map (p ∷ table) (suc pid) slot = in_table-map table pid slot

  lookup-map :
      (table : List (Process Space)) (pid slot : ℕ)
      → lookup_cap (map cut_process table) pid slot ≡ cut_slot l cap_id (lookup_cap table pid slot)
  unfolding lookup_cap cut_slot
  lookup-map table pid slot = elim (Bool-cases (leb cap_slots slot)) [
    | inl out ↦ rw out
    | inr within ↦ rw within (in_table-map table pid slot)
  ]

  pub lookup_cap-cut :
      (table : List (Process Space)) (threads : List Thread) (pid slot : ℕ)
      → lookup_cap (revoke l cap_id table threads).1 pid slot
        ≡ cut_slot l cap_id (lookup_cap table pid slot)
  unfolding revoke kill
  lookup_cap-cut table threads pid slot =
      rw (table-cut table (record { killed = 0; affected = [] })) (lookup-map table pid slot)

-- The one test of the loop, read through the meaning of `is_descendant`.
cut-exact :
    (l : List Provenance) (cap_id : ℕ) (c : Cap)
    → IsLedger l
    → (Descends l cap_id c.id × (cut l cap_id c ≡ record c { revoked = true }))
      ⊎ ((¬ Descends l cap_id c.id) × (cut l cap_id c ≡ c))
unfolding cut doomed answer
cut-exact l cap_id c ledger = elim (is_descendant-Decides l cap_id ledger c.id) [
  | inl (e, d) ↦ inl (d, rw e (ground arith))
  | inr (e, n) ↦ inr (n, rw e (ground arith))
]

module _ {Space : Type 0} (l : List Provenance) (cap_id : ℕ) (table : List (Process Space))
    (threads : List Thread) (pid slot : ℕ) (ledger : IsLedger l) where
  -- `revoke` cuts one edge of the tree: in every slot of every process a capability that descends
  -- from `cap_id` is marked revoked, any other is left exactly as it was, and an empty slot stays
  -- empty.
  pub revoke_exact :
      ((lookup_cap table pid slot ≡ none)
        × (lookup_cap (revoke l cap_id table threads).1 pid slot ≡ none))
      ⊎ ((c : Cap) × (lookup_cap table pid slot ≡ some c)
          × ((Descends l cap_id c.id
                × (lookup_cap (revoke l cap_id table threads).1 pid slot
                    ≡ some (record c { revoked = true })))
              ⊎ ((¬ Descends l cap_id c.id)
                  × (lookup_cap (revoke l cap_id table threads).1 pid slot ≡ some c))))
  unfolding cut_slot
  revoke_exact =
      rw (lookup_cap-cut l cap_id table threads pid slot)
        (elim (Option-cases (lookup_cap table pid slot)) [
          | inl e ↦ inl (e, rw e)
          | inr (c, e) ↦ inr (
            c,
            e,
            elim (cut-exact l cap_id c ledger) [
              | inl (d, done) ↦ inl (d, rw e (ap some done))
              | inr (n, kept) ↦ inr (n, rw e (ap some kept))
            ],
          )
        ])

  -- After `revoke` no capability that descends from `cap_id` allows any right, in any slot.
  pub allows-revoke :
      (c : Cap) (right : ℕ)
      → lookup_cap (revoke l cap_id table threads).1 pid slot ≡ some c
      → Descends l cap_id c.id
      → allows c right ≡ false
  unfolding allows
  allows-revoke c right e d = elim revoke_exact [
    | inl (_, gone) ↦ cc
    | inr (b, _, inl (_, done)) ↦ ground arith
    | inr (b, _, inr (n, kept)) ↦
        let same : c.id ≡ b.id = ground arith in absurd (n (subst (Descends l cap_id) same d))
  ]
