-- ===== src/Cap.antt =====
-- kernel/src/cap.rs: capabilities, and the ledger of every capability ever minted.
-- The ledger, a static behind a lock there, is an argument and a result of each function here.
-- Identifiers are the ledger's length after a push, and stay below 2 ^ 64.
pub mod Ledger
pub mod Tree
mod Tests
use jungey_os.Prelude.{
  ℕ, zero, suc, ◌+◌, ◌-◌, ◌≡◌, Bool, true, false, not, ◌&&◌, String, Option, none, some, List, [],
  ◌∷◌, ◌++◌, bit_and, bit_or, ◌==◌, if◌then◌else◌, length, get_elem?,
}

abbrev pub right_send : ℕ
right_send = 1

abbrev pub right_recv : ℕ
right_recv = 2

abbrev pub right_grant : ℕ
right_grant = 4

abbrev pub right_map : ℕ
right_map = 8

abbrev pub right_irq : ℕ
right_irq = 16

abbrev pub rights_all : ℕ
rights_all = bit_or (bit_or (bit_or (bit_or right_send right_recv) right_grant) right_map) right_irq

pub data Obj : Type 0 where
  channel : ℕ → Obj
  mmio : (base size : ℕ) → Obj
  irq : ℕ → Obj
  dma : (base pages : ℕ) → Obj
  operation : String → Obj

pub record Cap : Type 0 where
  pub id : ℕ
  pub obj : Obj
  pub rights : ℕ
  pub revoked : Bool
  pub holder : String
  pub purpose : String

pub record Provenance : Type 0 where
  pub parent : ℕ
  pub holder : String
  pub purpose : String
  pub rights : ℕ

-- The entry of the capability `id` stands at `id - 1`; 0 is no capability.
unfoldable pub register : List Provenance → ℕ → String → String → ℕ → ℕ × List Provenance
register l parent holder purpose rights =
    let l' =
      l ++ record { parent = parent; holder = holder; purpose = purpose; rights = rights } ∷ [] in
    (length l', l')

-- `while cur != 0 && n < out.len()`: `room` is `out.len() - n`, and the list is what was written.
unfoldable pub chain : List Provenance → (room : ℕ) → ℕ → List (ℕ × Provenance)
chain l zero cur = []
chain l (suc room) zero = []
chain l (suc room) (suc i) = elim (get_elem? l i) [
  | none ↦ []
  | some p ↦ (suc i, p) ∷ chain l room p.parent
]

unfoldable pub root_for : List Provenance → Obj → ℕ → String → String → Cap × List Provenance
unfolding register
root_for l obj rights holder purpose =
    let (id, l') = register l 0 holder purpose rights in
    (
      record {
        id = id;
        obj = obj;
        rights = rights;
        revoked = false;
        holder = holder;
        purpose = purpose;
      },
      l',
    )

unfoldable pub root : List Provenance → Obj → ℕ → Cap × List Provenance
unfolding root_for
root l obj rights = root_for l obj rights "kernel" "created the object"

unfoldable pub derive_for : List Provenance → Cap → ℕ → String → String → Cap × List Provenance
unfolding register
derive_for l c rights holder purpose =
    let kept = bit_and c.rights rights in
    let (id, l') = register l c.id holder purpose kept in
    (
      record {
        id = id;
        obj = c.obj;
        rights = kept;
        revoked = c.revoked;
        holder = holder;
        purpose = purpose;
      },
      l',
    )

unfoldable pub derive : List Provenance → Cap → ℕ → Cap × List Provenance
unfolding derive_for
derive l c rights = derive_for l c rights "unnamed" "unstated"

unfoldable pub allows : Cap → ℕ → Bool
allows c right = not c.revoked && not (bit_and c.rights right == 0)

obj_channel : Obj → Option ℕ
obj_channel (channel c) = some c
obj_channel _ = none

unfoldable pub cap_channel : Cap → Option ℕ
unfolding obj_channel
cap_channel c = obj_channel c.obj

-- `while cur != 0`, with fuel; `none` means that the fuel ran out.
unfoldable pub climb : ℕ → List Provenance → (cur ancestor : ℕ) → Option Bool
climb zero l cur ancestor = none
climb (suc fuel) l zero ancestor = some false
climb (suc fuel) l (suc i) ancestor =
    let rest : Option Bool = elim (get_elem? l i) [
      | some p ↦ climb fuel l p.parent ancestor
      | none ↦ some false
    ] in
    if suc i == ancestor then some true else rest

-- One step for each entry of the ledger, and one to stop.
unfoldable pub is_descendant : List Provenance → (id ancestor : ℕ) → Option Bool
unfolding climb
is_descendant l id ancestor = climb (suc (length l)) l id ancestor

unfoldable pub minted : List Provenance → ℕ
minted l = length l
