-- ===== src/Proc.antt =====
-- kernel/src/proc.rs: the process table, the capability slots and the demand-paged regions.
-- The address space is a type that the table carries and never looks into. The pointers that `get`
-- hands out stay valid, since the table only grows; here a process is read and written back.
pub mod Revoke
pub mod Killed
mod Tests
use jungey_os.Prelude.{
  ℕ, zero, suc, ◌+◌, ◌*◌, ◌-◌, Bool, true, false, not, ◌&&◌, String, Option, none, some, List, [],
  ◌∷◌, ◌++◌, ltb, leb, ◌==◌, if◌then◌else◌, length, get_elem?, set, replicate, Result, ok, err,
  ok_or,
}
use jungey_os.Sched.{Thread, wake_all_on}
use jungey_os.Cap.{Cap, Provenance, is_descendant, cap_channel}

abbrev pub cap_slots : ℕ
cap_slots = 8

abbrev pub page_size : ℕ
page_size = 4096

abbrev pub user_stack_top : ℕ
user_stack_top = 0x7000_0000

pub data VmaKind : Type 0 where
  model : (id : ℕ) → VmaKind

pub record Vma : Type 0 where
  pub start : ℕ
  pub pages : ℕ
  pub kind : VmaKind

pub record Process (Space : Type 0) : Type 0 where
  pub pid : ℕ
  pub name : String
  pub space : Space
  pub caps : List (Option Cap)
  pub entry : ℕ
  pub stack_top : ℕ
  pub arg : ℕ
  pub exit_code : Option ℕ
  pub irq_seen : ℕ
  pub vmas : List Vma

held : Option (Option Cap) → Option Cap
held none = none
held (some c) = c

covers : ℕ → Vma → Bool
covers va v = leb v.start va && ltb va (v.start + v.pages * page_size)

first_covering : ℕ → List Vma → Option Vma
unfolding covers
first_covering va [] = none
first_covering va (v ∷ vs) = if covers va v then some v else first_covering va vs

module _ {Space : Type 0} where
  -- The end of `create`: the address space is built, and `elf::load` has given the entry point.
  unfoldable pub create_loaded :
      List (Process Space) → String → Space → (entry arg : ℕ) → ℕ × List (Process Space)
  create_loaded table name space entry arg = (
    length table,
    table
        ++ record {
          pid = length table;
          name = name;
          space = space;
          caps = replicate cap_slots none;
          entry = entry;
          stack_top = user_stack_top;
          arg = arg;
          exit_code = none;
          irq_seen = 0;
          vmas = [];
        }
          ∷ [],
  )

  abbrev pub get : List (Process Space) → ℕ → Option (Process Space)
  get table pid = get_elem? table pid

  put_slot : Process Space → ℕ → Cap → Process Space
  put_slot p slot cap = record p { caps = set p.caps slot (some cap) }

  -- A refused call leaves the table as it was.
  unfoldable pub install_cap :
      List (Process Space) → (pid slot : ℕ) → Cap → Result (List (Process Space))
  unfolding put_slot
  install_cap table pid slot cap =
      if leb cap_slots slot then err "capability slot out of range" else elim (get table pid) [
        | none ↦ err "no such process"
        | some p ↦ ok (set table pid (put_slot p slot cap))
      ]

  slot_of : Option (Process Space) → ℕ → Option Cap
  unfolding held
  slot_of none slot = none
  slot_of (some p) slot = held (get_elem? p.caps slot)

  unfoldable pub lookup_cap : List (Process Space) → (pid slot : ℕ) → Option Cap
  unfolding slot_of
  lookup_cap table pid slot = if leb cap_slots slot then none else slot_of (get table pid) slot

  unfoldable pub add_vma : List (Process Space) → ℕ → Vma → List (Process Space)
  add_vma table pid vma = elim (get table pid) [
    | none ↦ table
    | some p ↦ set table pid (record p { vmas = p.vmas ++ vma ∷ [] })
  ]

  unfoldable pub find_vma : List (Process Space) → (pid va : ℕ) → Option Vma
  unfolding first_covering
  find_vma table pid va = elim (get table pid) [ none ↦ none | some p ↦ first_covering va p.vmas ]

-- What a revocation has counted so far.
pub record Revoked : Type 0 where
  pub killed : ℕ
  pub affected : List ℕ

unfoldable pub contains : List ℕ → ℕ → Bool
contains [] c = false
contains (d ∷ ds) c = if d == c then true else contains ds c

note_channel : Option ℕ → List ℕ → List ℕ
unfolding contains
note_channel none chans = chans
note_channel (some ch) chans = if contains chans ch then chans else chans ++ ch ∷ []

-- The answer of `is_descendant`, which always comes (`Cap.Tree.is_descendant-Decides`).
answer : Option Bool → Bool
answer none = false
answer (some b) = b

doomed : List Provenance → ℕ → Cap → Bool
unfolding answer
doomed l cap_id c = not c.revoked && answer (is_descendant l c.id cap_id)

revoke_slot : List Provenance → ℕ → Option Cap → Revoked → Option Cap × Revoked
unfolding doomed note_channel
revoke_slot l cap_id none r = (none, r)
revoke_slot l cap_id (some c) r =
    if doomed l cap_id c
    then (
      some (record c { revoked = true }),
      record { killed = r.killed + 1; affected = note_channel (cap_channel c) r.affected },
    )
    else (some c, r)

revoke_slots : List Provenance → ℕ → List (Option Cap) → Revoked → List (Option Cap) × Revoked
unfolding revoke_slot
revoke_slots l cap_id [] r = ([], r)
revoke_slots l cap_id (s ∷ ss) r =
    let (s', r') = revoke_slot l cap_id s r in
    let (ss', r'') = revoke_slots l cap_id ss r' in (s' ∷ ss', r'')

module _ {Space : Type 0} where
  revoke_table :
      List Provenance → ℕ → List (Process Space) → Revoked → List (Process Space) × Revoked
  unfolding revoke_slots
  revoke_table l cap_id [] r = ([], r)
  revoke_table l cap_id (p ∷ ps) r =
      let (caps', r') = revoke_slots l cap_id p.caps r in
      let (ps', r'') = revoke_table l cap_id ps r' in (record p { caps = caps' } ∷ ps', r'')

  -- Under the lock: the new table, how many capabilities died, and their channels.
  unfoldable pub kill : List Provenance → ℕ → List (Process Space) → List (Process Space) × Revoked
  unfolding revoke_table
  kill l cap_id table = revoke_table l cap_id table (record { killed = 0; affected = [] })

-- `for ch in affected_channels`
unfoldable pub wake_channels : List ℕ → List Thread → List Thread
wake_channels [] threads = threads
wake_channels (ch ∷ chs) threads = wake_channels chs (wake_all_on threads ch)

-- How many died, the new table, and the threads after the wakes.
unfoldable pub revoke :
    {Space : Type 0}
    → List Provenance
    → ℕ
    → List (Process Space)
    → List Thread
    → ℕ × List (Process Space) × List Thread
revoke l cap_id table threads =
    let (table, r) = kill l cap_id table in (r.killed, table, wake_channels r.affected threads)
