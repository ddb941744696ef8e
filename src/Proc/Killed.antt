-- ===== src/Proc/Killed.antt =====
-- What a revocation reports, how many capabilities died, and whom it wakes.
use jungey_os.Prelude.{ℕ, ◌+◌, ◌≡◌, refl, Option, none, some, List, [], ◌∷◌, arith, if◌then◌else◌}
use jungey_os.Sched.{Thread}
use jungey_os.Cap.{Cap, Provenance}
use jungey_os.Proc.{Process, Revoked, doomed, revoke_slot, revoke_slots, revoke_table, kill, revoke}

-- Capabilities that are held and not revoked.
abbrev pub live : Option Cap → ℕ
live none = 0
live (some c) = if c.revoked then 0 else 1

abbrev pub live_slots : List (Option Cap) → ℕ
live_slots [] = 0
live_slots (s ∷ ss) = live s + live_slots ss

abbrev pub live_caps : {Space : Type 0} → List (Process Space) → ℕ
live_caps [] = 0
live_caps (p ∷ ps) = live_slots p.caps + live_caps ps

module _ (l : List Provenance) (cap_id : ℕ) where
  killed-slot :
      (s : Option Cap) (r : Revoked)
      → (revoke_slot l cap_id s r).1.killed + live (revoke_slot l cap_id s r).0 ≡ r.killed + live s
  unfolding revoke_slot doomed
  killed-slot none r = refl
  killed-slot (some c) r = ground arith

  killed-slots :
      (ss : List (Option Cap)) (r : Revoked)
      → (revoke_slots l cap_id ss r).1.killed + live_slots (revoke_slots l cap_id ss r).0
        ≡ r.killed + live_slots ss
  unfolding revoke_slots
  killed-slots [] r = refl
  killed-slots (s ∷ ss) r =
      omega (arith, killed-slot s r, killed-slots ss (revoke_slot l cap_id s r).1)

  killed-table :
      {Space : Type 0} (ps : List (Process Space)) (r : Revoked)
      → (revoke_table l cap_id ps r).1.killed + live_caps (revoke_table l cap_id ps r).0
        ≡ r.killed + live_caps ps
  unfolding revoke_table
  killed-table [] r = refl
  killed-table (p ∷ ps) r =
      omega (arith, killed-slots p.caps r, killed-table ps (revoke_slots l cap_id p.caps r).1)

  -- The number that `revoke` returns is exact: the capabilities that were live before it are those
  -- that still are and those that it counts.
  pub killed-revoke :
      {Space : Type 0} (table : List (Process Space)) (threads : List Thread)
      → (revoke l cap_id table threads).0 + live_caps (revoke l cap_id table threads).1
        ≡ live_caps table
  unfolding revoke kill
  killed-revoke table threads =
      omega (arith, killed-table table (record { killed = 0; affected = [] }))
