-- ===== src/Proc/Tests.antt =====
-- Runs of the process table: two processes, of which the second holds a capability that the kernel
-- then revokes.
use jungey_os.Prelude.{
  ℕ, ◌≡◌, ◌⊎◌, refl, true, false, Option, none, some, List, [], ◌∷◌, set, replicate, ok,
}
use jungey_os.Sched.{Thread, blocked}
use jungey_os.Cap.{Cap, Provenance, channel, root_for, derive_for, allows, is_descendant}
use jungey_os.Cap.Ledger.{IsLedger, root_for-IsLedger, derive_for-IsLedger}
use jungey_os.Cap.Tree.{Descends, here, up}
use jungey_os.Proc.{Process, install_cap, lookup_cap, kill, revoke}
use jungey_os.Proc.Revoke.{revoke_exact, allows-revoke}

abbrev top_cap : Cap
top_cap = record {
  id = 1;
  obj = channel 3;
  rights = 31;
  revoked = false;
  holder = "kernel";
  purpose = "console";
}

abbrev held_cap : Cap
held_cap = record {
  id = 2;
  obj = channel 3;
  rights = 1;
  revoked = false;
  holder = "driver";
  purpose = "to log";
}

abbrev delegations : List Provenance
delegations =
    record { parent = 0; holder = "kernel"; purpose = "console"; rights = 31 }
    ∷ record { parent = 1; holder = "driver"; purpose = "to log"; rights = 1 }
    ∷ []

abbrev process : List (Option Cap) → Process ℕ
process caps = record {
  pid = 0;
  name = "driver";
  space = 7;
  caps = caps;
  entry = 0x40_0000;
  stack_top = 0x7000_0000;
  arg = 0;
  exit_code = none;
  irq_seen = 0;
  vmas = [];
}

abbrev table : List (Process ℕ)
table = process (set (replicate 8 none) 0 (some held_cap)) ∷ []

-- A thread that waits for a message on the channel.
abbrev sleepers : List Thread
sleepers =
    record {
      id = 0;
      name = "driver";
      state = blocked 3;
      slices = 1;
      on_cpu = none;
      affinity = none;
      service = false;
      cpus_seen = 1;
      pid = some 0;
      ttbr0 = 7;
      stack_phys = 0x4400_0000;
    }
    ∷ []

abbrev after : List (Process ℕ)
after = process (set (replicate 8 none) 0 (some (record held_cap { revoked = true }))) ∷ []

delegations-IsLedger : IsLedger delegations
unfolding root_for derive_for
delegations-IsLedger =
    let first =
      root_for-IsLedger [] (channel 3) 31 "kernel" "console"
        (record { earlier = λ i p e. absurd (cc); narrower = λ i j p q e. absurd (cc) }) in
    (derive_for-IsLedger (root_for [] (channel 3) 31 "kernel" "console").1 top_cap 1 "driver"
      "to log" first.0 first.1).0

held-Descends : Descends delegations 1 2
held-Descends =
    up (record { parent = 1; holder = "driver"; purpose = "to log"; rights = 1 }) refl (here refl)

installed : install_cap (process (replicate 8 none) ∷ []) 0 0 held_cap ≡ ok table
unfolding install_cap
installed = refl

revoked_at :
    lookup_cap (revoke delegations 1 table sleepers).1 0 0
    ≡ some (record held_cap { revoked = true })
unfolding lookup_cap revoke kill is_descendant
revoked_at = refl

revoke_exact_example :
    ((lookup_cap table 0 0 ≡ none)
      × (lookup_cap (revoke delegations 1 table sleepers).1 0 0 ≡ none))
    ⊎ ((c : Cap) × (lookup_cap table 0 0 ≡ some c)
        × ((Descends delegations 1 c.id
              × (lookup_cap (revoke delegations 1 table sleepers).1 0 0
                  ≡ some (record c { revoked = true })))
            ⊎ ((¬ Descends delegations 1 c.id)
                × (lookup_cap (revoke delegations 1 table sleepers).1 0 0 ≡ some c))))
revoke_exact_example = revoke_exact delegations 1 table sleepers 0 0 delegations-IsLedger

allows-revoke_example : allows (record held_cap { revoked = true }) 1 ≡ false
allows-revoke_example =
    allows-revoke delegations 1 table sleepers 0 0 delegations-IsLedger
      (record held_cap { revoked = true }) 1 revoked_at held-Descends
