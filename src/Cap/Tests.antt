-- ===== src/Cap/Tests.antt =====
-- Runs of the capability ledger: a root, what a driver derives from it, and what that one hands on.
use jungey_os.Prelude.{◌≡◌, refl, true, some, List, [], ◌≤◌, arith, length, get_elem?}
use jungey_os.Cap.{Cap, Provenance, channel, root_for, derive_for, is_descendant}
use jungey_os.Cap.Ledger.{IsLedger, IsMinted, root_for-IsLedger, derive_for-IsLedger}
use jungey_os.Cap.Tree.{Descends, Decides, is_descendant-Decides}

abbrev kernel_ledger : List Provenance
kernel_ledger = (root_for [] (channel 3) 31 "kernel" "console").1

abbrev kernel_cap : Cap
kernel_cap = (root_for [] (channel 3) 31 "kernel" "console").0

abbrev driver_ledger : List Provenance
driver_ledger = (derive_for kernel_ledger kernel_cap 5 "driver" "to log").1

abbrev driver_cap : Cap
driver_cap = (derive_for kernel_ledger kernel_cap 5 "driver" "to log").0

empty-IsLedger : IsLedger []
empty-IsLedger = record { earlier = λ i p e. absurd (cc); narrower = λ i j p q e. absurd (cc) }

derive_for-IsLedger_example : IsLedger driver_ledger × IsMinted driver_ledger driver_cap
derive_for-IsLedger_example =
    derive_for-IsLedger kernel_ledger kernel_cap 5 "driver" "to log"
      (root_for-IsLedger [] (channel 3) 31 "kernel" "console" empty-IsLedger).0
      (root_for-IsLedger [] (channel 3) 31 "kernel" "console" empty-IsLedger).1

driver_ledger-IsLedger : IsLedger driver_ledger
driver_ledger-IsLedger =
    (derive_for-IsLedger kernel_ledger kernel_cap 5 "driver" "to log"
      (root_for-IsLedger [] (channel 3) 31 "kernel" "console" empty-IsLedger).0
      (root_for-IsLedger [] (channel 3) 31 "kernel" "console" empty-IsLedger).1).0

is_descendant-Decides_example :
    Decides (is_descendant driver_ledger 2 1) (Descends driver_ledger 1 2)
is_descendant-Decides_example = is_descendant-Decides driver_ledger 1 driver_ledger-IsLedger 2

driver_runs : is_descendant driver_ledger 2 1 ≡ some true
unfolding is_descendant derive_for root_for
driver_runs = refl

abbrev kernel_entry : Provenance
kernel_entry = record { parent = 0; holder = "kernel"; purpose = "console"; rights = 31 }

abbrev driver_entry : Provenance
driver_entry = record { parent = 1; holder = "driver"; purpose = "to log"; rights = 5 }

driver_found : get_elem? driver_ledger 1 ≡ some driver_entry
unfolding derive_for root_for
driver_found = refl

kernel_found : get_elem? driver_ledger 0 ≡ some kernel_entry
unfolding derive_for root_for
kernel_found = refl

two_minted : 2 ≤ length driver_ledger
unfolding derive_for root_for
two_minted = omega arith
