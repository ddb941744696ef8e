-- ===== src/Measure/Tests.antt =====
-- kernel/src/measure.rs: an image, and the one that was built.
use jungey_os.Prelude.{ℕ, ◌≡◌, ◌↔◌, true, List, [], ◌∷◌}
use jungey_os.Sha256.{digest}
use jungey_os.Sha256.Hex.{hex}
use jungey_os.Measure.{measure, measure_lem}

abbrev kernel_bytes : List ℕ
kernel_bytes = 1 ∷ 2 ∷ 3 ∷ []

abbrev built_bytes : List ℕ
built_bytes = 127 ∷ 69 ∷ 76 ∷ 70 ∷ []

abbrev altered_bytes : List ℕ
altered_bytes = 127 ∷ 69 ∷ 77 ∷ 70 ∷ []

measure_lem_example :
    ((measure kernel_bytes altered_bytes (hex (digest built_bytes))).ok ≡ true)
    ↔ (digest built_bytes ≡ digest altered_bytes)
measure_lem_example = measure_lem kernel_bytes built_bytes altered_bytes
