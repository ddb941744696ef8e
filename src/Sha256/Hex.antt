-- ===== src/Sha256/Hex.antt =====
-- kernel/src/sha256.rs: digests as hexadecimal digits.
use jungey_os.Prelude.{
  ℕ, ◌+◌, ◌-◌, ◌*◌, ◌/◌, ◌%◌, ◌<◌, ◌≡◌, refl, ap, arith, ◌&&◌, Option, none, some, List, [], ◌∷◌,
  length, All, leb, ltb, ◌==◌, if◌then◌else◌,
}

-- b"0123456789abcdef"[n].
unfoldable pub digit_of : ℕ → ℕ
digit_of n = if ltb n 10 then 48 + n else 87 + n

unfoldable pub hex : List ℕ → List ℕ
hex [] = []
hex (b ∷ bs) = digit_of (b / 16) ∷ digit_of (b % 16) ∷ hex bs

unfoldable pub nibble : ℕ → Option ℕ
nibble c =
    if leb 48 c && leb c 57
    then some (c - 48)
    else if leb 97 c && leb c 102
    then some (c - 97 + 10)
    else if leb 65 c && leb c 70
    then some (c - 65 + 10)
    else none

-- The low four bits of `hi << 4` are zero, so that `|` adds.
abbrev pub byte_of : (hi lo : ℕ) → ℕ
byte_of hi lo = hi * 16 % 256 + lo

abbrev pub join_digits : Option ℕ → Option ℕ → Option (List ℕ) → Option (List ℕ)
join_digits none lo rest = none
join_digits (some hi) none rest = none
join_digits (some hi) (some lo) none = none
join_digits (some hi) (some lo) (some rest) = some (byte_of hi lo ∷ rest)

-- The loop over the 32 pairs of digits.
unfoldable pub from_digits : List ℕ → Option (List ℕ)
from_digits [] = some []
from_digits (c ∷ []) = none
from_digits (c ∷ d ∷ cs) = join_digits (nibble c) (nibble d) (from_digits cs)

unfoldable pub from_hex : List ℕ → Option (List ℕ)
from_hex s = let parsed = from_digits s in if length s == 64 then parsed else none

nibble-digit_of : (n : ℕ) → n < 16 → nibble (digit_of n) ≡ some n
unfolding nibble digit_of
nibble-digit_of n h = ground arith

length-hex : (d : List ℕ) → length (hex d) ≡ 2 * length d
unfolding hex
length-hex [] = refl
length-hex (b ∷ bs) = omega (arith, length-hex bs)

from_digits-hex : (d : List ℕ) → All (λ b. b < 256) d → from_digits (hex d) ≡ some d
unfolding hex from_digits
from_digits-hex [] h = refl
from_digits-hex (b ∷ bs) h =
    rw
      (
        nibble-digit_of (b / 16) (omega arith),
        nibble-digit_of (b % 16) (omega arith),
        from_digits-hex bs h.1,
      )
      (ap (λ n. some (n ∷ bs)) (omega arith))

-- A digest survives being written as 64 hexadecimal digits and parsed again.
pub from_hex-hex : (d : List ℕ) → length d ≡ 32 → All (λ b. b < 256) d → from_hex (hex d) ≡ some d
unfolding from_hex
from_hex-hex d n h =
    let size : length (hex d) ≡ 64 = omega (arith, length-hex d) in
    rw (size, from_digits-hex d h) refl
