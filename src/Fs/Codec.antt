-- ===== src/Fs/Codec.antt =====
-- kernel/src/fs.rs: the field helpers of the on-disk format, the checksum, and the seal. A slice is a
-- list of bytes; copying one into a sector is `copy_at`.
use jungey_os.Prelude.{
  ℕ, zero, suc, ◌+◌, ◌-◌, ◌*◌, ◌/◌, ◌%◌, ◌^◌, bit_and, bit_xor, Bool, List, [], ◌∷◌, ◌==◌,
  if◌then◌else◌,
}
use jungey_os.Disk.{Sector}

-- u32::to_le_bytes and u64::to_le_bytes, by the number of bytes
abbrev pub to_le_bytes : (n : ℕ) → ℕ → List ℕ
to_le_bytes zero v = []
to_le_bytes (suc n) v = v % 256 ∷ to_le_bytes n (v / 256)

abbrev pub from_le_bytes : List ℕ → ℕ
from_le_bytes [] = 0
from_le_bytes (b ∷ bs) = b + 256 * from_le_bytes bs

-- `b[at..at + xs.len()].copy_from_slice(xs)`
abbrev pub copy_at : Sector → ℕ → List ℕ → Sector
copy_at b start [] = b
copy_at b start (x ∷ xs) = copy_at (λ i. if i == start then x else b i) (start + 1) xs

-- `b[at..at + n]`
abbrev pub slice : Sector → ℕ → ℕ → List ℕ
slice b start zero = []
slice b start (suc n) = b start ∷ slice b (start + 1) n

unfoldable pub put_u32 : Sector → ℕ → ℕ → Sector
put_u32 b start v = copy_at b start (to_le_bytes 4 v)

unfoldable pub put_u64 : Sector → ℕ → ℕ → Sector
put_u64 b start v = copy_at b start (to_le_bytes 8 v)

unfoldable pub get_u32 : Sector → ℕ → ℕ
get_u32 b start = from_le_bytes (slice b start 4)

unfoldable pub get_u64 : Sector → ℕ → ℕ
get_u64 b start = from_le_bytes (slice b start 8)

-- `for _ in 0..8`; the mask is the low bit, negated as a 32-bit word.
crc_bits : (rounds crc : ℕ) → ℕ
crc_bits zero crc = crc
crc_bits (suc rounds) crc =
    crc_bits rounds (bit_xor (crc / 2) (bit_and 0xEDB8_8320 ((2 ^ 32 - bit_and crc 1) % 2 ^ 32)))

crc_bytes : (crc : ℕ) → List ℕ → ℕ
unfolding crc_bits
crc_bytes crc [] = crc
crc_bytes crc (b ∷ bs) = crc_bytes (crc_bits 8 (bit_xor crc b)) bs

unfoldable pub crc32 : List ℕ → ℕ
unfolding crc_bytes
crc32 bytes = 2 ^ 32 - 1 - crc_bytes 0xFFFF_FFFF bytes

abbrev pub crc_off : ℕ
crc_off = 508

unfoldable pub seal : Sector → Sector
seal sector = put_u32 sector crc_off (crc32 (slice sector 0 crc_off))

unfoldable pub intact : Sector → Bool
intact sector = crc32 (slice sector 0 crc_off) == get_u32 sector crc_off
