-- ===== src/Ota/Payload.antt =====
-- kernel/src/ota.rs: the system image of a slot, 4096 bytes over eight sectors.
use jungey_os.Prelude.{
  ℕ, zero, suc, ◌+◌, ◌-◌, ◌*◌, ◌/◌, ◌%◌, ◌^◌, bit_xor, Bool, not, List, ◌==◌, ltb, leb, ◌&&◌,
  if◌then◌else◌, Result, ok, err,
}
use jungey_os.Disk.{Sector, Device, Done, blank, read_sector, write_sector, and_then}
use jungey_os.Fs.Codec.{slice, put_u64, get_u64}
use jungey_os.Sha256.{digest}

abbrev pub img_magic : ℕ
img_magic = 0x4A53_5953_494D_4730

abbrev pub image_bytes : ℕ
image_bytes = 4096

abbrev pub image_header : ℕ
image_header = 32

abbrev pub flag_healthy : ℕ
flag_healthy = 1

unfoldable pub image_byte : (version offset : ℕ) → ℕ
image_byte version offset = bit_xor (offset * 37 % 2 ^ 64) (version * 1103 % 2 ^ 64) % 256

unfoldable pub build_image : (version : ℕ) → (healthy : Bool) → ℕ → ℕ
build_image version healthy =
    let out = put_u64 (put_u64 blank 0 img_magic) 8 version in
    let out =
      put_u64 (put_u64 out 16 (if healthy then flag_healthy else 0)) 24
        (image_bytes - image_header) in
    λ i. if leb image_header i && ltb i image_bytes then image_byte version i else out i

pub record Image : Type 0 where
  pub version : ℕ
  pub flags : ℕ
  pub digest : List ℕ

-- `sha256::digest(&img)`
unfoldable pub image_digest : (ℕ → ℕ) → List ℕ
image_digest img = digest (slice img 0 image_bytes)

-- The s-th sector of an image, and an image with its s-th sector replaced.
abbrev pub part : (ℕ → ℕ) → ℕ → Sector
part img s = λ i. img (s * 512 + i)

abbrev pub with_part : (ℕ → ℕ) → ℕ → Sector → ℕ → ℕ
with_part img s raw = λ i. if i / 512 == s then raw (i % 512) else img i

-- `for s in 0..IMAGE_BYTES / SECTOR_SIZE`
unfoldable pub write_parts : (left s base : ℕ) → (ℕ → ℕ) → Device → Result Done × Device
write_parts zero s base img d = (ok tt, d)
write_parts (suc left) s base img d =
    and_then (write_sector d (base + s) (part img s)) (λ _ d. write_parts left (s + 1) base img d)

unfoldable pub write_image : (base : ℕ) → (ℕ → ℕ) → Device → Result Done × Device
write_image base img d = write_parts 8 0 base img d

unfoldable pub read_parts : (left s base : ℕ) → (ℕ → ℕ) → Device → Result (ℕ → ℕ) × Device
read_parts zero s base img d = (ok img, d)
read_parts (suc left) s base img d =
    and_then (read_sector d (base + s))
      (λ raw d. read_parts left (s + 1) base (with_part img s raw) d)

unfoldable pub image_of : (ℕ → ℕ) → Result Image
image_of img =
    if not (get_u64 img 0 == img_magic)
    then err "slot holds no system image"
    else ok (record { version = get_u64 img 8; flags = get_u64 img 16; digest = image_digest img })

unfoldable pub load_image : (base : ℕ) → Device → Result Image × Device
load_image base d = and_then (read_parts 8 0 base blank d) (λ img d. (image_of img, d))
