-- ===== src/Fs/Layout.antt =====
-- What a copy into a sector leaves and changes, and what the fields give back.
use jungey_os.Prelude.{
  ℕ, zero, suc, ◌+◌, ◌/◌, ◌^◌, ◌≤◌, ◌<◌, ◌≡◌, ◌⊎◌, inl, inr, refl, sym, ap, ap₂, ◌∙◌, true, List,
  [], ◌∷◌, arith, ◌==◌, if◌then◌else◌, length, ==_self, ==_ne, ==_iff,
}
use jungey_os.Disk.{Sector}
use jungey_os.Fs.Codec.{
  to_le_bytes, from_le_bytes, copy_at, slice, put_u32, put_u64, get_u32, get_u64, crc32, crc_off,
  seal, intact,
}

abbrev pub Agree : Sector → Sector → ℕ → ℕ → Type 0
Agree b c lo hi = (i : ℕ) → lo ≤ i → i < hi → b i ≡ c i

pub copy_at-out :
    (xs : List ℕ) (b : Sector) (start i : ℕ)
    → (i < start) ⊎ (start + length xs ≤ i)
    → copy_at b start xs i ≡ b i
copy_at-out [] b start i h = refl
copy_at-out (x ∷ xs) b start i (inl h) =
    copy_at-out xs (λ j. if j == start then x else b j) (start + 1) i (inl (omega arith))
    ∙ rw (==_ne i start (λ e. omega arith)) refl
copy_at-out (x ∷ xs) b start i (inr h) =
    copy_at-out xs (λ j. if j == start then x else b j) (start + 1) i (inr (omega arith))
    ∙ rw (==_ne i start (λ e. omega arith)) refl

pub slice_ext :
    (b c : Sector) (start n : ℕ) → Agree b c start (start + n) → slice b start n ≡ slice c start n
slice_ext b c start zero h = refl
slice_ext b c start (suc n) h =
    ap₂ ◌∷◌ (h start (omega arith) (omega arith))
      (slice_ext b c (start + 1) n (λ i lo hi. h i (omega arith) (omega arith)))

pub slice-copy_at :
    (xs : List ℕ) (b : Sector) (start : ℕ) → slice (copy_at b start xs) start (length xs) ≡ xs
slice-copy_at [] b start = refl
slice-copy_at (x ∷ xs) b start =
    ap₂ ◌∷◌
      (copy_at-out xs (λ j. if j == start then x else b j) (start + 1) start (inl (omega arith))
        ∙ rw (==_self start) refl)
      (slice-copy_at xs (λ j. if j == start then x else b j) (start + 1))

pub slice-copy_at_other :
    (b : Sector) (start : ℕ) (xs : List ℕ) (start' n : ℕ)
    → (start' + n ≤ start) ⊎ (start + length xs ≤ start')
    → slice (copy_at b start xs) start' n ≡ slice b start' n
slice-copy_at_other b start xs start' n (inl h) =
    slice_ext _ b start' n (λ i lo hi. copy_at-out xs b start i (inl (omega arith)))
slice-copy_at_other b start xs start' n (inr h) =
    slice_ext _ b start' n (λ i lo hi. copy_at-out xs b start i (inr (omega arith)))

pub length-to_le_bytes : (n v : ℕ) → length (to_le_bytes n v) ≡ n
length-to_le_bytes zero v = refl
length-to_le_bytes (suc n) v = ap suc (length-to_le_bytes n (v / 256))

pub from_le_bytes-to_le_bytes : (n v : ℕ) → v < 256 ^ n → from_le_bytes (to_le_bytes n v) ≡ v
from_le_bytes-to_le_bytes zero v h = omega arith
from_le_bytes-to_le_bytes (suc n) v h =
    omega (arith, from_le_bytes-to_le_bytes n (v / 256) (omega arith))

pub get_u32-put_u32 :
    (b : Sector) (start v : ℕ) → v < 2 ^ 32 → get_u32 (put_u32 b start v) start ≡ v
unfolding get_u32 put_u32
get_u32-put_u32 b start v h =
    ap from_le_bytes (slice-copy_at (to_le_bytes 4 v) b start)
    ∙ from_le_bytes-to_le_bytes 4 v (omega arith)

pub get_u64-put_u64 :
    (b : Sector) (start v : ℕ) → v < 2 ^ 64 → get_u64 (put_u64 b start v) start ≡ v
unfolding get_u64 put_u64
get_u64-put_u64 b start v h =
    ap from_le_bytes (slice-copy_at (to_le_bytes 8 v) b start)
    ∙ from_le_bytes-to_le_bytes 8 v (omega arith)

pub put_u32-out :
    (b : Sector) (start v i : ℕ) → (i < start) ⊎ (start + 4 ≤ i) → put_u32 b start v i ≡ b i
unfolding put_u32
put_u32-out b start v i h = copy_at-out (to_le_bytes 4 v) b start i h

pub put_u64-out :
    (b : Sector) (start v i : ℕ) → (i < start) ⊎ (start + 8 ≤ i) → put_u64 b start v i ≡ b i
unfolding put_u64
put_u64-out b start v i h = copy_at-out (to_le_bytes 8 v) b start i h

pub get_u32_ext :
    (b c : Sector) (start : ℕ) → Agree b c start (start + 4) → get_u32 b start ≡ get_u32 c start
unfolding get_u32
get_u32_ext b c start h = ap from_le_bytes (slice_ext b c start 4 h)

pub get_u64_ext :
    (b c : Sector) (start : ℕ) → Agree b c start (start + 8) → get_u64 b start ≡ get_u64 c start
unfolding get_u64
get_u64_ext b c start h = ap from_le_bytes (slice_ext b c start 8 h)

pub seal-out : (b : Sector) (i : ℕ) → i < 508 → seal b i ≡ b i
unfolding seal
seal-out b i h = put_u32-out b crc_off _ i (inl h)

crc32_lt : (xs : List ℕ) → crc32 xs < 2 ^ 32
unfolding crc32
crc32_lt xs = omega arith

-- A sealed sector is intact.
pub intact-seal : (b : Sector) → intact (seal b) ≡ true
unfolding intact seal
intact-seal b =
    let same = ap crc32 (slice_ext (seal b) b 0 508 (λ i lo hi. seal-out b i hi)) in
    let got =
      get_u32-put_u32 b crc_off (crc32 (slice b 0 crc_off)) (crc32_lt (slice b 0 crc_off)) in
    (==_iff _ _).1 (same ∙ sym got)

-- A field is as it was after a write to another.
pub past_u64 :
    (b : Sector) (start v start' : ℕ)
    → (start' + 8 ≤ start) ⊎ (start + 8 ≤ start')
    → get_u64 (put_u64 b start v) start' ≡ get_u64 b start'
past_u64 b start v start' (inl h) =
    get_u64_ext _ b start' (λ i lo hi. put_u64-out b start v i (inl (omega arith)))
past_u64 b start v start' (inr h) =
    get_u64_ext _ b start' (λ i lo hi. put_u64-out b start v i (inr (omega arith)))

pub before :
    (b : Sector) (start v start' : ℕ)
    → start' + 8 ≤ start
    → get_u64 (put_u64 b start v) start' ≡ get_u64 b start'
before b start v start' h = past_u64 b start v start' (inl h)
