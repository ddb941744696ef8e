-- ===== src/Mm.antt =====
-- kernel/src/mm/mod.rs: pages, the linear map, and rounding to page boundaries by masks.
-- Addresses are 64-bit; the sums here are those of addresses for which they do not wrap, which the
-- lemmas state.
pub mod Frames
pub mod Heap
pub mod Source
pub mod Paging
pub mod Uaccess
pub mod Counter
mod Tests
use jungey_os.Prelude.{ℕ, zero, suc, ◌+◌, ◌-◌, ◌*◌, ◌/◌, ◌%◌, ◌^◌, ◌≤◌, ◌<◌, ◌≡◌, arith, bit_and}
use jungey_os.Prelude.Bits.{bit_and-high}

abbrev pub page_size : ℕ
page_size = 4096

abbrev pub phys_offset : ℕ
phys_offset = 0xFFFF_0000_0000_0000

abbrev pub phys_to_virt : ℕ → ℕ
phys_to_virt pa = pa + phys_offset

abbrev pub virt_to_phys : ℕ → ℕ
virt_to_phys va = va - phys_offset

-- !(align - 1), as a 64-bit word
abbrev pub align_mask : ℕ → ℕ
align_mask align = 2 ^ 64 - 1 - (align - 1)

unfoldable pub page_align_up : ℕ → ℕ
page_align_up addr = bit_and (addr + page_size - 1) (align_mask page_size)

unfoldable pub page_align_down : ℕ → ℕ
page_align_down addr = bit_and addr (align_mask page_size)

pub page_align_down_lem :
    (a : ℕ)
    → a < 2 ^ 64
    → (page_align_down a ≤ a) × (a < page_align_down a + 4096) × (page_align_down a % 4096 ≡ 0)
unfolding page_align_down
page_align_down_lem a h = (
  omega (arith, bit_and-high 52 12 a h),
  omega (arith, bit_and-high 52 12 a h),
  omega (arith, bit_and-high 52 12 a h),
)

-- For an address that can be rounded without wrapping, `page_align_up` is a page boundary, not below the
-- address and less than a page above it.
pub page_align_up_lem :
    (a : ℕ)
    → a + 4095 < 2 ^ 64
    → (a ≤ page_align_up a) × (page_align_up a < a + 4096) × (page_align_up a % 4096 ≡ 0)
unfolding page_align_up
page_align_up_lem a h = (
  omega (arith, bit_and-high 52 12 (a + 4096 - 1) (omega arith)),
  omega (arith, bit_and-high 52 12 (a + 4096 - 1) (omega arith)),
  omega (arith, bit_and-high 52 12 (a + 4096 - 1) (omega arith)),
)

-- The same boundary is found whichever way it is described.
pub boundary_unique :
    (a x y : ℕ)
    → (a ≤ x) × (x < a + 4096) × (x % 4096 ≡ 0)
    → (a ≤ y) × (y < a + 4096) × (y % 4096 ≡ 0)
    → x ≡ y
boundary_unique a x y p q = omega arith
