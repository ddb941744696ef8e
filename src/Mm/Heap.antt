-- ===== src/Mm/Heap.antt =====
-- kernel/src/mm/heap.rs: the kernel heap, a first-fit allocator over an address-sorted list of free
-- blocks. The list is linked through the blocks themselves; here it is the list of their headers.
pub mod Free
pub mod Alloc
use jungey_os.Prelude.{
  ℕ, zero, suc, ◌+◌, ◌-◌, ◌*◌, ◌%◌, ◌^◌, max, Bool, true, false, not, ◌&&◌, ◌||◌, String, Option,
  none, some, List, [], ◌∷◌, ◌++◌, ltb, leb, ◌==◌, if◌then◌else◌, bit_and, length,
}
use jungey_os.Mm.{align_mask}

pub record Block : Type 0 where
  pub addr : ℕ
  pub size : ℕ

-- BLOCK_SIZE
abbrev pub block_size : ℕ
block_size = 16

abbrev pub min_align : ℕ
min_align = 8

abbrev pub max_regions : ℕ
max_regions = 4

pub record Heap : Type 0 where
  pub blocks : List Block
  pub total : ℕ
  pub allocated : ℕ
  pub regions : List (ℕ × ℕ)

abbrev pub no_heap : Heap
no_heap = record { blocks = []; total = 0; allocated = 0; regions = [] }

unfoldable pub align_up : (v align : ℕ) → ℕ
align_up v align = bit_and (v + align - 1) (align_mask align)

-- The block that starts where `b` ends becomes a part of it.
unfoldable pub merge_forward : Block → List Block → List Block
merge_forward b [] = b ∷ []
merge_forward b (c ∷ cs) =
    if b.addr + b.size == c.addr then record b { size = b.size + c.size } ∷ cs else b ∷ c ∷ cs

-- The block in front takes over the first of the list, where it ends at its start.
unfoldable pub merge_backward : Block → List Block → List Block
merge_backward p [] = p ∷ []
merge_backward p (b ∷ rest) =
    if p.addr + p.size == b.addr then record p { size = p.size + b.size } ∷ rest else p ∷ b ∷ rest

-- Whether the walk goes on: `!cur.is_null() && cur < block`.
unfoldable pub goes_on : List Block → ℕ → Bool
goes_on [] addr = false
goes_on (c ∷ cs) addr = ltb c.addr addr

unfoldable pub insert : List Block → Block → List Block
insert [] b = merge_forward b []
insert (p ∷ rest) b =
    let further = p ∷ insert rest b in
    if not (ltb p.addr b.addr)
    then merge_forward b (p ∷ rest)
    else if goes_on rest b.addr
    then further
    else merge_backward p (merge_forward b rest)

unfoldable pub add_region : Heap → (start size : ℕ) → Heap
add_region h start size =
    let start' = align_up start min_align in
    if ltb size block_size then h else record h {
      total = h.total + size;
      regions =
          if ltb (length h.regions) max_regions
          then h.regions ++ (start', start' + size) ∷ []
          else h.regions;
      blocks = insert h.blocks (record { addr = start'; size = size });
    }

abbrev pub front_pad : Block → (align : ℕ) → ℕ
front_pad c align = align_up c.addr align - c.addr

-- The allocation fits, and what it leaves in front is nothing or a block.
abbrev pub fits : Block → (align size : ℕ) → Bool
fits c align size =
    (front_pad c align == 0 || leb block_size (front_pad c align))
    && leb (front_pad c align + size) c.size

-- The first block that fits, and the list without it.
unfoldable pub unlink_fit : (align size : ℕ) → List Block → Option (Block × List Block)
unlink_fit align size [] = none
unlink_fit align size (c ∷ cs) =
    let later : Option (Block × List Block) = elim (unlink_fit align size cs) [
      | none ↦ none
      | some r ↦ some (r.0, c ∷ r.1)
    ] in
    if fits c align size then some (c, cs) else later

-- What is left in front of the allocation is put back.
unfoldable pub put_front : List Block → Block → (align : ℕ) → List Block
put_front rest c align =
    if leb block_size (front_pad c align)
    then insert rest (record { addr = c.addr; size = front_pad c align })
    else rest

-- And what is left behind it, when that is enough for a block.
unfoldable pub put_tail : List Block → Block → (end : ℕ) → List Block
put_tail rest c end =
    if leb block_size (c.addr + c.size - end)
    then insert rest (record { addr = end; size = c.addr + c.size - end })
    else rest

abbrev pub layout_size : ℕ → ℕ
layout_size size = align_up (max size block_size) min_align

unfoldable pub alloc : Heap → (size align : ℕ) → Option ℕ × Heap
alloc h size align =
    let n = layout_size size in
    let a = max align min_align in
    elim (unlink_fit a n h.blocks) [
      | none ↦ (none, h)
      | some r ↦
          let start = align_up r.0.addr a in
          (
            some start,
            record h {
              blocks = put_tail (put_front r.1 r.0 a) r.0 (start + n);
              allocated = h.allocated + n;
            },
          )
    ]

unfoldable pub dealloc : Heap → (ptr size : ℕ) → Heap
dealloc h ptr size = record h {
  allocated = h.allocated - layout_size size;
  blocks = insert h.blocks (record { addr = ptr; size = layout_size size });
}

unfoldable pub in_region : List (ℕ × ℕ) → Block → Bool
in_region [] b = false
in_region ((s, e) ∷ rs) b = (leb s b.addr && leb (b.addr + b.size) e) || in_region rs b

pub record HeapCheck : Type 0 where
  pub blocks : ℕ
  pub free_bytes : ℕ
  pub error : Option String
  pub at_addr : ℕ

abbrev pub complaint : Heap → Block → (last_end : ℕ) → Option String
complaint h b last_end =
    if not (b.addr % min_align == 0)
    then some "block is misaligned"
    else if ltb b.addr last_end
    then some "free list is not sorted, or blocks overlap"
    else if ltb b.size block_size || ltb h.total b.size
    then some "block size is impossible"
    else if not (in_region h.regions b)
    then some "block lies outside every donated region"
    else none

unfoldable pub check_from : Heap → List Block → (last_end : ℕ) → HeapCheck → HeapCheck
check_from h [] last_end out = out
check_from h (b ∷ bs) last_end out =
    let out' = record out {
      blocks = out.blocks + 1;
      free_bytes = out.free_bytes + b.size;
      at_addr = b.addr;
    } in
    let rest = check_from h bs (b.addr + b.size) out' in
    elim (complaint h b last_end) [
      | some e ↦ record out { error = some e; at_addr = b.addr }
      | none ↦
          if ltb 1000000 out'.blocks
          then record out' { error = some "free list has a cycle" }
          else rest
    ]

unfoldable pub check : Heap → HeapCheck
check h = check_from h h.blocks 0 (record { blocks = 0; free_bytes = 0; error = none; at_addr = 0 })
