-- ===== src/Mm/Paging.antt =====
-- kernel/src/mm/paging.rs: the page tables of a process. A table is a frame of 512 words; the words of all
-- frames are one memory, and the frame allocator is an argument. Bits are added where the code joins them
-- by `|`, as an aligned address and the bits of an entry have none in common; masks of low bits are
-- remainders. The flush of the translation buffer and the switch of TTBR0 are hardware.
pub mod Tree
pub mod Grow
pub mod Words
pub mod Map
pub mod Exclusive
use jungey_os.Prelude.{
  ℕ, zero, suc, ◌+◌, ◌-◌, ◌*◌, ◌/◌, ◌%◌, ◌^◌, Bool, true, false, not, ◌||◌, Option, none, some,
  List, [], ◌∷◌, ◌++◌, ◌==◌, if◌then◌else◌, String, Result, ok, err,
}
use jungey_os.Disk.{Done}
use jungey_os.Mm.{page_size}
use jungey_os.Mm.Source.{FrameSource}

pub data Perm : Type 0 where
  user_text : Perm
  user_read_only : Perm
  user_data : Perm
  user_device : Perm

abbrev pub pte_valid : ℕ
pte_valid = 1

abbrev pub pte_table_or_page : ℕ
pte_table_or_page = 2

abbrev pub pte_attr_normal : ℕ
pte_attr_normal = 2 ^ 2

abbrev pub pte_ap_el0 : ℕ
pte_ap_el0 = 2 ^ 6

abbrev pub pte_ap_ro : ℕ
pte_ap_ro = 2 ^ 7

abbrev pub pte_sh_inner : ℕ
pte_sh_inner = 3 * 2 ^ 8

abbrev pub pte_af : ℕ
pte_af = 2 ^ 10

abbrev pub pte_ng : ℕ
pte_ng = 2 ^ 11

abbrev pub pte_pxn : ℕ
pte_pxn = 2 ^ 53

abbrev pub pte_uxn : ℕ
pte_uxn = 2 ^ 54

abbrev pub common : ℕ
common =
    pte_valid + pte_table_or_page + pte_attr_normal + pte_sh_inner + pte_af + pte_ng + pte_ap_el0
    + pte_pxn

unfoldable pub bits : Perm → ℕ
bits user_text = common + pte_ap_ro
bits user_read_only = common + pte_ap_ro + pte_uxn
bits user_data = common + pte_uxn
bits user_device = common - pte_attr_normal - pte_sh_inner + pte_uxn

unfoldable pub index : (va level : ℕ) → ℕ
index va level = va / 2 ^ (39 - level * 9) % 512

abbrev pub valid : (entry : ℕ) → Bool
valid entry = entry % 2 == 1

-- `entry & ADDR_MASK`
unfoldable pub address : (entry : ℕ) → ℕ
address entry = entry / 4096 % 2 ^ 36 * 4096

-- The word at an index of a frame.
abbrev pub Tables : Type 0
Tables = (frame : ℕ) → ℕ → ℕ

unfoldable pub put_word : Tables → (frame i word : ℕ) → Tables
put_word t frame i word = λ g j. if g == frame then (if j == i then word else t g j) else t g j

unfoldable pub zeroed : Tables → (frame : ℕ) → Tables
zeroed t frame = λ g j. if g == frame then 0 else t g j

-- `for level in 0..3`: the table that the entries lead to, if all are valid.
unfoldable pub descend : (left level va table : ℕ) → Tables → Option ℕ
descend zero level va table t = some table
descend (suc left) level va table t =
    let entry = t table (index va level) in
    let rest = descend left (suc level) va (address entry) t in if valid entry then rest else none

abbrev pub word_of : (va : ℕ) → Option ℕ → Tables → ℕ
word_of va none t = 0
word_of va (some table) t = t table (index va 3)

-- The level-3 entry, zero where there is none.
unfoldable pub word_at : Tables → (root va : ℕ) → ℕ
word_at t root va = word_of va (descend 3 0 va root t) t

unfoldable pub backing : (va entry : ℕ) → Option ℕ
backing va entry = if valid entry then some (address entry + va % page_size) else none

unfoldable pub translate : Tables → (root va : ℕ) → Option ℕ
translate t root va = backing va (word_at t root va)

module _ (frames : FrameSource) where
  open frames use {Pool, take_frame, give_back}

  pub record AddressSpace : Type 0 where
    pub root : ℕ
    pub asid : ℕ
    pub owned : List ℕ
    pub tables : Tables
    pub pool : Pool

  abbrev pub cleared : Option ℕ → Tables → Pool → Option ℕ × Tables × Pool
  cleared none t pool = (none, t, pool)
  cleared (some pa) t pool = (some pa, zeroed t pa, pool)

  -- A zeroed frame, for a table.
  unfoldable pub alloc_table : Tables → Pool → Option ℕ × Tables × Pool
  alloc_table t pool = cleared (take_frame pool).0 t (take_frame pool).1

  abbrev pub new_space : (next_asid : ℕ) → Option ℕ × Tables × Pool → Option AddressSpace × ℕ
  new_space next_asid (none, t, pool) = (none, next_asid)
  new_space next_asid (some root, t, pool) = (
    some (record {
      root = root;
      asid = next_asid % 2 ^ 16;
      owned = root ∷ [];
      tables = t;
      pool = pool;
    }),
    next_asid + 1,
  )

  unfoldable pub new : (next_asid : ℕ) → Tables → Pool → Option AddressSpace × ℕ
  new next_asid t pool = new_space next_asid (alloc_table t pool)

  unfoldable pub ttbr0 : AddressSpace → ℕ
  ttbr0 s = s.asid * 2 ^ 48 + s.root

  -- The next table goes into the entry.
  abbrev pub linked : (table i : ℕ) → Option ℕ → Pool → AddressSpace → Option ℕ × AddressSpace
  linked table i none pool s = (none, record s { pool = pool })
  linked table i (some next) pool s = (
    some next,
    record s {
      owned = s.owned ++ next ∷ [];
      tables = put_word (zeroed s.tables next) table i (next + pte_valid + pte_table_or_page);
      pool = pool;
    },
  )

  -- The table that an entry leads to, made if there is none.
  unfoldable pub present : (table i : ℕ) → AddressSpace → Option ℕ × AddressSpace
  present table i s =
      let entry = s.tables table i in
      if valid entry
      then (some (address entry), s)
      else linked table i (take_frame s.pool).0 (take_frame s.pool).1 s

  -- `for level in 0..3` of `entry_for`.
  unfoldable pub grow : (left level va table : ℕ) → AddressSpace → Option ℕ × AddressSpace
  grow zero level va table s = (some table, s)
  grow (suc left) level va table s =
      let (next, s) = present table (index va level) s in
      elim next [ none ↦ (none, s) | some next ↦ grow left (suc level) va next s ]

  -- The table of the level-3 entry for an address, and the entry's index in it.
  unfoldable pub entry_for : (va : ℕ) → AddressSpace → Option ℕ × AddressSpace
  entry_for va s = grow 3 0 va s.root s

  abbrev pub store_entry : (va word : ℕ) → (table : ℕ) → AddressSpace → AddressSpace
  store_entry va word table s = record s { tables = put_word s.tables table (index va 3) word }

  -- `for i in 0..pages`, from the i-th page on.
  unfoldable pub map_from : (left i va pa : ℕ) → Perm → AddressSpace → Result Done × AddressSpace
  map_from zero i va pa perm s = (ok tt, s)
  map_from (suc left) i va pa perm s =
      let (table, s) = entry_for (va + i * page_size) s in
      elim table [
        | none ↦ (err "out of frames for page tables", s)
        | some table ↦
            map_from left (i + 1) va pa perm
              (store_entry (va + i * page_size) (pa + i * page_size + bits perm) table s)
      ]

  unfoldable pub map : (va pa pages : ℕ) → Perm → AddressSpace → Result Done × AddressSpace
  map va pa pages perm s =
      if not (va % page_size == 0) || not (pa % page_size == 0)
      then (err "unaligned mapping", s)
      else map_from pages 0 va pa perm s

  -- One round of `map_anonymous`: the frame, zeroed and owned, is mapped.
  abbrev pub map_frame : (va : ℕ) → Perm → Option ℕ → AddressSpace → Result Done × AddressSpace
  map_frame va perm none s = (err "out of frames", s)
  map_frame va perm (some frame) s =
      map va frame 1 perm
        (record s { owned = s.owned ++ frame ∷ []; tables = zeroed s.tables frame })

  unfoldable pub map_anonymous_from :
      (left i va : ℕ) → Perm → AddressSpace → Result Done × AddressSpace
  map_anonymous_from zero i va perm s = (ok tt, s)
  map_anonymous_from (suc left) i va perm s =
      let (taken, pool) = take_frame s.pool in
      let (r, s) = map_frame (va + i * page_size) perm taken (record s { pool = pool }) in
      elim r [ err e ↦ (err e, s) | ok done ↦ map_anonymous_from left (i + 1) va perm s ]

  abbrev pub map_anonymous : (va pages : ℕ) → Perm → AddressSpace → Result Done × AddressSpace
  map_anonymous va pages perm s = map_anonymous_from pages 0 va perm s

  abbrev pub clear_entry : (va : ℕ) → Option ℕ → AddressSpace → AddressSpace
  clear_entry va none s = s
  clear_entry va (some table) s = store_entry va 0 table s

  unfoldable pub unmap_from : (left i va : ℕ) → AddressSpace → AddressSpace
  unmap_from zero i va s = s
  unmap_from (suc left) i va s =
      let addr = va + i * page_size in
      unmap_from left (i + 1) va (clear_entry addr (descend 3 0 addr s.root s.tables) s)

  abbrev pub unmap : (va pages : ℕ) → AddressSpace → AddressSpace
  unmap va pages s = unmap_from pages 0 va s

  unfoldable pub give_all : List ℕ → Pool → Pool
  give_all [] pool = pool
  give_all (f ∷ fs) pool = give_all fs (give_back pool f)

  -- `Drop`: every owned frame goes back.
  abbrev pub drop_space : AddressSpace → Pool
  drop_space s = give_all s.owned s.pool
