-- ===== src/Kv.antt =====
-- kernel/src/kv.rs: the cache of key and value blocks. The frame allocator is an argument, and so are
-- the readings of the clock, which the cache carries with how many it has taken. The lock is dropped
-- while a block is written out; here nobody else runs meanwhile, so that a reader that finds a block
-- half written waits for nobody, which is the result `waits`.
pub mod Blocks
pub mod Faithful
pub mod Bytes
pub mod Given
pub mod Added
pub mod Settled
pub mod Fails
pub mod Truth
pub mod Ops
pub mod Worst
pub mod Choice
pub mod Count
pub mod Evict
pub mod Room
pub mod Keep
pub mod Read
pub mod Sectors
pub mod Promise
pub mod Refines
mod Tests
use jungey_os.Prelude.{
  ℕ, zero, suc, ◌+◌, ◌-◌, ◌*◌, ◌/◌, ◌%◌, ◌^◌, min, Bool, true, false, not, Option, none, some, List,
  [], ◌∷◌, ◌++◌, length, take, get_elem?, set, modify, ltb, leb, ◌==◌, if◌then◌else◌, String,
  Result, ok, err,
}
use jungey_os.Prelude.Find.{find, position, modify_first}
pub use jungey_os.Mm.Source.{FrameSource}
use jungey_os.Disk.{Sector, sector_size, Device, Done, read_sector, write_sector, and_then}

abbrev pub sectors_per_block : ℕ
sectors_per_block = 8

abbrev pub block_bytes : ℕ
block_bytes = 4096

abbrev pub budget_blocks : ℕ
budget_blocks = 64

abbrev pub prefix_blocks : ℕ
prefix_blocks = 4

pub data Block : Type 0 where
  resident : (frame used_tick : ℕ) → Block
  spilling : (frame sector : ℕ) → Block
  spilled : (sector : ℕ) → Block

pub record Session : Type 0 where
  pub id : ℕ
  pub owner : ℕ
  pub model : ℕ
  pub blocks : List Block
  pub created_tick : ℕ
  pub last_tick : ℕ
  pub hits : ℕ
  pub spills : ℕ
  pub restores : ℕ

abbrev pub is_resident : Block → Bool
is_resident (resident frame used_tick) = true
is_resident (spilling frame sector) = false
is_resident (spilled sector) = false

unfoldable pub count_resident : List Block → ℕ
count_resident [] = 0
count_resident (b ∷ bs) = (if is_resident b then 1 else 0) + count_resident bs

unfoldable pub prefix_resident : Session → ℕ
unfolding count_resident
prefix_resident s = count_resident (take prefix_blocks s.blocks)

pub record Cache : Type 0 where
  pub sessions : List Session
  pub next_id : ℕ
  pub resident_blocks : ℕ
  pub spill_next : ℕ
  pub spill_end : ℕ

-- The cache with its counters, the memory behind each frame, the disk and the clock.
pub record Kv (Pool : Type 0) : Type 0 where
  pub cache : Cache
  pub evictions : ℕ
  pub restores : ℕ
  pub prefix_evictions : ℕ
  pub pool : Pool
  pub memory : (frame : ℕ) → ℕ → ℕ
  pub device : Device
  pub clock : (reading : ℕ) → ℕ
  pub readings : ℕ

unfoldable pub pattern_of : (session index offset : ℕ) → ℕ
pattern_of session index offset =
    (session * 1103515245 % 2 ^ 64 + index * 12345 + offset * 31) % 2 ^ 64 / 2 ^ 3 % 256

unfoldable pub eviction_score : (index used_tick now : ℕ) → ℕ
eviction_score index used_tick now =
    let age = now - used_tick in if ltb index prefix_blocks then age / 8 else age + 1000

pub record Victim : Type 0 where
  pub si : ℕ
  pub bi : ℕ
  pub score : ℕ
  pub frame : ℕ

abbrev pub worse : Victim → Option Victim → Option Victim
worse v none = some v
worse v (some best) = if ltb best.score v.score then some v else some best

unfoldable pub scan_blocks : (now si bi : ℕ) → List Block → Option Victim → Option Victim
scan_blocks now si bi [] best = best
scan_blocks now si bi (resident frame used_tick ∷ bs) best = scan_blocks now si (bi + 1) bs (
    worse (record { si = si; bi = bi; score = eviction_score bi used_tick now; frame = frame })
      best)
scan_blocks now si bi (spilling frame sector ∷ bs) best = scan_blocks now si (bi + 1) bs best
scan_blocks now si bi (spilled sector ∷ bs) best = scan_blocks now si (bi + 1) bs best

unfoldable pub scan_sessions : (now si : ℕ) → List Session → Option Victim → Option Victim
scan_sessions now si [] best = best
scan_sessions now si (s ∷ ss) best =
    scan_sessions now (si + 1) ss (scan_blocks now si 0 s.blocks best)

abbrev pub put_block : (bi : ℕ) → Block → Session → Session
put_block bi b s = record s { blocks = set s.blocks bi b }

abbrev pub set_block : (si bi : ℕ) → Block → List Session → List Session
set_block si bi b sessions = modify sessions si (put_block bi b)

-- One round of `make_room`, under the lock: the victim, unless there is room, or nothing resident, or
-- no room to spill to.
unfoldable pub choose : Cache → (want now : ℕ) → Option Victim
choose c want now =
    let victim = scan_sessions now 0 c.sessions none in
    if leb (c.resident_blocks + want) budget_blocks then none else elim victim [
      | none ↦ none
      | some v ↦ if ltb c.spill_end (c.spill_next + sectors_per_block) then none else some v
    ]

-- The victim is marked, and has its sectors.
unfoldable pub mark : Cache → Victim → Cache
mark c v = record c {
  spill_next = c.spill_next + sectors_per_block;
  sessions = set_block v.si v.bi (spilling v.frame c.spill_next) c.sessions;
}

-- `for s in 0..SECTORS_PER_BLOCK`; a sector is 512 bytes of the block.
unfoldable pub write_out :
    (left s : ℕ) → (contents : ℕ → ℕ) → (sector : ℕ) → Device → Result Done × Device
write_out zero s contents sector d = (ok tt, d)
write_out (suc left) s contents sector d =
    and_then (write_sector d (sector + s) (λ i. contents (s * sector_size + i)))
      (λ _ d. write_out left (s + 1) contents sector d)

-- Sector `s` of a block, copied to its place.
abbrev pub place_sector : (s : ℕ) → Sector → (ℕ → ℕ) → ℕ → ℕ
place_sector s bytes contents o =
    if o / sector_size == s then bytes (o % sector_size) else contents o

-- `for s in 0..SECTORS_PER_BLOCK` again, into the memory of a frame.
unfoldable pub read_in :
    (left s sector : ℕ) → (contents : ℕ → ℕ) → Device → Result Done × ((ℕ → ℕ) × Device)
read_in zero s sector contents d = (ok tt, (contents, d))
read_in (suc left) s sector contents d =
    let (got, d) = read_sector d (sector + s) in
    elim got [
      | err e ↦ (err e, (contents, d))
      | ok bytes ↦ read_in left (s + 1) sector (place_sector s bytes contents) d
    ]

abbrev pub count_spill : Session → Session
count_spill s = record s { spills = s.spills + 1 }

module _ (frames : FrameSource) where
  open frames use {Pool, take_frame, give_back}

  -- Under the lock again: the block is on the disk, or it is put back.
  unfoldable pub finish_spill : (sector now : ℕ) → Victim → Result Done → Kv Pool → Kv Pool
  finish_spill sector now v (ok done) k = record k {
    cache = record k.cache {
      sessions = modify (set_block v.si v.bi (spilled sector) k.cache.sessions) v.si count_spill;
      resident_blocks = k.cache.resident_blocks - 1;
    };
    pool = give_back k.pool v.frame;
    evictions = k.evictions + 1;
    prefix_evictions = k.prefix_evictions + (if ltb v.bi prefix_blocks then 1 else 0);
  }
  finish_spill sector now v (err e) k = record k {
    cache = record k.cache {
      sessions = set_block v.si v.bi (resident v.frame now) k.cache.sessions;
    };
  }

  abbrev pub succeeded : Result Done → Bool
  succeeded (ok done) = true
  succeeded (err e) = false

  -- What is chosen is marked, written out and finished; and whether there is another round.
  unfoldable pub spill : (now : ℕ) → Option Victim → Kv Pool → Bool × Kv Pool
  spill now none k = (false, k)
  spill now (some v) k =
      let sector = k.cache.spill_next in
      let wrote = write_out sectors_per_block 0 (k.memory v.frame) sector k.device in
      (
        succeeded wrote.0,
        finish_spill sector now v wrote.0 (record k { cache = mark k.cache v; device = wrote.1 }),
      )

  unfoldable pub evict : (want : ℕ) → Kv Pool → Bool × Kv Pool
  evict want k =
      let now = k.clock k.readings in
      spill now (choose k.cache want now) (record k { readings = k.readings + 1 })

  unfoldable pub make_room : (fuel want : ℕ) → Kv Pool → Kv Pool
  make_room zero want k = k
  make_room (suc fuel) want k =
      let rest = make_room fuel want (evict want k).1 in
      if (evict want k).0 then rest else (evict want k).1

  -- Each eviction takes a block from the residents, which are all that a call needs rounds for.
  abbrev pub room_for_one : Kv Pool → Kv Pool
  room_for_one k = make_room (suc k.cache.resident_blocks) 1 k
