-- ===== src/Kv/Ops.antt =====
-- kernel/src/kv.rs: what the cache does for its clients: `open`, `append`, `read`, `stat` and `totals`.
use jungey_os.Prelude.{
  ℕ, zero, suc, ◌+◌, ◌-◌, min, Bool, true, false, Option, none, some, List, [], ◌∷◌, ◌++◌, length,
  get_elem?, set, ltb, leb, ◌==◌, if◌then◌else◌, String, Result, ok, err,
}
use jungey_os.Prelude.Find.{find, modify_first}
use jungey_os.Disk.{Done}
use jungey_os.Kv.{
  Block, resident, spilling, spilled, Session, Cache, Kv, FrameSource, budget_blocks,
  sectors_per_block, block_bytes, pattern_of, count_resident, prefix_resident, read_in,
  room_for_one,
}

unfoldable pub init : (spill_start spill_sectors : ℕ) → Cache → Cache
init spill_start spill_sectors c = record c {
  spill_next = spill_start;
  spill_end = spill_start + spill_sectors;
}

abbrev pub has_id : ℕ → Session → Bool
has_id id s = s.id == id

-- A reading of the clock.
abbrev pub tick : {Pool : Type 0} → Kv Pool → ℕ × Kv Pool
tick k = (k.clock k.readings, record k { readings = k.readings + 1 })

abbrev pub new_session : (id owner model now : ℕ) → Session
new_session id owner model now = record {
  id = id;
  owner = owner;
  model = model;
  blocks = [];
  created_tick = now;
  last_tick = now;
  hits = 0;
  spills = 0;
  restores = 0;
}

unfoldable pub open_session : {Pool : Type 0} → (owner model : ℕ) → Kv Pool → ℕ × Kv Pool
open_session owner model k =
    let (now, k) = tick k in
    let id = k.cache.next_id in
    (
      id,
      record k {
        cache = record k.cache {
          next_id = id + 1;
          sessions = k.cache.sessions ++ new_session id owner model now ∷ [];
        };
      },
    )

-- The memory of one frame is replaced.
abbrev pub put_memory : (frame : ℕ) → (ℕ → ℕ) → (ℕ → ℕ → ℕ) → ℕ → ℕ → ℕ
put_memory frame bytes memory f = if f == frame then bytes else memory f

unfoldable pub fill : (frame session index : ℕ) → (ℕ → ℕ → ℕ) → ℕ → ℕ → ℕ
fill frame session index memory =
    put_memory frame (λ o. if ltb o block_bytes then pattern_of session index o else memory frame o)
      memory

abbrev pub push_block : (frame now : ℕ) → Session → Session
push_block frame now s = record s { blocks = s.blocks ++ resident frame now ∷ []; last_tick = now }

abbrev pub touch_session : (now : ℕ) → Session → Session
touch_session now s = record s { last_tick = now }

abbrev pub hit_block : (index frame now : ℕ) → Session → Session
hit_block index frame now s = record s {
  hits = s.hits + 1;
  blocks = set s.blocks index (resident frame now);
}

abbrev pub restore_block : (index frame now : ℕ) → Session → Session
restore_block index frame now s = record s {
  blocks = set s.blocks index (resident frame now);
  restores = s.restores + 1;
}

abbrev pub set_sessions : {Pool : Type 0} → List Session → Kv Pool → Kv Pool
set_sessions ss k = record k { cache = record k.cache { sessions = ss } }

-- What a read gives: the buffer with the bytes, and whether the block was resident; `waits`, where the
-- source yields until the block is written out.
pub data Answer : Type 0 where
  found : (was_resident : Bool) (out : ℕ → ℕ) → Answer
  waits : Answer
  fails : String → Answer

abbrev pub copy_out : (len : ℕ) → (bytes out : ℕ → ℕ) → ℕ → ℕ
copy_out len bytes out i = if ltb i (min len block_bytes) then bytes i else out i

module _ (frames : FrameSource) where
  open frames use {Pool, take_frame, give_back}

  -- A frame is there, and the session is looked up: its new block, or the frame goes back.
  unfoldable pub add_to : (id frame : ℕ) → Option Session → Kv Pool → Result Done × Kv Pool
  add_to id frame none k = (err "no such session", record k { pool = give_back k.pool frame })
  add_to id frame (some s) k =
      let (now, k) = tick k in
      (
        ok tt,
        record k {
          cache = record k.cache {
            sessions = modify_first (has_id id) (push_block frame now) k.cache.sessions;
            resident_blocks = k.cache.resident_blocks + 1;
          };
          memory = fill frame s.id (length s.blocks) k.memory;
        },
      )

  unfoldable pub append_frame : (id : ℕ) → Kv Pool → Result Done × Kv Pool
  append_frame id k =
      let (taken, pool) = take_frame k.pool in
      let k = record k { pool = pool } in
      elim taken [
        | none ↦ (err "out of memory", k)
        | some frame ↦ add_to id frame (find (has_id id) k.cache.sessions) k
      ]

  -- One round of `append`.
  unfoldable pub append_one : (id : ℕ) → Kv Pool → Result Done × Kv Pool
  append_one id k =
      let k = room_for_one frames k in
      if leb budget_blocks k.cache.resident_blocks
      then (err "cache is full and nothing could be evicted", k)
      else append_frame id k

  -- `for _ in 0..count`, with the blocks added before.
  unfoldable pub append_from : (left added id : ℕ) → Kv Pool → Result ℕ × Kv Pool
  append_from zero added id k = (ok added, k)
  append_from (suc left) added id k =
      let (one, k) = append_one id k in
      elim one [ err e ↦ (err e, k) | ok done ↦ append_from left (added + 1) id k ]

  abbrev pub append : (id count : ℕ) → Kv Pool → Result ℕ × Kv Pool
  append id count k = append_from count 0 id k

  -- The block is in its frame again, or the frame goes back.
  unfoldable pub bring_back :
      (id index now frame : ℕ) → Result Done → Kv Pool → Result (ℕ → ℕ) × Kv Pool
  bring_back id index now frame (err e) k =
      (err "could not read a spilled block back", record k { pool = give_back k.pool frame })
  bring_back id index now frame (ok done) k = (
    ok (k.memory frame),
    record k {
      cache = record k.cache {
        sessions = modify_first (has_id id) (restore_block index frame now) k.cache.sessions;
        resident_blocks = k.cache.resident_blocks + 1;
      };
      restores = k.restores + 1;
    },
  )

  unfoldable pub restore : (id index now sector : ℕ) → Kv Pool → Result (ℕ → ℕ) × Kv Pool
  restore id index now sector k =
      let k = room_for_one frames k in
      let (taken, pool) = take_frame k.pool in
      let k = record k { pool = pool } in
      elim taken [
        | none ↦ (err "out of memory restoring a block", k)
        | some frame ↦
            let got = read_in sectors_per_block 0 sector (k.memory frame) k.device in
            bring_back id index now frame got.0
              (record k { memory = put_memory frame got.1.0 k.memory; device = got.1.1 })
      ]

  abbrev pub answered : (len : ℕ) → (out : ℕ → ℕ) → Result (ℕ → ℕ) → Answer
  answered len out (ok bytes) = found false (copy_out len bytes out)
  answered len out (err e) = fails e

  -- The match on the block's state.
  unfoldable pub read_block :
      (id index len : ℕ) → (out : ℕ → ℕ) → Block → Kv Pool → Answer × Kv Pool
  read_block id index len out (resident frame used_tick) k =
      let (now, k) = tick k in
      (
        found true (copy_out len (k.memory frame) out),
        set_sessions (modify_first (has_id id) (hit_block index frame now) k.cache.sessions) k,
      )
  read_block id index len out (spilling frame sector) k = (waits, k)
  read_block id index len out (spilled sector) k =
      let (now, k) = tick k in
      let got = restore id index now sector k in (answered len out got.0, got.1)

  unfoldable pub read : (id index len : ℕ) → (out : ℕ → ℕ) → Kv Pool → Answer × Kv Pool
  read id index len out k =
      let (now, k) = tick k in
      elim (find (has_id id) k.cache.sessions) [
        | none ↦ (fails "no such session", k)
        | some s ↦
            let k =
              set_sessions (modify_first (has_id id) (touch_session now) k.cache.sessions) k in
            elim (get_elem? s.blocks index) [
              | none ↦ (fails "no such block", k)
              | some b ↦ read_block id index len out b k
            ]
      ]

pub record Stat : Type 0 where
  pub id : ℕ
  pub blocks : ℕ
  pub resident_count : ℕ
  pub spilled_count : ℕ
  pub hits : ℕ
  pub spills : ℕ
  pub restores : ℕ
  pub prefix_count : ℕ

unfoldable pub stat_of : Session → Stat
stat_of s = record {
  id = s.id;
  blocks = length s.blocks;
  resident_count = count_resident s.blocks;
  spilled_count = length s.blocks - count_resident s.blocks;
  hits = s.hits;
  spills = s.spills;
  restores = s.restores;
  prefix_count = prefix_resident s;
}

unfoldable pub stat : (id : ℕ) → Cache → Option Stat
stat id c = elim (find (has_id id) c.sessions) [ none ↦ none | some s ↦ some (stat_of s) ]
