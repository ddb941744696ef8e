-- ===== src/Kv/Tests.antt =====
-- kernel/src/kv.rs: a small cache, and runs of it.
use jungey_os.Prelude.{
  ℕ, ◌+◌, ◌-◌, ◌*◌, ◌<◌, ◌≤◌, ◌≡◌, refl, arith, Option, none, some, List, [], ◌∷◌, replicate,
  Result, ok,
}
use jungey_os.Prelude.Find.{find, modify_first}
use jungey_os.Disk.{
  Device, Done, serves, blank, read_sector, write_sector, answer_read, carried_out, and_then,
}
use jungey_os.Kv.{
  Block, resident, spilled, Session, Cache, Kv, FrameSource, Victim, prefix_blocks,
  sectors_per_block, block_bytes, eviction_score, scan_blocks, scan_sessions, choose, write_out,
  read_in, make_room, evict, spill,
}
use jungey_os.Kv.Ops.{append_from, read, read_block, restore, bring_back}
use jungey_os.Kv.Count.{framed, framed_in}
use jungey_os.Kv.Choice.{IsAt, choose-Prefix}
use jungey_os.Kv.Evict.{IsCounted}
use jungey_os.Kv.Room.{make_room_enough, IsWithin, append-IsWithin}
use jungey_os.Kv.Read.{read-IsCounted}
use jungey_os.Kv.Promise.{Call, opens, appends, view, promised_all, calls}
use jungey_os.Kv.Truth.{IsAnswer, calls-read}
use jungey_os.Mm.Counter.{counter, counter_laws}
use jungey_os.Kv.Sectors.{read_in-write_out}

abbrev take_first : List ℕ → Option ℕ × List ℕ
take_first [] = (none, [])
take_first (f ∷ fs) = (some f, fs)

-- A list of frames.
abbrev frame_list : FrameSource
frame_list = record { Pool = List ℕ; take_frame = take_first; give_back = λ fs f. f ∷ fs }

abbrev working : Device
working = record { sectors = λ n. blank; fate = λ n. serves; requests = 0 }

abbrev session_of : (id : ℕ) → List Block → Session
session_of id blocks = record {
  id = id;
  owner = 1;
  model = 9;
  blocks = blocks;
  created_tick = 0;
  last_tick = 0;
  hits = 0;
  spills = 0;
  restores = 0;
}

-- An old prefix, a young block past it, and a block on the disk.
abbrev small_cache : Cache
small_cache = record {
  sessions =
      session_of 1 (resident 10 0 ∷ [])
      ∷ session_of 2
          (spilled 100 ∷ spilled 108 ∷ spilled 116 ∷ spilled 124 ∷ resident 11 19000 ∷ [])
      ∷ [];
  next_id = 3;
  resident_blocks = 2;
  spill_next = 132;
  spill_end = 200;
}

abbrev small_kv : Kv (List ℕ)
small_kv = record {
  cache = small_cache;
  evictions = 4;
  restores = 0;
  prefix_evictions = 4;
  pool = 12 ∷ 13 ∷ [];
  memory = λ frame o. frame;
  device = working;
  clock = λ n. 20000 + n;
  readings = 0;
}

abbrev old_prefix : Victim
old_prefix = record { si = 0; bi = 0; score = 2500; frame = 10 }

chosen : choose small_cache 63 20000 ≡ some old_prefix
unfolding choose scan_sessions scan_blocks eviction_score
chosen = refl

choose-Prefix_example :
    (used : ℕ) × IsAt small_cache 0 0 10 used
    × ((si bi frame other : ℕ)
        → IsAt small_cache si bi frame other
        → prefix_blocks ≤ bi
        → (20000 - other) * 8 + 8000 ≤ 20000 - used)
choose-Prefix_example = choose-Prefix small_cache 63 20000 old_prefix chosen (omega arith)

make_room_enough_example : make_room frame_list 20 63 small_kv ≡ make_room frame_list 3 63 small_kv
make_room_enough_example = make_room_enough frame_list 20 63 small_kv (omega arith) (omega arith)

small_cache-IsCounted : IsCounted small_cache
unfolding framed framed_in
small_cache-IsCounted = refl

append-IsWithin_example : IsWithin (append_from frame_list 3 0 2 small_kv).1.cache
append-IsWithin_example =
    append-IsWithin frame_list 3 0 2 small_kv
      (record { counted = small_cache-IsCounted; bounded = omega arith })

read-IsCounted_example : IsCounted (read frame_list 2 1 4096 (λ i. 0) small_kv).1.cache
read-IsCounted_example = read-IsCounted frame_list 2 1 4096 (λ i. 0) small_kv small_cache-IsCounted

abbrev counting : ℕ → ℕ
counting o = o + 1

abbrev written : Result Done × Device
written = write_out sectors_per_block 0 counting 3 working

written_ok : written.0 ≡ ok tt
unfolding write_out and_then write_sector carried_out
written_ok = refl

read_in-write_out_example :
    (((n : ℕ) → written.1.fate n ≡ serves)
      → (read_in sectors_per_block 0 3 (λ o. 0) written.1).0 ≡ ok tt)
    × ((read_in sectors_per_block 0 3 (λ o. 0) written.1).0 ≡ ok tt
        → (o : ℕ) → o < block_bytes
        → (read_in sectors_per_block 0 3 (λ o. 0) written.1).1.0 o ≡ counting o)
read_in-write_out_example =
    read_in-write_out counting (λ o. 0) 3 working written.1 written_ok (λ t h. refl)

abbrev no_cache : Cache
no_cache = record {
  sessions = [];
  next_id = 1;
  resident_blocks = 0;
  spill_next = 100;
  spill_end = 200;
}

abbrev new_kv : Kv ℕ
new_kv = record {
  cache = no_cache;
  evictions = 0;
  restores = 0;
  prefix_evictions = 0;
  pool = 0;
  memory = λ frame o. 0;
  device = working;
  clock = λ n. n;
  readings = 0;
}

abbrev some_calls : List Call
some_calls = opens 5 9 ∷ appends 1 ∷ appends 7 ∷ appends 1 ∷ []

calls-read_example :
    (view (calls counter some_calls new_kv).1.cache
      ≡ promised_all some_calls (calls counter some_calls new_kv).0 (view no_cache))
    × IsAnswer
        (calls counter some_calls new_kv).1.cache.sessions
        1
        1
        16
        (λ i. 0)
        (read counter 1 1 16 (λ i. 0) (calls counter some_calls new_kv).1).0
calls-read_example = calls-read counter counter_laws some_calls 1 1 16 (λ i. 0) new_kv refl

-- A full cache whose sectors are used up: `append` refuses, and `read` does not.
abbrev full_kv : Kv (List ℕ)
full_kv = record small_kv {
  cache = record small_cache {
    sessions = session_of 1 (spilled 100 ∷ replicate 64 (resident 10 0)) ∷ [];
    resident_blocks = 64;
    spill_end = 132;
  };
}

read_over_budget : (read frame_list 1 0 4096 (λ i. 0) full_kv).1.cache.resident_blocks ≡ 65
unfolding read read_block restore bring_back read_in read_sector answer_read find modify_first
    make_room evict spill choose scan_sessions scan_blocks eviction_score
read_over_budget = refl
