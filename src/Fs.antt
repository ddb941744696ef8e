-- ===== src/Fs.antt =====
-- kernel/src/fs.rs: the log-structured filesystem, and its checkpoint as bytes.
-- The files of a checkpoint are the first `count` entries of the array there: the others are empty.
pub mod Codec
pub mod Layout
pub mod Names
pub mod Mount
pub mod Log
pub mod Roundtrip
pub mod Root
pub mod Crash
pub mod Consistent
pub mod Fresh
pub mod Contents
mod Tests
use jungey_os.Prelude.{
  ℕ, zero, suc, ◌+◌, ◌-◌, ◌*◌, ◌/◌, ◌%◌, ◌^◌, Bool, true, false, not, ◌&&◌, ◌||◌, Option, none,
  some, List, [], ◌∷◌, ◌++◌, ltb, leb, ◌==◌, if◌then◌else◌, length, get_elem?, set, replicate, min,
  Result, ok, err,
}
use jungey_os.Disk.{Sector, Device, Done, sector_size, blank, read_sector, write_sector, and_then}
use jungey_os.Fs.Codec.{copy_at, slice, put_u32, put_u64, get_u32, get_u64, seal, intact}
use jungey_os.Fs.Names.{FileEntry, max_name, name_str, padded, same_bytes}

abbrev pub spill_size : ℕ
spill_size = 16384

abbrev pub audit_size : ℕ
audit_size = 2048

abbrev pub ota_slot_sectors : ℕ
ota_slot_sectors = 64

abbrev pub ota_size : ℕ
ota_size = 1 + 2 * ota_slot_sectors

abbrev pub log_start : ℕ
log_start = 8

abbrev pub sb_magic : ℕ
sb_magic = 0x4A4C_4653_5F53_4230

abbrev pub cp_magic : ℕ
cp_magic = 0x4A4C_4653_5F43_5030

abbrev pub max_files : ℕ
max_files = 8

-- CP_SECTORS
abbrev pub cp_sector : ℕ → ℕ
cp_sector slot = 1 + slot

pub record Checkpoint : Type 0 where
  pub seq : ℕ
  pub log_head : ℕ
  pub files : List FileEntry

abbrev pub first_checkpoint : Checkpoint
first_checkpoint = record { seq = 1; log_head = log_start; files = [] }

-- `ENTRIES_OFF + i * ENTRY_SIZE`
abbrev pub entry_off : ℕ → ℕ
entry_off i = 32 + i * 48

abbrev pub get_entry : Sector → ℕ → FileEntry
get_entry raw start = record {
  name = slice raw start max_name;
  size = get_u32 raw (start + 28);
  start = get_u64 raw (start + 32);
  sectors = get_u32 raw (start + 40);
}

-- `for i in 0..count`
unfoldable pub get_entries : (left i : ℕ) → Sector → List FileEntry
get_entries zero i raw = []
get_entries (suc left) i raw = get_entry raw (entry_off i) ∷ get_entries left (i + 1) raw

unfoldable pub decode : Sector → Option Checkpoint
decode raw =
    if not (get_u64 raw 0 == cp_magic) || not (intact raw)
    then none
    else if ltb max_files (get_u32 raw 24)
    then none
    else some (record {
      seq = get_u64 raw 8;
      log_head = get_u64 raw 16;
      files = get_entries (get_u32 raw 24) 0 raw;
    })

abbrev pub put_entry : Sector → ℕ → FileEntry → Sector
put_entry raw start f =
    put_u32 (put_u64 (put_u32 (copy_at raw start f.name) (start + 28) f.size) (start + 32) f.start)
      (start + 40) f.sectors

unfoldable pub put_entries : Sector → (i : ℕ) → List FileEntry → Sector
put_entries raw i [] = raw
put_entries raw i (f ∷ fs) = put_entries (put_entry raw (entry_off i) f) (i + 1) fs

abbrev pub put_header : Checkpoint → Sector
put_header cp =
    put_u32 (put_u64 (put_u64 (put_u64 blank 0 cp_magic) 8 cp.seq) 16 cp.log_head) 24
      (length cp.files % 2 ^ 32)

unfoldable pub encode : Checkpoint → Sector
encode cp = seal (put_entries (put_header cp) 0 cp.files)

pub record Fs : Type 0 where
  pub cp : Checkpoint
  pub spill_start : ℕ
  pub spill_sectors : ℕ
  pub audit_start : ℕ
  pub audit_sectors : ℕ
  pub ota_start : ℕ
  pub ota_sectors : ℕ
  pub slot : ℕ
  pub total_sectors : ℕ
