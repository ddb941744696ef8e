-- ===== src/Fs/Mount.antt =====
-- kernel/src/fs.rs: `format`, `mount`, and the test state, which is a sector outside the filesystem.
use jungey_os.Prelude.{
  ℕ, ◌-◌, not, ◌||◌, Option, none, some, ltb, ◌==◌, if◌then◌else◌, Result, ok, err,
}
use jungey_os.Disk.{Sector, Device, Done, blank, read_sector, write_sector, and_then}
use jungey_os.Fs.Codec.{put_u32, put_u64, get_u64, seal, intact}
use jungey_os.Fs.{
  Checkpoint, Fs, first_checkpoint, encode, decode, sb_magic, cp_sector, log_start, spill_size,
  audit_size, ota_size,
}

unfoldable pub superblock : (total_sectors : ℕ) → Sector
superblock total_sectors =
    let spill_start = total_sectors - spill_size in
    let audit_start = spill_start - audit_size in
    let ota_start = audit_start - ota_size in
    let sb = put_u64 (put_u32 (put_u64 blank 0 sb_magic) 8 1) 12 total_sectors in
    let sb = put_u64 (put_u64 sb 20 log_start) 28 (ota_start - log_start) in
    let sb = put_u64 (put_u64 sb 36 spill_start) 44 spill_size in
    let sb = put_u64 (put_u64 sb 52 audit_start) 60 audit_size in
    let sb = put_u64 (put_u64 sb 68 ota_start) 76 ota_size in seal sb

-- The subtractions there wrap below 0, for a disk smaller than the regions.
unfoldable pub format : (total_sectors : ℕ) → Device → Result Done × Device
format total_sectors d =
    let audit_start = total_sectors - spill_size - audit_size in
    let ota_start = audit_start - ota_size in
    and_then (write_sector d 0 (superblock total_sectors)) (λ _ d.
      and_then (write_sector d (cp_sector 1) blank) (λ _ d.
        and_then (write_sector d (cp_sector 0) (encode first_checkpoint)) (λ _ d.
          and_then (write_sector d audit_start blank) (λ _ d. write_sector d ota_start blank))))

-- Whether the checkpoint of a slot replaces the best one so far.
unfoldable pub newer : ℕ → Option Checkpoint → Option (ℕ × Checkpoint) → Option (ℕ × Checkpoint)
newer i none best = best
newer i (some cp) none = some (i, cp)
newer i (some cp) (some (j, b)) = if ltb b.seq cp.seq then some (i, cp) else some (j, b)

abbrev pub best_of : Sector → Sector → Option (ℕ × Checkpoint)
best_of a b = newer 1 (decode b) (newer 0 (decode a) none)

-- The fields of the superblock, with the checkpoint that is the root.
abbrev pub opened : Sector → ℕ → Checkpoint → Fs
opened sb slot cp = record {
  cp = cp;
  slot = slot;
  total_sectors = get_u64 sb 12;
  spill_start = get_u64 sb 36;
  spill_sectors = get_u64 sb 44;
  audit_start = get_u64 sb 52;
  audit_sectors = get_u64 sb 60;
  ota_start = get_u64 sb 68;
  ota_sectors = get_u64 sb 76;
}

unfoldable pub adopt : Sector → Option (ℕ × Checkpoint) → Result Fs
adopt sb none = err "no valid checkpoint: filesystem is unrecoverable"
adopt sb (some (slot, cp)) = ok (opened sb slot cp)

unfoldable pub checked : Sector → Result Sector
checked sb =
    if not (get_u64 sb 0 == sb_magic)
    then err "not a JLFS filesystem"
    else if not (intact sb)
    then err "superblock checksum mismatch"
    else ok sb

unfoldable pub mount : Device → Result Fs × Device
unfolding adopt checked
mount d = and_then (read_sector d 0) (λ sb d.
    and_then (checked sb, d)
      (λ sb d.
        and_then (read_sector d (cp_sector 0))
          (λ a d. and_then (read_sector d (cp_sector 1)) (λ b d. (adopt sb (best_of a b), d)))))

abbrev test_magic : ℕ
test_magic = 0x4A4C_4653_5445_5354

phase_of : Result Sector → ℕ
phase_of (err e) = 0
phase_of (ok raw) =
    if not (get_u64 raw 0 == test_magic) || not (intact raw) then 0 else get_u64 raw 8

abbrev pub test_state_sector : ℕ
test_state_sector = 4

unfoldable pub read_phase : Device → ℕ × Device
unfolding phase_of
read_phase d = let (r, d') = read_sector d test_state_sector in (phase_of r, d')

unfoldable pub write_phase : (phase : ℕ) → Device → Result Done × Device
write_phase phase d =
    write_sector d test_state_sector (seal (put_u64 (put_u64 blank 0 test_magic) 8 phase))
