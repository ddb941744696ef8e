-- ===== src/Audit.antt =====
-- kernel/src/audit.rs: the action log. A record is 128 bytes and four of them share a sector; each
-- carries the hash of the one before it. Names and details are their bytes. `sectors * 4` does not
-- wrap: the region is what the filesystem reserved on a disk.
pub mod Record
pub mod Chain
pub mod Append
pub mod Sound
pub mod Tamper
mod Tests
use jungey_os.Prelude.{
  ℕ, zero, suc, ◌+◌, ◌-◌, ◌*◌, ◌/◌, ◌%◌, min, ◌||◌, not, Bool, true, false, Option, none, some,
  List, leb, ◌==◌, if◌then◌else◌, Result, ok, err, bit_xor,
}
use jungey_os.Disk.{Sector, Device, Done, blank, read_sector, write_sector, and_then}
use jungey_os.Fs.Codec.{slice, put_u64}
use jungey_os.Audit.Record.{
  Rec, records_per_sector, record_bytes, off_hash, log_magic, magic_of, seq_of, prev_of, tick_of,
  cap_of, stored_hash, hash_record, unhashed, record_in, with_record,
}

pub record Log : Type 0 where
  pub start : ℕ
  pub sectors : ℕ
  pub next_seq : ℕ
  pub last_hash : ℕ
  pub ready : Bool

-- The log, the count of appended records, and the disk.
pub record Audit : Type 0 where
  pub log : Log
  pub appended : ℕ
  pub device : Device

abbrev pub capacity : Log → ℕ
capacity l = l.sectors * records_per_sector

abbrev pub sector_of : Log → (seq : ℕ) → ℕ
sector_of l seq = l.start + seq / records_per_sector

abbrev pub slot_of : (seq : ℕ) → ℕ
slot_of seq = seq % records_per_sector

-- Where the scan has got to: the next number, the last hash, and whether the log goes on.
pub record End : Type 0 where
  pub seq : ℕ
  pub last_hash : ℕ
  pub goes_on : Bool

-- The records of a sector from the slot r.
unfoldable pub scan_slots : (left r : ℕ) → Sector → End → End
scan_slots zero r buf e = e
scan_slots (suc left) r buf e =
    let rec = record_in buf r in
    let rest =
      scan_slots left (r + 1) buf
        (record { seq = seq_of rec + 1; last_hash = stored_hash rec; goes_on = true }) in
    if not (magic_of rec == log_magic) then record e { goes_on = false } else rest

-- `'scan: for s in 0..sectors`
unfoldable pub scan : (left s start : ℕ) → Device → End → End × Device
unfolding scan_slots
scan zero s start d e = (e, d)
scan (suc left) s start d e =
    let got = read_sector d (start + s) in
    elim got.0 [
      | err m ↦ (e, got.1)
      | ok buf ↦
          let e' = scan_slots records_per_sector 0 buf e in
          let rest = scan left (s + 1) start got.1 e' in if e'.goes_on then rest else (e', got.1)
    ]

unfoldable pub init : Audit → (start sectors : ℕ) → Audit
unfolding scan
init a start sectors =
    let (e, d) =
      scan sectors 0 start a.device (record { seq = 0; last_hash = 0; goes_on = true }) in
    record a {
      log = record {
        start = start;
        sectors = sectors;
        next_seq = min e.seq (sectors * records_per_sector);
        last_hash = e.last_hash;
        ready = true;
      };
      device = d;
    }

appended_to : Audit → (seq hash : ℕ) → Result Done → Device → Result ℕ × Audit
appended_to a seq hash (err m) d = (err m, record a { device = d })
appended_to a seq hash (ok done) d = (
  ok seq,
  record {
    log = record a.log { next_seq = seq + 1; last_hash = hash };
    appended = a.appended + 1;
    device = d;
  },
)

-- Read the sector that the record shares with others, put the record in, write the sector.
unfoldable pub put_record : Device → Log → (seq : ℕ) → Rec → Result Done × Device
put_record d l seq rec =
    and_then (read_sector d (sector_of l seq))
      (λ buf d. write_sector d (sector_of l seq) (with_record buf (slot_of seq) rec))

unfoldable pub append :
    Audit → (tick : ℕ) → (actor : List ℕ) → (cap_id : ℕ) → (name detail : List ℕ) → Result ℕ × Audit
unfolding appended_to
append a tick actor cap_id name detail =
    let seq = a.log.next_seq in
    let rec = unhashed seq a.log.last_hash tick actor cap_id name detail in
    let hash = hash_record rec a.log.last_hash in
    let done = put_record a.device a.log seq (put_u64 rec off_hash hash) in
    if not a.log.ready
    then (err "no audit log", a)
    else if leb (capacity a.log) seq
    then (err "audit log is full", a)
    else appended_to a seq hash done.0 done.1

pub record Verified : Type 0 where
  pub records : ℕ
  pub first_bad : Option ℕ

unfoldable pub broken : Rec → (prev : ℕ) → Bool
broken rec prev =
    not (magic_of rec == log_magic)
    || not (prev_of rec == prev)
    || not (hash_record rec prev == stored_hash rec)

-- A sector is read at its first record, and kept for the other three.
unfoldable pub fetch : Log → (seq : ℕ) → Sector → Device → Result Sector × Device
fetch l seq buf d =
    if seq % records_per_sector == 0 then read_sector d (sector_of l seq) else (ok buf, d)

unfoldable pub walk :
    (left seq : ℕ) → Log → (prev checked : ℕ) → Sector → Device → Verified × Device
walk zero seq l prev checked buf d = (record { records = checked; first_bad = none }, d)
walk (suc left) seq l prev checked buf d =
    let got = fetch l seq buf d in
    let bad : Verified = record { records = checked; first_bad = some seq } in
    elim got.0 [
      | err m ↦ (bad, got.1)
      | ok buf ↦
          let rec = record_in buf (slot_of seq) in
          let rest = walk left (seq + 1) l (stored_hash rec) (checked + 1) buf got.1 in
          if broken rec prev then (bad, got.1) else rest
    ]

unfoldable pub verify : Audit → Verified × Audit
verify a =
    let (v, d) = walk a.log.next_seq 0 a.log 0 0 blank a.device in (v, record a { device = d })

pub record Entry : Type 0 where
  pub seq : ℕ
  pub tick : ℕ
  pub cap_id : ℕ
  pub name : List ℕ
  pub detail : List ℕ

entry_in : Rec → Option Entry
entry_in rec =
    if not (magic_of rec == log_magic)
    then none
    else some (record {
      seq = seq_of rec;
      tick = tick_of rec;
      cap_id = cap_of rec;
      name = slice rec 48 32;
      detail = slice rec 80 40;
    })

entry_of : (seq : ℕ) → Result Sector → Option Entry
unfolding entry_in
entry_of seq (err m) = none
entry_of seq (ok buf) = entry_in (record_in buf (slot_of seq))

-- `read`; the name and the detail are the two buffers that it fills.
unfoldable pub read : Audit → (seq : ℕ) → Option Entry × Audit
unfolding entry_of
read a seq =
    let got = read_sector a.device (sector_of a.log seq) in
    (entry_of seq got.0, record a { device = got.1 })

unfoldable pub flip_at : Sector → (place : ℕ) → Sector
flip_at buf place = λ i. if i == place then bit_xor (buf i) 0xff else buf i

unfoldable pub corrupt_for_test : Audit → (seq byte : ℕ) → Result Done × Audit
unfolding flip_at
corrupt_for_test a seq byte =
    let place = slot_of seq * record_bytes + min byte (off_hash - 1) in
    let (r, d) =
      and_then (read_sector a.device (sector_of a.log seq))
        (λ buf d. write_sector d (sector_of a.log seq) (flip_at buf place)) in
    (r, record a { device = d })
