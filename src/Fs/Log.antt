-- ===== src/Fs/Log.antt =====
-- kernel/src/fs.rs: the methods of `Fs`. A file's bytes are a list. `usize` and `u64` sums stay below
-- 2 ^ 64; what the code casts to 32 bits is taken modulo 2 ^ 32 here too.
use jungey_os.Prelude.{
  ℕ, zero, suc, ◌+◌, ◌-◌, ◌*◌, ◌/◌, ◌%◌, ◌^◌, Bool, false, not, ◌&&◌, String, Option, none, some,
  List, [], ◌∷◌, ◌++◌, ltb, ◌==◌, if◌then◌else◌, length, get_elem?, set, take, drop, min, Result,
  ok, err,
}
use jungey_os.Disk.{Sector, Device, sector_size, read_sector, write_sector, and_then}
use jungey_os.Fs.Codec.{slice}
use jungey_os.Fs.Names.{FileEntry, max_name, name_str, padded, same_bytes}
use jungey_os.Fs.{Checkpoint, Fs, encode, cp_sector, log_start, max_files}

-- `if r != 0 && r < limit { limit = r }`
abbrev pub lower : ℕ → ℕ → ℕ
lower limit r = if not (r == 0) && ltb r limit then r else limit

unfoldable pub log_limit : Fs → ℕ
log_limit fs = lower (lower (lower fs.total_sectors fs.ota_start) fs.audit_start) fs.spill_start

unfoldable pub find_from : List FileEntry → (i : ℕ) → List ℕ → Option ℕ
find_from [] i name = none
find_from (f ∷ fs) i name =
    if same_bytes (name_str f) name then some i else find_from fs (i + 1) name

unfoldable pub find : List FileEntry → List ℕ → Option ℕ
unfolding find_from
find files name = find_from files 0 name

unfoldable pub entry : Fs → List ℕ → Option FileEntry
entry fs name = elim (find fs.cp.files name) [ none ↦ none | some i ↦ get_elem? fs.cp.files i ]

-- `for s in 0..entry.sectors`: the bytes still to come, `left` of the file's size.
unfoldable pub read_sectors : (count sector left : ℕ) → Device → Result (List ℕ) × Device
read_sectors zero sector left d = (ok [], d)
read_sectors (suc count) sector left d = and_then (read_sector d sector) (λ raw d.
    let n = min left sector_size in
    let rest = read_sectors count (sector + 1) (left - n) d in
    if left - n == 0
    then (ok (slice raw 0 n), d)
    else and_then rest (λ bytes d. (ok (slice raw 0 n ++ bytes), d)))

-- The bytes that `read` puts into a buffer of `room` bytes.
unfoldable pub read : Fs → (name : List ℕ) → (room : ℕ) → Device → Result (List ℕ) × Device
read fs name room d = elim (entry fs name) [
  | none ↦ (err "no such file", d)
  | some e ↦
      if ltb room e.size
      then (err "buffer too small", d)
      else read_sectors e.sectors e.start e.size d
]

abbrev pub byte_at : Option ℕ → ℕ
byte_at none = 0
byte_at (some b) = b

-- The sector that holds the bytes from `s * SECTOR_SIZE` on, filled up with zeros.
abbrev pub chunk : List ℕ → ℕ → Sector
chunk bytes s =
    λ i. if ltb i sector_size then byte_at (get_elem? bytes (s * sector_size + i)) else 0

-- What a write comes to: `off` is the machine powered off in the middle of it.
pub data Outcome : Type 0 where
  landed : Outcome
  failed : String → Outcome
  off : Outcome

unfoldable pub is_cut : Option ℕ → ℕ → Bool
is_cut none s = false
is_cut (some k) s = k == s

-- `for s in 0..sectors`
unfoldable pub write_chunks :
    (left s : ℕ) → (start : ℕ) → List ℕ → (crash_after : Option ℕ) → Device → Outcome × Device
unfolding is_cut
write_chunks zero s start bytes crash_after d = (if is_cut crash_after s then off else landed, d)
write_chunks (suc left) s start bytes crash_after d =
    if is_cut crash_after s
    then (off, d)
    else let (r, d') = write_sector d (start + s) (chunk bytes s) in
      elim r [
        | err e ↦ (failed e, d')
        | ok _ ↦ write_chunks left (s + 1) start bytes crash_after d'
      ]

-- `data.len().div_ceil(SECTOR_SIZE) as u32`
abbrev pub sectors_for : List ℕ → ℕ
sectors_for bytes = (length bytes + 511) / 512 % 2 ^ 32

abbrev pub new_entry : (name bytes : List ℕ) → (start : ℕ) → FileEntry
new_entry name bytes start = record {
  name = padded name;
  size = length bytes % 2 ^ 32;
  start = start;
  sectors = sectors_for bytes;
}

-- The entry replaces the one at `at`, or is added.
unfoldable pub put_file : List FileEntry → Option ℕ → FileEntry → Option (List FileEntry)
put_file files (some i) e = some (set files i e)
put_file files none e = if length files == max_files then none else some (files ++ e ∷ [])

abbrev pub rooted : Fs → Checkpoint → Fs
rooted fs cp = record fs { cp = cp; slot = 1 - fs.slot }

-- The checkpoint goes to the slot that is not the root.
unfoldable pub commit : Fs → Checkpoint → Device → Outcome × Fs × Device
commit fs cp d =
    let (r, d') = write_sector d (cp_sector (1 - fs.slot)) (encode cp) in
    elim r [ err e ↦ (failed e, fs, d') | ok _ ↦ (landed, rooted fs cp, d') ]

-- Once the bytes have landed.
unfoldable pub write_root : Fs → (name bytes : List ℕ) → Device → Outcome × Fs × Device
write_root fs name bytes d =
    let start = fs.cp.log_head in
    elim (put_file fs.cp.files (find fs.cp.files name) (new_entry name bytes start)) [
      | none ↦ (failed "directory is full", fs, d)
      | some files ↦
          commit fs
            (record { seq = fs.cp.seq + 1; log_head = start + sectors_for bytes; files = files }) d
    ]

unfoldable pub write :
    Fs → (name bytes : List ℕ) → (crash_after : Option ℕ) → Device → Outcome × Fs × Device
write fs name bytes crash_after d =
    if ltb max_name (length name)
    then (failed "name too long", fs, d)
    else if ltb (log_limit fs) (fs.cp.log_head + sectors_for bytes)
    then (failed "log is full", fs, d)
    else let (r, d') = write_chunks (sectors_for bytes) 0 fs.cp.log_head bytes crash_after d in
      elim r [
        | landed ↦ write_root fs name bytes d'
        | failed e ↦ (failed e, fs, d')
        | off ↦ (off, fs, d')
      ]

-- `for j in i..count - 1 { files[j] = files[j + 1] }`
abbrev pub remove_at : List FileEntry → ℕ → List FileEntry
remove_at files i = take i files ++ drop (i + 1) files

unfoldable pub set_entry : Fs → (name : List ℕ) → Option FileEntry → Device → Outcome × Fs × Device
set_entry fs name e d =
    let moved = λ (files : List FileEntry).
      commit fs (record { seq = fs.cp.seq + 1; log_head = fs.cp.log_head; files = files }) d in
    elim (find fs.cp.files name) [
      | none ↦ elim e [
        | none ↦ (landed, fs, d)
        | some e ↦ elim (put_file fs.cp.files none e) [
          | none ↦ (failed "directory is full", fs, d)
          | some files ↦ moved files
        ]
      ]
      | some i ↦ elim e [
        | some e ↦ moved (set fs.cp.files i e)
        | none ↦ moved (remove_at fs.cp.files i)
      ]
    ]

live_sectors : List FileEntry → ℕ
live_sectors [] = 0
live_sectors (f ∷ fs) = f.sectors + live_sectors fs

-- The sectors of log in use, and those of them that no file has any more.
unfoldable pub usage : Fs → ℕ × ℕ
unfolding live_sectors
usage fs = let used = fs.cp.log_head - log_start in (used, used - live_sectors fs.cp.files)
