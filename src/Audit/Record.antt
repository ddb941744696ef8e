-- ===== src/Audit/Record.antt =====
-- kernel/src/audit.rs: the layout of a record, its hash, and where it lies in a sector.
use jungey_os.Prelude.{ℕ, ◌+◌, ◌-◌, ◌*◌, ◌&&◌, List, length, take, bit_xor, leb, ltb, if◌then◌else◌}
use jungey_os.Disk.{Sector, blank}
use jungey_os.Fs.Codec.{copy_at, slice, put_u64, get_u64}
use jungey_os.Fnv.{fnv_basis, hash_bytes}

abbrev pub record_bytes : ℕ
record_bytes = 128

abbrev pub records_per_sector : ℕ
records_per_sector = 4

abbrev pub name_bytes : ℕ
name_bytes = 32

abbrev pub detail_bytes : ℕ
detail_bytes = 40

abbrev pub log_magic : ℕ
log_magic = 0x4A5F_4155_4449_5430

-- A record, like a sector, is the byte at each offset.
abbrev pub Rec : Type 0
Rec = Sector

abbrev pub magic_of : Rec → ℕ
magic_of rec = get_u64 rec 0

abbrev pub seq_of : Rec → ℕ
seq_of rec = get_u64 rec 8

abbrev pub prev_of : Rec → ℕ
prev_of rec = get_u64 rec 16

abbrev pub tick_of : Rec → ℕ
tick_of rec = get_u64 rec 24

abbrev pub cap_of : Rec → ℕ
cap_of rec = get_u64 rec 40

abbrev pub off_hash : ℕ
off_hash = 120

abbrev pub stored_hash : Rec → ℕ
stored_hash rec = get_u64 rec off_hash

unfoldable pub hash_record : Rec → (prev : ℕ) → ℕ
hash_record rec prev = hash_bytes (bit_xor prev fnv_basis) (slice rec 0 off_hash)

-- The fields, before the hash is put in. Only the length of the actor is kept.
unfoldable pub unhashed :
    (seq prev tick : ℕ) → (actor : List ℕ) → (cap_id : ℕ) → (name detail : List ℕ) → Rec
unhashed seq prev tick actor cap_id name detail =
    let rec = put_u64 (put_u64 (put_u64 blank 0 log_magic) 8 seq) 16 prev in
    let rec = put_u64 (put_u64 (put_u64 rec 24 tick) 32 (length actor)) 40 cap_id in
    copy_at (copy_at rec 48 (take name_bytes name)) 80 (take detail_bytes detail)

-- `&buf[slot * RECORD_BYTES..(slot + 1) * RECORD_BYTES]`
abbrev pub record_in : Sector → (slot : ℕ) → Rec
record_in buf slot = λ i. buf (slot * record_bytes + i)

-- `buf[slot * RECORD_BYTES..(slot + 1) * RECORD_BYTES].copy_from_slice(&rec)`
unfoldable pub with_record : Sector → (slot : ℕ) → Rec → Sector
with_record buf slot rec = λ i.
    if leb (slot * record_bytes) i && ltb i ((slot + 1) * record_bytes)
    then rec (i - slot * record_bytes)
    else buf i
