-- ===== src/Ota.antt =====
-- kernel/src/ota.rs: the two system slots, the control block that says which one to boot, and the boot.
pub mod Payload
pub mod Block
pub mod Boot
mod Tests
use jungey_os.Prelude.{
  ℕ, zero, suc, ◌+◌, ◌-◌, ◌*◌, ◌%◌, ◌^◌, min, Bool, true, false, not, ◌&&◌, ◌||◌, Option, none,
  some, List, [], ◌∷◌, ◌==◌, if◌then◌else◌, Result, ok, err, bit_and, replicate,
}
use jungey_os.Disk.{Sector, Device, Done, blank, read_sector, write_sector, and_then}
use jungey_os.Fs.{Fs, ota_slot_sectors}
use jungey_os.Fs.Names.{same_bytes}
use jungey_os.Fs.Codec.{copy_at, slice, put_u64, get_u64, seal, intact}
use jungey_os.Ota.Payload.{Image, build_image, write_image, load_image, image_digest, flag_healthy}

abbrev pub cb_magic : ℕ
cb_magic = 0x4A42_4F4F_5443_4230

abbrev pub max_tries : ℕ
max_tries = 2

pub data SlotState : Type 0 where
  empty : SlotState
  unverified : SlotState
  successful : SlotState
  failed : SlotState

-- SlotState::from
abbrev pub state_from : ℕ → SlotState
state_from v =
    if v == 1 then unverified else if v == 2 then successful else if v == 3 then failed else empty

-- SlotState::to
abbrev pub state_to : SlotState → ℕ
state_to empty = 0
state_to unverified = 1
state_to successful = 2
state_to failed = 3

abbrev pub is_unverified : SlotState → Bool
is_unverified unverified = true
is_unverified _ = false

abbrev pub is_successful : SlotState → Bool
is_successful successful = true
is_successful _ = false

-- `[A; 2]`, indexed by a slot, which is 0 or 1.
pub record Slots {ℓ} (A : Type ℓ) : Type ℓ where
  pub a : A
  pub b : A

abbrev pub at_slot {ℓ} : {A : Type ℓ} → Slots A → ℕ → A
at_slot s zero = s.a
at_slot s (suc slot) = s.b

abbrev pub set_slot {ℓ} : {A : Type ℓ} → Slots A → ℕ → A → Slots A
set_slot s zero v = record s { a = v }
set_slot s (suc slot) v = record s { b = v }

pub record Control : Type 0 where
  pub seq : ℕ
  pub active : ℕ
  pub tries : ℕ
  pub rollbacks : ℕ
  pub state : Slots SlotState
  pub version : Slots ℕ
  pub digest : Slots (List ℕ)

abbrev pub blank_control : Control
blank_control = record {
  seq = 0;
  active = 0;
  tries = 0;
  rollbacks = 0;
  state = record { a = empty; b = empty };
  version = record { a = 0; b = 0 };
  digest = record { a = replicate 32 0; b = replicate 32 0 };
}

abbrev pub other : Control → ℕ
other c = 1 - c.active

unfoldable pub decode_control : Sector → Option Control
decode_control raw =
    if not (get_u64 raw 0 == cb_magic) || not (intact raw)
    then none
    else some (record {
      seq = get_u64 raw 8;
      active = bit_and (raw 16) 1;
      tries = raw 17;
      rollbacks = raw 18;
      state = record { a = state_from (raw 19); b = state_from (raw 20) };
      version = record { a = get_u64 raw 24; b = get_u64 raw 32 };
      digest = record { a = slice raw 40 32; b = slice raw 72 32 };
    })

-- The five bytes from 16 on are assigned one by one there.
abbrev pub small_fields : Control → List ℕ
small_fields c = c.active ∷ c.tries ∷ c.rollbacks ∷ state_to c.state.a ∷ state_to c.state.b ∷ []

unfoldable pub encode_control : Control → Sector
encode_control c =
    let raw = copy_at (put_u64 (put_u64 blank 0 cb_magic) 8 c.seq) 16 (small_fields c) in
    let raw = copy_at (put_u64 raw 24 c.version.a) 40 c.digest.a in
    let raw = copy_at (put_u64 raw 32 c.version.b) 72 c.digest.b in seal raw

abbrev pub control_sector : Fs → ℕ
control_sector f = f.ota_start

abbrev pub slot_sector : Fs → (slot : ℕ) → ℕ
slot_sector f slot = f.ota_start + 1 + slot * ota_slot_sectors

read_back : Result Sector → Option Control
read_back (err e) = none
read_back (ok raw) = decode_control raw

unfoldable pub read_control : Fs → Device → Option Control × Device
unfolding read_back
read_control f d = let (r, d') = read_sector d (control_sector f) in (read_back r, d')

abbrev pub bumped : Control → Control
bumped c = record c { seq = c.seq + 1 }

-- The control block changes its number even when the write fails.
unfoldable pub write_control : Fs → Control → Device → Result Done × Control × Device
write_control f c d =
    let (r, d') = write_sector d (control_sector f) (encode_control (bumped c)) in (r, bumped c, d')

abbrev pub staged : Control → (slot version : ℕ) → (healthy : Bool) → Control
staged c slot version healthy = record c {
  version = set_slot c.version slot version;
  digest = set_slot c.digest slot (image_digest (build_image version healthy));
  state = set_slot c.state slot unverified;
  active = slot;
  tries = max_tries;
}

unfoldable pub stage :
    Fs → Control → (slot version : ℕ) → (healthy : Bool) → Device → Result Done × Control × Device
stage f c slot version healthy d =
    let (r, d') = write_image (slot_sector f slot) (build_image version healthy) d in
    elim r [ err e ↦ (err e, c, d') | ok _ ↦ write_control f (staged c slot version healthy) d' ]

unfoldable pub load : Fs → (slot : ℕ) → Device → Result Image × Device
load f slot d = load_image (slot_sector f slot) d

pub data Outcome : Type 0 where
  fresh : Outcome
  trying : (slot version tries_left : ℕ) → (healthy : Bool) → Outcome
  rolled_back : (from to version : ℕ) → Outcome
  running : (slot version : ℕ) → Outcome
  corrupt : (slot : ℕ) → Outcome

-- Out of tries, with a slot to fall back to.
abbrev pub restored : Control → Control
restored c = record c {
  state = set_slot c.state c.active failed;
  active = other c;
  rollbacks = min (c.rollbacks + 1) 255;
}

abbrev pub spent : Control → Control
spent c = record c { tries = c.tries - 1 }

-- The image that was loaded is the one that the control block names, or not.
unfoldable pub boot_image : Fs → Control → Result Image → Device → Control × Outcome × Device
boot_image f c (err e) d = (c, corrupt c.active, d)
boot_image f c (ok img) d =
    if not (same_bytes img.digest (at_slot c.digest c.active))
      || not (img.version == at_slot c.version c.active)
    then (c, corrupt c.active, d)
    else if is_unverified (at_slot c.state c.active)
    then (let (_, c', d') = write_control f (spent c) d in
        (c', trying c.active img.version c'.tries (not (bit_and img.flags flag_healthy == 0)), d'))
    else (c, running c.active img.version, d)

unfoldable pub boot_slot : Fs → Control → Device → Control × Outcome × Device
boot_slot f c d = let (r, d') = load f c.active d in boot_image f c r d'

unfoldable pub boot_control : Fs → Control → Device → Control × Outcome × Device
boot_control f c d =
    if is_unverified (at_slot c.state c.active) && (c.tries == 0)
    then (if is_successful (at_slot c.state (other c))
        then (let (_, c', d') = write_control f (restored c) d in
            (c', rolled_back c.active (other c) (at_slot c.version (other c)), d'))
        else (let (_, c', d') = write_control f (record c { tries = 1 }) d in boot_slot f c' d'))
    else boot_slot f c d

unfoldable pub boot : Fs → Device → Control × Outcome × Device
boot f d =
    let (r, d') = read_control f d in
    elim r [ none ↦ (blank_control, fresh, d') | some c ↦ boot_control f c d' ]

abbrev pub proved : Control → Control
proved c = record c {
  state =
      (let s = set_slot c.state c.active successful in
        if is_successful (at_slot s (other c)) then set_slot s (other c) empty else s);
  tries = 0;
}

unfoldable pub mark_successful : Fs → Control → Device → Result Done × Control × Device
mark_successful f c d = write_control f (proved c) d

-- On success the control block; otherwise the error.
unfoldable pub initialise : Fs → Device → Result Control × Device
initialise f d =
    let img = build_image 1 true in
    let c = record blank_control {
      version = set_slot blank_control.version 0 1;
      digest = set_slot blank_control.digest 0 (image_digest img);
      state = set_slot blank_control.state 0 successful;
    } in
    and_then (write_image (slot_sector f 0) img d) (λ _ d.
      let (r, c', d') = write_control f c d in elim r [ err e ↦ (err e, d') | ok _ ↦ (ok c', d') ])
