-- ===== src/Ota/Tests.antt =====
-- Runs of the boot: slot A on probation with two tries, and slot B proved.
use jungey_os.Prelude.{◌^◌, ℕ, ◌≡◌, ◌∙◌, ap, refl, true, some, ok, replicate, ◌==◌, arith, ◌<◌}
use jungey_os.Disk.{Sector, blank, put_sector}
use jungey_os.Sha256.Size.{length-digest}
use jungey_os.Fs.{Fs, first_checkpoint}
use jungey_os.Fs.Codec.{put_u64, get_u64, slice}
use jungey_os.Fs.Contents.{same_bytes_self}
use jungey_os.Fs.Root.{rebooted}
use jungey_os.Ota.Payload.{Image, img_magic, image_of, image_digest}
use jungey_os.Ota.{
  Control, unverified, successful, failed, at_slot, decode_control, encode_control, rolled_back,
  boot,
}
use jungey_os.Ota.Block.{IsControl, decode-encode_control}
use jungey_os.Ota.Boot.{parts, parts-put, image_at, IsTrial, reboots, boot-reboots}

abbrev fs : Fs
fs = record {
  cp = first_checkpoint;
  spill_start = 3616;
  spill_sectors = 16384;
  audit_start = 1568;
  audit_sectors = 2048;
  ota_start = 1439;
  ota_sectors = 129;
  slot = 0;
  total_sectors = 20000;
}

abbrev slots : ℕ → Sector
slots = λ n. put_u64 blank 0 img_magic

abbrev bytes : ℕ → ℕ
bytes = parts slots 8 0 1440 blank

abbrev image : Image
image = record { version = get_u64 bytes 8; flags = get_u64 bytes 16; digest = image_digest bytes }

abbrev control : Control
control = record {
  seq = 4;
  active = 0;
  tries = 2;
  rollbacks = 0;
  state = record { a = unverified; b = successful };
  version = record { a = get_u64 bytes 8; b = 1 };
  digest = record { a = image_digest bytes; b = replicate 32 7 };
}

abbrev media : ℕ → Sector
media = put_sector slots 1439 (encode_control control)

version_small : get_u64 bytes 8 < 2 ^ 64
unfolding get_u64 put_u64 parts
version_small = omega arith

control-IsControl : IsControl control
unfolding image_digest
control-IsControl = record {
  seq_fits = omega arith;
  slot = omega arith;
  version_a = version_small;
  version_b = omega arith;
  digest_a = length-digest (slice bytes 0 4096);
  digest_b = refl;
}

magic_there : (get_u64 bytes 0 == img_magic) ≡ true
unfolding get_u64 put_u64 parts
magic_there = refl

image_there : image_at fs media 0 ≡ ok image
unfolding image_of
image_there =
    ap image_of (parts-put slots 1440 8 0 1439 (encode_control control) blank (omega arith))
    ∙ rw (magic_there, image_of) refl

control-IsTrial : IsTrial fs media control image
control-IsTrial = record {
  on_disk = decode-encode_control control control-IsControl;
  fits = control-IsControl;
  probation = refl;
  backup = refl;
  image = image_there;
  digest = same_bytes_self (image_digest bytes);
  version = refl;
}

boot-reboots_example :
    ((boot fs (rebooted (reboots 2 fs media))).1 ≡ rolled_back 0 1 1)
    × ((c' : Control) × (decode_control ((boot fs (rebooted (reboots 2 fs media))).2.sectors 1439)
          ≡ some c')
        × (c'.active ≡ 1)
        × (at_slot c'.state 0 ≡ failed))
boot-reboots_example = boot-reboots 2 fs media control image control-IsTrial refl (omega arith)
