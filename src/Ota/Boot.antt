-- ===== src/Ota/Boot.antt =====
-- Boots of a slot on probation, with a disk that answers: the tries run out, and the old slot comes back.
use jungey_os.Prelude.{
  ℕ, zero, suc, ◌+◌, ◌-◌, ◌^◌, ◌<◌, ◌≡◌, refl, ap, ◌∙◌, subst, true, false, not, arith, ◌==◌,
  ==_self, ==_ne, ==_iff, some, Result, ok, bit_and,
}
use jungey_os.Disk.{Sector, Device, serves, blank, read_sector, write_sector, put_sector, and_then}
use jungey_os.Fs.{Fs}
use jungey_os.Fs.Names.{same_bytes}
use jungey_os.Fs.Root.{rebooted}
use jungey_os.Ota.Payload.{Image, read_parts, load_image, image_of, with_part, flag_healthy}
use jungey_os.Ota.{
  Control, Slots, unverified, successful, failed, at_slot, set_slot, other, slot_sector,
  decode_control, encode_control, bumped, spent, restored, trying, rolled_back, read_control,
  write_control, load, boot_image, boot_slot, boot_control, boot,
}
use jungey_os.Ota.Block.{IsControl, decode-encode_control}

-- The bytes of `left` sectors of the medium, over those of `img`.
unfoldable pub parts : (ℕ → Sector) → (left s base : ℕ) → (ℕ → ℕ) → ℕ → ℕ
parts media zero s base img = img
parts media (suc left) s base img =
    parts media left (s + 1) base (with_part img s (media (base + s)))

-- What `load` finds in a slot.
abbrev pub image_at : Fs → (ℕ → Sector) → ℕ → Result Image
image_at f media slot = image_of (parts media 8 0 (slot_sector f slot) blank)

module _ (media : ℕ → Sector) (base : ℕ) where
  read_parts_lem :
      (left s requests : ℕ) (img : ℕ → ℕ)
      → read_parts left s base img
          (record { sectors = media; fate = λ n. serves; requests = requests })
        ≡ (
          ok (parts media left s base img),
          record { sectors = media; fate = λ n. serves; requests = requests + left },
        )
  unfolding read_parts parts and_then read_sector
  read_parts_lem zero s requests img = let z : requests + 0 ≡ requests = omega arith in rw z refl
  read_parts_lem (suc left) s requests img =
      let z : requests + 1 + left ≡ requests + suc left = omega arith in
      read_parts_lem left (s + 1) (requests + 1) (with_part img s (media (base + s))) ∙ rw z refl

  pub parts-put :
      (left s k : ℕ) (b : Sector) (img : ℕ → ℕ)
      → k < base
      → parts (put_sector media k b) left s base img ≡ parts media left s base img
  unfolding parts
  parts-put zero s k b img h = refl
  parts-put (suc left) s k b img h =
      rw (==_ne (base + s) k (λ e. omega arith))
        (parts-put left (s + 1) k b (with_part img s (media (base + s))) h)

abbrev working : (ℕ → Sector) → ℕ → Device
working media requests = record { sectors = media; fate = λ n. serves; requests = requests }

load_lem :
    (f : Fs) (slot : ℕ) (media : ℕ → Sector) (requests : ℕ)
    → load f slot (working media requests) ≡ (image_at f media slot, working media (requests + 8))
unfolding load load_image and_then
load_lem f slot media requests =
    rw (read_parts_lem media (slot_sector f slot) 8 0 requests blank) refl

-- A slot on probation whose image is the one that was staged, with a proved slot behind it.
pub record IsTrial (f : Fs) (media : ℕ → Sector) (c : Control) (img : Image) : Type 0 where
  pub on_disk : decode_control (media f.ota_start) ≡ some c
  pub fits : IsControl c
  pub probation : at_slot c.state c.active ≡ unverified
  pub backup : at_slot c.state (other c) ≡ successful
  pub image : image_at f media c.active ≡ ok img
  pub digest : same_bytes img.digest (at_slot c.digest c.active) ≡ true
  pub version : img.version ≡ at_slot c.version c.active

module _ (f : Fs) (media : ℕ → Sector) (c : Control) (img : Image) (r : IsTrial f media c img)
    (room : c.seq + 1 < 2 ^ 64) where
  abbrev written : Control → ℕ → Sector
  written c' = put_sector media f.ota_start (encode_control (bumped c'))

  written-decodes :
      (c' : Control)
      → IsControl (bumped c')
      → decode_control (written c' f.ota_start) ≡ some (bumped c')
  written-decodes c' h = rw (==_self f.ota_start) (decode-encode_control (bumped c') h)

  written-image : (c' : Control) (slot : ℕ) → image_at f (written c') slot ≡ image_at f media slot
  written-image c' slot = ap image_of (
      parts-put media (slot_sector f slot) 8 0 f.ota_start (encode_control (bumped c')) blank
        (omega arith))

  boot_eq : boot f (rebooted media) ≡ boot_control f c (working media 1)
  unfolding boot read_control read_sector
  boot_eq = rw (r.on_disk, boot) refl

  slot_eq : boot_slot f c (working media 1) ≡ (
    bumped (spent c),
    trying c.active img.version (c.tries - 1) (not (bit_and img.flags flag_healthy == 0)),
    working (written (spent c)) 10,
  )
  unfolding boot_slot boot_image write_control write_sector
  slot_eq =
      let v : (img.version == at_slot c.version c.active) ≡ true =
        rw r.version (==_self (at_slot c.version c.active)) in
      rw (load_lem f c.active media 1, r.image, r.digest, v, r.probation, boot_image) refl

  trial_eq :
      (t : ℕ)
      → c.tries ≡ suc t
      → boot_control f c (working media 1) ≡ boot_slot f c (working media 1)
  unfolding boot_control
  trial_eq t left =
      let more : (c.tries == 0) ≡ false = ==_ne c.tries 0 (λ e. omega arith) in
      rw (r.probation, more, boot_control) refl

  spent-IsTrial : IsTrial f (written (spent c)) (bumped (spent c)) img
  spent-IsTrial = record {
    on_disk = written-decodes (spent c) spent-IsControl;
    fits = spent-IsControl;
    probation = r.probation;
    backup = r.backup;
    image = written-image (spent c) c.active ∙ r.image;
    digest = r.digest;
    version = r.version;
  }
    where
      spent-IsControl : IsControl (bumped (spent c))
      spent-IsControl = record {
        seq_fits = room;
        slot = r.fits.slot;
        version_a = r.fits.version_a;
        version_b = r.fits.version_b;
        digest_a = r.fits.digest_a;
        digest_b = r.fits.digest_b;
      }

  restored_eq :
      c.tries ≡ 0
      → boot_control f c (working media 1) ≡ (
        bumped (restored c),
        rolled_back c.active (other c) (at_slot c.version (other c)),
        working (written (restored c)) 2,
      )
  unfolding boot_control write_control write_sector
  restored_eq none_left =
      let none_ : (c.tries == 0) ≡ true = (==_iff c.tries 0).1 none_left in
      rw (r.probation, none_, r.backup, boot_control) refl

  restored-IsControl : IsControl (bumped (restored c))
  restored-IsControl = record {
    seq_fits = room;
    slot = omega arith;
    version_a = r.fits.version_a;
    version_b = r.fits.version_b;
    digest_a = r.fits.digest_a;
    digest_b = r.fits.digest_b;
  }

  -- A boot of a slot on probation spends a try before the system runs: what it reports is a try with one
  -- fewer left, and the control block on the disk already says so, with the slot still on probation and
  -- its image untouched.
  pub IsTrial-boot :
      (t : ℕ)
      → c.tries ≡ suc t
      → ((boot f (rebooted media)).1
          ≡ trying c.active img.version t (not (bit_and img.flags flag_healthy == 0)))
        × IsTrial f
            (boot f (rebooted media)).2.sectors
            (record c { seq = c.seq + 1; tries = t })
            img
  IsTrial-boot t left =
      let run = boot_eq ∙ trial_eq t left ∙ slot_eq in
      let e : c.tries - 1 ≡ t = omega arith in
      rw run (
        rw e refl,
        subst
            (λ (n : ℕ). IsTrial f (written (spent c)) (record c { seq = c.seq + 1; tries = n }) img)
            e spent-IsTrial,
      )

at_slot-set_slot {ℓ} : {A : Type ℓ} (s : Slots A) (i : ℕ) (v : A) → at_slot (set_slot s i v) i ≡ v
at_slot-set_slot s zero v = refl
at_slot-set_slot s (suc i) v = refl

-- The medium after `n` boots.
abbrev pub reboots : ℕ → Fs → (ℕ → Sector) → ℕ → Sector
reboots zero f media = media
reboots (suc n) f media = reboots n f (boot f (rebooted media)).2.sectors

-- An update whose image is intact and matches the control block, but that never reports that it came up,
-- is undone. However often it is booted, once its tries are spent the next boot rolls back: it reports
-- the slot it leaves and the proved one it returns to, and the control block on the disk has that one
-- active and the bad one failed. The driver serves every request, and the block's sequence number does not
-- come to its end. (A damaged image is another case: a boot that finds one spends no try.)
pub boot-reboots :
    (n : ℕ) (f : Fs) (media : ℕ → Sector) (c : Control) (img : Image)
    → IsTrial f media c img
    → c.tries ≡ n
    → c.seq + n + 1 < 2 ^ 64
    → ((boot f (rebooted (reboots n f media))).1
        ≡ rolled_back c.active (other c) (at_slot c.version (other c)))
      × ((c' : Control) × (decode_control
              ((boot f (rebooted (reboots n f media))).2.sectors f.ota_start)
            ≡ some c')
          × (c'.active ≡ other c)
          × (at_slot c'.state c.active ≡ failed))
boot-reboots zero f media c img r left room =
    let run =
      boot_eq f media c img r (omega arith) ∙ restored_eq f media c img r (omega arith) left in
    rw run (
      refl,
      (
        bumped (restored c),
        written-decodes f media c img r (omega arith) (restored c)
            (restored-IsControl f media c img r (omega arith)),
        refl,
        at_slot-set_slot c.state c.active failed,
      ),
    )
boot-reboots (suc n) f media c img r left room =
    let next_ = IsTrial-boot f media c img r (omega arith) n left in
    boot-reboots n f (boot f (rebooted media)).2.sectors (record c { seq = c.seq + 1; tries = n })
      img next_.1 refl (omega arith)
