-- ===== src/Fs/Root.antt =====
-- The root of the filesystem as the medium holds it, and what a mount makes of it.
use jungey_os.Prelude.{
  ℕ, ◌+◌, ◌-◌, ◌^◌, ◌≤◌, ◌<◌, ◌≡◌, ◌⊎◌, inl, inr, refl, ap, subst, true, arith, ◌==◌, All, ==_self,
  some, ok, Option-cases,
}
use jungey_os.Disk.{Sector, Device, serves, read_sector, and_then}
use jungey_os.Fs.Codec.{get_u64, intact}
use jungey_os.Fs.Names.{FileEntry}
use jungey_os.Fs.{Checkpoint, Fs, decode, sb_magic, cp_sector}
use jungey_os.Fs.Mount.{mount, newer, best_of, opened, adopt, checked}
use jungey_os.Fs.Roundtrip.{IsStorable}

-- The medium after a reboot, with a driver that answers.
abbrev pub rebooted : (ℕ → Sector) → Device
rebooted media = record { sectors = media; fate = λ n. serves; requests = 0 }

-- A file's sectors lie in the log, below its head.
abbrev pub InLog : ℕ → FileEntry → Type 0
InLog head f = (8 ≤ f.start) × (f.start + f.sectors ≤ head)

pub record IsRoot (fs : Fs) (media : ℕ → Sector) : Type 0 where
  pub magic : get_u64 (media 0) 0 ≡ sb_magic
  pub sealed : intact (media 0) ≡ true
  pub regions : opened (media 0) fs.slot fs.cp ≡ fs
  pub two : (fs.slot ≡ 0) ⊎ (fs.slot ≡ 1)
  pub current : decode (media (cp_sector fs.slot)) ≡ some fs.cp
  pub older :
      (cp : Checkpoint) → decode (media (cp_sector (1 - fs.slot))) ≡ some cp → cp.seq < fs.cp.seq
  pub storable : IsStorable fs.cp
  pub head : 8 ≤ fs.cp.log_head
  pub in_log : All (InLog fs.cp.log_head) fs.cp.files
  pub addressable : fs.total_sectors < 2 ^ 64

best-first :
    (a b : Sector) (cp : Checkpoint)
    → decode a ≡ some cp
    → ((c : Checkpoint) → decode b ≡ some c → c.seq < cp.seq)
    → best_of a b ≡ some (0, cp)
unfolding newer
best-first a b cp e older = elim (Option-cases (decode b)) [
  | inl gone ↦ rw (e, gone) refl
  | inr (c, f) ↦ rw (e, f) (let h = older c f in ground arith)
]

best-second :
    (a b : Sector) (cp : Checkpoint)
    → decode b ≡ some cp
    → ((c : Checkpoint) → decode a ≡ some c → c.seq < cp.seq)
    → best_of a b ≡ some (1, cp)
unfolding newer
best-second a b cp e older = elim (Option-cases (decode a)) [
  | inl gone ↦ rw (e, gone) refl
  | inr (c, f) ↦ rw (e, f) (let h = older c f in ground arith)
]

abbrev Current : Fs → (ℕ → Sector) → ℕ → Type 0
Current fs media n = decode (media (cp_sector n)) ≡ some fs.cp

abbrev Older : Fs → (ℕ → Sector) → ℕ → Type 0
Older fs media n =
    (c : Checkpoint) → decode (media (cp_sector (1 - n))) ≡ some c → c.seq < fs.cp.seq

best_root :
    (fs : Fs) (media : ℕ → Sector)
    → IsRoot fs media
    → best_of (media 1) (media 2) ≡ some (fs.slot, fs.cp)
best_root fs media r = elim r.two [
  | inl z ↦ rw z (
      best-first (media 1) (media 2) fs.cp (subst (Current fs media) z r.current)
        (subst (Older fs media) z r.older))
  | inr o ↦ rw o (
      best-second (media 1) (media 2) fs.cp (subst (Current fs media) o r.current)
        (subst (Older fs media) o r.older))
]

-- The device after a mount, which reads three sectors.
abbrev pub mounted : (ℕ → Sector) → Device
mounted media = record { sectors = media; fate = λ n. serves; requests = 3 }

-- A mount after a reboot finds the root.
pub mount_root :
    (fs : Fs) (media : ℕ → Sector)
    → IsRoot fs media
    → mount (rebooted media) ≡ (ok fs, mounted media)
unfolding mount and_then read_sector adopt checked
mount_root fs media r =
    let m : (get_u64 (media 0) 0 == sb_magic) ≡ true = rw r.magic (==_self sb_magic) in
    rw (m, r.sealed, best_root fs media r) (ap (λ (f : Fs). (ok f, mounted media)) r.regions)

pub mount_lem :
    (fs : Fs) (media : ℕ → Sector) → IsRoot fs media → (mount (rebooted media)).0 ≡ ok fs
mount_lem fs media r = rw (mount_root fs media r) refl
