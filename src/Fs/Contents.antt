-- ===== src/Fs/Contents.antt =====
-- What `read` gives back after a `write`.
use jungey_os.Prelude.{
  Result, ℕ, ◌+◌, ◌*◌, ◌^◌, ◌<◌, ◌≡◌, ◌≢◌, refl, ap, ◌∙◌, true, List, [], ◌∷◌, arith, ltb, length,
  All, get_elem?, ==_self,
}
use jungey_os.Disk.{Sector, Device, and_then, sector_size}
use jungey_os.Fs.Names.{FileEntry, same_bytes, valid_utf8}
use jungey_os.Fs.{Fs}
use jungey_os.Fs.Log.{read, byte_at, sectors_for}
use jungey_os.Fs.Mount.{mount}
use jungey_os.Fs.Root.{rebooted}
use jungey_os.Fs.Consistent.{IsWritten}

pub same_bytes_self : (xs : List ℕ) → same_bytes xs xs ≡ true
unfolding same_bytes
same_bytes_self [] = refl
same_bytes_self (x ∷ xs) = rw (==_self x) (same_bytes_self xs)

-- A name that can be stored: no zero byte, and UTF-8, as every `&str` is.
pub record IsName (name : List ℕ) : Type 0 where
  pub nonzero : All (λ b. b ≢ 0) name
  pub utf8 : valid_utf8 name ≡ true

-- The sectors from `k` on hold the bytes.
abbrev pub Holds : (ℕ → Sector) → (k count : ℕ) → List ℕ → Type 0
Holds media k count xs =
    (j i : ℕ) → j < count → i < 512 → media (k + j) i ≡ byte_at (get_elem? xs (j * 512 + i))

module _ (fs : Fs) (name bytes : List ℕ) (media : ℕ → Sector) (files : List FileEntry)
    (named : IsName name) (short_file : length bytes < 2 ^ 32)
    (w : IsWritten fs name bytes files media) where
  held : Holds media fs.cp.log_head (sectors_for bytes) bytes
  held j i lo hi =
      let inside : ltb i sector_size ≡ true = ground arith in
      ap (λ (b : Sector). b i) (w.whole j lo) ∙ rw inside refl

-- Mount the medium after a reboot, and read a file of it.
abbrev pub remount_read : (name : List ℕ) → (room : ℕ) → (ℕ → Sector) → Result (List ℕ) × Device
remount_read name room media = and_then (mount (rebooted media)) (λ fs d. read fs name room d)
