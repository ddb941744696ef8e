-- ===== src/Fs/Fresh.antt =====
-- What `format` leaves: a filesystem with no files and the reserved regions above its log.
use jungey_os.Prelude.{ℕ, ◌+◌, ◌-◌, ◌^◌, ◌≤◌, ◌<◌, ◌≡◌, ◌≢◌, inl, refl, ◌∙◌, arith, ==_ne, none, ok}
use jungey_os.Disk.{Sector, blank, put_sector, and_then, write_sector}
use jungey_os.Fs.Codec.{put_u64, get_u64, seal}
use jungey_os.Fs.Layout.{get_u64-put_u64, put_u32-out, get_u64_ext, seal-out, intact-seal, before}
use jungey_os.Fs.{Fs, first_checkpoint, encode, decode, sb_magic, spill_size, audit_size, ota_size}
use jungey_os.Fs.Mount.{superblock, format, opened}
use jungey_os.Fs.Log.{log_limit}
use jungey_os.Fs.Roundtrip.{IsStorable, decode-encode}
use jungey_os.Fs.Root.{IsRoot, rebooted}

abbrev pub fresh : (total_sectors : ℕ) → Fs
fresh total_sectors = opened (superblock total_sectors) 0 first_checkpoint

module _ (total : ℕ) (large : 18569 ≤ total) (small : total < 2 ^ 64) where
  past_seal : (b : Sector) (start : ℕ) → start + 8 ≤ 508 → get_u64 (seal b) start ≡ get_u64 b start
  past_seal b start h = get_u64_ext _ b start (λ i lo hi. seal-out b i (omega arith))

  magic_written : get_u64 (superblock total) 0 ≡ sb_magic
  unfolding superblock
  magic_written =
      past_seal _ 0 (omega arith)
      ∙ before _ 76 _ 0 (omega arith)
      ∙ before _ 68 _ 0 (omega arith)
      ∙ before _ 60 _ 0 (omega arith)
      ∙ before _ 52 _ 0 (omega arith)
      ∙ before _ 44 _ 0 (omega arith)
      ∙ before _ 36 _ 0 (omega arith)
      ∙ before _ 28 _ 0 (omega arith)
      ∙ before _ 20 _ 0 (omega arith)
      ∙ before _ 12 _ 0 (omega arith)
      ∙ get_u64_ext _ (put_u64 blank 0 sb_magic) 0
          (λ i lo hi. put_u32-out _ 8 1 i (inl (omega arith)))
      ∙ get_u64-put_u64 blank 0 sb_magic (omega arith)

  total_written : get_u64 (superblock total) 12 ≡ total
  unfolding superblock
  total_written =
      past_seal _ 12 (omega arith)
      ∙ before _ 76 _ 12 (omega arith)
      ∙ before _ 68 _ 12 (omega arith)
      ∙ before _ 60 _ 12 (omega arith)
      ∙ before _ 52 _ 12 (omega arith)
      ∙ before _ 44 _ 12 (omega arith)
      ∙ before _ 36 _ 12 (omega arith)
      ∙ before _ 28 _ 12 (omega arith)
      ∙ before _ 20 _ 12 (omega arith)
      ∙ get_u64-put_u64 _ 12 total small

  spill_written : get_u64 (superblock total) 36 ≡ total - 16384
  unfolding superblock
  spill_written =
      past_seal _ 36 (omega arith)
      ∙ before _ 76 _ 36 (omega arith)
      ∙ before _ 68 _ 36 (omega arith)
      ∙ before _ 60 _ 36 (omega arith)
      ∙ before _ 52 _ 36 (omega arith)
      ∙ before _ 44 _ 36 (omega arith)
      ∙ get_u64-put_u64 _ 36 (total - 16384) (omega arith)

  audit_written : get_u64 (superblock total) 52 ≡ total - 18432
  unfolding superblock
  audit_written =
      past_seal _ 52 (omega arith)
      ∙ before _ 76 _ 52 (omega arith)
      ∙ before _ 68 _ 52 (omega arith)
      ∙ before _ 60 _ 52 (omega arith)
      ∙ get_u64-put_u64 _ 52 (total - 16384 - 2048) (omega arith)
      ∙ omega arith

  ota_written : get_u64 (superblock total) 68 ≡ total - 18561
  unfolding superblock
  ota_written =
      past_seal _ 68 (omega arith)
      ∙ before _ 76 _ 68 (omega arith)
      ∙ get_u64-put_u64 _ 68 (total - 16384 - 2048 - 129) (omega arith)
      ∙ omega arith

  fresh_limit : log_limit (fresh total) ≡ total - 18561
  unfolding log_limit
  fresh_limit = rw (total_written, spill_written, audit_written, ota_written) (ground arith)

put_other : (m : ℕ → Sector) (n s : ℕ) (b : Sector) → n ≢ s → put_sector m s b n ≡ m n
put_other m n s b ne = rw (==_ne n s ne) refl

blank_decodes : decode blank ≡ none
unfolding decode get_u64
blank_decodes = refl

first-IsStorable : IsStorable first_checkpoint
first-IsStorable = record {
  seq_fits = omega arith;
  head_fits = omega arith;
  count_fits = omega arith;
  entries = tt;
}

abbrev formatted : ℕ → (ℕ → Sector) → ℕ → Sector
formatted total media =
    let audit_start = total - spill_size - audit_size in
    let ota_start = audit_start - ota_size in
    put_sector
      (put_sector
        (put_sector (put_sector (put_sector media 0 (superblock total)) 2 blank) 1
          (encode first_checkpoint))
        audit_start blank)
      ota_start blank

module _ (total : ℕ) (media : ℕ → Sector) (large : 18569 ≤ total) (small : total < 2 ^ 64) where
  abbrev three : ℕ → Sector
  three =
      put_sector (put_sector (put_sector media 0 (superblock total)) 2 blank) 1
        (encode first_checkpoint)

  abbrev four : ℕ → Sector
  four = put_sector three (total - spill_size - audit_size) blank

  low : (n : ℕ) → n < 8 → formatted total media n ≡ three n
  low n h =
      put_other four n (total - spill_size - audit_size - ota_size) blank
        (λ (e : n ≡ total - spill_size - audit_size - ota_size). omega arith)
      ∙ put_other three n (total - spill_size - audit_size) blank
          (λ (e : n ≡ total - spill_size - audit_size). omega arith)

  formatted-IsRoot : IsRoot (fresh total) (formatted total media)
  formatted-IsRoot = record {
    magic = rw (low 0 (omega arith)) (magic_written total large small);
    sealed = rw (low 0 (omega arith)) (unfold superblock in intact-seal _);
    regions = rw (low 0 (omega arith)) refl;
    two = inl refl;
    current = rw (low 1 (omega arith)) (decode-encode first_checkpoint first-IsStorable);
    older = λ c e.
        let gone : decode (formatted total media 2) ≡ none =
          rw (low 2 (omega arith)) blank_decodes in
        absurd (cc);
    storable = first-IsStorable;
    head = omega arith;
    in_log = tt;
    addressable = omega (arith, total_written total large small);
  }

  -- On a disk that is large enough, and with a driver that answers, `format` succeeds; the medium then
  -- has a root with no files, whose log may grow up to the first of the three reserved regions.
  pub format-IsRoot :
      ((format total (rebooted media)).0 ≡ ok tt)
      × IsRoot (fresh total) (format total (rebooted media)).1.sectors
      × (log_limit (fresh total) ≡ total - 18561)
  unfolding format and_then write_sector
  format-IsRoot = (refl, formatted-IsRoot, fresh_limit total large small)
