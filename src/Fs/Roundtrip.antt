-- ===== src/Fs/Roundtrip.antt =====
-- A checkpoint is read back from its sector as it was written.
use jungey_os.Prelude.{
  ℕ, zero, suc, ◌+◌, ◌^◌, ◌≤◌, ◌<◌, ◌≡◌, ◌⊎◌, inl, inr, refl, ap₂, ◌∙◌, subst, true, false, List,
  [], ◌∷◌, arith, ltb, length, All, some,
}
use jungey_os.Disk.{Sector, blank}
use jungey_os.Fs.Codec.{copy_at, slice, put_u32, put_u64, get_u32, get_u64, intact}
use jungey_os.Fs.Layout.{
  Agree, copy_at-out, slice_ext, slice-copy_at, get_u32-put_u32, get_u64-put_u64, put_u32-out,
  put_u64-out, get_u32_ext, get_u64_ext, seal-out, intact-seal,
}
use jungey_os.Fs.Names.{FileEntry}
use jungey_os.Fs.{
  Checkpoint, encode, decode, get_entry, get_entries, put_entry, put_entries, put_header, entry_off,
  cp_magic, max_files,
}

-- The fields fit into their bytes.
pub record IsEntry (f : FileEntry) : Type 0 where
  pub name_len : length f.name ≡ 28
  pub size_fits : f.size < 2 ^ 32
  pub start_fits : f.start < 2 ^ 64
  pub sectors_fits : f.sectors < 2 ^ 32

pub record IsStorable (cp : Checkpoint) : Type 0 where
  pub seq_fits : cp.seq < 2 ^ 64
  pub head_fits : cp.log_head < 2 ^ 64
  pub count_fits : length cp.files ≤ 8
  pub entries : All IsEntry cp.files

module _ (raw : Sector) (start : ℕ) (f : FileEntry) (fits : IsEntry f) where
  put_entry-out : (i : ℕ) → (i < start) ⊎ (start + 48 ≤ i) → put_entry raw start f i ≡ raw i
  put_entry-out i (inl h) =
      put_u32-out _ (start + 40) f.sectors i (inl (omega arith))
      ∙ put_u64-out _ (start + 32) f.start i (inl (omega arith))
      ∙ put_u32-out _ (start + 28) f.size i (inl (omega arith))
      ∙ copy_at-out f.name raw start i (inl h)
  put_entry-out i (inr h) =
      put_u32-out _ (start + 40) f.sectors i (inr (omega arith))
      ∙ put_u64-out _ (start + 32) f.start i (inr (omega arith))
      ∙ put_u32-out _ (start + 28) f.size i (inr (omega arith))
      ∙ copy_at-out f.name raw start i (inr (omega (arith, fits.name_len)))

  name_kept : slice (put_entry raw start f) start 28 ≡ f.name
  name_kept =
      let named = copy_at raw start f.name in
      let sized = put_u32 named (start + 28) f.size in
      let placed = put_u64 sized (start + 32) f.start in
      slice_ext (put_entry raw start f) named start 28 (λ i lo hi.
        put_u32-out placed (start + 40) f.sectors i (inl (omega arith))
        ∙ put_u64-out sized (start + 32) f.start i (inl (omega arith))
        ∙ put_u32-out named (start + 28) f.size i (inl (omega arith)))
      ∙ subst (λ (n : ℕ). slice (copy_at raw start f.name) start n ≡ f.name) fits.name_len
          (slice-copy_at f.name raw start)

  size_kept : get_u32 (put_entry raw start f) (start + 28) ≡ f.size
  size_kept =
      get_u32_ext _ (put_u32 (copy_at raw start f.name) (start + 28) f.size) (start + 28)
        (λ i lo hi.
          put_u32-out _ (start + 40) f.sectors i (inl (omega arith))
          ∙ put_u64-out _ (start + 32) f.start i (inl (omega arith)))
      ∙ get_u32-put_u32 _ (start + 28) f.size fits.size_fits

  start_kept : get_u64 (put_entry raw start f) (start + 32) ≡ f.start
  start_kept =
      get_u64_ext _
        (put_u64 (put_u32 (copy_at raw start f.name) (start + 28) f.size) (start + 32) f.start)
        (start + 32) (λ i lo hi. put_u32-out _ (start + 40) f.sectors i (inl (omega arith)))
      ∙ get_u64-put_u64 _ (start + 32) f.start fits.start_fits

  sectors_kept : get_u32 (put_entry raw start f) (start + 40) ≡ f.sectors
  sectors_kept = get_u32-put_u32 _ (start + 40) f.sectors fits.sectors_fits

  get_entry-put_entry : get_entry (put_entry raw start f) start ≡ f
  get_entry-put_entry = rw (name_kept, size_kept, start_kept, sectors_kept) refl

get_entry_ext :
    (b c : Sector) (start : ℕ)
    → Agree b c start (start + 48)
    → get_entry b start ≡ get_entry c start
get_entry_ext b c start h =
    rw
      (
        slice_ext b c start 28 (λ i lo hi. h i (omega arith) (omega arith)),
        get_u32_ext b c (start + 28) (λ i lo hi. h i (omega arith) (omega arith)),
        get_u64_ext b c (start + 32) (λ i lo hi. h i (omega arith) (omega arith)),
        get_u32_ext b c (start + 40) (λ i lo hi. h i (omega arith) (omega arith)),
      )
      refl

put_entries-before :
    (fs : List FileEntry) (raw : Sector) (k i : ℕ)
    → All IsEntry fs
    → i < entry_off k
    → put_entries raw k fs i ≡ raw i
unfolding put_entries
put_entries-before [] raw k i fits h = refl
put_entries-before (f ∷ fs) raw k i fits h =
    put_entries-before fs (put_entry raw (entry_off k) f) (k + 1) i fits.1 (omega arith)
    ∙ put_entry-out raw (entry_off k) f fits.0 i (inl h)

get_entries_ext :
    (n : ℕ) (b c : Sector) (k : ℕ)
    → Agree b c (entry_off k) (entry_off (k + n))
    → get_entries n k b ≡ get_entries n k c
unfolding get_entries
get_entries_ext zero b c k h = refl
get_entries_ext (suc n) b c k h =
    ap₂ ◌∷◌ (get_entry_ext b c (entry_off k) (λ i lo hi. h i lo (omega arith)))
      (get_entries_ext n b c (k + 1) (λ i lo hi. h i (omega arith) (omega arith)))

get_entries-put_entries :
    (fs : List FileEntry) (raw : Sector) (k : ℕ)
    → All IsEntry fs
    → get_entries (length fs) k (put_entries raw k fs) ≡ fs
unfolding get_entries put_entries
get_entries-put_entries [] raw k fits = refl
get_entries-put_entries (f ∷ fs) raw k fits =
    let first = put_entry raw (entry_off k) f in
    ap₂ ◌∷◌
      (get_entry_ext _ first (entry_off k)
          (λ i lo hi. put_entries-before fs first (k + 1) i fits.1 (omega arith))
        ∙ get_entry-put_entry raw (entry_off k) f fits.0)
      (get_entries-put_entries fs first (k + 1) fits.1)

module _ (cp : Checkpoint) (fits : IsStorable cp) where
  header_agrees : Agree (encode cp) (put_header cp) 0 32
  unfolding encode
  header_agrees i lo hi =
      seal-out _ i (omega arith)
      ∙ put_entries-before cp.files (put_header cp) 0 i fits.entries (omega arith)

  magic_kept : get_u64 (encode cp) 0 ≡ cp_magic
  magic_kept =
      get_u64_ext _ (put_u64 blank 0 cp_magic) 0 (λ i lo hi.
        header_agrees i lo (omega arith)
        ∙ put_u32-out _ 24 _ i (inl (omega arith))
        ∙ put_u64-out _ 16 cp.log_head i (inl (omega arith))
        ∙ put_u64-out _ 8 cp.seq i (inl (omega arith)))
      ∙ get_u64-put_u64 blank 0 cp_magic (omega arith)

  seq_kept : get_u64 (encode cp) 8 ≡ cp.seq
  seq_kept =
      get_u64_ext _ (put_u64 (put_u64 blank 0 cp_magic) 8 cp.seq) 8 (λ i lo hi.
        header_agrees i (omega arith) (omega arith)
        ∙ put_u32-out _ 24 _ i (inl (omega arith))
        ∙ put_u64-out _ 16 cp.log_head i (inl (omega arith)))
      ∙ get_u64-put_u64 _ 8 cp.seq fits.seq_fits

  head_kept : get_u64 (encode cp) 16 ≡ cp.log_head
  head_kept =
      get_u64_ext _ (put_u64 (put_u64 (put_u64 blank 0 cp_magic) 8 cp.seq) 16 cp.log_head) 16
        (λ i lo hi.
          header_agrees i (omega arith) (omega arith) ∙ put_u32-out _ 24 _ i (inl (omega arith)))
      ∙ get_u64-put_u64 _ 16 cp.log_head fits.head_fits

  count_kept : get_u32 (encode cp) 24 ≡ length cp.files
  count_kept =
      get_u32_ext _ (put_header cp) 24 (λ i lo hi. header_agrees i (omega arith) (omega arith))
      ∙ get_u32-put_u32 _ 24 _ (omega arith)
      ∙ omega (arith, fits.count_fits)

  files_kept : get_entries (length cp.files) 0 (encode cp) ≡ cp.files
  unfolding encode
  files_kept =
      get_entries_ext (length cp.files) _ (put_entries (put_header cp) 0 cp.files) 0
        (λ i lo hi. seal-out _ i (omega (arith, fits.count_fits)))
      ∙ get_entries-put_entries cp.files (put_header cp) 0 fits.entries

  -- A checkpoint whose fields fit into their bytes, with at most eight files, is decoded from its own
  -- sector as it was: the magic, the checksum and the count all pass, and every field comes back.
  pub decode-encode : decode (encode cp) ≡ some cp
  unfolding decode
  decode-encode =
      let sealed : intact (encode cp) ≡ true = unfold encode in intact-seal _ in
      let few : ltb max_files (length cp.files) ≡ false = ground (arith, fits.count_fits) in
      rw (magic_kept, sealed, count_kept, few, seq_kept, head_kept, files_kept) refl
