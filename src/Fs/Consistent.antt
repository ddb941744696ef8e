-- ===== src/Fs/Consistent.antt =====
-- Crash consistency of `write`.
use jungey_os.Prelude.{
  ℕ, ◌+◌, ◌-◌, ◌^◌, ◌≤◌, ◌<◌, ◌≡◌, ◌≢◌, ◌⊎◌, inl, inr, refl, ap, subst, List, [], ◌∷◌, ◌++◌, arith,
  ◌==◌, ltb, length, set, replicate, All, All-set, All-snoc, All-imp, ==_ne, Option, none, some, ok,
  Option-cases, Bool-cases, length-append, length-replicate, length-set, ne_of_test,
}
use jungey_os.Disk.{Sector, Device, put_sector}
use jungey_os.Fs.Names.{FileEntry, padded, max_name}
use jungey_os.Fs.{Checkpoint, Fs, encode, cp_sector, max_files}
use jungey_os.Fs.Mount.{mount}
use jungey_os.Fs.Log.{
  commit, rooted, Outcome, landed, failed, off, write_root, write, chunk, put_file, find, new_entry,
  sectors_for, log_limit,
}
use jungey_os.Fs.Roundtrip.{IsEntry, IsStorable}
use jungey_os.Fs.Root.{IsRoot, InLog, rebooted, mount_lem}
use jungey_os.Fs.Crash.{IsRoot_ext, put_root, commit_lem, IsLaid, write_chunks_lem}

put_file-All :
    (P : FileEntry → Type 0) (files files' : List FileEntry) (o : Option ℕ) (e : FileEntry)
    → put_file files o e ≡ some files'
    → All P files
    → P e
    → All P files'
unfolding put_file
put_file-All P files files' (some i) e h all p =
    let same : set files i e ≡ files' = cc in subst (All P) same (All-set P files i e all p)
put_file-All P files files' none e h all p =
    let same : files ++ e ∷ [] ≡ files' = ground arith in
    subst (All P) same (All-snoc P files e all p)

put_file-few :
    (files files' : List FileEntry) (o : Option ℕ) (e : FileEntry)
    → put_file files o e ≡ some files'
    → length files ≤ 8
    → length files' ≤ 8
unfolding put_file
put_file-few files files' (some i) e h few =
    let same : set files i e ≡ files' = cc in omega (arith, ap length same, length-set files i e)
put_file-few files files' none e h few = elim (Bool-cases (length files == max_files)) [
  | inl full ↦ absurd (ground arith)
  | inr room ↦
      let same : files ++ e ∷ [] ≡ files' = ground arith in
      omega (arith, ne_of_test (length files) 8 room, ap length same, length-append files (e ∷ []))
]

padded-len : (name : List ℕ) → length name ≤ 28 → length (padded name) ≡ 28
padded-len name h = omega (
  arith,
  length-append name (replicate (28 - length name) 0),
  length-replicate {A = ℕ} (28 - length name) 0,
)

log_limit_le : (fs : Fs) → log_limit fs ≤ fs.total_sectors
unfolding log_limit
log_limit_le fs = ground arith

-- The checkpoint that `write` commits.
abbrev pub next_root : Fs → List ℕ → List FileEntry → Checkpoint
next_root fs bytes files = record {
  seq = fs.cp.seq + 1;
  log_head = fs.cp.log_head + sectors_for bytes;
  files = files;
}

-- The write is all there: its entry in the directory of the new root, its bytes in their sectors.
pub record IsWritten (fs : Fs) (name bytes : List ℕ) (files : List FileEntry) (media : ℕ → Sector)
    : Type 0 where
  pub placed :
      put_file fs.cp.files (find fs.cp.files name) (new_entry name bytes fs.cp.log_head)
      ≡ some files
  pub root : IsRoot (rooted fs (next_root fs bytes files)) media
  pub whole : (j : ℕ) → j < sectors_for bytes → media (fs.cp.log_head + j) ≡ chunk bytes j

module _ (fs : Fs) (name bytes : List ℕ) (files : List FileEntry) (media : ℕ → Sector)
    (r : IsRoot fs media) (short : length name ≤ 28) (more_seq : fs.cp.seq + 1 < 2 ^ 64)
    (room : fs.cp.log_head + sectors_for bytes ≤ log_limit fs)
    (placed : put_file fs.cp.files (find fs.cp.files name) (new_entry name bytes fs.cp.log_head)
      ≡ some files) where
  next_root-IsStorable : IsStorable (next_root fs bytes files)
  next_root-IsStorable = record {
    seq_fits = more_seq;
    head_fits = omega (arith, log_limit_le fs, r.addressable);
    count_fits = put_file-few fs.cp.files files _ _ placed r.storable.count_fits;
    entries = put_file-All IsEntry fs.cp.files files _ _ placed r.storable.entries (record {
      name_len = padded-len name short;
      size_fits = omega arith;
      start_fits = r.storable.head_fits;
      sectors_fits = omega arith;
    });
  }

  next_root-InLog : All (InLog (fs.cp.log_head + sectors_for bytes)) files
  next_root-InLog =
      put_file-All (InLog (fs.cp.log_head + sectors_for bytes)) fs.cp.files files _ _ placed
        (All-imp (InLog fs.cp.log_head) fs.cp.files (λ f h. (h.0, omega (arith, h.1))) r.in_log)
        (r.head, omega arith)

  next-IsRoot :
      IsRoot
        (rooted fs (next_root fs bytes files))
        (put_sector media (cp_sector (1 - fs.slot)) (encode (next_root fs bytes files)))
  next-IsRoot =
      put_root fs media (next_root fs bytes files) r next_root-IsStorable refl
        (omega (arith, r.head)) next_root-InLog

-- What may be on the medium after a write, wherever it stopped.
pub record IsSurvived (fs : Fs) (name bytes : List ℕ) (media : ℕ → Sector)
    (r : Outcome × Fs × Device) : Type 0 where
  pub untouched :
      (n : ℕ) → n < fs.cp.log_head → n ≢ cp_sector (1 - fs.slot) → r.2.sectors n ≡ media n
  pub either :
      IsRoot fs r.2.sectors ⊎ ((files : List FileEntry) × IsWritten fs name bytes files r.2.sectors)
  pub success :
      r.0 ≡ landed
      → (files : List FileEntry) × IsWritten fs name bytes files r.2.sectors
        × (r.1 ≡ rooted fs (next_root fs bytes files))

kept-IsSurvived :
    (fs fs' : Fs) (name bytes : List ℕ) (d d' : Device) (o : Outcome)
    → IsRoot fs d.sectors
    → ((n : ℕ) → n < fs.cp.log_head → d'.sectors n ≡ d.sectors n)
    → o ≢ landed
    → IsSurvived fs name bytes d.sectors (o, fs', d')
kept-IsSurvived fs fs' name bytes d d' o r below stopped = record {
  untouched = λ n lt _. below n lt;
  either = inl (IsRoot_ext fs d.sectors d'.sectors r (λ n lt. below n (omega (arith, r.head))));
  success = λ done. absurd (stopped done);
}

module _ (fs : Fs) (name bytes : List ℕ) (d d' : Device) (root : IsRoot fs d.sectors)
    (short : length name ≤ 28) (more_seq : fs.cp.seq + 1 < 2 ^ 64)
    (room : fs.cp.log_head + sectors_for bytes ≤ log_limit fs)
    (laid : IsLaid fs.cp.log_head 0 (sectors_for bytes) bytes d (landed, d')) where
  module _ (files : List FileEntry)
      (placed : put_file fs.cp.files (find fs.cp.files name) (new_entry name bytes fs.cp.log_head)
        ≡ some files) where
    abbrev committed : ℕ → Sector
    committed = put_sector d'.sectors (cp_sector (1 - fs.slot)) (encode (next_root fs bytes files))

    still_root : IsRoot fs d'.sectors
    still_root =
        IsRoot_ext fs d.sectors d'.sectors root (λ n lt. laid.below n (omega (arith, root.head)))

    committed-IsWritten : IsWritten fs name bytes files committed
    committed-IsWritten = record {
      placed = placed;
      root = next-IsRoot fs name bytes files d'.sectors still_root short more_seq room placed;
      whole = λ j lt.
          rw (==_ne (fs.cp.log_head + j) (cp_sector (1 - fs.slot)) (λ e. omega (arith, root.head)))
            (laid.whole refl j (omega arith) (omega arith));
    }

    committed-untouched :
        (n : ℕ) → n < fs.cp.log_head → n ≢ cp_sector (1 - fs.slot) → committed n ≡ d.sectors n
    committed-untouched n lt ne =
        rw (==_ne n (cp_sector (1 - fs.slot)) ne) (laid.below n (omega arith))

    commit-IsSurvived : IsSurvived fs name bytes d.sectors (commit fs (next_root fs bytes files) d')
    commit-IsSurvived = elim (commit_lem fs (next_root fs bytes files) d') [
      | inl (good, wrote) ↦ record {
        untouched = rw wrote committed-untouched;
        either = inr (files, rw wrote committed-IsWritten);
        success = λ done.
            (files, rw wrote committed-IsWritten, ap (λ (x : Outcome × Fs × Device). x.1) good);
      }
      | inr (bad, inl same) ↦ record {
        untouched = rw same (λ n lt _. laid.below n (omega arith));
        either = inl (rw same still_root);
        success = λ done. absurd (bad done);
      }
      | inr (bad, inr wrote) ↦ record {
        untouched = rw wrote committed-untouched;
        either = inr (files, rw wrote committed-IsWritten);
        success = λ done. absurd (bad done);
      }
    ]

  root-IsSurvived : IsSurvived fs name bytes d.sectors (write_root fs name bytes d')
  unfolding write_root
  root-IsSurvived =
      elim (Option-cases
        (put_file fs.cp.files (find fs.cp.files name) (new_entry name bytes fs.cp.log_head))) [
          | inl full ↦
              rw (full, write_root)
                (kept-IsSurvived fs fs name bytes d d' _ root (λ n lt. laid.below n (omega arith))
                  (λ h. cc))
          | inr (files, placed) ↦ rw (placed, write_root) (commit-IsSurvived files placed)
        ]

module _ (fs : Fs) (name bytes : List ℕ) (crash_after : Option ℕ) (d : Device)
    (root : IsRoot fs d.sectors) (more_seq : fs.cp.seq + 1 < 2 ^ 64) where
  after_chunks :
      (r : Outcome × Device)
      → length name ≤ 28
      → fs.cp.log_head + sectors_for bytes ≤ log_limit fs
      → IsLaid fs.cp.log_head 0 (sectors_for bytes) bytes d r
      → IsSurvived fs name bytes d.sectors (elim r.0 [
        | landed ↦ write_root fs name bytes r.1
        | failed e ↦ (failed e, fs, r.1)
        | off ↦ (off, fs, r.1)
      ])
  after_chunks (landed, d') short room laid =
      root-IsSurvived fs name bytes d d' root short more_seq room laid
  after_chunks (failed e, d') short room laid =
      kept-IsSurvived fs fs name bytes d d' (failed e) root (λ n lt. laid.below n (omega arith))
        (λ h. cc)
  after_chunks (off, d') short room laid =
      kept-IsSurvived fs fs name bytes d d' off root (λ n lt. laid.below n (omega arith)) (λ h. cc)

  -- No half of a write is ever seen. Wherever `write` stops (the power cut after some sector, a sector
  -- that the driver refuses, a request it never answers), no sector below the log's head has changed but
  -- that of the older checkpoint, and the medium holds either the old root or the new one with the file's
  -- entry in the directory and all its bytes in their sectors; when it reports success it is the new one.
  pub write-IsSurvived : IsSurvived fs name bytes d.sectors (write fs name bytes crash_after d)
  unfolding write
  write-IsSurvived = elim (Bool-cases (ltb max_name (length name))) [
    | inl long ↦
        rw (long, write) (kept-IsSurvived fs fs name bytes d d _ root (λ n lt. refl) (λ h. cc))
    | inr short ↦ elim (Bool-cases (ltb (log_limit fs) (fs.cp.log_head + sectors_for bytes))) [
      | inl full ↦
          rw (short, full, write)
            (kept-IsSurvived fs fs name bytes d d _ root (λ n lt. refl) (λ h. cc))
      | inr room ↦
          rw (short, room, write)
            (after_chunks _ (ground arith) (ground arith)
              (write_chunks_lem (sectors_for bytes) 0 fs.cp.log_head bytes crash_after d))
    ]
  ]

  -- After a reboot in the middle of a write, the mount finds the old root or the new one.
  pub mount-write :
      ((mount (rebooted (write fs name bytes crash_after d).2.sectors)).0 ≡ ok fs)
      ⊎ ((files : List FileEntry) × (put_file fs.cp.files
              (find fs.cp.files name)
              (new_entry name bytes fs.cp.log_head)
            ≡ some files)
          × ((mount (rebooted (write fs name bytes crash_after d).2.sectors)).0
              ≡ ok (rooted fs (next_root fs bytes files))))
  mount-write = elim write-IsSurvived.either [
    | inl old ↦ inl (mount_lem fs _ old)
    | inr (files, w) ↦ inr (files, w.placed, mount_lem _ _ w.root)
  ]
