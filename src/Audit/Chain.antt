-- ===== src/Audit/Chain.antt =====
-- kernel/src/audit.rs: what `verify` says of the chain on the disk.
use jungey_os.Prelude.{
  ℕ, zero, suc, ◌+◌, ◌/◌, ◌%◌, ◌<◌, ◌≡◌, ◌≢◌, ◌↔◌, ◌⊎◌, inl, inr, refl, ap, ◌∙◌, false, none, some,
  arith, Bool-cases, ℕ_discrete, String, ◌==◌, ok, err,
}
use jungey_os.Disk.{Sector, Device, Fate, serves, read_sector_lem, blank}
use jungey_os.Audit.Record.{Rec, log_magic, magic_of, prev_of, stored_hash, hash_record, record_in}
use jungey_os.Audit.{Log, Audit, Verified, sector_of, slot_of, broken, fetch, walk, verify}

abbrev pub Media : Type 0
Media = ℕ → Sector

abbrev pub record_at : Media → Log → (seq : ℕ) → Rec
record_at media l seq = record_in (media (sector_of l seq)) (slot_of seq)

-- What the record carries as the hash of the one before it.
abbrev pub link : Media → Log → (seq : ℕ) → ℕ
link media l zero = 0
link media l (suc seq) = stored_hash (record_at media l seq)

pub record IsLinked (rec : Rec) (prev : ℕ) : Type 0 where
  pub magic : magic_of rec ≡ log_magic
  pub previous : prev_of rec ≡ prev
  pub hash : hash_record rec prev ≡ stored_hash rec

abbrev pub LinkedAt : Media → Log → (seq : ℕ) → Type 0
LinkedAt media l seq = IsLinked (record_at media l seq) (link media l seq)

pub broken_lem : (rec : Rec) (prev : ℕ) → (broken rec prev ≡ false) ↔ IsLinked rec prev
unfolding broken
broken_lem rec prev = (λ e. ground arith, λ e. ground arith)

-- Some request is not served.
abbrev pub Fails : (ℕ → Fate) → Type 0
Fails fate = (n : ℕ) × (fate n ≢ serves)

-- The records below the count are linked. The walk ends at the first that is not, or where a
-- request fails, or at the end of the log.
pub record IsReport (media : Media) (fate : ℕ → Fate) (l : Log) (count : ℕ) (v : Verified)
    : Type 0 where
  pub sound : (i : ℕ) → i < v.records → LinkedAt media l i
  pub verdict :
      ((v.first_bad ≡ none) × (v.records ≡ count))
      ⊎ ((v.first_bad ≡ some v.records)
          × (v.records < count)
          × (¬ LinkedAt media l v.records ⊎ Fails fate))

module _ (media : Media) (fate : ℕ → Fate) (l : Log) where
  -- What `fetch` leaves, from a buffer that holds the sector of the record before.
  fetch_lem :
      (seq : ℕ) (buf : Sector) (d : Device)
      → d.sectors ≡ media
      → d.fate ≡ fate
      → (seq % 4 ≡ 0) ⊎ (buf ≡ media (sector_of l seq))
      → ((fetch l seq buf d).1.sectors ≡ media)
        × ((fetch l seq buf d).1.fate ≡ fate)
        × (((fetch l seq buf d).0 ≡ ok (media (sector_of l seq)))
            ⊎ ((e : String) × ((fetch l seq buf d).0 ≡ err e) × Fails fate))
  unfolding fetch
  fetch_lem seq buf d ms fs held = elim (Bool-cases (seq % 4 == 0)) [
    | inl first ↦ rw first (elim (read_sector_lem d (sector_of l seq)) [
      | inl e ↦ rw e (ms, fs, inl (ap (λ (m : Media). ok (m (sector_of l seq))) ms))
      | inr (m, e, fails) ↦ rw e (
        ms,
        fs,
        inr (m, refl, (d.requests, λ s. fails (ap (λ (f : ℕ → Fate). f d.requests) fs ∙ s))),
      )
    ])
    | inr later ↦
        let same : buf ≡ media (sector_of l seq) = elim held [
          | inl z ↦ absurd (ground arith)
          | inr e ↦ e
        ] in
        rw later (ms, fs, inl (ap ok same))
  ]

  same_sector : (seq : ℕ) → ((seq + 1) % 4 ≡ 0) ⊎ (seq / 4 ≡ (seq + 1) / 4)
  same_sector seq = elim (ℕ_discrete ((seq + 1) % 4) 0) [ yes e ↦ inl e | no n ↦ inr (omega arith) ]

  later :
      (seq : ℕ) → ((seq + 1) % 4 ≡ 0) ⊎ (media (sector_of l seq) ≡ media (sector_of l (seq + 1)))
  later seq = elim (same_sector seq) [
    | inl e ↦ inl e
    | inr e ↦ inr (ap (λ (k : ℕ). media (l.start + k)) e)
  ]

  link-succ : (seq : ℕ) → stored_hash (record_at media l seq) ≡ link media l (seq + 1)
  link-succ seq = let e : seq + 1 ≡ suc seq = omega arith in rw e refl

  Linked-below :
      (seq : ℕ)
      → ((i : ℕ) → i < seq → LinkedAt media l i)
      → LinkedAt media l seq
      → (i : ℕ) → i < seq + 1
      → LinkedAt media l i
  Linked-below seq below here i lt = elim (ℕ_discrete i seq) [
    | yes e ↦ rw e here
    | no n ↦ below i (omega arith)
  ]

  walk_lem :
      (left seq count : ℕ) (prev : ℕ) (buf : Sector) (d : Device)
      → seq + left ≡ count
      → prev ≡ link media l seq
      → d.sectors ≡ media
      → d.fate ≡ fate
      → (seq % 4 ≡ 0) ⊎ (buf ≡ media (sector_of l seq))
      → ((i : ℕ) → i < seq → LinkedAt media l i)
      → IsReport media fate l count (walk left seq l prev seq buf d).0
  unfolding walk
  walk_lem zero seq count prev buf d n p ms fs held sound = record {
    sound = sound;
    verdict = inl (refl, omega arith);
  }
  walk_lem (suc left) seq count prev buf d n p ms fs held sound =
      let (ms', fs', r) = fetch_lem seq buf d ms fs held in
      elim r [
        | inr (m, e, fails) ↦
            rw (e, walk) (record { sound = sound; verdict = inr (refl, omega arith, inr fails) })
        | inl e ↦
            let rec = record_at media l seq in
            rw (e, walk)
              (elim (Bool-cases (broken rec prev)) [
                | inl bad ↦ rw bad (record {
                  sound = sound;
                  verdict = inr (
                    refl,
                    omega arith,
                    inl (λ h.
                        let ok' : broken rec prev ≡ false = (broken_lem rec prev).1 (rw p h) in cc),
                  );
                })
                | inr good ↦ rw good (
                    walk_lem left (seq + 1) count (stored_hash rec) (media (sector_of l seq))
                      (fetch l seq buf d).1 (omega arith) (link-succ seq) ms' fs' (later seq)
                      (Linked-below seq sound (rw (← p) ((broken_lem rec prev).0 good))))
              ])
      ]

-- Every record that `verify` counts is a record, follows the one before it and matches its hash. It
-- counts the whole log and reports nothing, or it reports the first record that it does not count,
-- which is then not linked, unless a request to the disk failed.
pub verify_lem :
    (a : Audit) → IsReport a.device.sectors a.device.fate a.log a.log.next_seq (verify a).0
unfolding verify
verify_lem a =
    walk_lem a.device.sectors a.device.fate a.log a.log.next_seq 0 a.log.next_seq 0 blank a.device
      (omega arith) refl refl refl (inl refl) (λ i lt. elim lt [ ])
