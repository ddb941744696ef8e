-- ===== src/Audit/Tamper.antt =====
-- kernel/src/audit.rs: a byte altered on the disk, as `corrupt_for_test` alters one, is found.
use jungey_os.Prelude.{
  ℕ, zero, suc, ◌+◌, ◌-◌, ◌*◌, ◌^◌, ◌≤◌, ◌<◌, ◌≡◌, ◌≢◌, ◌⊎◌, inl, inr, refl, sym, ap, ap₂, ◌∙◌,
  true, some, ◌∷◌, arith, All, length, set, get_elem?, get_elem?-same, ℕ_discrete, dec_lt, ◌==◌,
  ==_ne, ==_self, min, bit_xor,
}
use jungey_os.Prelude.Xor.{bit_xor-halves, bit_xor-lt}
use jungey_os.Disk.{
  Sector, Fate, serves, asked, read_sector_served, write_sector_served, put_sector,
}
use jungey_os.Fs.Codec.{slice}
use jungey_os.Fs.Layout.{slice_ext, get_u64_ext}
use jungey_os.Fnv.{IsByte, fnv_basis, hash_bytes, hash_bytes-lt, hash_bytes-set}
use jungey_os.Audit.Record.{Rec, record_bytes, off_hash, hash_record, stored_hash}
use jungey_os.Audit.{Log, Audit, Verified, sector_of, slot_of, flip_at, corrupt_for_test, verify}
use jungey_os.Audit.Chain.{Media, record_at, link, IsLinked, LinkedAt, IsReport, verify_lem}
use jungey_os.Audit.Append.{Same, IsLinked-ext, stored_hash_ext}
use jungey_os.Audit.Sound.{IsSound}

flip-ne : (b : ℕ) → b ≢ bit_xor b 255
flip-ne b e = omega (arith, bit_xor-halves b 255)

length-slice : (b : Sector) (start n : ℕ) → length (slice b start n) ≡ n
length-slice b start zero = refl
length-slice b start (suc n) = ap suc (length-slice b (start + 1) n)

slice-byte :
    (b : Sector) (start n i : ℕ) → i < n → get_elem? (slice b start n) i ≡ some (b (start + i))
slice-byte b start zero i h = elim h [ ]
slice-byte b start (suc n) zero h = ap (λ (k : ℕ). some (b k)) (omega arith)
slice-byte b start (suc n) (suc i) h =
    slice-byte b (start + 1) n i (omega arith) ∙ ap (λ (k : ℕ). some (b k)) (omega arith)

slice-bytes :
    (b : Sector) (start n : ℕ)
    → ((i : ℕ) → i < start + n → IsByte (b i))
    → All IsByte (slice b start n)
slice-bytes b start zero h = tt
slice-bytes b start (suc n) h =
    (h start (omega arith), slice-bytes b (start + 1) n (λ i lt. h i (omega arith)))

-- Two sectors that differ in one byte of a slice.
slice-set :
    (b c : Sector) (start n p : ℕ)
    → start ≤ p
    → p < start + n
    → ((j : ℕ) → start ≤ j → j < start + n → j ≢ p → c j ≡ b j)
    → slice c start n ≡ set (slice b start n) (p - start) (c p)
slice-set b c start zero p lo hi h = absurd (omega arith)
slice-set b c start (suc n) p lo hi h = elim (ℕ_discrete start p) [
  | yes e ↦
      let z : p - start ≡ 0 = omega arith in
      rw z (
        ap₂ ◌∷◌ (ap c e) (
          slice_ext c b (start + 1) n
            (λ j l g. h j (omega arith) (omega arith) (λ (k : j ≡ p). omega arith))))
  | no ne ↦
      let k : p - start ≡ suc (p - (start + 1)) = omega arith in
      rw k (
        ap₂ ◌∷◌ (h start (omega arith) (omega arith) ne) (
          slice-set b c (start + 1) n p (omega arith) (omega arith)
            (λ j l g. h j (omega arith) (omega arith))))
]

-- A linked record is no longer linked when one byte below its hash has been altered.
tampered :
    (r s : Rec) (prev p : ℕ)
    → p < off_hash
    → s p ≡ bit_xor (r p) 0xff
    → ((j : ℕ) → j < record_bytes → j ≢ p → s j ≡ r j)
    → ((j : ℕ) → j < record_bytes → IsByte (r j))
    → prev < 2 ^ 64
    → IsLinked r prev
    → ¬ IsLinked s prev
unfolding hash_record
tampered r s prev p lt flipped kept bytes small old new =
    let stored : stored_hash s ≡ stored_hash r =
      get_u64_ext s r 120 (λ j lo hi. kept j (omega arith) (λ (e : j ≡ p). omega arith)) in
    let body =
      slice-set r s 0 120 p (omega arith) (omega arith) (λ j lo hi. kept j (omega arith)) in
    let seed = bit_xor-lt 64 prev fnv_basis small (omega arith) in
    let place : p - 0 ≡ p = omega arith in
    let hashes =
      sym (ap (hash_bytes (bit_xor prev fnv_basis)) body) ∙ new.hash ∙ stored ∙ sym old.hash in
    let byte : s p < 256 =
      rw flipped (bit_xor-lt 8 (r p) 255 (bytes p (omega arith)) (omega arith)) in
    let found =
      hash_bytes-set (slice r 0 120) (bit_xor prev fnv_basis) (p - 0) (s p)
        (slice-bytes r 0 120 (λ j h. bytes j (omega arith))) seed byte
        (rw (length-slice r 0 120, place) lt) hashes in
    let held : get_elem? (slice r 0 120) (p - 0) ≡ some (r p) =
      rw place (slice-byte r 0 120 p lt ∙ ap (λ (k : ℕ). some (r k)) (omega arith)) in
    flip-ne (r p) (get_elem?-same (slice r 0 120) (p - 0) (p - 0) _ _ refl held found ∙ flipped)

-- The hash that each record of a chain carries fits into its field.
link-lt :
    (media : Media) (l : Log) (n : ℕ)
    → ((i : ℕ) → i < n → LinkedAt media l i)
    → link media l n < 2 ^ 64
unfolding hash_record
link-lt media l zero h = omega arith
link-lt media l (suc n) h =
    let seed =
      bit_xor-lt 64 (link media l n) fnv_basis (link-lt media l n (λ i lt. h i (omega arith)))
        (omega arith) in
    let here = h n (omega arith) in
    rw (← here.hash) (hash_bytes-lt (slice (record_at media l n) 0 120) _ seed)

-- The disk with one byte of a record altered.
abbrev altered : Media → Log → (seq p : ℕ) → Media
altered media l seq p =
    put_sector media (sector_of l seq)
      (flip_at (media (sector_of l seq)) (slot_of seq * record_bytes + p))

module _ (media : Media) (l : Log) (seq p : ℕ) (within : p < record_bytes) where
  altered_here : record_at (altered media l seq p) l seq p ≡ bit_xor (record_at media l seq p) 0xff
  unfolding flip_at
  altered_here = rw (==_self (sector_of l seq), ==_self (slot_of seq * 128 + p)) refl

  altered_kept :
      (i j : ℕ)
      → j < record_bytes
      → (i ≢ seq) ⊎ (j ≢ p)
      → record_at (altered media l seq p) l i j ≡ record_at media l i j
  unfolding flip_at
  altered_kept i j lt apart = elim (ℕ_discrete (sector_of l i) (sector_of l seq)) [
    | yes e ↦
        let test : (sector_of l i == sector_of l seq) ≡ true = ground arith in
        let places : slot_of i * 128 + j ≢ slot_of seq * 128 + p =
          λ (f : slot_of i * 128 + j ≡ slot_of seq * 128 + p). elim apart [
            | inl n ↦ n (omega arith)
            | inr n ↦ n (omega arith)
          ] in
        rw (test, ==_ne _ _ places) (ap (λ (k : ℕ). media k (slot_of i * 128 + j)) (sym e))
    | no m ↦ rw (==_ne (sector_of l i) (sector_of l seq) m) refl
  ]

verified_eq :
    (v : Verified) (seq : ℕ)
    → v.first_bad ≡ some v.records
    → v.records ≡ seq
    → v ≡ record { records = seq; first_bad = some seq }
verified_eq v seq e n =
    let e' : v.first_bad ≡ some seq = e ∙ ap some n in
    λ i. record { records = n i; first_bad = e' i }

IsReport-move :
    (m m' : Media) (f f' : ℕ → Fate) (l l' : Log) (v : Verified)
    → m ≡ m'
    → f ≡ f'
    → l ≡ l'
    → IsReport m f l l.next_seq v
    → IsReport m' f' l' l'.next_seq v
IsReport-move m m' f f' l l' v em ef el h = rw (← em, ← ef, ← el) h

module _ (a : Audit) (seq byte : ℕ) (served : (n : ℕ) → a.device.fate n ≡ serves) where
  abbrev after : Audit
  after = (corrupt_for_test a seq byte).1

  corrupt_lem :
      (after.log ≡ a.log)
      × (after.device.fate ≡ a.device.fate)
      × (after.device.sectors ≡ altered a.device.sectors a.log seq (min byte 119))
  unfolding corrupt_for_test jungey_os.Disk.and_then
  corrupt_lem = rw (read_sector_served a.device (sector_of a.log seq) (served a.device.requests)) (
      rw
        (write_sector_served (asked a.device) (sector_of a.log seq) _
          (served (a.device.requests + 1)))
        (refl, refl, refl))

  module _ (s : IsSound a) (below : seq < a.log.next_seq)
      (bytes : (j : ℕ) → j < record_bytes → IsByte (record_at a.device.sectors a.log seq j)) where
    abbrev changed : Media
    changed = altered a.device.sectors a.log seq (min byte 119)

    kept-Same :
        (i : ℕ) → i ≢ seq → Same (record_at a.device.sectors a.log i) (record_at changed a.log i)
    kept-Same i n j lo hi =
        sym (altered_kept a.device.sectors a.log seq (min byte 119) (omega arith) i j hi (inl n))

    kept-link : (i : ℕ) → i ≤ seq → link changed a.log i ≡ link a.device.sectors a.log i
    kept-link zero h = refl
    kept-link (suc i) h = sym (stored_hash_ext _ _ (kept-Same i (λ (e : i ≡ seq). omega arith)))

    kept-Linked : (i : ℕ) → i < seq → LinkedAt changed a.log i
    kept-Linked i h = rw (kept-link i (omega arith)) (
        IsLinked-ext _ _ _ (kept-Same i (λ (e : i ≡ seq). omega arith)) (s.chained i (omega arith)))

    broken_here : ¬ LinkedAt changed a.log seq
    broken_here h =
        let media = a.device.sectors in
        tampered (record_at media a.log seq) (record_at changed a.log seq) (link media a.log seq)
          (min byte 119) (omega arith) (altered_here media a.log seq (min byte 119) (omega arith))
          (λ j lt n. altered_kept media a.log seq (min byte 119) (omega arith) seq j lt (inr n))
          bytes (link-lt media a.log seq (λ i lt. s.chained i (omega arith))) (s.chained seq below)
          (rw (kept-link seq (omega arith)) at h)

    report : IsReport changed a.device.fate a.log a.log.next_seq (verify after).0
    report =
        let (el, ef, em) = corrupt_lem in
        IsReport-move _ changed _ a.device.fate after.log a.log (verify after).0 em ef el
          (verify_lem after)

    -- In a log that agrees with a disk that serves every request, alter one byte of any record, before its
    -- hash, as `corrupt_for_test` does. Then `verify` counts the records before it and reports that one.
    pub verify-corrupt :
        (verify (corrupt_for_test a seq byte).1).0 ≡ record { records = seq; first_bad = some seq }
    verify-corrupt =
        let r = report in
        elim (dec_lt seq (verify after).0.records) [
          | yes more ↦ absurd (broken_here (r.sound seq more))
          | no stops ↦ elim r.verdict [
            | inl (e, n) ↦ absurd (omega arith)
            | inr (e, lt, inr (n, fails)) ↦ absurd (fails (served n))
            | inr (e, lt, inl bad) ↦ elim (ℕ_discrete (verify after).0.records seq) [
              | no ne ↦ absurd (bad (kept-Linked _ (omega arith)))
              | yes same ↦ verified_eq (verify after).0 seq e same
            ]
          ]
        ]
