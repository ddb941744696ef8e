-- ===== src/Audit/Append.antt =====
-- kernel/src/audit.rs: `append` keeps the chain, whatever becomes of its requests to the disk.
use jungey_os.Prelude.{
  ℕ, zero, suc, ◌+◌, ◌-◌, ◌*◌, ◌^◌, ◌≤◌, ◌<◌, ◌≡◌, ◌≢◌, inl, refl, sym, ap, ◌∙◌, true, false, ◌&&◌,
  List, length, take, arith, ℕ_discrete, ◌==◌, leb, ltb, if◌then◌else◌, ==_self, ==_ne, bit_xor,
}
use jungey_os.Prelude.Xor.{bit_xor-lt}
use jungey_os.Disk.{Sector, blank, put_sector}
use jungey_os.Fs.Codec.{slice, put_u64, get_u64}
use jungey_os.Fs.Layout.{
  Agree, slice_ext, copy_at-out, get_u64-put_u64, put_u64-out, get_u64_ext, before,
}
use jungey_os.Fnv.{fnv_basis, hash_bytes, hash_bytes-lt}
use jungey_os.Audit.Record.{
  Rec, record_bytes, off_hash, log_magic, magic_of, prev_of, stored_hash, hash_record, unhashed,
  record_in, with_record, name_bytes, detail_bytes,
}
use jungey_os.Audit.{Log, sector_of, slot_of}
use jungey_os.Audit.Chain.{Media, record_at, link, IsLinked, LinkedAt}

abbrev pub Same : Rec → Rec → Type 0
Same r s = Agree r s 0 record_bytes

with_record_lem :
    (buf : Sector) (slot : ℕ) (rec : Rec) (slot' j : ℕ)
    → j < record_bytes
    → record_in (with_record buf slot rec) slot' j
      ≡ (if slot' == slot then rec j else record_in buf slot' j)
unfolding with_record
with_record_lem buf slot rec slot' j lt = elim (ℕ_discrete slot' slot) [
  | yes e ↦
      let inside : (leb (slot * 128) (slot * 128 + j) && ltb (slot * 128 + j) ((slot + 1) * 128))
          ≡ true =
        ground arith in
      let place : slot * 128 + j - slot * 128 ≡ j = omega arith in
      rw (e, ==_self slot, inside, place) refl
  | no n ↦
      let outside : (leb (slot * 128) (slot' * 128 + j) && ltb (slot' * 128 + j) ((slot + 1) * 128))
          ≡ false =
        ground arith in
      rw (==_ne slot' slot n, outside) refl
]

pub stored_hash_ext : (r s : Rec) → Same r s → stored_hash r ≡ stored_hash s
stored_hash_ext r s h = get_u64_ext r s 120 (λ i lo hi. h i (omega arith) (omega arith))

pub IsLinked-ext : (r s : Rec) (prev : ℕ) → Same r s → IsLinked r prev → IsLinked s prev
unfolding hash_record
IsLinked-ext r s prev h k =
    let fields = λ (start : ℕ) (lt : start + 8 ≤ 128).
      get_u64_ext r s start (λ i lo hi. h i (omega arith) (omega arith)) in
    let body = slice_ext r s 0 120 (λ i lo hi. h i (omega arith) (omega arith)) in
    record {
      magic = sym (fields 0 (omega arith)) ∙ k.magic;
      previous = sym (fields 16 (omega arith)) ∙ k.previous;
      hash =
          ap (hash_bytes (bit_xor prev fnv_basis)) (sym body) ∙ k.hash ∙ fields 120 (omega arith);
    }

-- The disk with a record in its place.
abbrev pub placed : Media → Log → (seq : ℕ) → Rec → Media
placed media l seq rec =
    put_sector media (sector_of l seq) (with_record (media (sector_of l seq)) (slot_of seq) rec)

module _ (media : Media) (l : Log) (seq : ℕ) (rec : Rec) where
  pub placed_here : Same rec (record_at (placed media l seq rec) l seq)
  placed_here j lo hi = rw (==_self (sector_of l seq)) (
      sym (
        with_record_lem (media (sector_of l seq)) (slot_of seq) rec (slot_of seq) j hi
        ∙ rw (==_self (slot_of seq)) refl))

  pub placed_other :
      (i : ℕ) → i ≢ seq → Same (record_at media l i) (record_at (placed media l seq rec) l i)
  placed_other i n j lo hi = elim (ℕ_discrete (sector_of l i) (sector_of l seq)) [
    | yes e ↦
        let test : (sector_of l i == sector_of l seq) ≡ true = ground arith in
        let slots : slot_of i ≢ slot_of seq = λ (f : slot_of i ≡ slot_of seq). n (omega arith) in
        rw test (
          sym (
            with_record_lem (media (sector_of l seq)) (slot_of seq) rec (slot_of i) j hi
            ∙ rw (==_ne (slot_of i) (slot_of seq) slots)
                (ap (λ (k : ℕ). media k (slot_of i * 128 + j)) (sym e))))
    | no m ↦ rw (==_ne (sector_of l i) (sector_of l seq) m) refl
  ]

  pub placed_link : (i : ℕ) → i ≤ seq → link (placed media l seq rec) l i ≡ link media l i
  placed_link zero h = refl
  placed_link (suc i) h = sym (stored_hash_ext _ _ (placed_other i (λ (e : i ≡ seq). omega arith)))

  pub placed_linked : (i : ℕ) → i < seq → LinkedAt media l i → LinkedAt (placed media l seq rec) l i
  placed_linked i h k =
      rw (placed_link i (omega arith))
        (IsLinked-ext _ _ _ (placed_other i (λ (e : i ≡ seq). omega arith)) k)

-- A record as `append` makes it follows the one whose hash it was given.
module _ (seq prev tick : ℕ) (actor : List ℕ) (cap_id : ℕ) (name detail : List ℕ) where
  abbrev pub bare : Rec
  bare = unhashed seq prev tick actor cap_id name detail

  abbrev pub new_hash : ℕ
  new_hash = hash_record bare prev

  abbrev pub finished : Rec
  finished = put_u64 bare off_hash new_hash

  text_past :
      (start : ℕ)
      → start + 8 ≤ 48
      → get_u64 bare start
        ≡ get_u64
            (put_u64
              (put_u64
                (put_u64 (put_u64 (put_u64 (put_u64 blank 0 log_magic) 8 seq) 16 prev) 24 tick)
                32
                (length actor))
              40
              cap_id)
            start
  unfolding unhashed
  text_past start h = get_u64_ext _ _ start (λ i lo hi.
      copy_at-out (take detail_bytes detail) _ 80 i (inl (omega arith))
      ∙ copy_at-out (take name_bytes name) _ 48 i (inl (omega arith)))

  pub new_hash-lt : prev < 2 ^ 64 → new_hash < 2 ^ 64
  unfolding hash_record
  new_hash-lt h = hash_bytes-lt (slice bare 0 120) _ (bit_xor-lt 64 prev fnv_basis h (omega arith))

  finished_magic : magic_of finished ≡ log_magic
  finished_magic =
      before bare 120 new_hash 0 (omega arith)
      ∙ text_past 0 (omega arith)
      ∙ before _ 40 cap_id 0 (omega arith)
      ∙ before _ 32 (length actor) 0 (omega arith)
      ∙ before _ 24 tick 0 (omega arith)
      ∙ before _ 16 prev 0 (omega arith)
      ∙ before _ 8 seq 0 (omega arith)
      ∙ get_u64-put_u64 blank 0 log_magic (omega arith)

  finished_prev : prev < 2 ^ 64 → prev_of finished ≡ prev
  finished_prev h =
      before bare 120 new_hash 16 (omega arith)
      ∙ text_past 16 (omega arith)
      ∙ before _ 40 cap_id 16 (omega arith)
      ∙ before _ 32 (length actor) 16 (omega arith)
      ∙ before _ 24 tick 16 (omega arith)
      ∙ get_u64-put_u64 _ 16 prev h

  pub finished_stored : prev < 2 ^ 64 → stored_hash finished ≡ new_hash
  finished_stored h = get_u64-put_u64 bare 120 new_hash (new_hash-lt h)

  pub finished-IsLinked : prev < 2 ^ 64 → IsLinked finished prev
  unfolding hash_record
  finished-IsLinked h = record {
    magic = finished_magic;
    previous = finished_prev h;
    hash =
        ap (hash_bytes (bit_xor prev fnv_basis))
          (slice_ext finished bare 0 120 (λ i lo hi. put_u64-out bare 120 new_hash i (inl hi)))
        ∙ sym (finished_stored h);
  }
