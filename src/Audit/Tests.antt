-- ===== src/Audit/Tests.antt =====
-- Runs of the action log on a blank disk with room for eight records.
use jungey_os.Prelude.{
  ℕ, zero, suc, ◌<◌, ◌≡◌, refl, ap, true, Bool, none, some, [], ◌∷◌, err, ltb, ltb→lt, Bool-cases,
  ℕ_discrete, false, if◌then◌else◌, inl, inr, arith,
}
use jungey_os.Disk.{Fate, serves, blank, read_sector, write_sector, and_then}
use jungey_os.Fs.Codec.{get_u64, put_u64}
use jungey_os.Fnv.{IsByte, hash_bytes}
use jungey_os.Audit.Record.{Rec, with_record, unhashed, hash_record}
use jungey_os.Audit.{Audit, put_record, append, verify, corrupt_for_test, init}
use jungey_os.Audit.Chain.{record_at, IsReport, verify_lem}
use jungey_os.Audit.Sound.{IsSound, append-IsSound, verify-IsSound}
use jungey_os.Audit.Tamper.{verify-corrupt}

abbrev empty_log : Audit
empty_log = record {
  log = record { start = 10; sectors = 2; next_seq = 0; last_hash = 0; ready = true };
  appended = 0;
  device = record { sectors = λ n. blank; fate = λ n. serves; requests = 0 };
}

empty_log-IsSound : IsSound empty_log
empty_log-IsSound = record {
  chained = λ i lt. elim lt [ ];
  last = refl;
  small = omega arith;
  room = omega arith;
}

-- "send" to "bob", on the authority of capability 7
abbrev one_record : Audit
one_record = (append empty_log 42 (97 ∷ []) 7 (115 ∷ 101 ∷ 110 ∷ 100 ∷ []) (98 ∷ 111 ∷ 98 ∷ [])).1

append-IsSound_example : IsSound one_record
append-IsSound_example =
    append-IsSound empty_log empty_log-IsSound 42 (97 ∷ []) 7 (115 ∷ 101 ∷ 110 ∷ 100 ∷ [])
      (98 ∷ 111 ∷ 98 ∷ [])

one_record-IsSound : IsSound one_record
one_record-IsSound =
    append-IsSound empty_log empty_log-IsSound 42 (97 ∷ []) 7 (115 ∷ 101 ∷ 110 ∷ 100 ∷ [])
      (98 ∷ 111 ∷ 98 ∷ [])

found_again : (init (record one_record { appended = 0 }) 10 2).log.next_seq ≡ 1
unfolding init append read_sector put_record and_then write_sector get_u64 with_record put_u64
    unhashed
found_again = refl

full_log :
    (append (record empty_log { log = record empty_log.log { next_seq = 8 } }) 0 [] 0 [] []).0
    ≡ err "audit log is full"
unfolding append
full_log = refl

verify_lem_example :
    IsReport one_record.device.sectors one_record.device.fate one_record.log one_record.log.next_seq
      (verify one_record).0
verify_lem_example = verify_lem one_record

one_fate : one_record.device.fate ≡ λ n. serves
unfolding append put_record and_then read_sector write_sector
one_fate = refl

one_seq : one_record.log.next_seq ≡ 1
unfolding append put_record and_then read_sector write_sector
one_seq = refl

verify-IsSound_example :
    (verify one_record).0 ≡ record { records = one_record.log.next_seq; first_bad = none }
verify-IsSound_example =
    verify-IsSound one_record one_record-IsSound (λ n. ap (λ (f : ℕ → Fate). f n) one_fate)

-- Whether the first bytes of a record are bytes.
holds_bytes : (count : ℕ) → Rec → Bool
holds_bytes zero rec = true
holds_bytes (suc count) rec = if ltb (rec count) 256 then holds_bytes count rec else false

holds_bytes_lem :
    (count : ℕ) (rec : Rec) → holds_bytes count rec ≡ true → (j : ℕ) → j < count → IsByte (rec j)
unfolding holds_bytes
holds_bytes_lem zero rec h j lt = elim lt [ ]
holds_bytes_lem (suc count) rec h j lt = elim (Bool-cases (ltb (rec count) 256)) [
  | inr large ↦ let no_way : false ≡ true = rw large at h in cc
  | inl small ↦ elim (ℕ_discrete j count) [
    | yes last ↦ rw last (ltb→lt (rec count) 256 small)
    | no earlier ↦ holds_bytes_lem count rec (rw small at h) j (omega arith)
  ]
]

one_bytes_table : holds_bytes 128 (record_at one_record.device.sectors one_record.log 0) ≡ true
unfolding holds_bytes append put_record and_then read_sector write_sector with_record put_u64
    unhashed hash_record hash_bytes
one_bytes_table = refl

verify-corrupt_example :
    (verify (corrupt_for_test one_record 0 50).1).0 ≡ record { records = 0; first_bad = some 0 }
verify-corrupt_example =
    verify-corrupt one_record 0 50 (λ n. ap (λ (f : ℕ → Fate). f n) one_fate) one_record-IsSound
      (omega (arith, one_seq))
      (holds_bytes_lem 128 (record_at one_record.device.sectors one_record.log 0) one_bytes_table)
