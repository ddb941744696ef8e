-- ===== src/Audit/Sound.antt =====
-- kernel/src/audit.rs: the log in memory and the chain on the disk agree, and `append` keeps it so,
-- whatever becomes of its requests.
use jungey_os.Prelude.{
  ℕ, ◌+◌, ◌^◌, ◌≤◌, ◌<◌, ◌≡◌, ◌⊎◌, inl, inr, refl, sym, ◌∙◌, true, none, List, arith, Bool-cases,
  ℕ_discrete, String, leb, not, ok, err, suc,
}
use jungey_os.Disk.{Device, serves, asked, read_sector_lem, write_sector_lem}
use jungey_os.Audit.Record.{Rec, with_record}
use jungey_os.Audit.{Log, Audit, capacity, sector_of, slot_of, put_record, append, verify}
use jungey_os.Audit.Chain.{link, LinkedAt, verify_lem}
use jungey_os.Audit.Append.{
  placed, placed_here, placed_link, placed_linked, IsLinked-ext, finished, new_hash, new_hash-lt,
  finished_stored, finished-IsLinked, stored_hash_ext,
}

pub record IsSound (a : Audit) : Type 0 where
  pub chained : (i : ℕ) → i < a.log.next_seq → LinkedAt a.device.sectors a.log i
  pub last : a.log.last_hash ≡ link a.device.sectors a.log a.log.next_seq
  pub small : a.log.last_hash < 2 ^ 64
  pub room : a.log.next_seq ≤ capacity a.log

-- The request to write is carried out if it succeeds; if it fails, it may have been.
put_record_lem :
    (d : Device) (l : Log) (seq : ℕ) (rec : Rec)
    → (((put_record d l seq rec).0 ≡ ok tt)
        × ((put_record d l seq rec).1.sectors ≡ placed d.sectors l seq rec))
      ⊎ ((e : String) × ((put_record d l seq rec).0 ≡ err e)
          × (((put_record d l seq rec).1.sectors ≡ d.sectors)
              ⊎ ((put_record d l seq rec).1.sectors ≡ placed d.sectors l seq rec)))
unfolding put_record jungey_os.Disk.and_then
put_record_lem d l seq rec = elim (read_sector_lem d (sector_of l seq)) [
  | inl e ↦ rw e (
      write_sector_lem (asked d) (sector_of l seq)
        (with_record (d.sectors (sector_of l seq)) (slot_of seq) rec))
  | inr (m, e, fails) ↦ rw e (inr (m, refl, inl refl))
]

module _ (a : Audit) (s : IsSound a) where
  -- A failed append, carried out or not: the log still ends where it did.
  same-IsSound : (d : Device) → d.sectors ≡ a.device.sectors → IsSound (record a { device = d })
  same-IsSound d e = record {
    chained = rw e s.chained;
    last = rw e s.last;
    small = s.small;
    room = s.room;
  }

  module _ (rec : Rec) (d : Device)
      (wrote : d.sectors ≡ placed a.device.sectors a.log a.log.next_seq rec) where
    spare-IsSound : IsSound (record a { device = d })
    spare-IsSound = record {
      chained = λ i lt.
          rw wrote (placed_linked a.device.sectors a.log a.log.next_seq rec i lt (s.chained i lt));
      last = rw wrote (
          s.last
          ∙ sym
              (placed_link a.device.sectors a.log a.log.next_seq rec a.log.next_seq (omega arith)));
      small = s.small;
      room = s.room;
    }

  module _ (tick : ℕ) (actor : List ℕ) (cap_id : ℕ) (name detail : List ℕ) where
    abbrev seq : ℕ
    seq = a.log.next_seq

    abbrev made : Rec
    made = finished seq a.log.last_hash tick actor cap_id name detail

    abbrev hash : ℕ
    hash = new_hash seq a.log.last_hash tick actor cap_id name detail

    -- A successful append: the chain has one link more.
    grown-IsSound :
        (d : Device)
        → d.sectors ≡ placed a.device.sectors a.log seq made
        → seq < capacity a.log
        → IsSound (record {
          log = record a.log { next_seq = seq + 1; last_hash = hash };
          appended = a.appended + 1;
          device = d;
        })
    grown-IsSound d wrote below =
        let media = a.device.sectors in
        let here = placed_here media a.log seq made in
        let chain : made ≡ made = refl in
        record {
          chained = λ i lt. rw wrote (elim (ℕ_discrete i seq) [
            | yes e ↦ rw e (
                rw (placed_link media a.log seq made seq (omega arith)) (
                  IsLinked-ext made _ _ here (
                    rw (← s.last) (
                      finished-IsLinked seq a.log.last_hash tick actor cap_id name detail
                        s.small))))
            | no n ↦ placed_linked media a.log seq made i (omega arith) (s.chained i (omega arith))
          ]);
          last =
              let next : seq + 1 ≡ suc seq = omega arith in
              rw (wrote, next)
                (sym (finished_stored seq a.log.last_hash tick actor cap_id name detail s.small)
                  ∙ stored_hash_ext made _ here);
          small = new_hash-lt seq a.log.last_hash tick actor cap_id name detail s.small;
          room = omega arith;
        }

    -- From a log that agrees with the disk, `append` leads to one that does, whether it succeeds or fails
    -- and whatever the disk made of its requests: every record below the next number is linked to the
    -- one before it, and the hash kept in memory is that of the last one.
    pub append-IsSound : IsSound (append a tick actor cap_id name detail).1
    unfolding append
    append-IsSound = elim (Bool-cases (not a.log.ready)) [
      | inl idle ↦ rw idle s
      | inr up ↦ elim (Bool-cases (leb (capacity a.log) seq)) [
        | inl full ↦ rw (up, full) s
        | inr open' ↦
            rw (up, open')
              (elim (put_record_lem a.device a.log seq made) [
                | inl (e, w) ↦
                    rw e (grown-IsSound (put_record a.device a.log seq made).1 w (ground arith))
                | inr (m, e, inl w) ↦ rw e (same-IsSound (put_record a.device a.log seq made).1 w)
                | inr (m, e, inr w) ↦
                    rw e (spare-IsSound made (put_record a.device a.log seq made).1 w)
              ])
      ]
    ]

-- `append` either takes the next number, with room for it in a log that is ready, and counts the
-- record, or it fails and leaves the log and the count as they were.
pub append_lem :
    (a : Audit) (tick : ℕ) (actor : List ℕ) (cap_id : ℕ) (name detail : List ℕ)
    → (((append a tick actor cap_id name detail).0 ≡ ok a.log.next_seq)
        × ((append a tick actor cap_id name detail).1.log.next_seq ≡ a.log.next_seq + 1)
        × ((append a tick actor cap_id name detail).1.appended ≡ a.appended + 1)
        × (a.log.ready ≡ true)
        × (a.log.next_seq < capacity a.log))
      ⊎ ((e : String) × ((append a tick actor cap_id name detail).0 ≡ err e)
          × ((append a tick actor cap_id name detail).1.log ≡ a.log)
          × ((append a tick actor cap_id name detail).1.appended ≡ a.appended))
unfolding append
append_lem a tick actor cap_id name detail =
    let made = finished a.log.next_seq a.log.last_hash tick actor cap_id name detail in
    elim (Bool-cases (not a.log.ready)) [
      | inl idle ↦ rw idle (inr ("no audit log", refl, refl, refl))
      | inr up ↦ elim (Bool-cases (leb (capacity a.log) a.log.next_seq)) [
        | inl full ↦ rw (up, full) (inr ("audit log is full", refl, refl, refl))
        | inr open' ↦
            rw (up, open')
              (elim (put_record_lem a.device a.log a.log.next_seq made) [
                | inl (e, w) ↦ rw e (inl (refl, refl, refl, ground arith, ground arith))
                | inr (m, e, w) ↦ rw e (inr (m, refl, refl, refl))
              ])
      ]
    ]

-- While the log is sound and the disk serves every request, `verify` counts every record of the log
-- and finds none that is bad.
pub verify-IsSound :
    (a : Audit)
    → IsSound a
    → ((n : ℕ) → a.device.fate n ≡ serves)
    → (verify a).0 ≡ record { records = a.log.next_seq; first_bad = none }
verify-IsSound a s served =
    let r = verify_lem a in
    elim r.verdict [
      | inl (e, n) ↦ cc
      | inr (e, lt, inl bad) ↦ absurd (bad (s.chained _ lt))
      | inr (e, lt, inr (n, fails)) ↦ absurd (fails (served n))
    ]
