-- ===== src/Kv/Sectors.antt =====
-- kernel/src/kv.rs: a block that is written out and read back.
use jungey_os.Prelude.{
  ℕ, zero, suc, ◌+◌, ◌*◌, ◌/◌, ◌%◌, ◌<◌, ◌≤◌, ◌≡◌, ◌≢◌, inl, inr, refl, ◌∙◌, ap, arith, Bool-cases,
  ◌==◌, ==_self, ==_ne, ok, err,
}
use jungey_os.Disk.{
  Sector, sector_size, Device, serves, put_sector, read_sector, write_sector, and_then, asked,
  write_sector_lem, read_sector_lem, read_sector_served,
}
use jungey_os.Kv.{sectors_per_block, block_bytes, place_sector, write_out, read_in}

-- Sector `s` of a block.
abbrev pub piece : (contents : ℕ → ℕ) → ℕ → Sector
piece contents s i = contents (s * sector_size + i)

put_other :
    (sectors : ℕ → Sector) (sector n : ℕ) (bytes : Sector)
    → n ≢ sector
    → put_sector sectors sector bytes n ≡ sectors n
put_other sectors sector n bytes h = rw (==_ne n sector h) refl

put_here :
    (sectors : ℕ → Sector) (sector : ℕ) (bytes : Sector)
    → put_sector sectors sector bytes sector ≡ bytes
put_here sectors sector bytes = rw (==_self sector) refl

pub write_out-earlier :
    (left s : ℕ) (contents : ℕ → ℕ) (sector : ℕ) (d : Device) (n : ℕ)
    → n < sector + s
    → (write_out left s contents sector d).1.sectors n ≡ d.sectors n
unfolding write_out and_then
write_out-earlier zero s contents sector d n h = refl
write_out-earlier (suc left) s contents sector d n h =
    elim (write_sector_lem d (sector + s) (piece contents s)) [
      | inl (e, q) ↦ rw e (
          write_out-earlier left (s + 1) contents sector
            (write_sector d (sector + s) (piece contents s)).1 n (omega arith)
          ∙ ap (λ (f : ℕ → Sector). f n) q
          ∙ put_other d.sectors (sector + s) n _ (omega arith))
      | inr (m, e, inl q) ↦ rw e (ap (λ (f : ℕ → Sector). f n) q)
      | inr (m, e, inr q) ↦
          rw e (ap (λ (f : ℕ → Sector). f n) q ∙ put_other d.sectors (sector + s) n _ (omega arith))
    ]

pub write_out-written :
    (left s : ℕ) (contents : ℕ → ℕ) (sector : ℕ) (d : Device) (t : ℕ)
    → (write_out left s contents sector d).0 ≡ ok tt
    → s ≤ t
    → t < s + left
    → (write_out left s contents sector d).1.sectors (sector + t) ≡ piece contents t
unfolding write_out and_then
write_out-written zero s contents sector d t h le lt = absurd (omega arith)
write_out-written (suc left) s contents sector d t h le lt =
    elim (write_sector_lem d (sector + s) (piece contents s)) [
      | inl (e, q) ↦ elim (Bool-cases (s == t)) [
        | inl here ↦
            let same : s ≡ t = ground arith in
            rw (e, ← same)
              (write_out-earlier left (s + 1) contents sector
                  (write_sector d (sector + s) (piece contents s)).1 (sector + s) (omega arith)
                ∙ ap (λ (f : ℕ → Sector). f (sector + s)) q
                ∙ put_here d.sectors (sector + s) (piece contents s))
        | inr later ↦ rw e (
            write_out-written left (s + 1) contents sector
              (write_sector d (sector + s) (piece contents s)).1 t (rw e at h) (ground arith)
              (omega arith))
      ]
      | inr (m, e, q) ↦ let h' : err m ≡ ok tt = rw e at h in cc
    ]

-- What a byte is after the sectors from `s` on were read over these contents.
pub read_in-bytes :
    (left s sector : ℕ) (contents : ℕ → ℕ) (d : Device) (o : ℕ)
    → (read_in left s sector contents d).0 ≡ ok tt
    → (o / sector_size < s → (read_in left s sector contents d).1.0 o ≡ contents o)
      × (s ≤ o / sector_size
          → o / sector_size < s + left
          → (read_in left s sector contents d).1.0 o
            ≡ d.sectors (sector + o / sector_size) (o % sector_size))
unfolding read_in read_sector
read_in-bytes zero s sector contents d o h = (λ lt. refl, λ le lt. absurd (omega arith))
read_in-bytes (suc left) s sector contents d o h = elim (read_sector_lem d (sector + s)) [
  | inl e ↦
      let bytes = d.sectors (sector + s) in
      let next = place_sector s bytes contents in
      let e : (read_sector d (sector + s)).0 ≡ ok bytes = ap (λ p. p.0) e in
      let h' : (read_in left (s + 1) sector next (asked d)).0 ≡ ok tt = rw (e, read_in) at h in
      let rest = read_in-bytes left (s + 1) sector next (asked d) o h' in
      rw (e, read_in)
        (
          λ lt. rest.0 (omega arith) ∙ rw (==_ne (o / sector_size) s (omega arith)) refl,
          λ le lt. elim (Bool-cases (o / sector_size == s)) [
            | inl here ↦
                let same : s ≡ o / sector_size = ground arith in
                let placed : next o ≡ bytes (o % sector_size) = rw here refl in
                rest.0 (ground arith)
                ∙ placed
                ∙ ap (λ n. d.sectors (sector + n) (o % sector_size)) same
            | inr later ↦ rest.1 (ground arith) (omega arith)
          ],
        )
  | inr (m, e, refused) ↦
      let e : (read_sector d (sector + s)).0 ≡ err m = ap (λ p. p.0) e in
      let h' : err m ≡ ok tt = rw (e, read_in) at h in cc
]

-- Reading changes nothing on the disk.
pub read_in-sectors :
    (left s sector : ℕ) (contents : ℕ → ℕ) (d : Device)
    → (read_in left s sector contents d).1.1.sectors ≡ d.sectors
unfolding read_in read_sector
read_in-sectors zero s sector contents d = refl
read_in-sectors (suc left) s sector contents d = elim (read_sector_lem d (sector + s)) [
  | inl e ↦
      let bytes = d.sectors (sector + s) in
      let e : (read_sector d (sector + s)).0 ≡ ok bytes = ap (λ p. p.0) e in
      rw (e, read_in)
        (read_in-sectors left (s + 1) sector (place_sector s bytes contents) (asked d))
  | inr (m, e, refused) ↦
      let e : (read_sector d (sector + s)).0 ≡ err m = ap (λ p. p.0) e in rw (e, read_in) refl
]

read_in-served :
    (left s sector : ℕ) (contents : ℕ → ℕ) (d : Device)
    → ((n : ℕ) → d.fate n ≡ serves)
    → (read_in left s sector contents d).0 ≡ ok tt
unfolding read_in read_sector
read_in-served zero s sector contents d h = refl
read_in-served (suc left) s sector contents d h =
    let bytes = d.sectors (sector + s) in
    let e : (read_sector d (sector + s)).0 ≡ ok bytes =
      ap (λ p. p.0) (read_sector_served d (sector + s) (h d.requests)) in
    rw (e, read_in) (read_in-served left (s + 1) sector _ (asked d) h)

pub byte_place :
    (o : ℕ)
    → o < block_bytes
    → (o / sector_size < sectors_per_block) × (o / sector_size * sector_size + o % sector_size ≡ o)
byte_place o h = (omega arith, omega arith)

-- A block that was written out whole comes back as it was, from any later state of the disk in which
-- its eight sectors are the same: reading it in succeeds if every request is served, and when it
-- succeeds each of the 4096 bytes in memory is the one that was written.
pub read_in-write_out :
    (contents old : ℕ → ℕ) (sector : ℕ) (d e : Device)
    → (write_out sectors_per_block 0 contents sector d).0 ≡ ok tt
    → ((t : ℕ)
        → t < sectors_per_block
        → e.sectors (sector + t)
          ≡ (write_out sectors_per_block 0 contents sector d).1.sectors (sector + t))
    → (((n : ℕ) → e.fate n ≡ serves) → (read_in sectors_per_block 0 sector old e).0 ≡ ok tt)
      × ((read_in sectors_per_block 0 sector old e).0 ≡ ok tt
          → (o : ℕ) → o < block_bytes
          → (read_in sectors_per_block 0 sector old e).1.0 o ≡ contents o)
read_in-write_out contents old sector d e w same = (
  read_in-served sectors_per_block 0 sector old e,
  λ r o h.
      let (lt, place) = byte_place o h in
      (read_in-bytes sectors_per_block 0 sector old e o r).1 (omega arith) (omega arith)
      ∙ ap (λ (f : Sector). f (o % sector_size)) (same (o / sector_size) lt)
      ∙ ap (λ (f : Sector). f (o % sector_size))
          (write_out-written sectors_per_block 0 contents sector d (o / sector_size) w (omega arith)
            (omega arith))
      ∙ ap contents place,
)
