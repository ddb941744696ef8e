-- ===== src/Kv/Given.antt =====
-- kernel/src/kv.rs: `read` gives the bytes that the block was given, and keeps those of all blocks.
use jungey_os.Prelude.{
  ℕ, ◌+◌, ◌<◌, ◌≡◌, inl, inr, refl, sym, ◌∙◌, ap, arith, Bool, Bool-cases, Option-cases, get_elem?,
  modify, subst, min, ltb, ltb→lt, if◌then◌else◌, Result, ok, err,
}
use jungey_os.Prelude.Find.{find, modify_first}
use jungey_os.Mm.Source.{FrameSource, FrameLaws}
use jungey_os.Kv.{Block, resident, spilling, spilled, Kv, pattern_of, block_bytes}
use jungey_os.Kv.Ops.{
  has_id, touch_session, hit_block, read_block, read, Answer, found, waits, fails, answered,
  copy_out,
}
use jungey_os.Kv.Keep.{BlockAt, Keeps-BlockAt, find-BlockAt}
use jungey_os.Kv.Read.{touch_kept}
use jungey_os.Kv.Blocks.{
  IsWritten, replace-IsChanged, IsFaithful, old-IsFaithful, changed-IsFaithful,
}
use jungey_os.Kv.Faithful.{Faithful, others}
use jungey_os.Kv.Bytes.{BlockAt-At, modify_first-place, touch-IsOld, restore-IsFaithful}

-- The bytes that a read gives: as many of the block's as fit, and the rest of the buffer as it was.
abbrev pub IsRead : (id index len : ℕ) → (out : ℕ → ℕ) → Answer → Type 0
IsRead id index len out a =
    (was_resident : Bool) (bytes : ℕ → ℕ)
    → a ≡ found was_resident bytes
    → (o : ℕ) → bytes o ≡ (if ltb o (min len block_bytes) then pattern_of id index o else out o)

copy_out-IsRead :
    (id index len : ℕ) (bytes out : ℕ → ℕ)
    → IsWritten bytes id index
    → (o : ℕ)
    → copy_out len bytes out o
      ≡ (if ltb o (min len block_bytes) then pattern_of id index o else out o)
copy_out-IsRead id index len bytes out w o = elim (Bool-cases (ltb o (min len block_bytes))) [
  | inl e ↦
      let lt : o < min len block_bytes = ltb→lt o (min len block_bytes) e in
      rw e (w o (omega arith))
  | inr e ↦ rw e refl
]

module _ (frames : FrameSource) (laws : FrameLaws frames) where
  open frames use {Pool, take_frame, give_back}
  open laws use {IsFree, was_free, taken, no_more, back}

  answered-IsRead :
      (id index len : ℕ) (out : ℕ → ℕ) (r : Result (ℕ → ℕ))
      → ((bytes : ℕ → ℕ) → r ≡ ok bytes → IsWritten bytes id index)
      → IsRead id index len out (answered frames len out r)
  answered-IsRead id index len out (ok bytes) w was bytes' e o =
      let same : copy_out len bytes out ≡ bytes' = cc in
      ap (λ (f : ℕ → ℕ). f o) (sym same) ∙ copy_out-IsRead id index len bytes out (w bytes refl) o
  answered-IsRead id index len out (err m) w was bytes' e o = cc

  abbrev found_out : (ℕ → ℕ) → Answer → ℕ → ℕ
  found_out old (found was bytes) = bytes
  found_out old waits = old
  found_out old (fails e) = old

  read_block-IsFaithful :
      (id index len : ℕ) (out : ℕ → ℕ) (b : Block) (k : Kv Pool)
      → BlockAt k.cache.sessions id index b
      → Faithful frames laws k
      → Faithful frames laws (read_block frames id index len out b k).1
        × IsRead id index len out (read_block frames id index len out b k).0
  unfolding read_block
  read_block-IsFaithful id index len out (resident frame used) k p h =
      let ss = k.cache.sessions in
      let m = k.memory in
      let d = k.device.sectors in
      let next = k.cache.spill_next in
      let now = k.clock k.readings in
      let c = resident frame now in
      let f = hit_block index frame now in
      let at = BlockAt-At ss id index (resident frame used) p in
      let there = h.content p.place index id (resident frame used) at in
      (
        subst (λ ts. IsFaithful frames laws ts m d next k.pool)
            (sym (modify_first-place ss id index _ f p))
            (changed-IsFaithful frames laws ss (modify ss p.place f) m m d d next next k.pool k.pool
              p.place index id c h
              (replace-IsChanged ss p.place index id f (resident frame used) c (λ s. (refl, refl))
                at)
              there (λ g e. h.used p.place index id g _ at e)
              (λ i j id' g b off' off fr.
                let (used', other) =
                  others frames laws ss m d next k.pool p.place index id frame _ h at refl i j id' g
                    b off' off fr in
                (refl, used', λ e. other (cc)))
              (λ n lt. refl) (omega arith)),
        λ was bytes e o.
            let same : copy_out len (m frame) out ≡ bytes = ap (found_out out) e in
            ap (λ (f : ℕ → ℕ). f o) (sym same) ∙ copy_out-IsRead id index len (m frame) out there o,
      )
  read_block-IsFaithful id index len out (spilling frame sector) k p h = (h, λ was bytes e. cc)
  read_block-IsFaithful id index len out (spilled sector) k p h =
      let r =
        restore-IsFaithful frames laws id index (k.clock k.readings) sector
          (record k { readings = k.readings + 1 }) p h in
      (r.0, answered-IsRead id index len out _ r.1)

  pub read-IsFaithful :
      (id index len : ℕ) (out : ℕ → ℕ) (k : Kv Pool)
      → Faithful frames laws k
      → Faithful frames laws (read frames id index len out k).1
        × IsRead id index len out (read frames id index len out k).0
  unfolding read
  read-IsFaithful id index len out k h =
      let now = k.clock k.readings in
      let ss = k.cache.sessions in
      let touched = modify_first (has_id id) (touch_session now) ss in
      let h' =
        old-IsFaithful frames laws ss touched k.memory k.memory k.device.sectors k.cache.spill_next
          k.pool k.pool h (touch-IsOld ss id now)
          (λ i j d g b at fr. (refl, h.used i j d g b at fr)) in
      elim (Option-cases (find (has_id id) ss)) [
        | inl e ↦ rw (e, read) (h, λ was bytes e. cc)
        | inr (s, e) ↦ elim (Option-cases (get_elem? s.blocks index)) [
          | inl g ↦ rw (e, g, read) (h', λ was bytes e. cc)
          | inr (b, g) ↦
              rw (e, g, read)
                (read_block-IsFaithful id index len out b _
                  (Keeps-BlockAt (λ b. Unit) ss touched id index b (touch_kept now id ss) tt
                    (find-BlockAt ss id index s b e g))
                  h')
        ]
      ]
