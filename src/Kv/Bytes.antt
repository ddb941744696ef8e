-- ===== src/Kv/Bytes.antt =====
-- kernel/src/kv.rs: a block comes back from the disk, or goes to a new frame, with its bytes.
use jungey_os.Prelude.{
  ℕ, suc, ◌≡◌, ◌≢◌, inl, inr, refl, sym, ◌∙◌, ap, arith, Option-cases, some, List, modify, subst,
  ==_self, ==_ne, Result, ok, err,
}
use jungey_os.Prelude.Find.{modify_first, modify_first_cases}
use jungey_os.Disk.{Sector, Done}
use jungey_os.Mm.Source.{FrameSource, FrameLaws}
use jungey_os.Kv.{Block, resident, spilled, Session, Kv, sectors_per_block, read_in, room_for_one}
use jungey_os.Kv.Ops.{has_id, put_memory, touch_session, restore_block, bring_back, restore}
use jungey_os.Kv.Keep.{BlockAt, Keeps-BlockAt, first_same}
use jungey_os.Kv.Read.{IsSpilled, make_room-Keeps}
use jungey_os.Kv.Sectors.{read_in-bytes, read_in-sectors}
use jungey_os.Kv.Blocks.{
  At, frame_of, IsWritten, IsOld, modify-IsOld, replace-IsChanged, IsFaithful, old-IsFaithful,
  changed-IsFaithful,
}
use jungey_os.Kv.Faithful.{Faithful, make_room-IsFaithful}

-- The session that an id finds has that id.
pub BlockAt-At :
    (ss : List Session) (id index : ℕ) (b : Block)
    → (p : BlockAt ss id index b) → At ss p.place index id b
BlockAt-At ss id index b p = record {
  session = p.first.item;
  at_session = p.first.at_place;
  named = let same = p.first.passes in ground arith;
  at_block = p.at_block;
}

-- A change to the first session of an id, at the place where it is.
pub modify_first-place :
    (ss : List Session) (id index : ℕ) (b : Block) (f : Session → Session)
    → (p : BlockAt ss id index b) → modify_first (has_id id) f ss ≡ modify ss p.place f
modify_first-place ss id index b f p = elim (modify_first_cases (has_id id) f ss) [
  | inl (e, none') ↦
      let no' = none' p.place p.first.item p.first.at_place in let yes' = p.first.passes in cc
  | inr (i, g, e) ↦ e ∙ ap (λ n. modify ss n f) (first_same id ss i p.place g p.first)
]

pub touch-IsOld :
    (ss : List Session) (id now : ℕ) → IsOld ss (modify_first (has_id id) (touch_session now) ss)
touch-IsOld ss id now = elim (modify_first_cases (has_id id) (touch_session now) ss) [
  | inl (e, n) ↦ rw e (λ i j d b at. at)
  | inr (i, f, e) ↦ rw e (modify-IsOld ss i (touch_session now) (λ s. (refl, refl)))
]

pub other_memory :
    (frame g : ℕ) (bytes : ℕ → ℕ) (m : ℕ → ℕ → ℕ) → g ≢ frame → put_memory frame bytes m g ≡ m g
other_memory frame g bytes m ne = rw (==_ne g frame ne) refl

pub this_memory :
    (frame : ℕ) (bytes : ℕ → ℕ) (m : ℕ → ℕ → ℕ) → put_memory frame bytes m frame ≡ bytes
this_memory frame bytes m = rw (==_self frame) refl

module _ (frames : FrameSource) (laws : FrameLaws frames) where
  open frames use {Pool, take_frame, give_back}
  open laws use {IsFree, was_free, taken, no_more, back}

  -- A frame is taken, and its memory overwritten: no block is in it.
  pub taken-IsFaithful :
      (ss : List Session) (m : ℕ → ℕ → ℕ) (d : ℕ → Sector) (next : ℕ) (p : Pool) (frame : ℕ)
      (bytes : ℕ → ℕ)
      → IsFaithful frames laws ss m d next p
      → (take_frame p).0 ≡ some frame
      → IsFaithful frames laws ss (put_memory frame bytes m) d next (take_frame p).1
        × ((i j id g : ℕ) (b : Block) → At ss i j id b → frame_of b ≡ some g → g ≢ frame)
  taken-IsFaithful ss m d next p frame bytes h t =
      let apart : (i j id g : ℕ) (b : Block) → At ss i j id b → frame_of b ≡ some g → g ≢ frame =
        λ i j id g b at fr e.
          h.used i j id g b at fr (subst (IsFree p) (sym e) (was_free p frame t)) in
      (
        old-IsFaithful frames laws ss ss m (put_memory frame bytes m) d next p (take_frame p).1 h
            (λ i j id b at. at)
            (λ i j id g b at fr. (
              other_memory frame g bytes m (apart i j id g b at fr),
              λ free. h.used i j id g b at fr (no_more p g free),
            )),
        apart,
      )

  bring_back-IsFaithful :
      (id index now frame sector : ℕ) (r : Result Done) (k : Kv Pool)
      → BlockAt k.cache.sessions id index (spilled sector)
      → Faithful frames laws k
      → ¬ IsFree k.pool frame
      → ((i j id g : ℕ) (b : Block)
          → At k.cache.sessions i j id b
          → frame_of b ≡ some g
          → g ≢ frame)
      → (r ≡ ok tt → IsWritten (k.memory frame) id index)
      → Faithful frames laws (bring_back frames id index now frame r k).1
        × ((bytes : ℕ → ℕ)
            → (bring_back frames id index now frame r k).0 ≡ ok bytes
            → IsWritten bytes id index)
  unfolding bring_back
  bring_back-IsFaithful id index now frame sector (err e) k p h mine apart read' = (
    old-IsFaithful frames laws k.cache.sessions k.cache.sessions k.memory k.memory k.device.sectors
        k.cache.spill_next k.pool (give_back k.pool frame) h (λ i j d b at. at)
        (λ i j d g b at fr. (
          refl,
          λ free. elim (back k.pool frame g free) [
            | inl f ↦ h.used i j d g b at fr f
            | inr here ↦ apart i j d g b at fr here
          ],
        )),
    λ bytes e. cc,
  )
  bring_back-IsFaithful id index now frame sector (ok done) k p h mine apart read' =
      let ss = k.cache.sessions in
      let m = k.memory in
      let d = k.device.sectors in
      let next = k.cache.spill_next in
      let c = resident frame now in
      let f = restore_block index frame now in
      (
        subst (λ ts. IsFaithful frames laws ts m d next k.pool)
            (sym (modify_first-place ss id index _ f p))
            (changed-IsFaithful frames laws ss (modify ss p.place f) m m d d next next k.pool k.pool
              p.place index id c h
              (replace-IsChanged ss p.place index id f (spilled sector) c (λ s. (refl, refl))
                (BlockAt-At ss id index (spilled sector) p))
              (read' refl)
              (λ g e free.
                let same : frame ≡ g = cc in mine (subst (IsFree k.pool) (sym same) free))
              (λ i j d g b at off fr. (
                refl,
                h.used i j d g b at fr,
                λ e. let same : g ≡ frame = cc in apart i j d g b at fr same,
              ))
              (λ n lt. refl) (omega arith)),
        λ bytes e o lt.
            let same : m frame ≡ bytes = cc in ap (λ (f : ℕ → ℕ). f o) (sym same) ∙ read' refl o lt,
      )

  pub restore-IsFaithful :
      (id index now sector : ℕ) (k : Kv Pool)
      → BlockAt k.cache.sessions id index (spilled sector)
      → Faithful frames laws k
      → Faithful frames laws (restore frames id index now sector k).1
        × ((bytes : ℕ → ℕ)
            → (restore frames id index now sector k).0 ≡ ok bytes
            → IsWritten bytes id index)
  unfolding restore
  restore-IsFaithful id index now sector k p h =
      let fuel = suc k.cache.resident_blocks in
      let r = room_for_one frames k in
      let made = make_room-IsFaithful frames laws fuel 1 k h in
      let p' =
        Keeps-BlockAt IsSpilled k.cache.sessions r.cache.sessions id index (spilled sector)
          (make_room-Keeps frames fuel 1 k) (sector, refl) p in
      elim (Option-cases (take_frame r.pool).0) [
        | inl e ↦
            rw (e, restore)
              (
                old-IsFaithful frames laws r.cache.sessions r.cache.sessions r.memory r.memory
                    r.device.sectors r.cache.spill_next r.pool (take_frame r.pool).1 made
                    (λ i j d b at. at)
                    (λ i j d g b at fr.
                      (refl, λ free. made.used i j d g b at fr (no_more r.pool g free))),
                λ bytes e. cc,
              )
        | inr (frame, e) ↦
            let got = read_in sectors_per_block 0 sector (r.memory frame) r.device in
            let (over, apart) =
              taken-IsFaithful r.cache.sessions r.memory r.device.sectors r.cache.spill_next r.pool
                frame got.1.0 made e in
            let over' =
              subst
                (λ d.
                  IsFaithful frames laws r.cache.sessions (put_memory frame got.1.0 r.memory) d
                    r.cache.spill_next (take_frame r.pool).1)
                (sym (read_in-sectors sectors_per_block 0 sector (r.memory frame) r.device)) over in
            let place = BlockAt-At r.cache.sessions id index (spilled sector) p' in
            let (low, there) = made.content p'.place index id (spilled sector) place in
            rw (e, restore)
              (bring_back-IsFaithful id index now frame sector got.0 _ p' over'
                (taken r.pool frame e) apart
                (λ done o lt.
                  ap (λ (f : ℕ → ℕ). f o) (this_memory frame got.1.0 r.memory)
                  ∙ (read_in-bytes sectors_per_block 0 sector (r.memory frame) r.device o done).1
                      (omega arith) (omega arith)
                  ∙ there o lt))
      ]
