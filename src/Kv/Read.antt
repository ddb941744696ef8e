-- ===== src/Kv/Read.antt =====
-- kernel/src/kv.rs: the count of resident blocks through `open` and `read`.
use jungey_os.Prelude.{
  ℕ, zero, suc, ◌≡◌, inl, inr, refl, ◌∙◌, arith, Bool-cases, Option-cases, some, List, get_elem?,
  Result, ok, err,
}
use jungey_os.Prelude.Find.{find, modify_first, modify_first_cases}
use jungey_os.Disk.{Done}
use jungey_os.Kv.{
  Block, resident, spilling, spilled, Session, Kv, FrameSource, Victim, put_block, set_block,
  count_spill, mark, finish_spill, spill, evict, make_room, room_for_one,
}
use jungey_os.Kv.Ops.{
  has_id, touch_session, hit_block, restore_block, open_session, new_session, bring_back, restore,
  read_block, read,
}
use jungey_os.Kv.Choice.{choose_lem}
use jungey_os.Kv.Count.{framed, framed_in, framed_in-append, framed_in-modify_same}
use jungey_os.Kv.Evict.{IsCounted, IsMarked, mark-IsMarked}
use jungey_os.Kv.Room.{make_room-IsCounted}
use jungey_os.Kv.Keep.{
  Keeps, Keeps-refl, Keeps-trans, Keeps-modify, IsKept-put, BlockAt, Keeps-BlockAt, find-BlockAt,
  replace-framed,
}

abbrev pub IsSpilled : Block → Type 0
IsSpilled b = (sector : ℕ) × (b ≡ spilled sector)

resident_not : (frame used : ℕ) → ¬ IsSpilled (resident frame used)
resident_not frame used (sector, e) = cc

spilling_not : (frame sector : ℕ) → ¬ IsSpilled (spilling frame sector)
spilling_not frame sector (other, e) = cc

put-Keeps :
    (ss : List Session) (si bi : ℕ) (s : Session) (b c : Block)
    → get_elem? ss si ≡ some s
    → get_elem? s.blocks bi ≡ some b
    → ¬ IsSpilled b
    → Keeps IsSpilled ss (set_block si bi c ss)
put-Keeps ss si bi s b c h g other = Keeps-modify IsSpilled ss si (put_block bi c) (λ t at.
    let same : t ≡ s = cc in
    let g' : get_elem? t.blocks bi ≡ some b = rw same g in IsKept-put IsSpilled t bi b c g' other)

pub touch_kept :
    (now id : ℕ) (ss : List Session)
    → Keeps (λ b. Unit) ss (modify_first (has_id id) (touch_session now) ss)
touch_kept now id ss = elim (modify_first_cases (has_id id) (touch_session now) ss) [
  | inl (e, n) ↦ rw e (Keeps-refl (λ b. Unit) ss)
  | inr (i, f, e) ↦
      rw e (Keeps-modify (λ b. Unit) ss i (touch_session now) (λ s h. (refl, λ j b q g. g)))
]

touch_same :
    (now id : ℕ) (ss : List Session)
    → framed_in (modify_first (has_id id) (touch_session now) ss) ≡ framed_in ss
touch_same now id ss = elim (modify_first_cases (has_id id) (touch_session now) ss) [
  | inl (e, n) ↦ rw e refl
  | inr (i, f, e) ↦ rw e (framed_in-modify_same ss i (touch_session now) (λ s. refl))
]

module _ (frames : FrameSource) where
  open frames use {Pool}

  finish_spill-Keeps :
      (sector now : ℕ) (v : Victim) (r : Result Done) (k : Kv Pool)
      → IsMarked k.cache.sessions v
      → Keeps IsSpilled k.cache.sessions (finish_spill frames sector now v r k).cache.sessions
  unfolding finish_spill
  finish_spill-Keeps sector now v (ok done) k m =
      Keeps-trans IsSpilled _ (set_block v.si v.bi (spilled sector) k.cache.sessions) _
        (put-Keeps k.cache.sessions v.si v.bi m.session _ (spilled sector) m.at_session m.at_block
          (spilling_not v.frame m.sector))
        (Keeps-modify IsSpilled (set_block v.si v.bi (spilled sector) k.cache.sessions) v.si
          count_spill (λ s h. (refl, λ j b q g. g)))
  finish_spill-Keeps sector now v (err e) k m =
      put-Keeps k.cache.sessions v.si v.bi m.session _ (resident v.frame now) m.at_session
        m.at_block (spilling_not v.frame m.sector)

  evict-Keeps :
      (want : ℕ) (k : Kv Pool)
      → Keeps IsSpilled k.cache.sessions (evict frames want k).1.cache.sessions
  unfolding evict spill mark
  evict-Keeps want k = elim (choose_lem k.cache want (k.clock k.readings)) [
    | inl (v, e, w) ↦ rw e (
        Keeps-trans IsSpilled _ (mark k.cache v).sessions _
          (put-Keeps k.cache.sessions v.si v.bi w.place.session _ _ w.place.at_session
            w.place.at_block (resident_not v.frame w.used))
          (finish_spill-Keeps _ _ v _ _ (mark-IsMarked k.cache v w.used w.place)))
    | inr (e, why) ↦ rw e (Keeps-refl IsSpilled k.cache.sessions)
  ]

  pub make_room-Keeps :
      (fuel want : ℕ) (k : Kv Pool)
      → Keeps IsSpilled k.cache.sessions (make_room frames fuel want k).cache.sessions
  unfolding make_room
  make_room-Keeps zero want k = Keeps-refl IsSpilled k.cache.sessions
  make_room-Keeps (suc fuel) want k = elim (Bool-cases (evict frames want k).0) [
    | inl more ↦ rw more (
        Keeps-trans IsSpilled _ (evict frames want k).1.cache.sessions _ (evict-Keeps want k)
          (make_room-Keeps fuel want (evict frames want k).1))
    | inr last ↦ rw last (evict-Keeps want k)
  ]

  bring_back-IsCounted :
      (id index now frame sector : ℕ) (r : Result Done) (k : Kv Pool)
      → BlockAt k.cache.sessions id index (spilled sector)
      → IsCounted k.cache
      → IsCounted (bring_back frames id index now frame r k).1.cache
  unfolding bring_back
  bring_back-IsCounted id index now frame sector (err e) k p h = h
  bring_back-IsCounted id index now frame sector (ok done) k p h = omega (
    arith,
    replace-framed k.cache.sessions id index (spilled sector) (resident frame now)
        (restore_block index frame now) (λ s. refl) p,
  )

  restore-IsCounted :
      (id index now sector : ℕ) (k : Kv Pool)
      → BlockAt k.cache.sessions id index (spilled sector)
      → IsCounted k.cache
      → IsCounted (restore frames id index now sector k).1.cache
  unfolding restore
  restore-IsCounted id index now sector k p h =
      let fuel = suc k.cache.resident_blocks in
      let counted = make_room-IsCounted frames fuel 1 k h in
      let p' =
        Keeps-BlockAt IsSpilled k.cache.sessions (room_for_one frames k).cache.sessions id index
          (spilled sector) (make_room-Keeps fuel 1 k) (sector, refl) p in
      elim (Option-cases (frames.take_frame (room_for_one frames k).pool).0) [
        | inl e ↦ rw (e, restore) counted
        | inr (frame, e) ↦
            rw (e, restore) (bring_back-IsCounted id index now frame sector _ _ p' counted)
      ]

  read_block-IsCounted :
      (id index len : ℕ) (out : ℕ → ℕ) (b : Block) (k : Kv Pool)
      → BlockAt k.cache.sessions id index b
      → IsCounted k.cache
      → IsCounted (read_block frames id index len out b k).1.cache
  unfolding read_block
  read_block-IsCounted id index len out (resident frame used) k p h =
      let now = k.clock k.readings in
      omega (
        arith,
        replace-framed k.cache.sessions id index (resident frame used) (resident frame now)
            (hit_block index frame now) (λ s. refl) p,
      )
  read_block-IsCounted id index len out (spilling frame sector) k p h = h
  read_block-IsCounted id index len out (spilled sector) k p h =
      restore-IsCounted id index (k.clock k.readings) sector _ p h

  -- Reading keeps the count of resident blocks right: a block that comes back from the disk is counted
  -- once, whatever was evicted to make room for it, and not when the read fails.
  pub read-IsCounted :
      (id index len : ℕ) (out : ℕ → ℕ) (k : Kv Pool)
      → IsCounted k.cache
      → IsCounted (read frames id index len out k).1.cache
  unfolding read
  read-IsCounted id index len out k h =
      let now = k.clock k.readings in
      let touched = modify_first (has_id id) (touch_session now) k.cache.sessions in
      let same = touch_same now id k.cache.sessions in
      elim (Option-cases (find (has_id id) k.cache.sessions)) [
        | inl e ↦ rw (e, read) h
        | inr (s, e) ↦ elim (Option-cases (get_elem? s.blocks index)) [
          | inl g ↦ rw (e, g, read) (same ∙ h)
          | inr (b, g) ↦
              rw (e, g, read)
                (read_block-IsCounted id index len out b _
                  (Keeps-BlockAt (λ b. Unit) k.cache.sessions touched id index b
                    (touch_kept now id k.cache.sessions) tt
                    (find-BlockAt k.cache.sessions id index s b e g))
                  (same ∙ h))
        ]
      ]

pub open-IsCounted :
    {Pool : Type 0} (owner model : ℕ) (k : Kv Pool)
    → IsCounted k.cache
    → IsCounted (open_session owner model k).1.cache
unfolding open_session framed
open-IsCounted owner model k h = omega (
  arith,
  framed_in-append k.cache.sessions (new_session k.cache.next_id owner model (k.clock k.readings)),
)
