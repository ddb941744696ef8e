-- ===== src/Kv/Faithful.antt =====
-- kernel/src/kv.rs: eviction keeps every block's bytes.
use jungey_os.Prelude.{
  ℕ, zero, suc, ◌+◌, ◌/◌, ◌%◌, ◌<◌, ◌≤◌, ◌≡◌, ◌≢◌, inl, inr, refl, ◌∙◌, ap, arith, Bool-cases, some,
  List, modify, Result, ok, err,
}
use jungey_os.Disk.{Sector, Done}
use jungey_os.Mm.Source.{FrameSource, FrameLaws}
use jungey_os.Kv.{
  Block, resident, spilling, spilled, Session, Kv, Victim, block_bytes, sectors_per_block,
  put_block, set_block, count_spill, mark, write_out, finish_spill, spill, evict, make_room,
}
use jungey_os.Kv.Choice.{choose_lem}
use jungey_os.Kv.Evict.{IsMarked, mark-IsMarked}
use jungey_os.Kv.Sectors.{write_out-earlier, write_out-written, byte_place}
use jungey_os.Kv.Blocks.{
  At, frame_of, modify-IsOld, replace-IsChanged, IsFaithful, old-IsFaithful, changed-IsFaithful,
}

module _ (frames : FrameSource) (laws : FrameLaws frames) where
  open frames use {Pool, give_back}
  open laws use {IsFree, back}

  abbrev pub Faithful : Kv Pool → Type 0
  Faithful k =
      IsFaithful frames laws k.cache.sessions k.memory k.device.sectors k.cache.spill_next k.pool

  -- What replacing a block with a frame leaves of the others.
  pub others :
      (ss : List Session) (m : ℕ → ℕ → ℕ) (d : ℕ → Sector) (next : ℕ) (p : Pool)
      (si bi id0 frame : ℕ) (b0 : Block)
      → IsFaithful frames laws ss m d next p
      → At ss si bi id0 b0
      → frame_of b0 ≡ some frame
      → (i j id g : ℕ) (b : Block) → At ss i j id b
      → ¬ ((i ≡ si) × (j ≡ bi))
      → frame_of b ≡ some g
      → (¬ IsFree p g) × (g ≢ frame)
  others ss m d next p si bi id0 frame b0 h was fr0 i j id g b at off fr =
      (h.used i j id g b at fr, λ e. off (h.alone i j id si bi id0 g b b0 at was fr (rw e fr0)))

  mark-IsFaithful :
      (k : Kv Pool) (v : Victim) (used : ℕ) (d' : ℕ → Sector) (id0 : ℕ)
      → Faithful k
      → At k.cache.sessions v.si v.bi id0 (resident v.frame used)
      → ((n : ℕ) → n < k.cache.spill_next → d' n ≡ k.device.sectors n)
      → IsFaithful frames laws
          (mark k.cache v).sessions
          k.memory
          d'
          (mark k.cache v).spill_next
          k.pool
  unfolding mark
  mark-IsFaithful k v used d' id0 h was disk =
      let ss = k.cache.sessions in
      let next = k.cache.spill_next in
      let c = spilling v.frame next in
      changed-IsFaithful frames laws ss (set_block v.si v.bi c ss) k.memory k.memory
        k.device.sectors d' next (next + sectors_per_block) k.pool k.pool v.si v.bi id0 c h
        (replace-IsChanged ss v.si v.bi id0 (put_block v.bi c) _ c (λ s. (refl, refl)) was)
        (h.content v.si v.bi id0 _ was) (λ g fr. h.used v.si v.bi id0 g _ was fr)
        (λ i j id g b at off fr.
          let (taken, other) =
            others ss k.memory k.device.sectors next k.pool v.si v.bi id0 v.frame _ h was refl i j
              id g b at off fr in
          (refl, taken, λ e. other (cc)))
        disk (omega arith)

  finish-IsFaithful :
      (sector now : ℕ) (v : Victim) (r : Result Done) (k : Kv Pool)
      → Faithful k
      → IsMarked k.cache.sessions v
      → (r ≡ ok tt
          → (sector + sectors_per_block ≤ k.cache.spill_next)
            × ((o : ℕ)
                → o < block_bytes
                → k.device.sectors (sector + o / 512) (o % 512) ≡ k.memory v.frame o))
      → Faithful (finish_spill frames sector now v r k)
  unfolding finish_spill
  finish-IsFaithful sector now v (err e) k h m wrote =
      let ss = k.cache.sessions in
      let next = k.cache.spill_next in
      let was : At ss v.si v.bi m.session.id (spilling v.frame m.sector) = record {
        session = m.session;
        at_session = m.at_session;
        named = refl;
        at_block = m.at_block;
      } in
      let c = resident v.frame now in
      changed-IsFaithful frames laws ss (set_block v.si v.bi c ss) k.memory k.memory
        k.device.sectors k.device.sectors next next k.pool k.pool v.si v.bi m.session.id c h
        (replace-IsChanged ss v.si v.bi m.session.id (put_block v.bi c) _ c (λ s. (refl, refl)) was)
        (h.content v.si v.bi m.session.id _ was) (λ g fr. h.used v.si v.bi m.session.id g _ was fr)
        (λ i j id g b at off fr.
          let (taken, other) =
            others ss k.memory k.device.sectors next k.pool v.si v.bi m.session.id v.frame _ h was
              refl i j id g b at off fr in
          (refl, taken, λ e. other (cc)))
        (λ n lt. refl) (omega arith)
  finish-IsFaithful sector now v (ok done) k h m wrote =
      let ss = k.cache.sessions in
      let next = k.cache.spill_next in
      let id0 = m.session.id in
      let was : At ss v.si v.bi id0 (spilling v.frame m.sector) = record {
        session = m.session;
        at_session = m.at_session;
        named = refl;
        at_block = m.at_block;
      } in
      let c = spilled sector in
      let (low, bytes) = wrote refl in
      let there = h.content v.si v.bi id0 _ was in
      let pool' = give_back k.pool v.frame in
      let on_disk =
        changed-IsFaithful frames laws ss (set_block v.si v.bi c ss) k.memory k.memory
          k.device.sectors k.device.sectors next next k.pool pool' v.si v.bi id0 c h
          (replace-IsChanged ss v.si v.bi id0 (put_block v.bi c) _ c (λ s. (refl, refl)) was)
          (low, λ o lt. bytes o lt ∙ there o lt) (λ g fr. absurd (cc))
          (λ i j id g b at off fr.
            let (taken, other) =
              others ss k.memory k.device.sectors next k.pool v.si v.bi id0 v.frame _ h was refl i j
                id g b at off fr in
            (
              refl,
              λ free. elim (back k.pool v.frame g free) [ inl f ↦ taken f | inr e ↦ other e ],
              λ e. absurd (cc),
            ))
          (λ n lt. refl) (omega arith) in
      old-IsFaithful frames laws (set_block v.si v.bi c ss)
        (modify (set_block v.si v.bi c ss) v.si count_spill) k.memory k.memory k.device.sectors next
        pool' pool' on_disk
        (modify-IsOld (set_block v.si v.bi c ss) v.si count_spill (λ s. (refl, refl)))
        (λ i j id g b at fr. (refl, on_disk.used i j id g b at fr))

  pub evict-IsFaithful : (want : ℕ) (k : Kv Pool) → Faithful k → Faithful (evict frames want k).1
  unfolding evict spill
  evict-IsFaithful want k h = elim (choose_lem k.cache want (k.clock k.readings)) [
    | inr (e, why) ↦ rw e h
    | inl (v, e, w) ↦
        let sector = k.cache.spill_next in
        let bytes = k.memory v.frame in
        let wrote = write_out sectors_per_block 0 bytes sector k.device in
        let was : At k.cache.sessions v.si v.bi w.place.session.id (resident v.frame w.used) =
          record {
            session = w.place.session;
            at_session = w.place.at_session;
            named = refl;
            at_block = w.place.at_block;
          } in
        let marked =
          mark-IsFaithful k v w.used wrote.1.sectors w.place.session.id h was
            (λ n lt. write_out-earlier sectors_per_block 0 bytes sector k.device n (omega arith)) in
        rw e (
          finish-IsFaithful sector (k.clock k.readings) v wrote.0 _ marked
            (mark-IsMarked k.cache v w.used w.place)
            (λ done. (
              unfold mark in omega arith,
              λ o lt.
                  let (t, place) = byte_place o lt in
                  ap (λ (f : Sector). f (o % 512))
                    (write_out-written sectors_per_block 0 bytes sector k.device (o / 512) done
                      (omega arith) (omega arith))
                  ∙ ap bytes place,
            )))
  ]

  pub make_room-IsFaithful :
      (fuel want : ℕ) (k : Kv Pool) → Faithful k → Faithful (make_room frames fuel want k)
  unfolding make_room
  make_room-IsFaithful zero want k h = h
  make_room-IsFaithful (suc fuel) want k h = elim (Bool-cases (evict frames want k).0) [
    | inl more ↦
        rw more (make_room-IsFaithful fuel want (evict frames want k).1 (evict-IsFaithful want k h))
    | inr last ↦ rw last (evict-IsFaithful want k h)
  ]
