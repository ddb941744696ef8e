-- ===== src/Kv/Added.antt =====
-- kernel/src/kv.rs: `open` and `append` keep the bytes of all blocks, and give the new one its own.
use jungey_os.Prelude.{
  ℕ, suc, ◌≡◌, ◌≢◌, inl, inr, refl, sym, ◌∙◌, ap, arith, Bool-cases, Option-cases, some, [], ◌∷◌,
  ◌++◌, length, get_elem?, get_elem?-snoc, modify, subst, leb, lt→ltb,
}
use jungey_os.Prelude.Find.{find, find_cases, modify_first, modify_first_cases}
use jungey_os.Mm.Source.{FrameSource, FrameLaws}
use jungey_os.Kv.{Block, resident, Session, Kv, block_bytes, budget_blocks, room_for_one}
use jungey_os.Kv.Ops.{
  has_id, fill, push_block, open_session, new_session, add_to, append_frame, append_one,
}
use jungey_os.Kv.Keep.{first_same}
use jungey_os.Kv.Blocks.{
  At, frame_of, push-IsChanged, IsFaithful, old-IsFaithful, changed-IsFaithful,
}
use jungey_os.Kv.Faithful.{Faithful, make_room-IsFaithful}
use jungey_os.Kv.Bytes.{this_memory, other_memory}

module _ (frames : FrameSource) (laws : FrameLaws frames) where
  open frames use {Pool, take_frame, give_back}
  open laws use {IsFree, was_free, taken, no_more, back}

  pub open-IsFaithful :
      (owner model : ℕ) (k : Kv Pool)
      → Faithful frames laws k
      → Faithful frames laws (open_session owner model k).1
  unfolding open_session
  open-IsFaithful owner model k h =
      let ss = k.cache.sessions in
      let s = new_session k.cache.next_id owner model (k.clock k.readings) in
      old-IsFaithful frames laws ss (ss ++ s ∷ []) k.memory k.memory k.device.sectors
        k.cache.spill_next k.pool k.pool h
        (λ i j id b at. elim (get_elem?-snoc ss s i at.session at.at_session) [
          | inl (lt, old) ↦ record {
            session = at.session;
            at_session = old;
            named = at.named;
            at_block = at.at_block;
          }
          | inr (here, is) ↦
              let none' : get_elem? s.blocks j ≡ some b =
                ap (λ (t : Session). get_elem? t.blocks j) (is) ∙ at.at_block in
              cc
        ])
        (λ i j d g b at fr. (refl, h.used i j d g b at fr))

  add_to-IsFaithful :
      (id frame : ℕ) (k : Kv Pool)
      → Faithful frames laws k
      → ¬ IsFree k.pool frame
      → ((i j d g : ℕ) (b : Block) → At k.cache.sessions i j d b → frame_of b ≡ some g → g ≢ frame)
      → Faithful frames laws (add_to frames id frame (find (has_id id) k.cache.sessions) k).1
  unfolding add_to fill
  add_to-IsFaithful id frame k h mine apart = elim (find_cases (has_id id) k.cache.sessions) [
    | inl (e, none') ↦
        rw (e, add_to)
          (old-IsFaithful frames laws k.cache.sessions k.cache.sessions k.memory k.memory
            k.device.sectors k.cache.spill_next k.pool (give_back k.pool frame) h (λ i j d b at. at)
            (λ i j d g b at fr. (
              refl,
              λ free. elim (back k.pool frame g free) [
                | inl f ↦ h.used i j d g b at fr f
                | inr here ↦ apart i j d g b at fr here
              ],
            )))
    | inr (i, first, e, place) ↦
        let ss = k.cache.sessions in
        let s = first.item in
        let now = k.clock k.readings in
        let next = k.cache.spill_next in
        let c = resident frame now in
        let f = push_block frame now in
        let m = k.memory in
        let index = length s.blocks in
        let m' = fill frame s.id index m in
        let same : modify_first (has_id id) f ss ≡ modify ss i f =
          elim (modify_first_cases (has_id id) f ss) [
            | inl (eq, none') ↦ let no' = none' i s first.at_place in let yes' = first.passes in cc
            | inr (n, g, eq) ↦ eq ∙ ap (λ n. modify ss n f) (first_same id ss n i g first)
          ] in
        rw (e, add_to)
          (subst (λ ts. IsFaithful frames laws ts m' k.device.sectors next k.pool) (sym same)
            (changed-IsFaithful frames laws ss (modify ss i f) m m' k.device.sectors
              k.device.sectors next next k.pool k.pool i index s.id c h
              (push-IsChanged ss i s f c (λ s. (refl, refl)) first.at_place)
              (λ o lt.
                ap (λ (f : ℕ → ℕ). f o) (this_memory frame _ m) ∙ rw (lt→ltb o block_bytes lt) refl)
              (λ g eq free. let one : frame ≡ g = cc in mine (subst (IsFree k.pool) (sym one) free))
              (λ a j d g b at off fr. (
                other_memory frame g _ m (apart a j d g b at fr),
                h.used a j d g b at fr,
                λ eq. let one : g ≡ frame = cc in apart a j d g b at fr one,
              ))
              (λ n lt. refl) (omega arith)))
  ]

  append_frame-IsFaithful :
      (id : ℕ) (k : Kv Pool)
      → Faithful frames laws k
      → Faithful frames laws (append_frame frames id k).1
  unfolding append_frame
  append_frame-IsFaithful id k h =
      let pool = (take_frame k.pool).1 in
      let h' : Faithful frames laws (record k { pool = pool }) =
        old-IsFaithful frames laws k.cache.sessions k.cache.sessions k.memory k.memory
          k.device.sectors k.cache.spill_next k.pool pool h (λ i j d b at. at)
          (λ i j d g b at fr. (refl, λ free. h.used i j d g b at fr (no_more k.pool g free))) in
      elim (Option-cases (take_frame k.pool).0) [
        | inl e ↦ rw (e, append_frame) h'
        | inr (frame, e) ↦
            rw (e, append_frame)
              (add_to-IsFaithful id frame (record k { pool = pool }) h' (taken k.pool frame e)
                (λ i j d g b at fr eq.
                  h.used i j d g b at fr
                    (subst (IsFree k.pool) (sym eq) (was_free k.pool frame e))))
      ]

  pub append_one-IsFaithful :
      (id : ℕ) (k : Kv Pool)
      → Faithful frames laws k
      → Faithful frames laws (append_one frames id k).1
  unfolding append_one
  append_one-IsFaithful id k h =
      let made = make_room-IsFaithful frames laws (suc k.cache.resident_blocks) 1 k h in
      elim (Bool-cases (leb budget_blocks (room_for_one frames k).cache.resident_blocks)) [
        | inl full ↦ rw full made
        | inr free' ↦ rw free' (append_frame-IsFaithful id (room_for_one frames k) made)
      ]
