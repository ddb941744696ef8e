-- ===== src/Kv/Refines.antt =====
-- kernel/src/kv.rs: sessions and their numbers of blocks are what the calls make them.
use jungey_os.Prelude.{
  ℕ, suc, ◌+◌, ◌≡◌, inl, inr, refl, ◌∙◌, ap, Bool-cases, Option, Option-cases, none, some, List, [],
  ◌∷◌, get_elem?, length-set, leb, Result, ok, err,
}
use jungey_os.Prelude.Find.{find}
use jungey_os.Disk.{Done}
use jungey_os.Kv.{
  Block, resident, spilling, spilled, Session, Kv, FrameSource, budget_blocks, room_for_one,
}
use jungey_os.Kv.Ops.{
  has_id, touch_session, hit_block, restore_block, open_session, new_session, add_to, append_frame,
  append_one, bring_back, restore, read_block, read,
}
use jungey_os.Kv.Promise.{
  Call, opens, appends, reads, view, promised, promised_all, call, calls, is_ok, make_room-view,
  modify_first-seen, push-seen, append-seen,
}

module _ (frames : FrameSource) where
  open frames use {Pool}

  add_to-view :
      (id frame : ℕ) (o : Option Session) (k : Kv Pool)
      → view (add_to frames id frame o k).1.cache
        ≡ promised (appends id) (is_ok (add_to frames id frame o k).0) (view k.cache)
  unfolding add_to promised
  add_to-view id frame none k = refl
  add_to-view id frame (some s) k =
      ap (λ us. record { next_id = k.cache.next_id; sessions = us })
        (push-seen id frame (k.clock k.readings) k.cache.sessions)

  append_frame-view :
      (id : ℕ) (k : Kv Pool)
      → view (append_frame frames id k).1.cache
        ≡ promised (appends id) (is_ok (append_frame frames id k).0) (view k.cache)
  unfolding append_frame promised
  append_frame-view id k = elim (Option-cases (frames.take_frame k.pool).0) [
    | inl e ↦ rw (e, append_frame) refl
    | inr (frame, e) ↦
        let k' : Kv Pool = record k { pool = (frames.take_frame k.pool).1 } in
        rw (e, append_frame) (add_to-view id frame (find (has_id id) k.cache.sessions) k')
  ]

  append_one-view :
      (id : ℕ) (k : Kv Pool)
      → view (append_one frames id k).1.cache
        ≡ promised (appends id) (is_ok (append_one frames id k).0) (view k.cache)
  unfolding append_one promised
  append_one-view id k =
      let made = make_room-view frames (suc k.cache.resident_blocks) 1 k in
      elim (Bool-cases (leb budget_blocks (room_for_one frames k).cache.resident_blocks)) [
        | inl full ↦ rw full made
        | inr free' ↦ rw free' (
            append_frame-view id (room_for_one frames k)
            ∙ ap (promised (appends id) (is_ok (append_frame frames id (room_for_one frames k)).0))
                made)
      ]

  bring_back-view :
      (id index now frame : ℕ) (r : Result Done) (k : Kv Pool)
      → view (bring_back frames id index now frame r k).1.cache ≡ view k.cache
  unfolding bring_back
  bring_back-view id index now frame (err e) k = refl
  bring_back-view id index now frame (ok done) k =
      ap (λ us. record { next_id = k.cache.next_id; sessions = us })
        (modify_first-seen id (restore_block index frame now) k.cache.sessions (λ s.
          ap (λ n. record { id = s.id; blocks = n })
            (length-set s.blocks index (resident frame now))))

  restore-view :
      (id index now sector : ℕ) (k : Kv Pool)
      → view (restore frames id index now sector k).1.cache ≡ view k.cache
  unfolding restore
  restore-view id index now sector k =
      let made = make_room-view frames (suc k.cache.resident_blocks) 1 k in
      elim (Option-cases (frames.take_frame (room_for_one frames k).pool).0) [
        | inl e ↦ rw (e, restore) made
        | inr (frame, e) ↦ rw (e, restore) (bring_back-view id index now frame _ _ ∙ made)
      ]

  read_block-view :
      (id index len : ℕ) (out : ℕ → ℕ) (b : Block) (k : Kv Pool)
      → view (read_block frames id index len out b k).1.cache ≡ view k.cache
  unfolding read_block
  read_block-view id index len out (resident frame used) k =
      let now = k.clock k.readings in
      ap (λ us. record { next_id = k.cache.next_id; sessions = us })
        (modify_first-seen id (hit_block index frame now) k.cache.sessions (λ s.
          ap (λ n. record { id = s.id; blocks = n })
            (length-set s.blocks index (resident frame now))))
  read_block-view id index len out (spilling frame sector) k = refl
  read_block-view id index len out (spilled sector) k =
      restore-view id index (k.clock k.readings) sector _

  read-view :
      (id index len : ℕ) (out : ℕ → ℕ) (k : Kv Pool)
      → view (read frames id index len out k).1.cache ≡ view k.cache
  unfolding read
  read-view id index len out k =
      let touched =
        ap (λ us. record { next_id = k.cache.next_id; sessions = us })
          (modify_first-seen id (touch_session (k.clock k.readings)) k.cache.sessions
            (λ s. refl)) in
      elim (Option-cases (find (has_id id) k.cache.sessions)) [
        | inl e ↦ rw (e, read) refl
        | inr (s, e) ↦ elim (Option-cases (get_elem? s.blocks index)) [
          | inl g ↦ rw (e, g, read) touched
          | inr (b, g) ↦ rw (e, g, read) (read_block-view id index len out b _ ∙ touched)
        ]
      ]

  call-view :
      (c : Call) (k : Kv Pool)
      → view (call frames c k).1.cache ≡ promised c (call frames c k).0 (view k.cache)
  unfolding call promised open_session
  call-view (opens owner model) k =
      ap (λ us. record { next_id = k.cache.next_id + 1; sessions = us })
        (append-seen k.cache.sessions
          (new_session k.cache.next_id owner model (k.clock k.readings)))
  call-view (appends id) k = append_one-view id k
  call-view (reads id index len out) k = read-view id index len out k

  -- Through any calls, the identifiers and the numbers of blocks are what a cache that never evicts would
  -- show, given which of the appends worked: an append that works adds one block to the session that is
  -- named, one that fails adds none, and a read changes nothing.
  pub calls-refine :
      (cs : List Call) (k : Kv Pool)
      → view (calls frames cs k).1.cache ≡ promised_all cs (calls frames cs k).0 (view k.cache)
  unfolding calls promised_all
  calls-refine [] k = refl
  calls-refine (c ∷ cs) k =
      calls-refine cs (call frames c k).1
      ∙ ap (promised_all cs (calls frames cs (call frames c k).1).0) (call-view c k)
