-- ===== src/Kv/Room.antt =====
-- kernel/src/kv.rs: `make_room` as a loop, and what `append` makes of it.
use jungey_os.Prelude.{
  ℕ, zero, suc, ◌+◌, ◌<◌, ◌≤◌, ◌≡◌, ◌⊎◌, inl, inr, refl, arith, Bool-cases, Option, Option-cases,
  none, some, List, leb, String, Result, ok, err,
}
use jungey_os.Prelude.Find.{find, find_cases, modify_first, modify_first_cases}
use jungey_os.Kv.{
  resident, Session, Cache, Kv, FrameSource, budget_blocks, evict, make_room, room_for_one,
}
use jungey_os.Kv.Ops.{has_id, push_block, add_to, append_frame, append_one, append_from}
use jungey_os.Kv.Count.{framed_in, framed-append, framed_in-modify}
use jungey_os.Kv.Evict.{IsCounted, evict-IsCounted, evict_fewer}

-- What the cache promises after each call: the count is right, and `append` keeps within the budget.
pub record IsWithin (c : Cache) : Type 0 where
  pub counted : IsCounted c
  pub bounded : c.resident_blocks ≤ budget_blocks

-- Every session that is found by its id gets one block more.
push-framed :
    (id frame now : ℕ) (ss : List Session) (s : Session)
    → find (has_id id) ss ≡ some s
    → framed_in (modify_first (has_id id) (push_block frame now) ss) ≡ framed_in ss + 1
push-framed id frame now ss s h = elim (modify_first_cases (has_id id) (push_block frame now) ss) [
  | inl (e, none') ↦ elim (find_cases (has_id id) ss) [
    | inl (e, n) ↦ cc
    | inr (i, f, e, at) ↦ let no' = none' i f.item f.at_place in let yes' = f.passes in cc
  ]
  | inr (i, f, e) ↦ rw e (
      omega (
        arith,
        framed_in-modify ss i (push_block frame now) f.item f.at_place,
        framed-append f.item.blocks (resident frame now),
      ))
]

pub Result-cases {ℓ} :
    {A : Type ℓ} (r : Result A) → ((e : String) × (r ≡ err e)) ⊎ ((a : A) × (r ≡ ok a))
Result-cases (ok a) = inr (a, refl)
Result-cases (err e) = inl (e, refl)

module _ (frames : FrameSource) where
  open frames use {Pool}

  pub make_room-IsCounted :
      (fuel want : ℕ) (k : Kv Pool)
      → IsCounted k.cache
      → IsCounted (make_room frames fuel want k).cache
  unfolding make_room
  make_room-IsCounted zero want k h = h
  make_room-IsCounted (suc fuel) want k h = elim (Bool-cases (evict frames want k).0) [
    | inl more ↦
        rw more
          (make_room-IsCounted fuel want (evict frames want k).1 (evict-IsCounted frames want k h))
    | inr last ↦ rw last (evict-IsCounted frames want k h)
  ]

  pub make_room_fewer :
      (fuel want : ℕ) (k : Kv Pool)
      → (make_room frames fuel want k).cache.resident_blocks ≤ k.cache.resident_blocks
  unfolding make_room
  make_room_fewer zero want k = omega arith
  make_room_fewer (suc fuel) want k = elim (Bool-cases (evict frames want k).0) [
    | inl more ↦ rw more (
        omega
          (arith, make_room_fewer fuel want (evict frames want k).1, (evict_fewer frames want k).0))
    | inr last ↦ rw last (evict_fewer frames want k).0
  ]

  enough :
      (m fuel want : ℕ) (k : Kv Pool)
      → fuel ≤ m
      → want ≤ budget_blocks
      → k.cache.resident_blocks ≤ fuel
      → make_room frames (suc m) want k ≡ make_room frames (suc fuel) want k
  unfolding make_room
  enough zero zero want k le w h = refl
  enough zero (suc fuel) want k le w h = absurd (omega arith)
  enough (suc m) zero want k le w h = elim (Bool-cases (evict frames want k).0) [
    | inl more ↦
        let (fewer, full) = (evict_fewer frames want k).1 more in absurd (omega (arith, full))
    | inr last ↦ rw last refl
  ]
  enough (suc m) (suc fuel) want k le w h = elim (Bool-cases (evict frames want k).0) [
    | inl more ↦
        let (fewer, full) = (evict_fewer frames want k).1 more in
        rw more
          (enough m fuel want (evict frames want k).1 (omega arith) w (omega (arith, fewer, full)))
    | inr last ↦ rw last refl
  ]

  -- `make_room` comes to an end: with one round more than there are resident blocks the loop has left
  -- by one of its returns, so that no larger number of rounds changes the result.
  pub make_room_enough :
      (m want : ℕ) (k : Kv Pool)
      → k.cache.resident_blocks < m
      → want ≤ budget_blocks
      → make_room frames m want k ≡ make_room frames (suc k.cache.resident_blocks) want k
  make_room_enough zero want k h w = absurd (omega arith)
  make_room_enough (suc m) want k h w =
      enough m k.cache.resident_blocks want k (omega arith) w (omega arith)

  add_to-IsCounted :
      (id frame : ℕ) (o : Option Session) (k : Kv Pool)
      → find (has_id id) k.cache.sessions ≡ o
      → IsCounted k.cache
      → IsCounted (add_to frames id frame o k).1.cache
  unfolding add_to
  add_to-IsCounted id frame none k e h = h
  add_to-IsCounted id frame (some s) k e h =
      omega (arith, push-framed id frame (k.clock k.readings) k.cache.sessions s e)

  add_to_bounded :
      (id frame : ℕ) (o : Option Session) (k : Kv Pool)
      → (add_to frames id frame o k).1.cache.resident_blocks ≤ k.cache.resident_blocks + 1
  unfolding add_to
  add_to_bounded id frame none k = omega arith
  add_to_bounded id frame (some s) k = omega arith

  append_frame-IsWithin :
      (id : ℕ) (k : Kv Pool)
      → IsCounted k.cache
      → k.cache.resident_blocks < budget_blocks
      → IsWithin (append_frame frames id k).1.cache
  unfolding append_frame
  append_frame-IsWithin id k h lt = elim (Option-cases (frames.take_frame k.pool).0) [
    | inl e ↦ rw (e, append_frame) (record { counted = h; bounded = omega arith })
    | inr (frame, e) ↦
        let k' : Kv Pool = record k { pool = (frames.take_frame k.pool).1 } in
        rw (e, append_frame)
          (record {
            counted = add_to-IsCounted id frame (find (has_id id) k.cache.sessions) k' refl h;
            bounded = omega (arith, add_to_bounded id frame (find (has_id id) k.cache.sessions) k');
          })
  ]

  append_one-IsWithin :
      (id : ℕ) (k : Kv Pool) → IsWithin k.cache → IsWithin (append_one frames id k).1.cache
  unfolding append_one
  append_one-IsWithin id k h =
      let counted = make_room-IsCounted (suc k.cache.resident_blocks) 1 k h.counted in
      let fewer = make_room_fewer (suc k.cache.resident_blocks) 1 k in
      let b = h.bounded in
      elim (Bool-cases (leb budget_blocks (room_for_one frames k).cache.resident_blocks)) [
        | inl full ↦ rw full (record { counted = counted; bounded = omega arith })
        | inr free' ↦
            rw free' (append_frame-IsWithin id (room_for_one frames k) counted (ground arith))
      ]

  -- `append` keeps the count of resident blocks right and within the budget of 64, whatever the frame
  -- allocator gives and the disk answers, and also when it stops with an error.
  pub append-IsWithin :
      (left added id : ℕ) (k : Kv Pool)
      → IsWithin k.cache
      → IsWithin (append_from frames left added id k).1.cache
  unfolding append_from
  append-IsWithin zero added id k h = h
  append-IsWithin (suc left) added id k h = elim (Result-cases (append_one frames id k).0) [
    | inl (e, q) ↦ rw (q, append_from) (append_one-IsWithin id k h)
    | inr (d, q) ↦
        rw (q, append_from)
          (append-IsWithin left (added + 1) id (append_one frames id k).1
            (append_one-IsWithin id k h))
  ]
