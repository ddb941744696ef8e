-- ===== src/Disk/Deadline.antt =====
-- kernel/src/blk.rs: when the wait for a reply ends.
use jungey_os.Prelude.{
  ℕ, ◌+◌, ◌≤◌, ◌≡◌, inl, inr, arith, Bool-cases, Option-cases, none, some, List, [], ◌∷◌, ltb, ◌==◌,
  if◌then◌else◌, err,
}
use jungey_os.Ipc.{try_recv}
use jungey_os.Disk.Wire.{Client, Turn, reply_tag, judged, wait}

-- How many looks came after the deadline.
unfoldable pub late : (deadline : ℕ) → List Turn → ℕ
late deadline [] = 0
late deadline (turn ∷ turns) = (if ltb deadline turn.now then 1 else 0) + late deadline turns

-- The wait for a reply ends: unless it has, each look after the deadline found a reply to a request that
-- had been given up, and dropped it. So it ends when there are more such looks than such replies.
pub wait_enough :
    (turns : List Turn) (tag deadline : ℕ) (s : Client)
    → (wait turns tag deadline s).0 ≡ none
    → s.stale + late deadline turns ≤ (wait turns tag deadline s).1.stale
unfolding wait late
wait_enough [] tag deadline s h = omega arith
wait_enough (turn ∷ turns) tag deadline s h =
    let w = turn.act s.world in
    let w' = (try_recv w s.rep_channel).1 in
    elim (Option-cases (try_recv w s.rep_channel).0) [
      | inl e ↦ elim (Bool-cases (ltb deadline turn.now)) [
        | inl passed ↦
            let h' : some (err "block driver did not answer") ≡ none = rw (e, passed) at h in cc
        | inr early ↦
            let h' : (wait turns tag deadline (record s { world = w' })).0 ≡ none =
              rw (e, early) at h in
            rw (e, early)
              (omega (arith, wait_enough turns tag deadline (record s { world = w' }) h'))
      ]
      | inr (m, e) ↦ elim (Bool-cases (reply_tag m.bytes == tag)) [
        | inl mine ↦ let h' : some (judged m.bytes) ≡ none = rw (e, mine) at h in cc
        | inr other ↦
            let next : Client = record s { world = w'; stale = s.stale + 1 } in
            let h' : (wait turns tag deadline next).0 ≡ none = rw (e, other) at h in
            rw (e, other) (ground (arith, wait_enough turns tag deadline next h'))
      ]
    ]
