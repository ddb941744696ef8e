-- ===== src/Disk/Tests.antt =====
-- Requests to a driver that answers the one before last first.
use jungey_os.Prelude.{
  ℕ, ◌+◌, ◌≤◌, ◌≡◌, inl, inr, refl, Option, none, some, List, [], ◌∷◌, ◌++◌, arith, All-snoc,
  Result, ok, replicate,
}
use jungey_os.Sched.{wake_all_on}
use jungey_os.Ipc.{Message, Channel, World, send, try_recv}
use jungey_os.Ipc.Fifo.{queued, queued-send}
use jungey_os.Disk.{sector_size}
use jungey_os.Disk.Wire.{
  Client, Turn, op_read, header, wait, round_trip, read_sector, next_tag, reply_tag, judged,
}
use jungey_os.Disk.Replies.{Issued, reply_to, IsReply, IsTidy, IsDriven}
use jungey_os.Disk.Own.{logged, IsReady, IsRead, read_sector-IsRead}
use jungey_os.Disk.Deadline.{late, wait_enough}

-- A disk whose sectors hold the byte 7.
abbrev sevens : List ℕ → ℕ × List ℕ
sevens request = (0, replicate 512 7)

abbrev channel_with : List Message → Channel
channel_with q = record { queue = q; sent = 0; received = 0 }

abbrev message_of : List ℕ → Message
message_of bytes = record { from = 4; bytes = bytes }

-- The reply to the first request comes too late and waits.
abbrev before : Client
before = record {
  req_channel = 0;
  rep_channel = 1;
  capacity = 64;
  requests = 1;
  next_tag = 2;
  stale = 0;
  world = record {
    channels =
        channel_with []
        ∷ channel_with (message_of (reply_to sevens 1 (header op_read 1 40)) ∷ [])
        ∷ [];
    threads = [];
  };
}

abbrev log : Issued sevens
log tag = header op_read 1 40

-- Then the reply to the second.
abbrev answers : World → World
answers w = (send w 1 4 (reply_to sevens 2 (header op_read 2 41))).1

abbrev two_turns : List Turn
two_turns = record { act = λ w. w; now = 10 } ∷ record { act = answers; now = 11 } ∷ []

abbrev got : Option (Result (List ℕ)) × Client
got = read_sector 41 sector_size two_turns 10 before

own_answer : got.0 ≡ some (ok (replicate 512 7))
unfolding read_sector next_tag round_trip send wait reply_tag judged reply_to header try_recv
    wake_all_on
own_answer = refl

one_stale : got.1.stale ≡ 1
unfolding read_sector next_tag round_trip send wait reply_tag judged reply_to header try_recv
    wake_all_on
one_stale = refl

before-IsReady : IsReady sevens log before
unfolding queued
before-IsReady = record {
  some_tag = omega arith;
  tidy = λ q h.
      let same : message_of (reply_to sevens 1 (header op_read 1 40)) ∷ [] ≡ q = cc in
      rw (← same) ((1, omega arith, omega arith, refl), tt);
  apart = λ e. omega arith;
}

abbrev with_second : Issued sevens
with_second = logged sevens log 2 (header op_read 2 41)

answers-IsTidy :
    (w : World) → IsTidy sevens with_second 3 1 w → IsTidy sevens with_second 3 1 (answers w)
answers-IsTidy w tidy q h =
    let bytes = reply_to sevens 2 (header op_read 2 41) in
    elim (queued-send w 1 4 bytes 1) [
      | inl (old, at, e, after) ↦
          let same : old ++ message_of bytes ∷ [] ≡ q = cc in
          rw (← same) (
            All-snoc (IsReply sevens with_second 3) old (message_of bytes) (tidy old at)
              (2, omega arith, omega arith, refl))
      | inr (gone, e) ↦ tidy q (rw (answers, e) at h)
    ]

two_turns-IsDriven : IsDriven sevens with_second 3 1 two_turns
two_turns-IsDriven = (λ w tidy. tidy, (answers-IsTidy, tt))

read_sector-IsRead_example :
    IsRead sevens log 41 before (read_sector 41 sector_size two_turns 10 before)
read_sector-IsRead_example =
    read_sector-IsRead sevens 41 two_turns 10 before log (omega arith) before-IsReady
      two_turns-IsDriven

-- The late reply is all that comes.
abbrev one_turn : List Turn
one_turn = record { act = λ w. w; now = 900 } ∷ []

waits : (wait one_turn 2 810 before).0 ≡ none
unfolding wait try_recv reply_tag reply_to header
waits = refl

wait_enough_example : 0 + late 810 one_turn ≤ (wait one_turn 2 810 before).1.stale
wait_enough_example = wait_enough one_turn 2 810 before waits
