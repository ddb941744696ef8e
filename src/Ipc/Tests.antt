-- ===== src/Ipc/Tests.antt =====
-- Runs of the channels: one channel with one message waiting, and one thread.
use jungey_os.Prelude.{zero, suc, ◌≡◌, refl, none, some, false, [], ◌∷◌, arith}
use jungey_os.Sched.{Thread, runnable}
use jungey_os.Ipc.{Stage, to_push, Sender, send_step, Message, World, send, recv_or_prepare}
use jungey_os.Ipc.Fifo.{queued, drain, drain-send}
use jungey_os.Ipc.Counts.{IsBalanced}
use jungey_os.Ipc.Wakeup.{
  Sys, IsAttended, Reach, here, more, calls, enters, advances, receives, no_lost_wakeup,
}

abbrev reader : Thread
reader = record {
  id = 0;
  name = "reader";
  state = runnable;
  slices = 0;
  on_cpu = none;
  affinity = none;
  service = false;
  cpus_seen = 0;
  pid = none;
  ttbr0 = 0;
  stack_phys = 0x4400_0000;
}

abbrev hello : Message
hello = record { from = 5; bytes = 104 ∷ 105 ∷ [] }

abbrev quiet : World
quiet = record {
  channels = record { queue = []; sent = 0; received = 0 } ∷ [];
  threads = reader ∷ [];
}

abbrev one_waits : World
one_waits = record {
  channels = record { queue = hello ∷ []; sent = 1; received = 0 } ∷ [];
  threads = reader ∷ [];
}

one_queued : queued one_waits 0 ≡ some (hello ∷ [])
unfolding queued
one_queued = refl

drain-send_example :
    drain 2 (send one_waits 0 6 (7 ∷ [])).1 0 ≡ hello ∷ record { from = 6; bytes = 7 ∷ [] } ∷ []
drain-send_example = drain-send one_waits 0 6 (7 ∷ []) (hello ∷ []) one_queued

one_waits-IsBalanced : IsBalanced one_waits
one_waits-IsBalanced zero ch e =
    let same : record { queue = hello ∷ []; sent = 1; received = 0 } ≡ ch = ground arith in
    rw (← same) refl
one_waits-IsBalanced (suc j) ch e = absurd (cc)

abbrev quiet_sys : Sys
quiet_sys = record { world = quiet; senders = [] }

quiet-IsAttended : IsAttended quiet_sys
quiet-IsAttended zero ch e b = ground arith
quiet-IsAttended (suc c) ch e b = absurd (cc)

-- A sender pushes its message between two looks of the reader, and then wakes it.
abbrev greeter : Stage → Sender
greeter progress = record { channel = 0; from = 6; bytes = 7 ∷ []; progress = progress }

abbrev asleep : World
asleep = (recv_or_prepare quiet 0 0 0).1

abbrev half_sent : Sys
half_sent = record {
  world = (send_step to_push (greeter to_push) asleep).1;
  senders = (send_step to_push (greeter to_push) asleep).0 ∷ [];
}

abbrev half_way : Reach quiet_sys half_sent
half_way =
    more (more (more here (calls (receives 0 0))) (enters 0 6 (7 ∷ [])))
      (advances 0 (greeter to_push) refl)

no_lost_wakeup_example : IsAttended half_sent
no_lost_wakeup_example = no_lost_wakeup {s = quiet_sys} quiet-IsAttended half_way
