-- ===== src/Ipc.antt =====
-- kernel/src/ipc.rs: channels, over the thread table of the scheduler that senders wake and that
-- receivers mark themselves blocked in. The lock on the channels is held across each function, and in
-- `recv_or_prepare` across the marking too, so that each is one step on both; except `send`, which drops
-- it before it wakes the receivers, and so is two steps, with anything in between.
pub mod Counts
pub mod Fifo
pub mod Wakeup
mod Tests
use jungey_os.Prelude.{
  ℕ, zero, suc, ◌+◌, ◌-◌, Option, none, some, List, [], ◌∷◌, ◌++◌, length, get_elem?, set, Result,
  ok, err,
}
use jungey_os.Sched.{Thread, prepare_block, wake_all_on}

pub record Message : Type 0 where
  pub from : ℕ
  pub bytes : List ℕ

pub record Channel : Type 0 where
  pub queue : List Message
  pub sent : ℕ
  pub received : ℕ

pub record World : Type 0 where
  pub channels : List Channel
  pub threads : List Thread

unfoldable pub create : World → ℕ × World
create w =
    let channels = w.channels ++ record { queue = []; sent = 0; received = 0 } ∷ [] in
    (length channels - 1, record w { channels = channels })

pushed : Channel → Message → Channel
pushed ch m = record ch { queue = ch.queue ++ m ∷ []; sent = ch.sent + 1 }

-- `send` up to where the lock is dropped.
unfoldable pub put_message : World → (channel from : ℕ) → List ℕ → Result ℕ × World
unfolding pushed
put_message w channel from bytes = elim (get_elem? w.channels channel) [
  | none ↦ (err "no such channel", w)
  | some ch ↦ (
    ok (length bytes),
    record w {
      channels = set w.channels channel (pushed ch (record { from = from; bytes = bytes }));
    },
  )
]

-- Its other half.
unfoldable pub wake_receivers : World → (channel : ℕ) → World
wake_receivers w channel = record w { threads = wake_all_on w.threads channel }

pub data Stage : Type 0 where
  to_push : Stage
  to_wake : Stage
  returned : Stage

-- A call of `send` on its way.
pub record Sender : Type 0 where
  pub channel : ℕ
  pub from : ℕ
  pub bytes : List ℕ
  pub progress : Stage

abbrev pub after_put : Sender → Result ℕ × World → Sender × World
after_put x (err e, w) = (record x { progress = returned }, w)
after_put x (ok n, w) = (record x { progress = to_wake }, w)

-- What the call does next.
unfoldable pub send_step : Stage → Sender → World → Sender × World
unfolding put_message
send_step to_push x w = after_put x (put_message w x.channel x.from x.bytes)
send_step to_wake x w = (record x { progress = returned }, wake_receivers w x.channel)
send_step returned x w = (x, w)

abbrev pub woken : (channel : ℕ) → Result ℕ × World → Result ℕ × World
woken channel (err e, w) = (err e, w)
woken channel (ok n, w) = (ok n, wake_receivers w channel)

-- Both halves, with nobody in between.
unfoldable pub send : World → (channel from : ℕ) → List ℕ → Result ℕ × World
unfolding put_message wake_receivers
send w channel from bytes = woken channel (put_message w channel from bytes)

-- `queue.pop_front()`, and the count of what was received.
popped : Channel → List Message → Option (Message × Channel)
popped ch [] = none
popped ch (m ∷ rest) = some (m, record ch { queue = rest; received = ch.received + 1 })

took : World → ℕ → Option (Message × Channel) → World → Option Message × World
took w channel none otherwise = (none, otherwise)
took w channel (some (m, ch)) otherwise =
    (some m, record w { channels = set w.channels channel ch })

-- `me` is the calling thread.
unfoldable pub recv_or_prepare : World → (me channel token : ℕ) → Option Message × World
unfolding popped took
recv_or_prepare w me channel token = elim (get_elem? w.channels channel) [
  | none ↦ (none, w)
  | some ch ↦
      took w channel (popped ch ch.queue) (record w { threads = prepare_block w.threads me token })
]

unfoldable pub try_recv : World → ℕ → Option Message × World
unfolding popped took
try_recv w channel = elim (get_elem? w.channels channel) [
  | none ↦ (none, w)
  | some ch ↦ took w channel (popped ch ch.queue) w
]

pub record Stats : Type 0 where
  pub sent : ℕ
  pub received : ℕ
  pub queued : ℕ

unfoldable pub stats : World → ℕ → Stats
stats w channel = elim (get_elem? w.channels channel) [
  | none ↦ record { sent = 0; received = 0; queued = 0 }
  | some ch ↦ record { sent = ch.sent; received = ch.received; queued = length ch.queue }
]
