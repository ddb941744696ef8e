-- ===== src/Disk/Wire.antt =====
-- kernel/src/blk.rs: a request and its reply on the channels to the driver process, and the wait for the
-- reply. `IN_FLIGHT` lets one request in at a time, so that requests follow one another. What all
-- others do between two looks at the reply channel, the driver among them, is an argument.
use jungey_os.Prelude.{
  ℕ, ◌+◌, ◌-◌, ◌%◌, ◌^◌, Option, none, some, List, [], ◌∷◌, ◌++◌, ltb, ◌==◌, if◌then◌else◌, length,
  take, drop, Result, ok, err,
}
use jungey_os.Disk.{sector_size, Done}
use jungey_os.Fs.Codec.{to_le_bytes, from_le_bytes}
use jungey_os.Ipc.{Message, World, send, try_recv}

abbrev pub op_info : ℕ
op_info = 0

abbrev pub op_read : ℕ
op_read = 1

abbrev pub op_write : ℕ
op_write = 2

abbrev pub op_shutdown : ℕ
op_shutdown = 3

abbrev pub reply_timeout_ticks : ℕ
reply_timeout_ticks = 800

-- status, tag
abbrev pub reply_header : ℕ
reply_header = 5

-- `usize::MAX`: no channel, and no process.
abbrev pub nowhere : ℕ
nowhere = 2 ^ 64 - 1

pub record Client : Type 0 where
  pub req_channel : ℕ
  pub rep_channel : ℕ
  pub capacity : ℕ
  pub requests : ℕ
  pub next_tag : ℕ
  pub stale : ℕ
  pub world : World

-- What the others do before the client looks for a reply, and the clock when it finds none.
pub record Turn : Type 0 where
  pub act : World → World
  pub now : ℕ

unfoldable pub attach : (request reply : ℕ) → Client → Client
attach request reply s = record s { req_channel = request; rep_channel = reply }

unfoldable pub header : (op tag sector : ℕ) → List ℕ
header op tag sector = op ∷ to_le_bytes 4 tag ++ to_le_bytes 8 sector

unfoldable pub reply_tag : List ℕ → ℕ
reply_tag bytes =
    if ltb (length bytes) reply_header then 0 else from_le_bytes (take 4 (drop 1 bytes))

unfoldable pub judged : List ℕ → Result (List ℕ)
judged [] = err "driver reported an error"
judged (status ∷ rest) = if status == 0 then ok (status ∷ rest) else err "driver reported an error"

-- One look: a reply to a request that was given up is dropped, and the loop goes on.
abbrev pub looked :
    Option Message
    → (now tag deadline : ℕ) → Client
    → (again : Client → Option (Result (List ℕ)) × Client) → Option (Result (List ℕ)) × Client
looked none now tag deadline s again =
    if ltb deadline now then (some (err "block driver did not answer"), s) else again s
looked (some m) now tag deadline s again =
    if reply_tag m.bytes == tag
    then (some (judged m.bytes), s)
    else again (record s { stale = s.stale + 1 })

-- The loop, `none` when it still waits after all turns.
unfoldable pub wait : List Turn → (tag deadline : ℕ) → Client → Option (Result (List ℕ)) × Client
wait [] tag deadline s = (none, s)
wait (turn ∷ turns) tag deadline s =
    let (got, w) = try_recv (turn.act s.world) s.rep_channel in
    looked got turn.now tag deadline (record s { world = w }) (wait turns tag deadline)

abbrev pub after_send :
    Result ℕ × World → List Turn → (now tag : ℕ) → Client → Option (Result (List ℕ)) × Client
after_send (err e, w) turns now tag s = (some (err "request channel is gone"), s)
after_send (ok n, w) turns now tag s =
    wait turns tag (now + reply_timeout_ticks) (record s { requests = s.requests + 1; world = w })

unfoldable pub round_trip :
    (msg : List ℕ) → (tag : ℕ) → List Turn → (now : ℕ) → Client → Option (Result (List ℕ)) × Client
round_trip msg tag turns now s =
    if s.req_channel == nowhere
    then (some (err "no block driver attached"), s)
    else after_send (send s.world s.req_channel nowhere msg) turns now tag s

unfoldable pub next_tag : Client → ℕ × Client
next_tag s = (s.next_tag, record s { next_tag = (s.next_tag + 1) % 2 ^ 32 })

abbrev pub capacity_in : Option (Result (List ℕ)) × Client → Option (Result ℕ) × Client
capacity_in (none, s) = (none, s)
capacity_in (some (err e), s) = (some (err e), s)
capacity_in (some (ok reply), s) =
    if ltb (length reply) (reply_header + 8) then (some (err "short info reply"), s) else (
      some (ok (from_le_bytes (take 8 (drop reply_header reply)))),
      record s { capacity = from_le_bytes (take 8 (drop reply_header reply)) },
    )

unfoldable pub info : List Turn → (now : ℕ) → Client → Option (Result ℕ) × Client
info turns now s =
    let (tag, s) = next_tag s in capacity_in (round_trip (header op_info tag 0) tag turns now s)

abbrev pub sector_in : Option (Result (List ℕ)) × Client → Option (Result (List ℕ)) × Client
sector_in (none, s) = (none, s)
sector_in (some (err e), s) = (some (err e), s)
sector_in (some (ok reply), s) =
    if ltb (length reply) (reply_header + sector_size)
    then (some (err "short read reply"), s)
    else (some (ok (take sector_size (drop reply_header reply))), s)

-- `out_len` is the size of the buffer.
unfoldable pub read_sector :
    (sector out_len : ℕ) → List Turn → (now : ℕ) → Client → Option (Result (List ℕ)) × Client
read_sector sector out_len turns now s =
    let (tag, asking) = next_tag s in
    if out_len == sector_size
    then sector_in (round_trip (header op_read tag sector) tag turns now asking)
    else (some (err "reads are one sector"), s)

abbrev pub done_in : Option (Result (List ℕ)) × Client → Option (Result Done) × Client
done_in (none, s) = (none, s)
done_in (some (err e), s) = (some (err e), s)
done_in (some (ok reply), s) = (some (ok tt), s)

unfoldable pub write_sector :
    (sector : ℕ) → List ℕ → List Turn → (now : ℕ) → Client → Option (Result Done) × Client
write_sector sector bytes turns now s =
    let (tag, asking) = next_tag s in
    if length bytes == sector_size
    then done_in (round_trip (header op_write tag sector ++ bytes) tag turns now asking)
    else (some (err "writes are one sector"), s)

unfoldable pub shutdown : List Turn → (now : ℕ) → Client → Client
shutdown turns now s =
    let (tag, s) = next_tag s in (round_trip (header op_shutdown tag 0) tag turns now s).1
