-- ===== src/Display.antt =====
-- user/src/gpudrv.rs: the display server. It reads operations from a message of at most 4096 bytes and
-- stops at the first that it does not know or does not allow. A slice that reaches past the buffer
-- panics. The device and what a send to a client gives back are outside: `reachable` says whether the
-- send to a slot succeeds, and a transfer is recorded by its rectangle.
pub mod Pixels
pub mod Steps
pub mod Isolation
pub mod Validity
pub mod Ends
mod Tests
use jungey_os.Prelude.{
  ℕ, zero, suc, ◌+◌, ◌-◌, ◌*◌, ◌/◌, ◌%◌, ◌^◌, min, max, Bool, true, false, not, ◌&&◌, ◌||◌, Option,
  none, some, List, [], ◌∷◌, ◌++◌, length, ltb, leb, ◌==◌, if◌then◌else◌,
}
use jungey_os.Prelude.Find.{position}
use jungey_os.Wm.{
  Rect, Window, Wm, Cmd, fill, text, Draw, filled, written, no_rect, whole_screen, clamp_to_screen,
  area, dirty, dirty_all, create, with_window, raise, push, reset, paint, hit, Hit, count_used,
  screen_width, screen_height,
}
use jungey_os.Display.Pixels.{Frame, Font, draw_each}

-- The sender that the kernel records for itself: `usize::MAX`.
abbrev pub kernel : ℕ
kernel = 2 ^ 64 - 1

abbrev pub buffer_size : ℕ
buffer_size = 4096

abbrev pub max_clients : ℕ
max_clients = 4

abbrev pub cap_client_base : ℕ
cap_client_base = 5

abbrev pub root_capacity : ℕ
root_capacity = 16384

abbrev pub Message : Type 0
Message = (place : ℕ) → ℕ

-- A tap, sent to the client in a slot.
pub record Event : Type 0 where
  pub slot : ℕ
  pub bytes : List ℕ

pub record Server : Type 0 where
  pub wm : Wm
  pub clients : List ℕ
  pub root : List ℕ
  pub fb : Frame
  pub presented : List Rect
  pub sent : List Event

unfoldable pub be16 : Message → (place : ℕ) → ℕ
be16 msg place = msg place * 256 + msg (place + 1)

unfoldable pub le32 : Message → (place : ℕ) → ℕ
le32 msg place =
    msg place + 256 * (msg (place + 1) + 256 * (msg (place + 2) + 256 * msg (place + 3)))

unfoldable pub bytes_from : Message → (place count : ℕ) → List ℕ
bytes_from msg place zero = []
bytes_from msg place (suc count) = msg place ∷ bytes_from msg (place + 1) count

unfoldable pub rect_from : Message → (place : ℕ) → Rect
rect_from msg place = record {
  x = be16 msg place;
  y = be16 msg (place + 2);
  w = be16 msg (place + 4);
  h = be16 msg (place + 6);
}

-- A background that does not fit stops growing.
unfoldable pub root_append : Server → List ℕ → Server
root_append s bytes =
    if ltb root_capacity (length s.root + length bytes)
    then s
    else record s { root = s.root ++ bytes }

nth : List ℕ → Message
nth [] i = 0
nth (b ∷ bs) zero = b
nth (b ∷ bs) (suc i) = nth bs i

-- The retained background as calls of the painter: from the byte `i`, while `i < len`.
unfoldable pub root_draws : (fuel len : ℕ) → Message → (i : ℕ) → List Draw
root_draws zero len buf i = []
root_draws (suc fuel) len buf i =
    let cleared =
      filled 0 0 screen_width screen_height (le32 buf (i + 1)) ∷ root_draws fuel len buf (i + 5) in
    let rect =
      filled (be16 buf (i + 1)) (be16 buf (i + 3)) (be16 buf (i + 5)) (be16 buf (i + 7))
        (le32 buf (i + 9))
      ∷ root_draws fuel len buf (i + 13) in
    let n = buf (i + 10) in
    let line =
      written (be16 buf (i + 1)) (be16 buf (i + 3)) (buf (i + 9)) (le32 buf (i + 5))
        (bytes_from buf (i + 11) n)
      ∷ root_draws fuel len buf (i + 11 + n) in
    if not (ltb i len)
    then []
    else if buf i == 0x01
    then cleared
    else if buf i == 0x02
    then rect
    else if buf i == 0x03
    then line
    else []

unfoldable pub root_paint : Server → List Draw
unfolding root_draws nth
root_paint s = root_draws root_capacity (length s.root) (nth s.root) 0

-- Nothing is drawn where nothing is damaged; otherwise everything is drawn again, through a clip.
unfoldable pub compose : Font → Server → Server
compose font s =
    let damage = clamp_to_screen s.wm.damage in
    let draws = root_paint s ++ (paint s.wm).0 in
    if (damage.w == 0) || (damage.h == 0) then s else record s {
      fb = draw_each font (clamp_to_screen damage) draws s.fb;
      presented = s.presented ++ damage ∷ [];
      wm = record (paint s.wm).1 { damage = no_rect };
    }

unfoldable pub slot_for : List ℕ → (pid : ℕ) → Option ℕ
slot_for clients pid = elim (position (λ p. p == pid) clients) [
  | none ↦ none
  | some i ↦ some (cap_client_base + i)
]

pub missed : Server → Server
missed s = record s { wm = record s.wm { taps_on_nothing = s.wm.taps_on_nothing + 1 } }

pub delivered : (reachable : ℕ → Bool) → Server → Hit → Option ℕ → Server
unfolding missed
delivered reachable s to none = missed s
delivered reachable s to (some slot) =
    let event =
      0x40 ∷ to.id ∷ to.dx / 256 % 256 ∷ to.dx % 256 ∷ to.dy / 256 % 256 ∷ to.dy % 256 ∷ 1 ∷ [] in
    if reachable slot
    then record s {
      wm = record s.wm { taps_routed = s.wm.taps_routed + 1 };
      sent = s.sent ++ record { slot = slot; bytes = event } ∷ [];
    }
    else s

pub route_to : (reachable : ℕ → Bool) → Server → Option Hit → Server
unfolding delivered
route_to reachable s none = missed s
route_to reachable s (some to) = delivered reachable s to (slot_for s.clients to.owner)

unfoldable pub route_tap : (reachable : ℕ → Bool) → Server → (x y : ℕ) → Server
unfolding route_to
route_tap reachable s x y = route_to reachable s (hit s.wm x y)

-- What an operation leads to: the next place in the message, or an end.
pub data Next : Type 0 where
  goes : Server → (place : ℕ) → Next
  stops : Server → Next
  shuts_down : Server → Next
  panics : Next

-- An operation whose bytes end at `last`.
unfoldable pub within : (last : ℕ) → Server → Next
within last s = if leb last buffer_size then goes s last else panics

pub move_to : (x y : ℕ) → Window → Window
move_to x y w = record w { rect = clamp_to_screen (record w.rect { x = x; y = y }) }

pub fill_cmd : Message → (place : ℕ) → Cmd
fill_cmd msg i =
    fill (be16 msg (i + 2)) (be16 msg (i + 4)) (be16 msg (i + 6)) (be16 msg (i + 8))
      (le32 msg (i + 10))

pub text_cmd : Message → (place : ℕ) → Cmd
text_cmd msg i =
    text (be16 msg (i + 2)) (be16 msg (i + 4)) (max (msg (i + 10)) 1) (le32 msg (i + 6))
      (bytes_from msg (i + 12) (min (msg (i + 11)) 40))

-- The operations that only the kernel may ask for.
unfoldable pub kernel_op : Server → Message → (i : ℕ) → Next
kernel_op s msg i =
    let op = msg i in
    let len = msg (i + 10) in
    let scale = max (msg (i + 9)) 1 in
    let cleared = root_append (record s { root = [] }) (bytes_from msg i 5) in
    let ruled = root_append s (bytes_from msg i 13) in
    let lined = root_append s (bytes_from msg i (11 + len)) in
    let line : Rect = record {
      x = be16 msg (i + 1);
      y = be16 msg (i + 3);
      w = len * 8 * scale;
      h = 8 * scale;
    } in
    let known = record s { clients = s.clients ++ le32 msg (i + 1) ∷ [] } in
    if op == 0x01
    then within (i + 5) (record cleared { wm = dirty_all s.wm })
    else if op == 0x02
    then within (i + 13) (record ruled { wm = dirty s.wm (rect_from msg (i + 1)) })
    else if op == 0x03
    then within (i + 11 + len) (record lined { wm = dirty s.wm line })
    else if op == 0x30
    then (if ltb (length s.clients) max_clients then within (i + 5) known else goes s (i + 5))
    else if op == 0x32
    then goes s (i + 1)
    else if op == 0xff
    then shuts_down s
    else stops s

-- The operations on the sender's own windows.
unfoldable pub window_op : Server → (from : ℕ) → Message → (i : ℕ) → Next
unfolding move_to fill_cmd text_cmd
window_op s from msg i =
    let op = msg i in
    let id = msg (i + 1) in
    let title_len = msg (i + 14) in
    let title = bytes_from msg (i + 15) title_len in
    if op == 0x20
    then within (i + 15 + title_len) (record s {
      wm = (create s.wm from id (rect_from msg (i + 2)) (le32 msg (i + 10)) title).1;
    })
    else if op == 0x21
    then within (i + 2) (record s { wm = (raise s.wm from id).1 })
    else if op == 0x22
    then within (i + 6) (record s {
      wm = (with_window s.wm from id (move_to (be16 msg (i + 2)) (be16 msg (i + 4)))).1;
    })
    else if op == 0x24
    then within (i + 14) (record s { wm = (push s.wm from id (fill_cmd msg i)).1 })
    else if op == 0x23
    then (if leb (i + 12 + min (msg (i + 11)) 40) buffer_size
        then goes (record s { wm = (push s.wm from id (text_cmd msg i)).1 }) (i + 12 + msg (i + 11))
        else panics)
    else if op == 0x25
    then within (i + 2) (record s { wm = (reset s.wm from id).1 })
    else if from == kernel
    then kernel_op s msg i
    else stops s

-- One operation. Composing and taps are not asked for by whom.
unfoldable pub step : Font → (reachable : ℕ → Bool) → Server → (from : ℕ) → Message → (i : ℕ) → Next
step font reachable s from msg i =
    let tapped =
      if not (msg (i + 5) == 0)
      then route_tap reachable s (be16 msg (i + 1)) (be16 msg (i + 3))
      else s in
    if (msg i == 0x04) || (msg i == 0x31)
    then goes (compose font s) (i + 1)
    else if msg i == 0x10
    then within (i + 6) tapped
    else window_op s from msg i

-- How a message ends.
pub data Outcome : Type 0 where
  serves : Server → Outcome
  exits : Server → Outcome
  crashes : Outcome

unfoldable pub follow : (Server → ℕ → Outcome) → Next → Outcome
follow onward (goes s place) = onward s place
follow onward (stops s) = serves s
follow onward (shuts_down s) = exits s
follow onward panics = crashes

-- `while i < n`
unfoldable pub run :
    (fuel : ℕ) → Font → (reachable : ℕ → Bool) → (from : ℕ) → Message → (n i : ℕ) → Server → Outcome
run zero font reachable from msg n i s = serves s
run (suc fuel) font reachable from msg n i s =
    let rest =
      follow (λ s' i'. run fuel font reachable from msg n i' s')
        (step font reachable s from msg i) in
    if ltb i n then rest else serves s

-- An operation takes at least one byte: as many rounds as bytes are enough.
unfoldable pub handle :
    Font → (reachable : ℕ → Bool) → (from : ℕ) → Message → (n : ℕ) → Server → Outcome
handle font reachable from msg n s = run n font reachable from msg n 0 s

-- The answer, which only the kernel gets.
unfoldable pub reply : (frames : ℕ) → Server → List ℕ
reply frames s =
    0
    ∷ frames % 256
    ∷ s.wm.taps_routed % 256
    ∷ s.wm.taps_on_nothing % 256
    ∷ s.wm.rejected % 256
    ∷ s.wm.composes % 256
    ∷ count_used s.wm.windows % 256
    ∷ []
