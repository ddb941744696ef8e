-- ===== src/Wm.antt =====
-- user/src/wm.rs: the window manager. Of a window's commands and title only the first `ncmd` and
-- `title_len` count, and they are what the lists here hold. Coordinates do not wrap: a rectangle comes
-- from two bytes for each number, and is cut to the screen.
pub mod Topmost
pub mod Paint
pub mod Owners
pub mod Stack
pub mod Raise
mod Tests
use jungey_os.Prelude.{
  ℕ, zero, suc, ◌+◌, ◌-◌, ◌*◌, ◌/◌, ◌%◌, ◌^◌, bit_or, ◌||◌, map, min, max, Bool, true, false, not,
  ◌&&◌, Option, none, some, List, [], ◌∷◌, ◌++◌, length, take, replicate, get_elem?, set, modify,
  ltb, leb, ◌==◌, if◌then◌else◌,
}
use mathlib.Core.List.{reverse}
use jungey_os.Prelude.Find.{position}

abbrev pub screen_width : ℕ
screen_width = 480

abbrev pub screen_height : ℕ
screen_height = 960

abbrev pub max_windows : ℕ
max_windows = 8

abbrev pub max_cmds : ℕ
max_cmds = 24

abbrev pub max_title : ℕ
max_title = 24

abbrev pub title_bar : ℕ
title_bar = 22

pub record Rect : Type 0 where
  pub x : ℕ
  pub y : ℕ
  pub w : ℕ
  pub h : ℕ

abbrev pub no_rect : Rect
no_rect = record { x = 0; y = 0; w = 0; h = 0 }

abbrev pub whole_screen : Rect
whole_screen = record { x = 0; y = 0; w = screen_width; h = screen_height }

unfoldable pub contains : Rect → (px py : ℕ) → Bool
contains r px py =
    not (r.w == 0) && leb r.x px && leb r.y py && ltb px (r.x + r.w) && ltb py (r.y + r.h)

unfoldable pub area : Rect → ℕ
area r = r.w * r.h

-- The smallest rectangle that covers both.
unfoldable pub union : Rect → Rect → Rect
union r o =
    let x0 = min r.x o.x in
    let y0 = min r.y o.y in
    let x1 = max (r.x + r.w) (o.x + o.w) in
    let y1 = max (r.y + r.h) (o.y + o.h) in
    if r.w == 0
    then o
    else if o.w == 0
    then r
    else record { x = x0; y = y0; w = x1 - x0; h = y1 - y0 }

unfoldable pub clamp_to_screen : Rect → Rect
clamp_to_screen r =
    let x = min r.x screen_width in
    let y = min r.y screen_height in
    record {
      x = x;
      y = y;
      w = min (r.x + r.w) screen_width - x;
      h = min (r.y + r.h) screen_height - y;
    }

pub data Cmd : Type 0 where
  fill : (x y w h color : ℕ) → Cmd
  text : (x y scale color : ℕ) → (bytes : List ℕ) → Cmd

pub record Window : Type 0 where
  pub used : Bool
  pub owner : ℕ
  pub id : ℕ
  pub rect : Rect
  pub bg : ℕ
  pub z : ℕ
  pub title : List ℕ
  pub cmds : List Cmd

abbrev pub blank_window : Window
blank_window = record {
  used = false;
  owner = 0;
  id = 0;
  rect = no_rect;
  bg = 0;
  z = 0;
  title = [];
  cmds = [];
}

pub record Wm : Type 0 where
  pub windows : List Window
  pub next_z : ℕ
  pub damage : Rect
  pub taps_on_nothing : ℕ
  pub taps_routed : ℕ
  pub rejected : ℕ
  pub composes : ℕ

abbrev pub new_wm : Wm
new_wm = record {
  windows = replicate max_windows blank_window;
  next_z = 1;
  damage = no_rect;
  taps_on_nothing = 0;
  taps_routed = 0;
  rejected = 0;
  composes = 0;
}

-- `open`, over the windows
unfoldable pub count_used : List Window → ℕ
count_used [] = 0
count_used (w ∷ ws) = (if w.used then 1 else 0) + count_used ws

unfoldable pub dirty : Wm → Rect → Wm
dirty m r = record m { damage = union m.damage (clamp_to_screen r) }

unfoldable pub dirty_all : Wm → Wm
dirty_all m = record m { damage = whole_screen }

abbrev pub owned_by : (owner id : ℕ) → Window → Bool
owned_by owner id w = w.used && (w.owner == owner) && (w.id == id)

abbrev pub is_free : Window → Bool
is_free w = not w.used

unfoldable pub find_window : Wm → (owner id : ℕ) → Option ℕ
find_window m owner id = position (owned_by owner id) m.windows

abbrev pub created : (owner id : ℕ) → Rect → (bg : ℕ) → (title : List ℕ) → (z : ℕ) → Window
created owner id rect bg title z = record {
  used = true;
  owner = owner;
  id = id;
  rect = clamp_to_screen rect;
  bg = bg;
  z = z;
  title = take max_title title;
  cmds = [];
}

pub put_window : Wm → Option ℕ → Window → Bool × Wm
put_window m none w = (false, m)
put_window m (some slot) w =
    (true, dirty (record m { windows = set m.windows slot w; next_z = m.next_z + 1 }) w.rect)

unfoldable pub create : Wm → (owner id : ℕ) → Rect → (bg : ℕ) → (title : List ℕ) → Bool × Wm
unfolding put_window
create m owner id rect bg title =
    let w = created owner id rect bg title m.next_z in
    elim (find_window m owner id) [
      | some i ↦ (false, m)
      | none ↦ put_window m (position is_free m.windows) w
    ]

-- What `with` does to the window in a slot.
pub touch : Wm → (slot : ℕ) → (Window → Window) → Option Window → Bool × Wm
touch m slot f none = (false, m)
touch m slot f (some w) =
    (true, dirty (dirty (record m { windows = set m.windows slot (f w) }) w.rect) (f w).rect)

unfoldable pub with_window : Wm → (owner id : ℕ) → (Window → Window) → Bool × Wm
unfolding touch
with_window m owner id f = elim (find_window m owner id) [
  | some i ↦ touch m i f (get_elem? m.windows i)
  | none ↦ (false, record m { rejected = m.rejected + 1 })
]

unfoldable pub raise : Wm → (owner id : ℕ) → Bool × Wm
raise m owner id =
    with_window (record m { next_z = m.next_z + 1 }) owner id (λ w. record w { z = m.next_z })

unfoldable pub add_cmd : Cmd → Window → Window
add_cmd cmd w = if ltb (length w.cmds) max_cmds then record w { cmds = w.cmds ++ cmd ∷ [] } else w

unfoldable pub push : Wm → (owner id : ℕ) → Cmd → Bool × Wm
push m owner id cmd = with_window m owner id (add_cmd cmd)

unfoldable pub reset : Wm → (owner id : ℕ) → Bool × Wm
reset m owner id = with_window m owner id (λ w. record w { cmds = [] })

-- `best` is the window that its index stands for.
pub better : (x y : ℕ) → Window → Option Window → Option Window
better x y w none = if not w.used || not (contains w.rect x y) then none else some w
better x y w (some b) =
    if not w.used || not (contains w.rect x y)
    then some b
    else if ltb b.z w.z
    then some w
    else some b

unfoldable pub hit_from : (x y : ℕ) → List Window → Option Window → Option Window
unfolding better
hit_from x y [] best = best
hit_from x y (w ∷ ws) best = hit_from x y ws (better x y w best)

pub record Hit : Type 0 where
  pub owner : ℕ
  pub id : ℕ
  pub dx : ℕ
  pub dy : ℕ

hit_at : (x y : ℕ) → Option Window → Option Hit
hit_at x y none = none
hit_at x y (some w) =
    some (record { owner = w.owner; id = w.id; dx = x - w.rect.x; dy = y - w.rect.y })

unfoldable pub hit : Wm → (x y : ℕ) → Option Hit
unfolding hit_at
hit m x y = hit_at x y (hit_from x y m.windows none)

-- The calls that a painter gets.
pub data Draw : Type 0 where
  filled : (x y w h color : ℕ) → Draw
  written : (x y scale color : ℕ) → (bytes : List ℕ) → Draw

pub used_windows : List Window → List Window
used_windows [] = []
used_windows (w ∷ ws) = let rest = used_windows ws in if w.used then w ∷ rest else rest

-- The inner loop walks back through the sorted part, which is why it stands here last first.
unfoldable pub sink : Window → List Window → List Window
sink w [] = w ∷ []
sink w (p ∷ ps) = let rest = p ∷ sink w ps in if ltb w.z p.z then rest else w ∷ p ∷ ps

unfoldable pub sort_onto : (done rest : List Window) → List Window
unfolding sink
sort_onto done [] = done
sort_onto done (w ∷ ws) = sort_onto (sink w done) ws

-- The windows in the order of painting.
unfoldable pub stacked : List Window → List Window
unfolding sort_onto used_windows
stacked ws = reverse (sort_onto [] (used_windows ws))

channel_of : (color shift : ℕ) → ℕ
channel_of color shift = let v = color / 2 ^ shift % 256 in (v + (0xff - v) / 3) * 2 ^ shift

unfoldable pub shade : ℕ → ℕ
unfolding channel_of
shade c = bit_or (bit_or (bit_or 0xff00_0000 (channel_of c 0)) (channel_of c 8)) (channel_of c 16)

draw_cmd : Rect → Cmd → Draw
draw_cmd r (fill x y w h color) = filled (r.x + x) (r.y + title_bar + y) w h color
draw_cmd r (text x y scale color bytes) = written (r.x + x) (r.y + title_bar + y) scale color bytes

draw_window : Window → List Draw
unfolding draw_cmd
draw_window w =
    filled w.rect.x w.rect.y w.rect.w w.rect.h w.bg
    ∷ filled w.rect.x w.rect.y w.rect.w title_bar (shade w.bg)
    ∷ written (w.rect.x + 6) (w.rect.y + 7) 1 0xffe6_edf3 w.title
    ∷ map (draw_cmd w.rect) w.cmds

draw_all : List Window → List Draw
draw_all [] = []
draw_all (w ∷ ws) = draw_window w ++ draw_all ws

unfoldable pub paint : Wm → List Draw × Wm
unfolding draw_all draw_window
paint m = (draw_all (stacked m.windows), record m { composes = m.composes + 1 })
