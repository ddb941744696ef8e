-- ===== src/Display/Pixels.antt =====
-- user/src/gpudrv.rs: drawing into the framebuffer through a clip. A frame is the colour at each
-- point; a font is the rows of each glyph.
pub mod Fill
pub mod Clip
use jungey_os.Prelude.{
  ℕ, zero, suc, ◌+◌, ◌-◌, ◌*◌, ◌/◌, ◌^◌, min, max, bit_and, Bool, not, ◌&&◌, ◌||◌, List, [], ◌∷◌,
  ltb, leb, ◌==◌, if◌then◌else◌,
}
use jungey_os.Wm.{Rect, contains, Draw, filled, written, screen_width, screen_height}

abbrev pub Frame : Type 0
Frame = (x y : ℕ) → ℕ

abbrev pub Font : Type 0
Font = (glyph : ℕ) → List ℕ

unfoldable pub dot : (x y color : ℕ) → Frame → Frame
dot x y color fb = λ a b. if (a == x) && (b == y) then color else fb a b

unfoldable pub px : Rect → (x y color : ℕ) → Frame → Frame
px clip x y color fb = if contains clip x y then dot x y color fb else fb

-- `for i in from..from + count`
unfoldable pub repeat : (count from : ℕ) → (ℕ → Frame → Frame) → Frame → Frame
repeat zero from f fb = fb
repeat (suc count) from f fb = repeat count (from + 1) f (f from fb)

unfoldable pub fill_row : (x0 n row color : ℕ) → Frame → Frame
fill_row x0 n row color = repeat n x0 (λ col. dot col row color)

unfoldable pub fill : Rect → (x y w h color : ℕ) → Frame → Frame
fill clip x y w h color =
    let x0 = max x clip.x in
    let y0 = max y clip.y in
    let x1 = min (min (x + w) (clip.x + clip.w)) screen_width in
    let y1 = min (min (y + h) (clip.y + clip.h)) screen_height in
    repeat (y1 - y0) y0 (λ row. fill_row x0 (x1 - x0) row color)

-- One pixel of a glyph, `scale` by `scale` points.
unfoldable pub block : Rect → (x y scale color : ℕ) → Frame → Frame
block clip x y scale color =
    repeat scale 0 (λ sy. repeat scale 0 (λ sx. px clip (x + sx) (y + sy) color))

unfoldable pub glyph_row : Rect → (byte x y scale color : ℕ) → Frame → Frame
glyph_row clip byte x y scale color = repeat 8 0 (λ col fb.
    if not (bit_and byte (0x80 / 2 ^ col) == 0)
    then block clip (x + col * scale) y scale color fb
    else fb)

unfoldable pub glyph_rows : Rect → (bits : List ℕ) → (row x y scale color : ℕ) → Frame → Frame
glyph_rows clip [] row x y scale color fb = fb
glyph_rows clip (byte ∷ bits) row x y scale color fb =
    glyph_rows clip bits (row + 1) x y scale color
      (glyph_row clip byte x (y + row * scale) scale color fb)

pub upper : ℕ → ℕ
upper ch = if leb b'a' ch && leb ch b'z' then ch - 32 else ch

-- The glyphs run from 0x20 to 0x5f.
unfoldable pub glyph : Font → Rect → (ch x y scale color : ℕ) → Frame → Frame
unfolding upper
glyph font clip ch x y scale color fb =
    if ltb (upper ch) 0x20 || ltb 0x5f (upper ch)
    then fb
    else glyph_rows clip (font (upper ch - 0x20)) 0 x y scale color fb

-- `text`, from the i-th character on
unfoldable pub text_from : Font → Rect → List ℕ → (i x y scale color : ℕ) → Frame → Frame
text_from font clip [] i x y scale color fb = fb
text_from font clip (ch ∷ chs) i x y scale color fb =
    text_from font clip chs (i + 1) x y scale color
      (glyph font clip ch (x + i * 8 * scale) y scale color fb)

-- The painter of the display server.
unfoldable pub draw : Font → Rect → Draw → Frame → Frame
draw font clip (filled x y w h color) = fill clip x y w h color
draw font clip (written x y scale color bytes) = text_from font clip bytes 0 x y (max scale 1) color

unfoldable pub draw_each : Font → Rect → List Draw → Frame → Frame
draw_each font clip [] fb = fb
draw_each font clip (d ∷ ds) fb = draw_each font clip ds (draw font clip d fb)
