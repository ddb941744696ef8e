-- ===== src/Display/Pixels/Clip.antt =====
-- user/src/gpudrv.rs: drawing through a clip draws what lies inside it, as on the whole screen, and
-- nothing outside.
use jungey_os.Prelude.{
  bit_and, ◌*◌, ◌/◌, ◌^◌, ◌||◌, ℕ, zero, suc, ◌+◌, ◌-◌, ◌≡◌, inl, inr, refl, sym, ap₂, ◌∙◌, Bool,
  true, false, not, ◌&&◌, List, [], ◌∷◌, arith, Bool-cases, ltb, ◌==◌, if◌then◌else◌, max,
}
use jungey_os.Wm.{Rect, contains, Draw, filled, written, whole_screen}
use jungey_os.Display.Pixels.Fill.{OnScreen, fill_lem}
use jungey_os.Display.Pixels.{
  Frame, Font, upper, dot, px, repeat, fill, block, glyph_row, glyph_rows, glyph, text_from, draw,
  draw_each,
}

-- The left frame is the middle one inside the clip, and the right one outside.
abbrev pub Clipped : Rect → (drawn whole old : Frame) → Type 0
Clipped c drawn whole old = (a b : ℕ) → drawn a b ≡ (if contains c a b then whole a b else old a b)

either_way : (t : Bool) (n : ℕ) → n ≡ (if t then n else n)
either_way true n = refl
either_way false n = refl

at_point :
    (c : Rect) (a x b y : ℕ) → ((a == x) && (b == y)) ≡ true → contains c a b ≡ contains c x y
at_point c a x b y h =
    let p : a ≡ x = ground arith in let q : b ≡ y = ground arith in ap₂ (contains c) p q

module _ (font : Font) (c : Rect) (on : OnScreen c) (old : Frame) where
  contains-whole : (x y : ℕ) → contains c x y ≡ true → contains whole_screen x y ≡ true
  unfolding contains
  contains-whole x y h = ground arith

  px-Clipped :
      (x y color : ℕ) (f g : Frame)
      → Clipped c f g old
      → Clipped c (px c x y color f) (px whole_screen x y color g) old
  unfolding px dot
  px-Clipped x y color f g h a b = elim (Bool-cases (contains c x y)) [
    | inl within ↦
        rw (within, contains-whole x y within)
          (elim (Bool-cases ((a == x) && (b == y))) [
            | inl here ↦
                let k : contains c a b ≡ true = at_point c a x b y here ∙ within in
                rw (here, k) refl
            | inr elsewhere ↦ rw elsewhere (h a b)
          ])
    | inr outside ↦ rw outside (elim (Bool-cases ((a == x) && (b == y))) [
      | inl here ↦
          let k : contains c a b ≡ false = at_point c a x b y here ∙ outside in
          rw k (rw k at (h a b))
      | inr elsewhere ↦ elim (Bool-cases (contains whole_screen x y)) [
        | inl shown ↦ rw (shown, elsewhere) (h a b)
        | inr hidden ↦ rw hidden (h a b)
      ]
    ])
  ]

  fill-Clipped :
      (x y w h color : ℕ) (f g : Frame)
      → Clipped c f g old
      → Clipped c (fill c x y w h color f) (fill whole_screen x y w h color g) old
  fill-Clipped x y w h color f g r a b =
      fill_lem c x y w h color f a b on ∙ elim (Bool-cases (contains c a b)) [
        | inl within ↦
            let k = fill_lem whole_screen x y w h color g a b (omega arith, omega arith) in
            let l : f a b ≡ g a b = rw within at (r a b) in
            rw within (rw l (sym (rw (contains-whole a b within) at k)))
        | inr outside ↦ rw outside (rw outside at (r a b))
      ]

  repeat-Clipped :
      (n from : ℕ) (p q : ℕ → Frame → Frame)
      → ((i : ℕ) (f g : Frame) → Clipped c f g old → Clipped c (p i f) (q i g) old)
      → (f g : Frame) → Clipped c f g old
      → Clipped c (repeat n from p f) (repeat n from q g) old
  unfolding repeat
  repeat-Clipped zero from p q step f g h = h
  repeat-Clipped (suc n) from p q step f g h =
      repeat-Clipped n (from + 1) p q step (p from f) (q from g) (step from f g h)

  block-Clipped :
      (x y scale color : ℕ) (f g : Frame)
      → Clipped c f g old
      → Clipped c (block c x y scale color f) (block whole_screen x y scale color g) old
  unfolding block
  block-Clipped x y scale color f g h =
      repeat-Clipped scale 0 _ _
        (λ sy p q k. repeat-Clipped scale 0 _ _ (λ sx. px-Clipped (x + sx) (y + sy) color) p q k) f
        g h

  glyph_row-Clipped :
      (byte x y scale color : ℕ) (f g : Frame)
      → Clipped c f g old
      → Clipped c
          (glyph_row c byte x y scale color f)
          (glyph_row whole_screen byte x y scale color g)
          old
  unfolding glyph_row
  glyph_row-Clipped byte x y scale color f g h =
      repeat-Clipped 8 0 _ _
        (λ col p q k. elim (Bool-cases (not (bit_and byte (0x80 / 2 ^ col) == 0))) [
          | inl set' ↦ rw set' (block-Clipped (x + col * scale) y scale color p q k)
          | inr clear ↦ rw clear k
        ])
        f g h

  glyph_rows-Clipped :
      (bits : List ℕ) (row x y scale color : ℕ) (f g : Frame)
      → Clipped c f g old
      → Clipped c
          (glyph_rows c bits row x y scale color f)
          (glyph_rows whole_screen bits row x y scale color g)
          old
  unfolding glyph_rows
  glyph_rows-Clipped [] row x y scale color f g h = h
  glyph_rows-Clipped (byte ∷ bits) row x y scale color f g h =
      glyph_rows-Clipped bits (row + 1) x y scale color _ _
        (glyph_row-Clipped byte x (y + row * scale) scale color f g h)

  glyph-Clipped :
      (ch x y scale color : ℕ) (f g : Frame)
      → Clipped c f g old
      → Clipped c
          (glyph font c ch x y scale color f)
          (glyph font whole_screen ch x y scale color g)
          old
  unfolding glyph
  glyph-Clipped ch x y scale color f g h =
      elim (Bool-cases (ltb (upper ch) 0x20 || ltb 0x5f (upper ch))) [
        | inl none' ↦ rw none' h
        | inr has ↦ rw has (glyph_rows-Clipped (font (upper ch - 0x20)) 0 x y scale color f g h)
      ]

  text_from-Clipped :
      (bytes : List ℕ) (i x y scale color : ℕ) (f g : Frame)
      → Clipped c f g old
      → Clipped c
          (text_from font c bytes i x y scale color f)
          (text_from font whole_screen bytes i x y scale color g)
          old
  unfolding text_from
  text_from-Clipped [] i x y scale color f g h = h
  text_from-Clipped (ch ∷ chs) i x y scale color f g h =
      text_from-Clipped chs (i + 1) x y scale color _ _
        (glyph-Clipped ch (x + i * 8 * scale) y scale color f g h)

  draw-Clipped :
      (d : Draw) (f g : Frame)
      → Clipped c f g old
      → Clipped c (draw font c d f) (draw font whole_screen d g) old
  unfolding draw
  draw-Clipped (filled x y w h color) f g r = fill-Clipped x y w h color f g r
  draw-Clipped (written x y scale color bytes) f g r =
      text_from-Clipped bytes 0 x y (max scale 1) color f g r

  draws-Clipped :
      (ds : List Draw) (f g : Frame)
      → Clipped c f g old
      → Clipped c (draw_each font c ds f) (draw_each font whole_screen ds g) old
  unfolding draw_each
  draws-Clipped [] f g h = h
  draws-Clipped (d ∷ ds) f g h = draws-Clipped ds _ _ (draw-Clipped d f g h)

-- To draw through a clip on the screen is to draw on the whole screen and keep the points inside the
-- clip; every point outside is as it was. So a redraw of the damage alone leaves the pixels there that
-- a redraw of everything leaves.
pub draw_each-Clipped :
    (font : Font) (c : Rect) (ds : List Draw) (fb : Frame) (a b : ℕ)
    → OnScreen c
    → draw_each font c ds fb a b
      ≡ (if contains c a b then draw_each font whole_screen ds fb a b else fb a b)
draw_each-Clipped font c ds fb a b on =
    draws-Clipped font c on fb ds fb fb (λ a b. either_way (contains c a b) (fb a b)) a b
