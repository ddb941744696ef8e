-- ===== src/Display/Pixels/Fill.antt =====
-- user/src/gpudrv.rs: what `fill` colours.
use jungey_os.Prelude.{
  ℕ, zero, suc, ◌+◌, ◌-◌, ◌≤◌, ◌≡◌, refl, sym, ap, ◌∙◌, Bool, true, false, not, ◌&&◌, arith, ltb,
  leb, ◌==◌, if◌then◌else◌, min, max,
}
use jungey_os.Wm.{Rect, contains}
use jungey_os.Display.Pixels.{Frame, dot, repeat, fill_row, fill}

abbrev pub OnScreen : Rect → Type 0
OnScreen c = (c.x + c.w ≤ 480) × (c.y + c.h ≤ 960)

fill_row_lem :
    (n x0 row color : ℕ) (fb : Frame) (a b : ℕ)
    → fill_row x0 n row color fb a b
      ≡ (if leb x0 a && ltb a (x0 + n) && (b == row) then color else fb a b)
unfolding fill_row repeat dot
fill_row_lem zero x0 row color fb a b = ground arith
fill_row_lem (suc n) x0 row color fb a b =
    fill_row_lem n (x0 + 1) row color (dot x0 row color fb) a b ∙ ground arith

fill_rows_lem :
    (k y0 n x0 color : ℕ) (fb : Frame) (a b : ℕ)
    → repeat k y0 (λ row. fill_row x0 n row color) fb a b
      ≡ (if leb x0 a && ltb a (x0 + n) && leb y0 b && ltb b (y0 + k) then color else fb a b)
unfolding repeat
fill_rows_lem zero y0 n x0 color fb a b = ground arith
fill_rows_lem (suc k) y0 n x0 color fb a b =
    fill_rows_lem k (y0 + 1) n x0 color (fill_row x0 n y0 color fb) a b
    ∙ ground (arith, fill_row_lem n x0 y0 color fb a b)

bool_ext : (p q : Bool) → (p ≡ true → q ≡ true) → (q ≡ true → p ≡ true) → p ≡ q
bool_ext true q f g = sym (f refl)
bool_ext false true f g = g refl
bool_ext false false f g = refl

axis :
    (c n x w a limit : ℕ)
    → c + n ≤ limit
    → (leb (max x c) a && ltb a (max x c + (min (min (x + w) (c + n)) limit - max x c)))
      ≡ (leb c a && ltb a (c + n) && leb x a && ltb a (x + w))
axis c n x w a limit h = bool_ext _ _ (λ p. ground arith) (λ p. ground arith)

nonempty : (c n a : ℕ) → (leb c a && ltb a (c + n)) ≡ true → not (n == 0) ≡ true
nonempty c n a h = ground arith

regroup :
    (p q p' q' nz a b a' b' c d c' d' : Bool)
    → (p && q) ≡ (a && b && c && d)
    → (p' && q') ≡ (a' && b' && c' && d')
    → ((a && b) ≡ true → nz ≡ true)
    → (p && q && p' && q') ≡ (nz && a && a' && b && b' && c && d && c' && d')
regroup p q p' q' nz a b a' b' c d c' d' e e' h =
    bool_ext _ _ (λ t. ground arith) (λ t. ground arith)

same_test :
    (clip : Rect) (x y w h a b : ℕ)
    → OnScreen clip
    → (leb (max x clip.x) a
        && ltb a (max x clip.x + (min (min (x + w) (clip.x + clip.w)) 480 - max x clip.x))
        && leb (max y clip.y) b
        && ltb b (max y clip.y + (min (min (y + h) (clip.y + clip.h)) 960 - max y clip.y)))
      ≡ (contains clip a b && leb x a && ltb a (x + w) && leb y b && ltb b (y + h))
unfolding contains
same_test clip x y w h a b on =
    regroup (leb (max x clip.x) a)
      (ltb a (max x clip.x + (min (min (x + w) (clip.x + clip.w)) 480 - max x clip.x)))
      (leb (max y clip.y) b)
      (ltb b (max y clip.y + (min (min (y + h) (clip.y + clip.h)) 960 - max y clip.y)))
      (not (clip.w == 0)) (leb clip.x a) (ltb a (clip.x + clip.w)) (leb clip.y b)
      (ltb b (clip.y + clip.h)) (leb x a) (ltb a (x + w)) (leb y b) (ltb b (y + h))
      (axis clip.x clip.w x w a 480 on.0) (axis clip.y clip.h y h b 960 on.1)
      (nonempty clip.x clip.w a)

-- A fill colours the points of its rectangle that lie in the clip and on the screen.
pub fill_lem :
    (clip : Rect) (x y w h color : ℕ) (fb : Frame) (a b : ℕ)
    → OnScreen clip
    → fill clip x y w h color fb a b ≡ (
        if contains clip a b && leb x a && ltb a (x + w) && leb y b && ltb b (y + h)
        then color
        else fb a b)
unfolding fill contains
fill_lem clip x y w h color fb a b on =
    fill_rows_lem _ _ _ _ color fb a b
    ∙ ap (λ (t : Bool). if t then color else fb a b) (same_test clip x y w h a b on)
