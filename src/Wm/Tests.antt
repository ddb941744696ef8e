-- ===== src/Wm/Tests.antt =====
-- Runs of the window manager: two windows that overlap, each of its own process.
use jungey_os.Prelude.{ℕ, ◌-◌, ◌≡◌, ◌⊎◌, refl, true, none, some, [], ◌∷◌, get_elem?}
use jungey_os.Prelude.Find.{position}
use jungey_os.Wm.{
  Window, Wm, contains, new_wm, create, raise, hit, hit_from, used_windows, stacked, sort_onto,
  sink, find_window, clamp_to_screen, dirty, shade,
}
use jungey_os.Wm.Topmost.{covers, NoneCovers, Highest, hit_lem}
use jungey_os.Wm.Stack.{IsWm, new-IsWm, create-IsWm}
use jungey_os.Wm.Raise.{hit-raise}

abbrev low : Window
low = record {
  used = true;
  owner = 3;
  id = 0;
  rect = record { x = 30; y = 150; w = 390; h = 250 };
  bg = 0xff161b22;
  z = 1;
  title = 83 ∷ [];
  cmds = [];
}

abbrev high : Window
high = record {
  used = true;
  owner = 4;
  id = 1;
  rect = record { x = 70; y = 330; w = 390; h = 220 };
  bg = 0xff1b1622;
  z = 2;
  title = 78 ∷ [];
  cmds = [];
}

abbrev two_windows : Wm
two_windows = record new_wm { windows = high ∷ low ∷ []; next_z = 3 }

top_tap : hit two_windows 100 340 ≡ some (record { owner = 4; id = 1; dx = 30; dy = 10 })
unfolding hit hit_from contains
top_tap = refl

lower_tap : hit two_windows 40 200 ≡ some (record { owner = 3; id = 0; dx = 10; dy = 50 })
unfolding hit hit_from contains
lower_tap = refl

paint_order : stacked (high ∷ low ∷ []) ≡ low ∷ high ∷ []
unfolding stacked sort_onto sink used_windows
paint_order = refl

no_tap : hit two_windows 0 0 ≡ none
unfolding hit hit_from contains
no_tap = refl

lifted_shade : shade 0xff000000 ≡ 0xff555555
unfolding shade
lifted_shade = refl

hit_lem_example :
    ((hit two_windows 100 340 ≡ none) × NoneCovers 100 340 two_windows.windows)
    ⊎ ((i : ℕ) × (w : Window) × (get_elem? two_windows.windows i ≡ some w)
        × (covers 100 340 w ≡ true)
        × Highest 100 340 two_windows.windows w
        × (hit two_windows 100 340
            ≡ some
                (record { owner = w.owner; id = w.id; dx = 100 - w.rect.x; dy = 340 - w.rect.y })))
hit_lem_example = hit_lem two_windows 100 340

-- The windows as two processes create them.
abbrev one_created : Wm
one_created = (create new_wm 3 0 low.rect low.bg low.title).1

abbrev two_created : Wm
two_created = (create one_created 4 1 high.rect high.bg high.title).1

two_created-IsWm : IsWm two_created
two_created-IsWm =
    create-IsWm one_created 4 1 high.rect high.bg high.title
      (create-IsWm new_wm 3 0 low.rect low.bg low.title new-IsWm)

first_created : get_elem? two_created.windows 0 ≡ some low
unfolding create find_window position dirty clamp_to_screen
first_created = refl

low_covers : covers 100 340 low ≡ true
unfolding contains
low_covers = refl

hit-raise_example :
    hit (raise two_created 3 0).1 100 340 ≡ some (record { owner = 3; id = 0; dx = 70; dy = 190 })
hit-raise_example = hit-raise two_created 0 100 340 low two_created-IsWm first_created low_covers
