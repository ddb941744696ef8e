-- ===== src/Display/Tests.antt =====
-- Runs of the display server: an application that is process 3, and one tap.
use jungey_os.Prelude.{
  ℕ, zero, suc, ◌≡◌, ◌⊎◌, refl, true, Bool, List, [], ◌∷◌, arith, ltb, if◌then◌else◌,
}
use jungey_os.Prelude.Find.{position}
use jungey_os.Wm.{
  Rect, Window, filled, contains, new_wm, create, raise, with_window, count_used, find_window,
  dirty, whole_screen,
}
use jungey_os.Wm.Stack.{new-IsWm}
use jungey_os.Display.{
  Message, Server, Outcome, serves, exits, crashes, handle, run, follow, kernel, step, window_op,
  within,
}
use jungey_os.Display.Pixels.{Font, Frame, draw_each}
use jungey_os.Display.Pixels.Clip.{draw_each-Clipped}
use jungey_os.Display.Steps.{OutcomeHas}
use jungey_os.Display.Isolation.{Spares, handle-Spares}
use jungey_os.Display.Validity.{IsServer, handle-IsServer}
use jungey_os.Display.Ends.{handle-crashes}

abbrev no_font : Font
no_font = λ g. []

abbrev sends : ℕ → Bool
sends = λ slot. true

abbrev dark : Frame
dark = λ x y. 0

abbrev idle : Server
idle = record { wm = new_wm; clients = 3 ∷ []; root = []; fb = dark; presented = []; sent = [] }

idle-IsServer : IsServer idle
idle-IsServer = record { wm = new-IsWm; clients = omega arith; root = omega arith }

at_place : List ℕ → Message
at_place [] i = 0
at_place (b ∷ bs) zero = b
at_place (b ∷ bs) (suc i) = at_place bs i

-- Create window 0 at (30, 150), 390 by 250, with the title "A", and raise it.
abbrev opening : List ℕ
opening =
    0x20 ∷ 0 ∷ 0 ∷ 30 ∷ 0 ∷ 150 ∷ 1 ∷ 134 ∷ 0 ∷ 250 ∷ 34 ∷ 27 ∷ 22 ∷ 255 ∷ 1 ∷ 65 ∷ 0x21 ∷ 0 ∷ []

handle-Spares_example :
    ((t : Server) × (handle no_font sends 3 (at_place opening) 18 idle ≡ serves t)
      × Spares 3 idle t)
    ⊎ (handle no_font sends 3 (at_place opening) 18 idle ≡ crashes)
handle-Spares_example =
    handle-Spares no_font sends 3 (at_place opening) 18 idle
      (λ (e : ◌≡◌ {A = ℕ} 3 kernel). absurd (omega arith))

handle-IsServer_example : OutcomeHas IsServer 3 (handle no_font sends 3 (at_place opening) 18 idle)
handle-IsServer_example = handle-IsServer no_font sends 3 (at_place opening) 18 idle idle-IsServer

-- A full message of presents and one byte of a raise.
abbrev cut_message : Message
cut_message = λ j. if ltb j 4095 then 0x04 else 0x21

handle-crashes_example : handle no_font sends 3 cut_message 4096 idle ≡ crashes
handle-crashes_example =
    handle-crashes no_font sends 3 cut_message idle
      (λ j lt. let t : ltb j 4095 ≡ true = ground arith in rw t refl) refl

window_list : Outcome → List Window
window_list (serves s) = s.wm.windows
window_list (exits s) = s.wm.windows
window_list crashes = []

opened : count_used (window_list (handle no_font sends 3 (at_place opening) 18 idle)) ≡ 1
unfolding window_list handle at_place run follow step window_op within raise with_window find_window
    position create dirty count_used
opened = refl

abbrev strip : Rect
strip = record { x = 10; y = 10; w = 20; h = 20 }

draw_each-Clipped_example : draw_each no_font strip (filled 0 0 480 960 7 ∷ []) dark 15 15 ≡ (
    if contains strip 15 15
    then draw_each no_font whole_screen (filled 0 0 480 960 7 ∷ []) dark 15 15
    else dark 15 15)
draw_each-Clipped_example =
    draw_each-Clipped no_font strip (filled 0 0 480 960 7 ∷ []) dark 15 15
      (omega arith, omega arith)
