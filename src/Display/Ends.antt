-- ===== src/Display/Ends.antt =====
-- user/src/gpudrv.rs: a message is at an end after as many rounds as it has bytes, and one that is cut
-- short at the end of the buffer makes the server panic.
use jungey_os.Prelude.{
  ℕ, zero, suc, ◌+◌, ◌≤◌, ◌<◌, ◌≡◌, refl, ap, Bool, true, false, arith, ℕ_discrete, ltb,
  if◌then◌else◌,
}
use jungey_os.Display.{
  Message, Server, Next, goes, stops, shuts_down, panics, within, step, window_op, compose, Outcome,
  serves, crashes, follow, run, handle,
}
use jungey_os.Display.Pixels.{Font}
use jungey_os.Display.Steps.{NextHas, onward}
use jungey_os.Display.Validity.{IsServer, step-IsServer}

same_follow :
    (from i : ℕ) (f g : Server → ℕ → Outcome) (x : Next)
    → NextHas IsServer from i x
    → ((s : Server) (j : ℕ) → IsServer s → i < j → f s j ≡ g s j)
    → follow f x ≡ follow g x
unfolding follow
same_follow from i f g (goes s j) (onward v lt) same = same s j v lt
same_follow from i f g (stops s) p same = refl
same_follow from i f g (shuts_down s) p same = refl
same_follow from i f g panics p same = refl

module _ (font : Font) (reachable : ℕ → Bool) (from : ℕ) (msg : Message) (n : ℕ) where
  run_done : (fuel i : ℕ) (s : Server) → n ≤ i → run fuel font reachable from msg n i s ≡ serves s
  unfolding run
  run_done zero i s h = refl
  run_done (suc fuel) i s h = let over : ltb i n ≡ false = ground arith in rw over refl

  spare_rounds :
      (fuel k i : ℕ) (s : Server)
      → IsServer s
      → n ≤ i + fuel
      → run (fuel + k) font reachable from msg n i s ≡ run fuel font reachable from msg n i s
  unfolding run
  spare_rounds zero k i s v h = run_done (0 + k) i s (omega arith)
  spare_rounds (suc fuel) k i s v h =
      let e : suc fuel + k ≡ suc (fuel + k) = omega arith in
      rw e (
        ap (λ (rest : Outcome). if ltb i n then rest else serves s)
          (same_follow from i _ _ (step font reachable s from msg i)
            (step-IsServer from i s v font reachable msg)
            (λ s' j w lt. spare_rounds fuel k j s' w (omega arith))))

  present_step :
      (i : ℕ) (s : Server)
      → msg i ≡ 0x04
      → step font reachable s from msg i ≡ goes (compose font s) (i + 1)
  unfolding step
  present_step i s e = rw e refl

  raise_past : (s : Server) → msg 4095 ≡ 0x21 → step font reachable s from msg 4095 ≡ panics
  unfolding step window_op within
  raise_past s e = rw e refl

  -- Presents up to the last byte of a full buffer, and a raise there.
  cut_short :
      (fuel i : ℕ) (s : Server)
      → n ≡ 4096
      → ((j : ℕ) → j < 4095 → msg j ≡ 0x04)
      → msg 4095 ≡ 0x21
      → i ≤ 4095
      → 4095 < i + fuel
      → run fuel font reachable from msg n i s ≡ crashes
  unfolding run follow
  cut_short zero i s e before last at enough = absurd (omega arith)
  cut_short (suc fuel) i s e before last at enough =
      let more : ltb i n ≡ true = ground arith in
      rw more (elim (ℕ_discrete i 4095) [
        | yes here ↦ rw (here, raise_past s last) refl
        | no earlier ↦
            rw (present_step i s (before i (omega arith)))
              (cut_short fuel (i + 1) (compose font s) e before last (omega arith) (omega arith))
      ])

-- More rounds than the message has bytes change nothing: the loop has ended by then.
pub handle_enough :
    (font : Font) (reachable : ℕ → Bool) (from : ℕ) (msg : Message) (n k : ℕ) (s : Server)
    → IsServer s
    → run (n + k) font reachable from msg n 0 s ≡ handle font reachable from msg n s
unfolding handle
handle_enough font reachable from msg n k s v =
    spare_rounds font reachable from msg n n k 0 s v (omega arith)

-- From whoever it comes, a full message of presents that ends in the first byte of a raise makes the
-- display server panic: the window's id lies past the buffer.
pub handle-crashes :
    (font : Font) (reachable : ℕ → Bool) (from : ℕ) (msg : Message) (s : Server)
    → ((j : ℕ) → j < 4095 → msg j ≡ 0x04)
    → msg 4095 ≡ 0x21
    → handle font reachable from msg 4096 s ≡ crashes
unfolding handle
handle-crashes font reachable from msg s before last =
    cut_short font reachable from msg 4096 4096 0 s refl before last (omega arith) (omega arith)
