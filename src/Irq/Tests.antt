-- ===== src/Irq/Tests.antt =====
-- kernel/src/irq.rs: a driver's interrupt and a kernel's, in one dispatch.
use jungey_os.Prelude.{◌%◌, ◌^◌, ℕ, suc, ◌+◌, ◌≡◌, refl, arith, some, none, List, [], ◌∷◌}
use jungey_os.Prelude.Find.{find}
use jungey_os.Sched.{Thread}
use jungey_os.Irq.{Irqs, handler_for, sequence, dispatch_from}
use jungey_os.Irq.Sequence.{pending, occurrences, dispatch-sequence}

-- The kernel counts its own interrupt 33; 48 and 49 belong to drivers.
abbrev two_drivers : Irqs ℕ
two_drivers = record {
  handlers = record { intid = 33; call = suc } ∷ [];
  user_irqs = record { intid = 48; fired = 5 } ∷ record { intid = 49; fired = 0 } ∷ [];
  spurious = 0;
  unclaimed = 0;
  timer_irqs = 0;
  masked = [];
  ended = [];
  threads = [];
  world = 0;
}

abbrev given : List ℕ
given = 49 ∷ 33 ∷ 27 ∷ 49 ∷ 48 ∷ 77 ∷ 1023 ∷ 49 ∷ []

abbrev idle : List Thread → List Thread
idle ts = ts

not_handled : handler_for 49 two_drivers ≡ none
unfolding handler_for find
not_handled = refl

fired_before : sequence 49 two_drivers.user_irqs ≡ some 0
unfolding sequence find
fired_before = refl

dispatch-sequence_example :
    sequence 49 (dispatch_from idle idle 0 given two_drivers).user_irqs
    ≡ some ((0 + occurrences 49 (pending given)) % 2 ^ 64)
dispatch-sequence_example =
    dispatch-sequence idle idle 49 0 0 given two_drivers (λ e. absurd (omega arith))
      (λ e. absurd (omega arith)) not_handled fired_before (omega arith)

fired_twice : occurrences 49 (pending given) ≡ 2
unfolding occurrences pending
fired_twice = refl
