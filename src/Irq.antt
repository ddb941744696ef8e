-- ===== src/Irq.antt =====
-- kernel/src/irq.rs: dispatch of interrupts, and those that belong to a driver outside the kernel. What
-- the interrupt controller hands out is an argument; what it is told, lines masked and interrupts
-- ended, is kept in order. A handler of the kernel is a function on a state of its own, and the two entries
-- of the scheduler are functions on the thread table.
pub mod Sequence
mod Tests
use jungey_os.Prelude.{
  ℕ, zero, suc, ◌+◌, ◌%◌, ◌^◌, Bool, true, false, Option, none, some, List, [], ◌∷◌, ◌++◌, leb,
  ◌==◌, bit_or, if◌then◌else◌,
}
use jungey_os.Prelude.Find.{find, modify_first}
use jungey_os.Sched.{Thread, wake_all_on}

abbrev pub timer_intid : ℕ
timer_intid = 27

abbrev pub reschedule_sgi : ℕ
reschedule_sgi = 0

-- Acknowledging gives this number or more when nothing is pending.
abbrev pub no_interrupt : ℕ
no_interrupt = 1020

-- An interrupt of a driver, and how many have arrived.
pub record UserIrq : Type 0 where
  pub intid : ℕ
  pub fired : ℕ

pub record Handler (World : Type 0) : Type 0 where
  pub intid : ℕ
  pub call : World → World

pub record Irqs (World : Type 0) : Type 0 where
  pub handlers : List (Handler World)
  pub user_irqs : List UserIrq
  pub spurious : ℕ
  pub unclaimed : ℕ
  pub timer_irqs : ℕ
  pub masked : List ℕ
  pub ended : List ℕ
  pub threads : List Thread
  pub world : World

abbrev pub of_intid : ℕ → UserIrq → Bool
of_intid intid u = u.intid == intid

unfoldable pub token : ℕ → ℕ
token intid = bit_or 20104741912576 intid

abbrev pub one_more : UserIrq → UserIrq
one_more u = record u { fired = (u.fired + 1) % 2 ^ 64 }

abbrev pub count_of : Option UserIrq → Option ℕ
count_of none = none
count_of (some u) = some u.fired

unfoldable pub sequence : (intid : ℕ) → List UserIrq → Option ℕ
sequence intid us = count_of (find (of_intid intid) us)

abbrev pub registered : (intid : ℕ) → Option UserIrq → List UserIrq → List UserIrq
registered intid none us = us ++ record { intid = intid; fired = 0 } ∷ []
registered intid (some u) us = us

unfoldable pub register_user : (intid : ℕ) → List UserIrq → List UserIrq
register_user intid us = registered intid (find (of_intid intid) us) us

module _ {World : Type 0} where
  unfoldable pub register : (intid : ℕ) → (World → World) → Irqs World → Irqs World
  register intid handler s = record s {
    handlers = s.handlers ++ record { intid = intid; call = handler } ∷ [];
  }

  abbrev pub handles : ℕ → Handler World → Bool
  handles intid h = h.intid == intid

  unfoldable pub handler_for : (intid : ℕ) → Irqs World → Option (Handler World)
  handler_for intid s = find (handles intid) s.handlers

  abbrev pub end_of_interrupt : ℕ → Irqs World → Irqs World
  end_of_interrupt intid s = record s { ended = s.ended ++ intid ∷ [] }

  abbrev pub take_note : (intid : ℕ) → Option UserIrq → Irqs World → Bool × Irqs World
  take_note intid none s = (false, s)
  take_note intid (some u) s = (
    true,
    record s {
      user_irqs = modify_first (of_intid intid) one_more s.user_irqs;
      masked = s.masked ++ intid ∷ [];
      threads = wake_all_on s.threads (token intid);
    },
  )

  unfoldable pub user_irq_fired : (intid : ℕ) → Irqs World → Bool × Irqs World
  user_irq_fired intid s = take_note intid (find (of_intid intid) s.user_irqs) s

  -- An interrupt of a device: the kernel's handler, or else the driver's, or else nobody's.
  unfoldable pub serve_device : (intid : ℕ) → Option (Handler World) → Irqs World → Irqs World
  serve_device intid (some h) s = record s { world = h.call s.world }
  serve_device intid none s =
      let (claimed, s) = user_irq_fired intid s in
      if claimed then s else record s { unclaimed = s.unclaimed + 1 }

  module _ (tick reschedule_ipi : List Thread → List Thread) where
    unfoldable pub serve : (intid : ℕ) → Irqs World → Irqs World
    serve intid s =
        if intid == timer_intid
        then record (end_of_interrupt intid (record s { timer_irqs = s.timer_irqs + 1 })) {
          threads = tick s.threads;
        }
        else if intid == reschedule_sgi
        then record (end_of_interrupt intid s) { threads = reschedule_ipi s.threads }
        else end_of_interrupt intid (serve_device intid (handler_for intid s) s)

    -- Nothing is pending; if nothing was, the core was woken for nothing.
    abbrev pub drained : (handled : ℕ) → Irqs World → Irqs World
    drained handled s = if handled == 0 then record s { spurious = s.spurious + 1 } else s

    -- `acknowledged` is what the controller gives, one after the other; then it has nothing.
    unfoldable pub dispatch_from : (handled : ℕ) → (acknowledged : List ℕ) → Irqs World → Irqs World
    dispatch_from handled [] s = drained handled s
    dispatch_from handled (intid ∷ rest) s =
        let served = dispatch_from (handled + 1) rest (serve intid s) in
        if leb no_interrupt intid then drained handled s else served

    abbrev pub dispatch : (acknowledged : List ℕ) → Irqs World → Irqs World
    dispatch acknowledged s = dispatch_from 0 acknowledged s
