-- ===== src/Irq/Sequence.antt =====
-- kernel/src/irq.rs, `dispatch`: what a driver learns, and what the interrupt controller is told.
use jungey_os.Prelude.{
  ℕ, ◌+◌, ◌%◌, ◌^◌, ◌<◌, ◌≡◌, ◌≢◌, inl, inr, refl, sym, ◌∙◌, ap, arith, Bool-cases, Option,
  Option-cases, none, some, List, [], ◌∷◌, ◌++◌, leb, ◌==◌, ==_ne, if◌then◌else◌,
}
use mathlib.Core.List.{append-nil, append_assoc}
use jungey_os.Prelude.Find.{find, modify_first}
use jungey_os.Sched.{Thread}
use jungey_os.Irq.{
  UserIrq, Handler, Irqs, of_intid, one_more, count_of, sequence, user_irq_fired, handler_for,
  handles, serve_device, serve, dispatch_from, timer_intid, reschedule_sgi, no_interrupt,
}

-- The interrupts that are served: those before the controller says that nothing is pending.
unfoldable pub pending : List ℕ → List ℕ
pending [] = []
pending (n ∷ ns) = let rest = n ∷ pending ns in if leb no_interrupt n then [] else rest

unfoldable pub occurrences : ℕ → List ℕ → ℕ
occurrences n [] = 0
occurrences n (m ∷ ms) = (if m == n then 1 else 0) + occurrences n ms

find-one_more :
    (n : ℕ) (us : List UserIrq) (k : ℕ)
    → sequence n us ≡ some k
    → sequence n (modify_first (of_intid n) one_more us) ≡ some ((k + 1) % 2 ^ 64)
unfolding sequence find modify_first
find-one_more n [] k h = cc
find-one_more n (u ∷ us) k h = elim (Bool-cases (u.intid == n)) [
  | inl e ↦
      let h' : some u.fired ≡ some k = rw e at h in
      let same : u.fired ≡ k = cc in rw (e, e) (ap (λ m. some ((m + 1) % 2 ^ 64)) same)
  | inr e ↦
      let h' : count_of (find (of_intid n) us) ≡ some k = rw e at h in
      rw (e, e) (find-one_more n us k h')
]

find-other :
    (n m : ℕ) (us : List UserIrq)
    → m ≢ n
    → sequence n (modify_first (of_intid m) one_more us) ≡ sequence n us
unfolding sequence find modify_first
find-other n m [] h = refl
find-other n m (u ∷ us) h = elim (Bool-cases (u.intid == m)) [
  | inl e ↦ rw (e, ==_ne u.intid n (ground arith)) refl
  | inr e ↦ elim (Bool-cases (u.intid == n)) [
    | inl here ↦ rw (e, here) refl
    | inr other ↦ rw (e, other) (find-other n m us h)
  ]
]

module _ {World : Type 0} where
  -- What serving one device's interrupt leaves alone.
  serve_device-same :
      (m : ℕ) (o : Option (Handler World)) (s : Irqs World)
      → ((serve_device m o s).handlers ≡ s.handlers) × ((serve_device m o s).ended ≡ s.ended)
  unfolding serve_device user_irq_fired
  serve_device-same m (some h) s = (refl, refl)
  serve_device-same m none s = elim (Option-cases (find (of_intid m) s.user_irqs)) [
    | inl e ↦ rw e (refl, refl)
    | inr (u, e) ↦ rw e (refl, refl)
  ]

  serve_device-other :
      (n m k : ℕ) (o : Option (Handler World)) (s : Irqs World)
      → m ≢ n
      → sequence n s.user_irqs ≡ some k
      → sequence n (serve_device m o s).user_irqs ≡ some k
  unfolding serve_device user_irq_fired
  serve_device-other n m k (some h) s ne q = q
  serve_device-other n m k none s ne q = elim (Option-cases (find (of_intid m) s.user_irqs)) [
    | inl e ↦ rw e q
    | inr (u, e) ↦ rw e (find-other n m s.user_irqs ne ∙ q)
  ]

  serve_device_self :
      (n k : ℕ) (s : Irqs World)
      → sequence n s.user_irqs ≡ some k
      → sequence n (serve_device n none s).user_irqs ≡ some ((k + 1) % 2 ^ 64)
  unfolding serve_device user_irq_fired sequence
  serve_device_self n k s q = elim (Option-cases (find (of_intid n) s.user_irqs)) [
    | inl e ↦ let q' : count_of none ≡ some k = rw e at q in cc
    | inr (u, e) ↦ rw e (find-one_more n s.user_irqs k q)
  ]

  module _ (tick reschedule_ipi : List Thread → List Thread) where
    serve-same :
        (m : ℕ) (s : Irqs World)
        → ((serve tick reschedule_ipi m s).handlers ≡ s.handlers)
          × ((serve tick reschedule_ipi m s).ended ≡ s.ended ++ m ∷ [])
    unfolding serve
    serve-same m s = elim (Bool-cases (m == timer_intid)) [
      | inl e ↦ rw e (refl, refl)
      | inr e ↦ elim (Bool-cases (m == reschedule_sgi)) [
        | inl f ↦ rw (e, f) (refl, refl)
        | inr f ↦
            let (a, b) = serve_device-same m (handler_for m s) s in
            rw (e, f) (a, ap (λ es. es ++ m ∷ []) b)
      ]
    ]

    serve-other :
        (n m k : ℕ) (s : Irqs World)
        → m ≢ n
        → sequence n s.user_irqs ≡ some k
        → sequence n (serve tick reschedule_ipi m s).user_irqs ≡ some k
    unfolding serve
    serve-other n m k s ne q = elim (Bool-cases (m == timer_intid)) [
      | inl e ↦ rw e q
      | inr e ↦ elim (Bool-cases (m == reschedule_sgi)) [
        | inl f ↦ rw (e, f) q
        | inr f ↦ rw (e, f) (serve_device-other n m k (handler_for m s) s ne q)
      ]
    ]

    serve_self :
        (n k : ℕ) (s : Irqs World)
        → n ≢ timer_intid
        → n ≢ reschedule_sgi
        → handler_for n s ≡ none
        → sequence n s.user_irqs ≡ some k
        → sequence n (serve tick reschedule_ipi n s).user_irqs ≡ some ((k + 1) % 2 ^ 64)
    unfolding serve
    serve_self n k s not_timer not_sgi free q =
        rw (==_ne n timer_intid not_timer, ==_ne n reschedule_sgi not_sgi, free)
          (serve_device_self n k s q)

    -- The driver of an interrupt learns of each time that it fired: through one dispatch its sequence number
    -- grows, in 64 bits, by the number of times that the interrupt was acknowledged before the controller
    -- had nothing more, whatever else came in between, for an interrupt that the kernel does not handle
    -- itself. What other dispatches count while the timer has switched this one away comes on top.
    pub dispatch-sequence :
        (n k handled : ℕ) (ns : List ℕ) (s : Irqs World)
        → n ≢ timer_intid
        → n ≢ reschedule_sgi
        → handler_for n s ≡ none
        → sequence n s.user_irqs ≡ some k
        → k < 2 ^ 64
        → sequence n (dispatch_from tick reschedule_ipi handled ns s).user_irqs
          ≡ some ((k + occurrences n (pending ns)) % 2 ^ 64)
    unfolding dispatch_from occurrences pending handler_for
    dispatch-sequence n k handled [] s t g free q low = elim (Bool-cases (handled == 0)) [
      | inl e ↦ rw e (q ∙ ap some (omega arith))
      | inr e ↦ rw e (q ∙ ap some (omega arith))
    ]
    dispatch-sequence n k handled (m ∷ ms) s t g free q low =
        elim (Bool-cases (leb no_interrupt m)) [
          | inl last ↦ elim (Bool-cases (handled == 0)) [
            | inl e ↦ rw (last, e) (q ∙ ap some (omega arith))
            | inr e ↦ rw (last, e) (q ∙ ap some (omega arith))
          ]
          | inr more ↦
              let free' : handler_for n (serve tick reschedule_ipi m s) ≡ none =
                ap (find (handles n)) (serve-same m s).0 ∙ free in
              elim (Bool-cases (m == n)) [
                | inl here ↦
                    let same : m ≡ n = ground arith in
                    let counted : sequence n (serve tick reschedule_ipi m s).user_irqs
                        ≡ some ((k + 1) % 2 ^ 64) =
                      rw same (serve_self n k s t g free q) in
                    rw (more, here)
                      (dispatch-sequence n ((k + 1) % 2 ^ 64) (handled + 1) ms _ t g free' counted
                          (omega arith)
                        ∙ ap some (omega arith))
                | inr other ↦
                    rw (more, other)
                      (dispatch-sequence n k (handled + 1) ms _ t g free'
                          (serve-other n m k s (ground arith) q) low
                        ∙ ap some (omega arith))
              ]
        ]

    -- Every interrupt that is acknowledged is ended once, in the order of the acknowledgements, and no
    -- other is.
    pub dispatch-ended :
        (handled : ℕ) (ns : List ℕ) (s : Irqs World)
        → (dispatch_from tick reschedule_ipi handled ns s).ended ≡ s.ended ++ pending ns
    unfolding dispatch_from pending
    dispatch-ended handled [] s = elim (Bool-cases (handled == 0)) [
      | inl e ↦ rw e (sym (append-nil s.ended))
      | inr e ↦ rw e (sym (append-nil s.ended))
    ]
    dispatch-ended handled (m ∷ ms) s = elim (Bool-cases (leb no_interrupt m)) [
      | inl last ↦ elim (Bool-cases (handled == 0)) [
        | inl e ↦ rw (last, e) (sym (append-nil s.ended))
        | inr e ↦ rw (last, e) (sym (append-nil s.ended))
      ]
      | inr more ↦ rw more (
          dispatch-ended (handled + 1) ms (serve tick reschedule_ipi m s)
          ∙ ap (λ es. es ++ pending ms) (serve-same m s).1
          ∙ append_assoc s.ended (m ∷ []) (pending ms))
    ]
