-- ===== src/Display/Steps.antt =====
-- user/src/gpudrv.rs: what holds of every operation holds of a whole message.
use jungey_os.Prelude.{
  ℕ, zero, suc, ◌<◌, ◌≡◌, Bool, true, false, inl, inr, Bool-cases, ltb, leb, if◌then◌else◌,
}
use jungey_os.Display.{
  Message, Server, Next, goes, stops, shuts_down, panics, within, step, Outcome, serves, exits,
  crashes, follow, run, kernel,
}
use jungey_os.Display.Pixels.{Font}

-- The server has the property, the place moves on, and only the kernel ends the service.
pub data NextHas {ℓ} (P : Server → Type ℓ) (from i : ℕ) : Next → Type ℓ where
  onward : {s : Server} {place : ℕ} → P s → i < place → NextHas P from i (goes s place)
  stopped : {s : Server} → P s → NextHas P from i (stops s)
  ended : {s : Server} → P s → from ≡ kernel → NextHas P from i (shuts_down s)
  panicked : NextHas P from i panics

module _ {ℓ} {P : Server → Type ℓ} {from i : ℕ} where
  pub within-NextHas : (last : ℕ) (s : Server) → P s → i < last → NextHas P from i (within last s)
  unfolding within
  within-NextHas last s p h = elim (Bool-cases (leb last 4096)) [
    | inl fits ↦ rw fits (onward p h)
    | inr beyond ↦ rw beyond panicked
  ]

  pub if-NextHas :
      (t : Bool) (a b : Next)
      → NextHas P from i a
      → NextHas P from i b
      → NextHas P from i (if t then a else b)
  if-NextHas true a b p q = p
  if-NextHas false a b p q = q

module _ {ℓ} (P : Server → Type ℓ) (from : ℕ) where
  abbrev pub OutcomeHas : Outcome → Type ℓ
  OutcomeHas (serves s) = P s
  OutcomeHas (exits s) = P s × (from ≡ kernel)
  OutcomeHas crashes = Unit

  module _ (font : Font) (reachable : ℕ → Bool) (msg : Message)
      (each : (s : Server) (i : ℕ)
        → P s
        → NextHas P from i (step font reachable s from msg i)) where
    follow-OutcomeHas :
        (go : Server → ℕ → Outcome) (i : ℕ) (x : Next)
        → ((s : Server) (j : ℕ) → P s → OutcomeHas (go s j))
        → NextHas P from i x
        → OutcomeHas (follow go x)
    unfolding follow
    follow-OutcomeHas go i (goes s j) ih (onward p h) = ih s j p
    follow-OutcomeHas go i (stops s) ih (stopped p) = p
    follow-OutcomeHas go i (shuts_down s) ih (ended p k) = (p, k)
    follow-OutcomeHas go i panics ih h = tt

    pub run-OutcomeHas :
        (fuel n i : ℕ) (s : Server) → P s → OutcomeHas (run fuel font reachable from msg n i s)
    unfolding run
    run-OutcomeHas zero n i s p = p
    run-OutcomeHas (suc fuel) n i s p = elim (Bool-cases (ltb i n)) [
      | inr over ↦ rw over p
      | inl more ↦ rw more (
          follow-OutcomeHas _ i (step font reachable s from msg i)
            (λ s' j q. run-OutcomeHas fuel n j s' q) (each s i p))
    ]
