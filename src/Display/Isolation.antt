-- ===== src/Display/Isolation.antt =====
-- user/src/gpudrv.rs: what an application can reach by a message to the display server.
use jungey_os.Prelude.{
  ℕ, ◌+◌, ◌<◌, ◌≡◌, ◌≢◌, ◌⊎◌, refl, ◌∙◌, Bool, true, false, ◌||◌, inl, inr, [], arith, Bool-cases,
  Option-cases, leb, ◌==◌, if◌then◌else◌, min, not, ==_ne,
}
use jungey_os.Wm.{Wm, raise, push, reset, clamp_to_screen, hit, add_cmd, paint, Cmd}
use jungey_os.Wm.Owners.{SameOthers, with_window-SameOthers, create-SameOthers}
use jungey_os.Display.{
  Message, Server, Next, stops, within, step, window_op, compose, route_tap, route_to, delivered,
  slot_for, Outcome, serves, exits, crashes, run, handle, kernel,
}
use jungey_os.Display.Pixels.{Font}
use jungey_os.Display.Steps.{
  NextHas, onward, stopped, panicked, within-NextHas, if-NextHas, OutcomeHas, run-OutcomeHas,
}

-- Composing and taps leave the windows, the clients and the background as they are.
pub record SameParts (s t : Server) : Type 0 where
  pub windows : t.wm.windows ≡ s.wm.windows
  pub next_z : t.wm.next_z ≡ s.wm.next_z
  pub clients : t.clients ≡ s.clients
  pub root : t.root ≡ s.root

all_same : (s : Server) → SameParts s s
all_same s = record { windows = refl; next_z = refl; clients = refl; root = refl }

pub compose-SameParts : (font : Font) (s : Server) → SameParts s (compose font s)
unfolding compose paint
compose-SameParts font s =
    elim (Bool-cases
      (((clamp_to_screen s.wm.damage).w == 0) || ((clamp_to_screen s.wm.damage).h == 0))) [
        | inl clean ↦ rw clean (all_same s)
        | inr damaged ↦
            rw damaged (record { windows = refl; next_z = refl; clients = refl; root = refl })
      ]

pub route_tap-SameParts :
    (reachable : ℕ → Bool) (s : Server) (x y : ℕ) → SameParts s (route_tap reachable s x y)
unfolding route_tap
route_tap-SameParts reachable s x y = elim (Option-cases (hit s.wm x y)) [
  | inl e ↦ rw (e, route_to) (record { windows = refl; next_z = refl; clients = refl; root = refl })
  | inr (to, e) ↦
      rw (e, route_to)
        (elim (Option-cases (slot_for s.clients to.owner)) [
          | inl f ↦
              rw (f, delivered)
                (record { windows = refl; next_z = refl; clients = refl; root = refl })
          | inr (slot, f) ↦
              rw (f, delivered)
                (elim (Bool-cases (reachable slot)) [
                  | inl sent ↦
                      rw sent
                        (record { windows = refl; next_z = refl; clients = refl; root = refl })
                  | inr lost ↦ rw lost (all_same s)
                ])
        ])
]

raise-SameOthers : (m : Wm) (owner id : ℕ) → SameOthers owner m.windows (raise m owner id).1.windows
unfolding raise
raise-SameOthers m owner id =
    with_window-SameOthers (record m { next_z = m.next_z + 1 }) owner id
      (λ w. record w { z = m.next_z }) (λ w. refl)

push-SameOthers :
    (m : Wm) (owner id : ℕ) (cmd : Cmd) → SameOthers owner m.windows (push m owner id cmd).1.windows
unfolding push add_cmd
push-SameOthers m owner id cmd = with_window-SameOthers m owner id (add_cmd cmd) (λ w. ground arith)

reset-SameOthers : (m : Wm) (owner id : ℕ) → SameOthers owner m.windows (reset m owner id).1.windows
unfolding reset
reset-SameOthers m owner id =
    with_window-SameOthers m owner id (λ w. record w { cmds = [] }) (λ w. refl)

-- What a sender leaves of others: their windows, the clients, the background.
pub record Spares (from : ℕ) (s t : Server) : Type 0 where
  pub windows : SameOthers from s.wm.windows t.wm.windows
  pub clients : t.clients ≡ s.clients
  pub root : t.root ≡ s.root

abbrev windows_only : Server → Wm → Server
windows_only s m = record s { wm = m }

module _ (from : ℕ) (s : Server) where
  SameParts-Spares : (t u : Server) → Spares from s t → SameParts t u → Spares from s u
  SameParts-Spares t u p q = record {
    windows = rw q.windows p.windows;
    clients = q.clients ∙ p.clients;
    root = q.root ∙ p.root;
  }

  change-Spares :
      (t : Server) (m : Wm)
      → Spares from s t
      → SameOthers from t.wm.windows m.windows
      → Spares from s (windows_only t m)
  change-Spares t m p q = record {
    windows = λ j w used other. (
      λ e. (q j w used other).0 ((p.windows j w used other).0 e),
      λ e. (p.windows j w used other).1 ((q j w used other).1 e),
    );
    clients = p.clients;
    root = p.root;
  }

  tapped-Spares :
      (on : Bool) (reachable : ℕ → Bool) (t : Server) (x y : ℕ)
      → Spares from s t
      → Spares from s (if on then route_tap reachable t x y else t)
  tapped-Spares true reachable t x y p =
      SameParts-Spares t _ p (route_tap-SameParts reachable t x y)
  tapped-Spares false reachable t x y p = p

  module _ (others : from ≢ kernel) where
    own_op :
        (t : Server) (m : Wm) (i last : ℕ)
        → Spares from s t
        → SameOthers from t.wm.windows m.windows
        → i < last
        → NextHas (Spares from s) from i (within last (windows_only t m))
    own_op t m i last p q h = within-NextHas _ _ (change-Spares t m p q) h

    refused :
        (t : Server) (i : ℕ) (op : Next)
        → Spares from s t
        → NextHas (Spares from s) from i (if from == kernel then op else stops t)
    refused t i op p = rw (==_ne from kernel others) (stopped p)

    window_op-Spares :
        (t : Server) (msg : Message) (i : ℕ)
        → Spares from s t
        → NextHas (Spares from s) from i (window_op t from msg i)
    unfolding window_op
    window_op-Spares t msg i p =
        if-NextHas (msg i == 0x20) _ _
          (own_op t _ i (i + 15 + msg (i + 14)) p (create-SameOthers t.wm from _ _ _ _)
            (omega arith))
          (if-NextHas (msg i == 0x21) _ _
            (own_op t _ i (i + 2) p (raise-SameOthers t.wm from _) (omega arith))
            (if-NextHas (msg i == 0x22) _ _
              (own_op t _ i (i + 6) p (with_window-SameOthers t.wm from _ _ (λ w. refl))
                (omega arith))
              (if-NextHas (msg i == 0x24) _ _
                (own_op t _ i (i + 14) p (push-SameOthers t.wm from _ _) (omega arith))
                (if-NextHas (msg i == 0x23) _ _
                  (if-NextHas (leb (i + 12 + min (msg (i + 11)) 40) 4096) _ _
                    (onward {place = i + 12 + msg (i + 11)}
                      (change-Spares t _ p (push-SameOthers t.wm from _ _)) (omega arith))
                    panicked)
                  (if-NextHas (msg i == 0x25) _ _
                    (own_op t _ i (i + 2) p (reset-SameOthers t.wm from _) (omega arith))
                    (refused t i _ p))))))

    step-Spares :
        (font : Font) (reachable : ℕ → Bool) (t : Server) (msg : Message) (i : ℕ)
        → Spares from s t
        → NextHas (Spares from s) from i (step font reachable t from msg i)
    unfolding step
    step-Spares font reachable t msg i p =
        if-NextHas ((msg i == 0x04) || (msg i == 0x31)) _ _
          (onward (SameParts-Spares t _ p (compose-SameParts font t)) (omega arith))
          (if-NextHas (msg i == 0x10) _ _
            (within-NextHas _ _ (tapped-Spares (not (msg (i + 5) == 0)) reachable t _ _ p)
              (omega arith))
            (window_op-Spares t msg i p))

-- Whatever bytes an application sends, and however many operations they hold: the windows of all other
-- owners are the same afterwards, no client is added and the background is not drawn on, and the
-- display server does not shut down. It may crash.
pub handle-Spares :
    (font : Font) (reachable : ℕ → Bool) (from : ℕ) (msg : Message) (n : ℕ) (s : Server)
    → from ≢ kernel
    → ((t : Server) × (handle font reachable from msg n s ≡ serves t) × Spares from s t)
      ⊎ (handle font reachable from msg n s ≡ crashes)
unfolding handle
handle-Spares font reachable from msg n s others = ends (run n font reachable from msg n 0 s) (
    run-OutcomeHas (Spares from s) from font reachable msg
      (λ t i p. step-Spares from s others font reachable t msg i p) n n 0 s
      (record { windows = λ j w used other. (λ h. h, λ h. h); clients = refl; root = refl }))
  where
    ends :
        (o : Outcome)
        → OutcomeHas (Spares from s) from o
        → ((t : Server) × (o ≡ serves t) × Spares from s t) ⊎ (o ≡ crashes)
    ends (serves t) h = inl (t, refl, h)
    ends (exits t) h = absurd (others h.1)
    ends crashes h = inr refl
