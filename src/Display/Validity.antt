-- ===== src/Display/Validity.antt =====
-- user/src/gpudrv.rs: the windows stay a stack whatever is sent, and a message ends.
use jungey_os.Prelude.{
  ℕ, ◌+◌, ◌≤◌, ◌<◌, ◌≡◌, refl, ap, ◌∙◌, Bool, true, false, ◌||◌, inl, inr, arith, Bool-cases,
  length, length-append, List, [], ◌∷◌, ◌++◌, ltb, ◌==◌, if◌then◌else◌, min, not, leb,
}
use jungey_os.Wm.{Wm, Rect, dirty, dirty_all}
use jungey_os.Wm.Stack.{
  IsWm, Keeps, clamp_to_screen_lem, create-IsWm, change-IsWm, raise-IsWm, push-IsWm, reset-IsWm,
}
use jungey_os.Display.{
  Message, Server, goes, stops, within, step, kernel_op, window_op, route_tap, root_append, move_to,
  handle, kernel,
}
use jungey_os.Display.Pixels.{Font}
use jungey_os.Display.Steps.{
  NextHas, onward, stopped, ended, panicked, within-NextHas, if-NextHas, OutcomeHas, run-OutcomeHas,
}
use jungey_os.Display.Isolation.{SameParts, compose-SameParts, route_tap-SameParts}

-- The display server's windows form a stack, and no more clients are known than it has slots for.
pub record IsServer (s : Server) : Type 0 where
  pub wm : IsWm s.wm
  pub clients : length s.clients ≤ 4
  pub root : length s.root ≤ 16384

SameParts-IsServer : (s t : Server) → SameParts s t → IsServer s → IsServer t
SameParts-IsServer s t p v = record {
  wm = (ap length p.windows ∙ v.wm.0, rw (p.windows, p.next_z) v.wm.1);
  clients = rw p.clients v.clients;
  root = rw p.root v.root;
}

change-IsServer : (s : Server) (m : Wm) → IsServer s → IsWm m → IsServer (record s { wm = m })
change-IsServer s m v w = record { wm = w; clients = v.clients; root = v.root }

tapped-IsServer :
    (on : Bool) (reachable : ℕ → Bool) (s : Server) (x y : ℕ)
    → IsServer s
    → IsServer (if on then route_tap reachable s x y else s)
tapped-IsServer true reachable s x y v =
    SameParts-IsServer s _ (route_tap-SameParts reachable s x y) v
tapped-IsServer false reachable s x y v = v

move_to-Keeps : (x y : ℕ) → Keeps (move_to x y)
unfolding move_to
move_to-Keeps x y = record {
  owner = λ w. refl;
  id = λ w. refl;
  cut = λ w c. record {
    right = (clamp_to_screen_lem (record w.rect { x = x; y = y })).0;
    bottom = (clamp_to_screen_lem (record w.rect { x = x; y = y })).1;
    short_title = c.short_title;
    few_cmds = c.few_cmds;
  };
}

module _ (from i : ℕ) (s : Server) (v : IsServer s) where
  own_op :
      (m : Wm) (last : ℕ)
      → IsWm m
      → i < last
      → NextHas IsServer from i (within last (record s { wm = m }))
  own_op m last w h = within-NextHas last _ (change-IsServer s m v w) h

  root_append-IsServer :
      (t : Server) (bytes : List ℕ) (m : Wm)
      → IsServer t
      → IsWm m
      → IsServer (record (root_append t bytes) { wm = m })
  unfolding root_append
  root_append-IsServer t bytes m k w =
      elim (Bool-cases (ltb 16384 (length t.root + length bytes))) [
        | inl full ↦ rw full (record { wm = w; clients = k.clients; root = k.root })
        | inr room ↦
            rw room (record { wm = w; clients = k.clients; root = rw length-append (ground arith) })
      ]

  dirty-IsWm : (m : Wm) (r : Rect) → IsWm m → IsWm (dirty m r)
  unfolding dirty
  dirty-IsWm m r w = w

  dirty_all-IsWm : (m : Wm) → IsWm m → IsWm (dirty_all m)
  unfolding dirty_all
  dirty_all-IsWm m w = w

  introduced :
      (pid : ℕ)
      → NextHas IsServer from i (
          if ltb (length s.clients) 4
          then within (i + 5) (record s { clients = s.clients ++ pid ∷ [] })
          else goes s (i + 5))
  introduced pid = elim (Bool-cases (ltb (length s.clients) 4)) [
    | inl room ↦ rw room (
        within-NextHas (i + 5) _
          (record { wm = v.wm; clients = rw length-append (ground arith); root = v.root })
          (omega arith))
    | inr full ↦ rw full (onward v (omega arith))
  ]

  kernel_op-IsServer : (msg : Message) → from ≡ kernel → NextHas IsServer from i (kernel_op s msg i)
  unfolding kernel_op
  kernel_op-IsServer msg k =
      if-NextHas (msg i == 0x01) _ _
        (within-NextHas (i + 5) _
          (root_append-IsServer (record s { root = [] }) _ _
            (record { wm = v.wm; clients = v.clients; root = omega arith })
            (dirty_all-IsWm s.wm v.wm))
          (omega arith))
        (if-NextHas (msg i == 0x02) _ _
          (within-NextHas (i + 13) _ (root_append-IsServer s _ _ v (dirty-IsWm s.wm _ v.wm))
            (omega arith))
          (if-NextHas (msg i == 0x03) _ _
            (within-NextHas (i + 11 + msg (i + 10)) _
              (root_append-IsServer s _ _ v (dirty-IsWm s.wm _ v.wm)) (omega arith))
            (if-NextHas (msg i == 0x30) _ _ (introduced _) (
              if-NextHas (msg i == 0x32) _ _ (onward {place = i + 1} v (omega arith))
                (if-NextHas (msg i == 0xff) _ _ (ended v k) (stopped v))))))

  kernel_branch :
      (msg : Message)
      → NextHas IsServer from i (if from == kernel then kernel_op s msg i else stops s)
  kernel_branch msg = elim (Bool-cases (from == kernel)) [
    | inl e ↦ rw e (kernel_op-IsServer msg (ground arith))
    | inr e ↦ rw e (stopped v)
  ]

  window_op-IsServer : (msg : Message) → NextHas IsServer from i (window_op s from msg i)
  unfolding window_op
  window_op-IsServer msg =
      if-NextHas (msg i == 0x20) _ _
        (own_op _ (i + 15 + msg (i + 14)) (create-IsWm s.wm from _ _ _ _ v.wm) (omega arith))
        (if-NextHas (msg i == 0x21) _ _
          (own_op _ (i + 2) (raise-IsWm s.wm from _ v.wm) (omega arith))
          (if-NextHas (msg i == 0x22) _ _
            (own_op _ (i + 6) (change-IsWm s.wm from _ _ (move_to-Keeps _ _) (λ w. refl) v.wm)
              (omega arith))
            (if-NextHas (msg i == 0x24) _ _
              (own_op _ (i + 14) (push-IsWm s.wm from _ _ v.wm) (omega arith))
              (if-NextHas (msg i == 0x23) _ _
                (if-NextHas (leb (i + 12 + min (msg (i + 11)) 40) 4096) _ _
                  (onward {place = i + 12 + msg (i + 11)}
                    (change-IsServer s _ v (push-IsWm s.wm from _ _ v.wm)) (omega arith))
                  panicked)
                (if-NextHas (msg i == 0x25) _ _
                  (own_op _ (i + 2) (reset-IsWm s.wm from _ v.wm) (omega arith))
                  (kernel_branch msg))))))

  pub step-IsServer :
      (font : Font) (reachable : ℕ → Bool) (msg : Message)
      → NextHas IsServer from i (step font reachable s from msg i)
  unfolding step
  step-IsServer font reachable msg =
      if-NextHas ((msg i == 0x04) || (msg i == 0x31)) _ _
        (onward {place = i + 1} (SameParts-IsServer s _ (compose-SameParts font s) v) (omega arith))
        (if-NextHas (msg i == 0x10) _ _
          (within-NextHas (i + 6) _ (tapped-IsServer (not (msg (i + 5) == 0)) reachable s _ _ v)
            (omega arith))
          (window_op-IsServer msg))

-- After any message from anyone that the display server gets through without a panic the windows still
-- form a stack on the screen, with one window for each owner and id, and the client table and the
-- background keep within their arrays; and of the messages that it gets through only one of the kernel
-- shuts it down. Nothing is said of a message at which it panics, and from whom that may come.
pub handle-IsServer :
    (font : Font) (reachable : ℕ → Bool) (from : ℕ) (msg : Message) (n : ℕ) (s : Server)
    → IsServer s
    → OutcomeHas IsServer from (handle font reachable from msg n s)
unfolding handle
handle-IsServer font reachable from msg n s v =
    run-OutcomeHas IsServer from font reachable msg
      (λ t i k. step-IsServer from i t k font reachable msg) n n 0 s v
