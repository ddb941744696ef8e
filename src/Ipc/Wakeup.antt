-- ===== src/Ipc/Wakeup.antt =====
-- No wakeup is lost: while a channel holds a message, no thread sleeps on it.
use jungey_os.Prelude.{
  ◌⊎◌, ◌++◌, set, ℕ_discrete, get_elem?-set_ne, get_elem?-set_self, get_elem?-append_old,
  get_elem?-lt, ℕ, ◌≡◌, ◌≢◌, inl, inr, refl, sym, ap, ◌∙◌, none, some, List, [], ◌∷◌, arith,
  get_elem?, modify, get_elem?-map, get_elem?-map-none, get_elem?-modify, get_elem?-snoc,
  get_elem?-set, Option-cases, subst,
}
use jungey_os.Sched.{
  Thread, blocked, wake, wake_all_on, prepare_block, cancel_block, thread_exit, sleep_until, start,
}
use jungey_os.Ipc.{
  Message, Channel, World, create, put_message, wake_receivers, Stage, to_push, to_wake, returned,
  Sender, after_put, send_step, recv_or_prepare, try_recv, popped, took,
}

abbrev pub BlockedOn : List Thread → ℕ → Type 0
BlockedOn threads token =
    (i : ℕ) × (t : Thread) × (get_elem? threads i ≡ some t) × (t.state ≡ blocked token)

-- A channel whose messages some sender is still to wake the receivers for.
abbrev pub Pending : List Sender → ℕ → Type 0
Pending senders c =
    (i : ℕ) × (x : Sender) × (get_elem? senders i ≡ some x)
    × (x.progress ≡ to_wake)
    × (x.channel ≡ c)

-- A thread is blocked only on an empty channel (or on what is no channel), or on one of these.
abbrev pub IsAttendedBut : (P : ℕ → Type 0) → World → Type 0
IsAttendedBut P w =
    (c : ℕ) (ch : Channel)
    → get_elem? w.channels c ≡ some ch
    → BlockedOn w.threads c
    → (ch.queue ≡ []) ⊎ P c

-- The world, and the calls of `send` that are on their way or have returned.
pub record Sys : Type 0 where
  pub world : World
  pub senders : List Sender

abbrev pub IsAttended : Sys → Type 0
IsAttended s = IsAttendedBut (Pending s.senders) s.world

-- An operation that blocks nobody.
abbrev pub Calms : List Thread → List Thread → Type 0
Calms threads threads' = (token : ℕ) → BlockedOn threads' token → BlockedOn threads token

pub data Calm (threads : List Thread) : List Thread → Type 0 where
  wakes : (token : ℕ) → Calm threads (wake_all_on threads token)
  cancels : (me : ℕ) → Calm threads (cancel_block threads me)
  exits : (me : ℕ) → Calm threads (thread_exit threads me)
  sleeps : (me until : ℕ) → Calm threads (sleep_until threads me until)
  starts : (tid : ℕ) → Calm threads (start threads tid)

-- The calls of any threads on any cores that are one step. A thread blocks on a channel by
-- `recv_or_prepare` with the channel as its token; other tokens name no channel.
pub data Call (w : World) : World → Type 0 where
  creates : Call w (create w).1
  receives : (me channel : ℕ) → Call w (recv_or_prepare w me channel channel).1
  polls : (channel : ℕ) → Call w (try_recv w channel).1
  calms : {threads : List Thread} → Calm w.threads threads → Call w (record w { threads = threads })
  prepares :
      (me token : ℕ)
      → get_elem? w.channels token ≡ none
      → Call w (record w { threads = prepare_block w.threads me token })

-- A call of `send` begins, or does its next step, or another call is made.
pub data Step (s : Sys) : Sys → Type 0 where
  enters :
      (channel from : ℕ) (bytes : List ℕ)
      → Step s (record s {
        senders =
            s.senders
            ++ record { channel = channel; from = from; bytes = bytes; progress = to_push } ∷ [];
      })
  advances :
      (i : ℕ) (x : Sender)
      → get_elem? s.senders i ≡ some x
      → Step s (record {
        world = (send_step x.progress x s.world).1;
        senders = set s.senders i (send_step x.progress x s.world).0;
      })
  calls : {w : World} → Call s.world w → Step s (record s { world = w })

pub data Reach (s : Sys) : Sys → Type 0 where
  here : Reach s s
  more : {t u : Sys} → Reach s t → Step t u → Reach s u

modify-Calms :
    (threads : List Thread) (k : ℕ) (f : Thread → Thread)
    → ((t : Thread) (token : ℕ) → (f t).state ≡ blocked token → t.state ≡ blocked token)
    → Calms threads (modify threads k f)
modify-Calms threads k f back token (i, u, e, s) = elim (get_elem?-modify threads k i f u e) [
  | inl (t, _, found, eq) ↦ (i, t, found, back t token (ap (λ (x : Thread). x.state) eq ∙ s))
  | inr (_, found) ↦ (i, u, found, s)
]

wake-blocked :
    (woken token : ℕ) (t : Thread)
    → (wake woken t).state ≡ blocked token
    → (t.state ≡ blocked token) × (token ≢ woken)
wake-blocked woken token t h = ground arith

-- After the wake nobody is blocked on the token, and no one is blocked who was not.
pub wake-Calms :
    (threads : List Thread) (woken token : ℕ)
    → BlockedOn (wake_all_on threads woken) token
    → BlockedOn threads token × (token ≢ woken)
unfolding wake_all_on
wake-Calms threads woken token (i, u, e, s) = elim (Option-cases (get_elem? threads i)) [
  | inl gone ↦ absurd (ground (arith, get_elem?-map-none (wake woken) threads i gone))
  | inr (t, found) ↦
      let eq : wake woken t ≡ u = ground (arith, get_elem?-map (wake woken) threads i t found) in
      let (was, other) = wake-blocked woken token t (ap (λ (x : Thread). x.state) eq ∙ s) in
      ((i, t, found, was), other)
]

Calm-Calms : {threads threads' : List Thread} → Calm threads threads' → Calms threads threads'
unfolding cancel_block thread_exit sleep_until start
Calm-Calms {threads} (wakes woken) token b = (wake-Calms threads woken token b).0
Calm-Calms {threads} (cancels me) token b =
    modify-Calms threads me _ (λ t token h. ground arith) token b
Calm-Calms {threads} (exits me) token b =
    modify-Calms threads me _ (λ t token h. absurd (cc)) token b
Calm-Calms {threads} (sleeps me until) token b =
    modify-Calms threads me _ (λ t token h. absurd (cc)) token b
Calm-Calms {threads} (starts tid) token b =
    modify-Calms threads tid _ (λ t token h. ground arith) token b

module _ (P : ℕ → Type 0) where
  create-IsAttended : (w : World) → IsAttendedBut P w → IsAttendedBut P (create w).1
  unfolding create
  create-IsAttended w h c ch e b = elim (get_elem?-snoc w.channels _ c ch e) [
    | inl old ↦ h c ch old.1 b
    | inr added ↦ inl (subst (λ (x : Channel). x.queue ≡ []) added.1 refl)
  ]

  took-IsAttended :
      (w otherwise : World) (channel : ℕ) (ch : Channel) (q : List Message)
      → IsAttendedBut P w
      → (q ≡ [] → IsAttendedBut P otherwise)
      → get_elem? w.channels channel ≡ some ch
      → ch.queue ≡ q
      → IsAttendedBut P (took w channel (popped ch q) otherwise).1
  unfolding took popped
  took-IsAttended w otherwise channel ch [] h o e f = o refl
  took-IsAttended w otherwise channel ch (m ∷ rest) h o e f = λ c d g b.
      elim (get_elem?-set w.channels channel c _ d g) [
        | inl (same, _) ↦ elim (h c ch (rw (← same) e) b) [
          | inl empty ↦ let no' : m ∷ rest ≡ [] = sym f ∙ empty in absurd (cc)
          | inr p ↦ inr p
        ]
        | inr (_, old) ↦ h c d old b
      ]

  -- An empty channel is what a thread may block on.
  prepare-IsAttended :
      (w : World) (me channel : ℕ)
      → ((ch : Channel) → get_elem? w.channels channel ≡ some ch → ch.queue ≡ [])
      → IsAttendedBut P w
      → IsAttendedBut P (record w { threads = prepare_block w.threads me channel })
  unfolding prepare_block
  prepare-IsAttended w me channel empty h c ch e (i, u, f, s) =
      elim (get_elem?-modify w.threads me i _ u f) [
        | inl (t, _, _, eq) ↦ let same : channel ≡ c = ground arith in inl (empty ch (rw same e))
        | inr (_, found) ↦ h c ch e (i, u, found, s)
      ]

  receive-IsAttended :
      (w : World) (me channel : ℕ)
      → IsAttendedBut P w
      → IsAttendedBut P (recv_or_prepare w me channel channel).1
  unfolding recv_or_prepare
  receive-IsAttended w me channel h = elim (Option-cases (get_elem? w.channels channel)) [
    | inl e ↦ rw (e, recv_or_prepare) h
    | inr (ch, e) ↦
        rw (e, recv_or_prepare)
          (took-IsAttended w _ channel ch ch.queue h
            (λ empty.
              prepare-IsAttended w me channel (λ d f. let same : ch ≡ d = cc in rw (← same) empty)
                h)
            e refl)
  ]

  poll-IsAttended :
      (w : World) (channel : ℕ) → IsAttendedBut P w → IsAttendedBut P (try_recv w channel).1
  unfolding try_recv
  poll-IsAttended w channel h = elim (Option-cases (get_elem? w.channels channel)) [
    | inl e ↦ rw (e, try_recv) h
    | inr (ch, e) ↦ rw (e, try_recv) (took-IsAttended w w channel ch ch.queue h (λ _. h) e refl)
  ]

  Call-IsAttended : {w v : World} → Call w v → IsAttendedBut P w → IsAttendedBut P v
  Call-IsAttended {w} creates h = create-IsAttended w h
  Call-IsAttended {w} (receives me channel) h = receive-IsAttended w me channel h
  Call-IsAttended {w} (polls channel) h = poll-IsAttended w channel h
  Call-IsAttended {w} (calms calm) h = λ c ch e b. h c ch e (Calm-Calms calm c b)
  Call-IsAttended {w} (prepares me token none_) h =
      prepare-IsAttended w me token (λ ch e. absurd (ground arith)) h

-- What was pending is, if the sender that moves was not to wake, or wakes for another channel.
set-Pending :
    (senders : List Sender) (i : ℕ) (x y : Sender) (c : ℕ)
    → get_elem? senders i ≡ some x
    → (x.progress ≡ to_wake → x.channel ≢ c)
    → Pending senders c
    → Pending (set senders i y) c
set-Pending senders i x y c at other (j, z, found, waits, on) = elim (ℕ_discrete i j) [
  | yes e ↦
      let at' : get_elem? senders j ≡ some x = rw e at at in
      let same : x ≡ z = cc in
      absurd (
        other (ap (λ (u : Sender). u.progress) same ∙ waits)
          (ap (λ (u : Sender). u.channel) same ∙ on))
  | no ne ↦ (j, z, get_elem?-set_ne senders i j y ne ∙ found, waits, on)
]

-- A message arrives, and its sender is to wake whoever is blocked on the channel.
put_message-IsAttended :
    (s : Sys) (i : ℕ) (x : Sender)
    → get_elem? s.senders i ≡ some x
    → x.progress ≡ to_push
    → IsAttended s
    → IsAttended (record {
      world = (after_put x (put_message s.world x.channel x.from x.bytes)).1;
      senders = set s.senders i (after_put x (put_message s.world x.channel x.from x.bytes)).0;
    })
unfolding put_message
put_message-IsAttended s i x at progress h =
    let keeps = λ (y : Sender) (c : ℕ). set-Pending s.senders i x y c at (λ e. absurd (cc)) in
    elim (Option-cases (get_elem? s.world.channels x.channel)) [
      | inl e ↦
          rw (e, put_message)
            (λ c d f b. elim (h c d f b) [ inl empty ↦ inl empty | inr p ↦ inr (keeps _ c p) ])
      | inr (ch, e) ↦
          rw (e, put_message)
            (λ c d f b. elim (get_elem?-set s.world.channels x.channel c _ d f) [
              | inl (same, _) ↦ inr (
                i,
                record x { progress = to_wake },
                get_elem?-set_self s.senders i _ (get_elem?-lt s.senders i x at),
                refl,
                same,
              )
              | inr (_, old) ↦ elim (h c d old b) [
                | inl empty ↦ inl empty
                | inr p ↦ inr (keeps _ c p)
              ]
            ])
    ]

wake-IsAttended :
    (s : Sys) (i : ℕ) (x : Sender)
    → get_elem? s.senders i ≡ some x
    → IsAttended s
    → IsAttended (record {
      world = wake_receivers s.world x.channel;
      senders = set s.senders i (record x { progress = returned });
    })
unfolding wake_receivers
wake-IsAttended s i x at h c d f b =
    let (was, other) = wake-Calms s.world.threads x.channel c b in
    elim (h c d f was) [
      | inl empty ↦ inl empty
      | inr p ↦ inr (set-Pending s.senders i x _ c at (λ _ e. other (sym e)) p)
    ]

advance-IsAttended :
    (s : Sys) (i : ℕ) (x : Sender) (progress : Stage)
    → get_elem? s.senders i ≡ some x
    → x.progress ≡ progress
    → IsAttended s
    → IsAttended (record {
      world = (send_step progress x s.world).1;
      senders = set s.senders i (send_step progress x s.world).0;
    })
unfolding send_step
advance-IsAttended s i x to_push at e h = put_message-IsAttended s i x at e h
advance-IsAttended s i x to_wake at e h = wake-IsAttended s i x at h
advance-IsAttended s i x returned at e h = λ c d f b. elim (h c d f b) [
  | inl empty ↦ inl empty
  | inr p ↦ inr (set-Pending s.senders i x x c at (λ w. absurd (cc)) p)
]

-- Each step, by whichever thread, keeps every channel with a message free of sleepers, but those that a
-- sender is about to wake.
pub Step-IsAttended : {s t : Sys} → Step s t → IsAttended s → IsAttended t
Step-IsAttended {s} (enters channel from bytes) h = λ c d f b. elim (h c d f b) [
  | inl empty ↦ inl empty
  | inr (i, x, at, waits, on) ↦
      inr (i, x, get_elem?-append_old s.senders _ i (get_elem?-lt s.senders i x at) ∙ at, waits, on)
]
Step-IsAttended {s} (advances i x at) h = advance-IsAttended s i x x.progress at refl h
Step-IsAttended {s} (calls call) h = Call-IsAttended (Pending s.senders) call h

-- No wakeup is lost. From a state where it is so, whatever calls the threads make, in whatever order, and
-- whatever happens between the two halves of a `send`: a thread is blocked on a channel that holds a
-- message only while a `send` to that channel has pushed its message and is yet to wake the receivers.
pub no_lost_wakeup : {s t : Sys} → IsAttended s → Reach s t → IsAttended t
no_lost_wakeup h here = h
no_lost_wakeup h (more r s) = Step-IsAttended s (no_lost_wakeup h r)
