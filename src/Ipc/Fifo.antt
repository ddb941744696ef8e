-- ===== src/Ipc/Fifo.antt =====
-- What a channel delivers: the queue as a client can see it, and what each call does to it.
use jungey_os.Prelude.{
  ℕ, zero, suc, ◌+◌, ◌≡◌, inl, inr, refl, ap, ◌∙◌, Option, none, some, List, [], ◌∷◌, ◌++◌, arith,
  length, get_elem?, set, get_elem?-set_self, get_elem?-set_ne, get_elem?-lt, ok, err, Option-cases,
  ◌==◌, if◌then◌else◌, ℕ_discrete, ==_ne, ==_iff, ◌⊎◌, true, ==_self, ap₂, length-append,
}
use jungey_os.Sched.{Thread, prepare_block, wake_all_on}
use jungey_os.Ipc.{
  put_message, wake_receivers, Message, Channel, World, send, recv_or_prepare, try_recv, pushed,
  popped, took,
}

-- The messages that wait in a channel; `none` where there is no such channel.
queued_of : Option Channel → Option (List Message)
queued_of none = none
queued_of (some ch) = some ch.queue

unfoldable pub queued : World → ℕ → Option (List Message)
unfolding queued_of
queued w channel = queued_of (get_elem? w.channels channel)

-- The abstract queue.
abbrev pub enqueue : Message → List Message → List Message
enqueue m q = q ++ m ∷ []

queued-set :
    (w : World) (threads : List Thread) (c j : ℕ) (ch old : Channel)
    → get_elem? w.channels c ≡ some old
    → queued (record { channels = set w.channels c ch; threads = threads }) j
      ≡ (if c == j then some ch.queue else queued w j)
unfolding queued queued_of
queued-set w threads c j ch old e = elim (ℕ_discrete c j) [
  | yes same ↦
      let hit : (c == j) ≡ true = (==_iff c j).1 same in
      rw (hit, ← same, get_elem?-set_self w.channels c ch (get_elem?-lt w.channels c old e)) refl
  | no ne ↦ rw (==_ne c j ne, get_elem?-set_ne w.channels c j ch ne) refl
]

-- A message that was sent stands at the end of its channel's queue, and no other channel changes; to a
-- channel that does not exist nothing is sent.
pub queued-send :
    (w : World) (channel from : ℕ) (bytes : List ℕ) (j : ℕ)
    → ((q : List Message) × (queued w channel ≡ some q)
        × ((send w channel from bytes).0 ≡ ok (length bytes))
        × (queued (send w channel from bytes).1 j ≡ (
            if channel == j
            then some (enqueue (record { from = from; bytes = bytes }) q)
            else queued w j)))
      ⊎ ((queued w channel ≡ none) × (send w channel from bytes ≡ (err "no such channel", w)))
unfolding queued queued_of send put_message wake_receivers pushed
queued-send w channel from bytes j = elim (Option-cases (get_elem? w.channels channel)) [
  | inl e ↦ inr (rw e, rw (e, put_message, send))
  | inr (ch, e) ↦ inl (
    ch.queue,
    rw e,
    rw (e, put_message, send),
    rw (e, put_message, send) (queued-set w (wake_all_on w.threads channel) channel j _ ch e),
  )
]

-- What receiving from a channel comes to, `blocked` being the world when there is nothing to take.
abbrev pub Receives : World → World → ℕ → Option Message × World → Type 0
Receives w blocked channel r =
    ((queued w channel ≡ none) × (r ≡ (none, w)))
    ⊎ ((queued w channel ≡ some []) × (r ≡ (none, blocked)))
    ⊎ ((m : Message) × (rest : List Message) × (queued w channel ≡ some (m ∷ rest))
        × (r.0 ≡ some m)
        × (r.1.threads ≡ w.threads)
        × ((j : ℕ) → queued r.1 j ≡ (if channel == j then some rest else queued w j)))

took-Receives :
    (w otherwise : World) (channel : ℕ) (ch : Channel) (q : List Message)
    → get_elem? w.channels channel ≡ some ch
    → ch.queue ≡ q
    → Receives w otherwise channel (took w channel (popped ch q) otherwise)
unfolding took popped queued queued_of
took-Receives w otherwise channel ch [] e f = inr (inl (rw e (ap some f), refl))
took-Receives w otherwise channel ch (m ∷ rest) e f =
    inr (inr (m, rest, rw e (ap some f), refl, refl, λ j. queued-set w w.threads channel j _ ch e))

-- `recv_or_prepare` takes the oldest message and leaves the caller as it is, or finds the channel
-- empty and marks the caller blocked on the token, or finds no channel and does nothing.
pub recv_or_prepare_lem :
    (w : World) (me channel token : ℕ)
    → Receives w
        (record w { threads = prepare_block w.threads me token })
        channel
        (recv_or_prepare w me channel token)
unfolding recv_or_prepare
recv_or_prepare_lem w me channel token = elim (Option-cases (get_elem? w.channels channel)) [
  | inl e ↦ rw (e, recv_or_prepare) (inl (unfold queued queued_of in rw e, refl))
  | inr (ch, e) ↦ rw (e, recv_or_prepare) (took-Receives w _ channel ch ch.queue e refl)
]

pub try_recv_lem : (w : World) (channel : ℕ) → Receives w w channel (try_recv w channel)
unfolding try_recv
try_recv_lem w channel = elim (Option-cases (get_elem? w.channels channel)) [
  | inl e ↦ rw (e, try_recv) (inl (unfold queued queued_of in rw e, refl))
  | inr (ch, e) ↦ rw (e, try_recv) (took-Receives w w channel ch ch.queue e refl)
]

-- `n` calls of `try_recv`: the messages that come, in order.
unfoldable pub drain : ℕ → World → ℕ → List Message
drain zero w channel = []
drain (suc n) w channel =
    let (m, w') = try_recv w channel in
    elim m [ none ↦ drain n w' channel | some m ↦ m ∷ drain n w' channel ]

pub drain-queued :
    (q : List Message) (w : World) (channel : ℕ)
    → queued w channel ≡ some q
    → drain (length q) w channel ≡ q
unfolding drain
drain-queued [] w channel e = refl
drain-queued (m ∷ q) w channel e = elim (try_recv_lem w channel) [
  | inl (gone, _) ↦ absurd (cc)
  | inr (inl (empty, _)) ↦ absurd (cc)
  | inr (inr (m', rest, at, got, _, after)) ↦
      let now : queued (try_recv w channel).1 channel ≡ some rest =
        rw (==_self channel) at (after channel) in
      let first : m' ≡ m = cc in
      let others : rest ≡ q = cc in
      rw (got, drain)
        (ap₂ ◌∷◌ first (drain-queued q (try_recv w channel).1 channel (now ∙ ap some others)))
]

-- Delivery in order, and unchanged: after a send, the receives that follow bring the messages that were
-- waiting, oldest first, and then the message that was sent, with its sender and its bytes.
pub drain-send :
    (w : World) (channel from : ℕ) (bytes : List ℕ) (q : List Message)
    → queued w channel ≡ some q
    → drain (length q + 1) (send w channel from bytes).1 channel
      ≡ q ++ record { from = from; bytes = bytes } ∷ []
drain-send w channel from bytes q e = elim (queued-send w channel from bytes channel) [
  | inr (gone, _) ↦ absurd (cc)
  | inl (q', at, _, after) ↦
      let m : Message = record { from = from; bytes = bytes } in
      let now : queued (send w channel from bytes).1 channel ≡ some (q' ++ m ∷ []) =
        rw (==_self channel) at after in
      let same : q' ≡ q = cc in
      let size : length q + 1 ≡ length (q' ++ m ∷ []) =
        omega (arith, length-append q' (m ∷ []), ap length same) in
      rw size (
        drain-queued (q' ++ m ∷ []) (send w channel from bytes).1 channel now
        ∙ ap (λ (x : List Message). x ++ m ∷ []) same)
]
