-- ===== src/Ipc/Counts.antt =====
-- The counters of a channel agree with its queue.
use jungey_os.Prelude.{
  ℕ, ◌+◌, ◌≡◌, inl, inr, refl, some, List, [], ◌∷◌, arith, length, length-append, get_elem?,
  get_elem?-snoc, set_all, Option-cases, ap, subst,
}
use jungey_os.Ipc.{
  put_message, wake_receivers, Message, Channel, World, create, send, recv_or_prepare, try_recv,
  pushed, popped, took, stats,
}

abbrev pub Balanced : Channel → Type 0
Balanced ch = ch.sent ≡ ch.received + length ch.queue

-- In every channel, what was sent was received or still waits.
abbrev pub IsBalanced : World → Type 0
IsBalanced w = (j : ℕ) (ch : Channel) → get_elem? w.channels j ≡ some ch → Balanced ch

create-IsBalanced : (w : World) → IsBalanced w → IsBalanced (create w).1
unfolding create
create-IsBalanced w h j ch e = elim (get_elem?-snoc w.channels _ j ch e) [
  | inl old ↦ h j ch old.1
  | inr new ↦ subst Balanced new.1 (omega arith)
]

send-IsBalanced :
    (w : World) (channel from : ℕ) (bytes : List ℕ)
    → IsBalanced w
    → IsBalanced (send w channel from bytes).1
unfolding send put_message wake_receivers pushed
send-IsBalanced w channel from bytes h = elim (Option-cases (get_elem? w.channels channel)) [
  | inl e ↦ rw (e, put_message, send) h
  | inr (ch, e) ↦
      rw (e, put_message, send)
        (set_all (λ _ (c : Channel). Balanced c) w.channels channel _
          (omega (arith, h channel ch e, length-append ch.queue (_ ∷ []))) (λ j c f _. h j c f))
]

took-IsBalanced :
    (w otherwise : World) (channel : ℕ) (ch : Channel) (q : List Message)
    → IsBalanced w
    → IsBalanced otherwise
    → get_elem? w.channels channel ≡ some ch
    → ch.queue ≡ q
    → IsBalanced (took w channel (popped ch q) otherwise).1
unfolding took popped
took-IsBalanced w otherwise channel ch [] h o e f = o
took-IsBalanced w otherwise channel ch (m ∷ rest) h o e f =
    set_all (λ _ (c : Channel). Balanced c) w.channels channel _
      (omega (arith, h channel ch e, ap length f)) (λ j c g _. h j c g)

recv_or_prepare-IsBalanced :
    (w : World) (me channel token : ℕ)
    → IsBalanced w
    → IsBalanced (recv_or_prepare w me channel token).1
unfolding recv_or_prepare
recv_or_prepare-IsBalanced w me channel token h =
    elim (Option-cases (get_elem? w.channels channel)) [
      | inl e ↦ rw (e, recv_or_prepare) h
      | inr (ch, e) ↦ rw (e, recv_or_prepare) (took-IsBalanced w _ channel ch ch.queue h h e refl)
    ]

try_recv-IsBalanced : (w : World) (channel : ℕ) → IsBalanced w → IsBalanced (try_recv w channel).1
unfolding try_recv
try_recv-IsBalanced w channel h = elim (Option-cases (get_elem? w.channels channel)) [
  | inl e ↦ rw (e, try_recv) h
  | inr (ch, e) ↦ rw (e, try_recv) (took-IsBalanced w w channel ch ch.queue h h e refl)
]

-- Every call keeps the books: in each channel, `sent` is `received` and what still waits together.
pub calls-IsBalanced :
    (w : World) (me channel token from : ℕ) (bytes : List ℕ)
    → IsBalanced w
    → IsBalanced (create w).1
      × IsBalanced (send w channel from bytes).1
      × IsBalanced (recv_or_prepare w me channel token).1
      × IsBalanced (try_recv w channel).1
      × ((stats w channel).sent ≡ (stats w channel).received + (stats w channel).queued)
unfolding stats
calls-IsBalanced w me channel token from bytes h = (
  create-IsBalanced w h,
  send-IsBalanced w channel from bytes h,
  recv_or_prepare-IsBalanced w me channel token h,
  try_recv-IsBalanced w channel h,
  elim (Option-cases (get_elem? w.channels channel)) [
    | inl e ↦ rw (e, stats) (omega arith)
    | inr (ch, e) ↦ rw (e, stats) (h channel ch e)
  ],
)
