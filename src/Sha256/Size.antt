-- ===== src/Sha256/Size.antt =====
-- A digest is 32 bytes.
use jungey_os.Prelude.{
  ℕ, suc, ◌*◌, ◌≡◌, refl, ap, ◌∙◌, List, [], ◌∷◌, ◌++◌, arith, ◌==◌, length, length-append,
  Bool-cases, inl, inr,
}
use jungey_os.Sha256.Rounds.{
  compress, init_state, rounds, round, add_words, words_to_bytes, to_be_bytes, round_constants,
  extend_words, load_words,
}
use jungey_os.Sha256.{digest}
use jungey_os.Sha256.Stream.{Core, close, feed}
use jungey_os.Sha256.Padding.{padded, digest_lem}

length-rounds : (ks ws h : List ℕ) → length h ≡ 8 → length (rounds h ks ws) ≡ 8
unfolding rounds round
length-rounds [] ws h e = e
length-rounds (k ∷ ks) [] h e = e
length-rounds (k ∷ ks) (w ∷ ws) h e = length-rounds ks ws (round h k w) refl

length-add_words : (ss hs : List ℕ) → length ss ≡ length hs → length (add_words ss hs) ≡ length ss
unfolding add_words
length-add_words [] hs e = refl
length-add_words (s ∷ ss) [] e = absurd (omega arith)
length-add_words (s ∷ ss) (h ∷ hs) e = ap suc (length-add_words ss hs (omega arith))

length-compress : (state block : List ℕ) → length state ≡ 8 → length (compress state block) ≡ 8
unfolding compress
length-compress state block e =
    let w = length-rounds round_constants (extend_words 48 16 (load_words 16 block)) state e in
    length-add_words state _ (omega arith) ∙ e

length-close : (c : Core) → length c.0 ≡ 8 → length (close c).0 ≡ 8
length-close c e = elim (Bool-cases (length c.1 == 64)) [
  | inl full ↦ rw full (length-compress c.0 c.1 e)
  | inr more ↦ rw more e
]

length-feed_state : (xs : List ℕ) (c : Core) → length c.0 ≡ 8 → length (feed c xs).0 ≡ 8
unfolding feed
length-feed_state [] c e = e
length-feed_state (x ∷ xs) c e =
    length-feed_state xs (close (c.0, c.1 ++ x ∷ [])) (length-close (c.0, c.1 ++ x ∷ []) e)

length-words_to_bytes : (ws : List ℕ) → length (words_to_bytes ws) ≡ 4 * length ws
unfolding words_to_bytes
length-words_to_bytes [] = refl
length-words_to_bytes (w ∷ ws) =
    omega (arith, length-words_to_bytes ws, length-append (to_be_bytes 4 w) (words_to_bytes ws))

pub length-digest : (bytes : List ℕ) → length (digest bytes) ≡ 32
length-digest bytes =
    ap length (digest_lem bytes).0
    ∙ omega (
      arith,
      length-words_to_bytes (feed (init_state, []) (padded bytes)).0,
      length-feed_state (padded bytes) (init_state, []) refl,
    )
