-- ===== src/Sha256/Padding.antt =====
-- What `finish` hashes at the end: the padding of FIPS 180-4.
use jungey_os.Prelude.{
  ℕ, zero, suc, ◌+◌, ◌-◌, ◌*◌, ◌%◌, ◌^◌, ◌<◌, ◌≡◌, refl, sym, ap, ◌∙◌, true, List, [], ◌∷◌, ◌++◌,
  arith, ◌==◌, length, length-append, replicate, Bool-cases, inl, inr, ne_of_test, ==_iff,
}
use jungey_os.Sha256.Rounds.{compress, init_state, to_be_bytes, words_to_bytes}
use jungey_os.Sha256.{Sha256, initial, update, uncount, pad_zeros, finish, digest}
use jungey_os.Sha256.Stream.{Core, core, feed, feed-append, feed-fits, length-feed, update_lem}

length-to_be_bytes : (n v : ℕ) → length (to_be_bytes n v) ≡ n
length-to_be_bytes zero v = refl
length-to_be_bytes (suc n) v = ap suc (length-to_be_bytes n v)

pad_zeros_lem :
    (fuel k : ℕ) (h : Sha256)
    → length h.block < 64
    → k ≡ (120 - length h.block) % 64
    → k < fuel
    → (core (pad_zeros fuel h) ≡ feed (core h) (replicate k 0))
      × (length (pad_zeros fuel h).block ≡ 56)
unfolding pad_zeros feed
pad_zeros_lem zero k h open_ count enough = absurd (omega arith)
pad_zeros_lem (suc fuel) zero h open_ count enough = elim (Bool-cases (length h.block == 56)) [
  | inl stop ↦ rw stop (refl, ground arith)
  | inr go ↦ absurd (omega (arith, ne_of_test (length h.block) 56 go))
]
pad_zeros_lem (suc fuel) (suc k) h open_ count enough = elim (Bool-cases (length h.block == 56)) [
  | inl stop ↦ absurd (ground arith)
  | inr go ↦
      let g : Sha256 = uncount (update h (0 ∷ [])) in
      let one = update_lem h (0 ∷ []) open_ in
      let size : length g.block ≡ (length h.block + 1) % 64 =
        ap (λ (c : Core). length c.1) one.0 ∙ length-feed (0 ∷ []) (core h) open_ in
      let rest =
        pad_zeros_lem fuel k g (omega arith) (omega (arith, ne_of_test (length h.block) 56 go))
          (omega arith) in
      rw go (
        rest.0
            ∙ ap (λ (c : Core). feed c (replicate k 0)) one.0
            ∙ feed-append (0 ∷ []) (core h) (replicate k 0),
        rest.1,
      )
]

last_block :
    (q : Sha256) (v : ℕ)
    → length q.block ≡ 56
    → feed (core q) (to_be_bytes 8 v) ≡ (compress q.state (q.block ++ to_be_bytes 8 v), [])
last_block q v h =
    let size : length (to_be_bytes 8 v) ≡ 8 = length-to_be_bytes 8 v in
    let full : (length (q.block ++ to_be_bytes 8 v) == 64) ≡ true =
      (==_iff _ _).1 (omega (arith, length-append q.block (to_be_bytes 8 v))) in
    feed-fits (to_be_bytes 8 v) (core q) (omega arith) (omega arith) ∙ rw full refl

-- How many zeros fill the last block but for the length.
abbrev pub zeros_for : ℕ → ℕ
zeros_for n = (119 - n % 64) % 64

-- The padded message is whole blocks.
abbrev pub padded : List ℕ → List ℕ
padded bytes =
    (bytes ++ 0x80 ∷ [])
    ++ (replicate (zeros_for (length bytes)) 0 ++ to_be_bytes 8 (length bytes * 8 % 2 ^ 64))

-- The digest is that of the padded message: `digest` feeds the bytes, one 0x80, zeros up to 56 bytes into
-- a block and the length in bits as eight bytes, high byte first, to the compression function, block by
-- block from the initial state, and the loop that pads always ends there.
pub digest_lem :
    (bytes : List ℕ)
    → (digest bytes ≡ words_to_bytes (feed (init_state, []) (padded bytes)).0)
      × (length (feed (init_state, []) (padded bytes)).1 ≡ 0)
unfolding digest finish
digest_lem bytes =
    let start : Core = (init_state, []) in
    let h : Sha256 = update initial bytes in
    let fed = update_lem initial bytes (omega arith) in
    let size : length h.block ≡ (0 + length bytes) % 64 =
      ap (λ (c : Core). length c.1) fed.0 ∙ length-feed bytes start (omega arith) in
    let one = update_lem h (0x80 ∷ []) (omega arith) in
    let size' : length (update h (0x80 ∷ [])).block ≡ (length h.block + 1) % 64 =
      ap (λ (c : Core). length c.1) one.0 ∙ length-feed (0x80 ∷ []) (core h) (omega arith) in
    let k : ℕ = zeros_for (length bytes) in
    let p =
      pad_zeros_lem 64 k (uncount (update h (0x80 ∷ []))) (omega arith) (omega arith)
        (omega arith) in
    let q : Sha256 = pad_zeros 64 (uncount (update h (0x80 ∷ []))) in
    let bits : h.total * 8 % 2 ^ 64 ≡ length bytes * 8 % 2 ^ 64 = omega (arith, fed.1) in
    let be : List ℕ = to_be_bytes 8 (h.total * 8 % 2 ^ 64) in
    let tail : List ℕ = to_be_bytes 8 (length bytes * 8 % 2 ^ 64) in
    let closed : feed (core q) be ≡ (compress q.state (q.block ++ be), []) =
      last_block q (h.total * 8 % 2 ^ 64) p.1 in
    let before : core q ≡ feed (feed start (bytes ++ 0x80 ∷ [])) (replicate k 0) =
      p.0
      ∙ ap (λ (c : Core). feed c (replicate k 0))
          (one.0
            ∙ ap (λ (c : Core). feed c (0x80 ∷ [])) fed.0
            ∙ feed-append bytes start (0x80 ∷ [])) in
    let whole : (compress q.state (q.block ++ be), []) ≡ feed start (padded bytes) =
      sym closed
      ∙ ap (λ (v : ℕ). feed (core q) (to_be_bytes 8 v)) bits
      ∙ ap (λ (c : Core). feed c tail) before
      ∙ feed-append (replicate k 0) (feed start (bytes ++ 0x80 ∷ [])) tail
      ∙ feed-append (bytes ++ 0x80 ∷ []) start (replicate k 0 ++ tail) in
    (ap (λ (c : Core). words_to_bytes c.0) whole, ap (λ (c : Core). length c.1) (sym whole))
