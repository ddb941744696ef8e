-- ===== src/Measure.antt =====
-- kernel/src/measure.rs: the digests of the kernel and of the first program, against the one that the
-- build recorded. The bytes of the kernel and the recorded digits are arguments.
mod Tests
use jungey_os.Prelude.{
  ℕ, zero, suc, ◌+◌, ◌-◌, ◌*◌, ◌/◌, ◌%◌, ◌<◌, ◌≤◌, ◌≡◌, ◌↔◌, ◌⊎◌, inl, inr, refl, sym, ◌∙◌, ap, ap₂,
  arith, bit_xor, min, Bool, true, false, ◌&&◌, Bool-cases, Option, none, some, List, [], ◌∷◌, ◌++◌,
  length, get_elem?, get_elem?-some, take, drop, modify, All, ◌==◌, ==_iff,
}
use mathlib.Core.List.{append_assoc}
use jungey_os.Fs.Names.{same_bytes}
use jungey_os.Fs.Contents.{same_bytes_self}
use jungey_os.Sha256.Rounds.{to_be_bytes, words_to_bytes}
use jungey_os.Sha256.{Sha256, initial, update, finish, digest}
use jungey_os.Sha256.Padding.{digest_lem, padded}
use jungey_os.Sha256.Stream.{update-append, update_lem, length-feed, core}
use jungey_os.Sha256.Size.{length-digest}
use jungey_os.Sha256.Hex.{hex, from_hex, from_hex-hex}

pub record Boot : Type 0 where
  pub kernel : List ℕ
  pub init : List ℕ
  pub expected : Option (List ℕ)
  pub ok : Bool

abbrev pub agrees : Option (List ℕ) → List ℕ → Bool
agrees none found = false
agrees (some d) found = same_bytes d found

unfoldable pub measure : (kernel_image init recorded : List ℕ) → Boot
measure kernel_image init recorded = record {
  kernel = digest kernel_image;
  init = digest init;
  expected = from_hex recorded;
  ok = agrees (from_hex recorded) (digest init);
}

-- The byte at the place is looked at before it is hashed; an empty image has none, and panics.
abbrev pub flipped : (init : List ℕ) (at : ℕ) → Option ℕ → Option (List ℕ)
flipped init at none = none
flipped init at (some b) = some (
    finish
      (update (update (update initial (take at init)) (bit_xor b 255 ∷ [])) (drop (at + 1) init)))

unfoldable pub measure_with_flipped_byte : (init : List ℕ) (at : ℕ) → Option (List ℕ)
measure_with_flipped_byte init at =
    let at = min at (length init - 1) in flipped init at (get_elem? init at)

same_bytes-same : (xs ys : List ℕ) → same_bytes xs ys ≡ true → xs ≡ ys
unfolding same_bytes
same_bytes-same [] [] h = refl
same_bytes-same [] (y ∷ ys) h = cc
same_bytes-same (x ∷ xs) [] h = cc
same_bytes-same (x ∷ xs) (y ∷ ys) h = elim (Bool-cases (x == y)) [
  | inl e ↦
      let head : x ≡ y = (==_iff x y).0 e in
      let rest : same_bytes xs ys ≡ true = rw e at h in ap₂ ◌∷◌ head (same_bytes-same xs ys rest)
  | inr e ↦ let h' : false ≡ true = rw e at h in cc
]

words_to_bytes-All : (ws : List ℕ) → All (λ b. b < 256) (words_to_bytes ws)
unfolding words_to_bytes
words_to_bytes-All [] = tt
words_to_bytes-All (w ∷ ws) =
    (omega arith, (omega arith, (omega arith, (omega arith, words_to_bytes-All ws))))

digest-All : (bytes : List ℕ) → All (λ b. b < 256) (digest bytes)
digest-All bytes = rw (digest_lem bytes).0 (words_to_bytes-All _)

-- The kernel goes on with an image exactly if its digest is the digest of the image that was there when
-- the two were built, whose 64 digits the build recorded.
pub measure_lem :
    (kernel_image built init : List ℕ)
    → ((measure kernel_image init (hex (digest built))).ok ≡ true) ↔ (digest built ≡ digest init)
unfolding measure
measure_lem kernel_image built init =
    let parsed = from_hex-hex (digest built) (length-digest built) (digest-All built) in
    (
      λ h.
          let same : same_bytes (digest built) (digest init) ≡ true = rw parsed at h in
          same_bytes-same (digest built) (digest init) same,
      λ e. rw (parsed, e) (same_bytes_self (digest init)),
    )

split-modify :
    (xs : List ℕ) (i b : ℕ) (f : ℕ → ℕ)
    → get_elem? xs i ≡ some b
    → take i xs ++ (f b ∷ drop (suc i) xs) ≡ modify xs i f
split-modify [] i b f h = cc
split-modify (x ∷ xs) zero b f h =
    let e : some x ≡ some b = h in let same : b ≡ x = cc in ap (λ y. f y ∷ xs) same
split-modify (x ∷ xs) (suc i) b f h = ap (◌∷◌ x) (split-modify xs i b f h)

in_pieces :
    (init : List ℕ) (i b : ℕ)
    → get_elem? init i ≡ some b
    → update (update (update initial (take i init)) (bit_xor b 255 ∷ [])) (drop (i + 1) init)
      ≡ update initial (modify init i (λ c. bit_xor c 255))
in_pieces init i b h =
    let next : i + 1 ≡ suc i = omega arith in
    let head = take i init in
    let x = bit_xor b 255 in
    ap (λ g. update g (drop (i + 1) init)) (update-append initial head (x ∷ []) (omega arith))
    ∙ update-append initial (head ++ x ∷ []) (drop (i + 1) init) (omega arith)
    ∙ ap (update initial) (
        append_assoc head (x ∷ []) (drop (i + 1) init)
        ∙ ap (λ n. head ++ (x ∷ drop n init)) next
        ∙ split-modify init i b (λ c. bit_xor c 255) h)

-- The test of the check hashes what it says: for an image that is not empty, the digest of the image
-- with the byte at that place inverted, or the last byte if the place is past the end, though the image
-- is never copied.
pub measure_with_flipped_byte_lem :
    (init : List ℕ) (at : ℕ)
    → 0 < length init
    → measure_with_flipped_byte init at
      ≡ some (digest (modify init (min at (length init - 1)) (λ c. bit_xor c 255)))
unfolding measure_with_flipped_byte digest
measure_with_flipped_byte_lem init at h =
    let i = min at (length init - 1) in
    let (b, found) = get_elem?-some init i (omega arith) in
    rw found (ap (λ g. some (finish g)) (in_pieces init i b found))
