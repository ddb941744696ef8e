-- ===== src/Sha256.antt =====
-- kernel/src/sha256.rs: SHA-256 over bytes. A word is a number below 2 ^ 32. Of `block` only the first
-- `filled` bytes count, and they are what `block` is here.
pub mod Rounds
pub mod Stream
pub mod Padding
pub mod Size
pub mod Hex
mod Tests
use jungey_os.Prelude.{
  ℕ, zero, suc, ◌+◌, ◌-◌, ◌*◌, ◌/◌, ◌%◌, ◌^◌, min, List, [], ◌∷◌, ◌++◌, ◌==◌, if◌then◌else◌, length,
  take, drop,
}
use jungey_os.Sha256.Rounds.{init_state, compress, to_be_bytes, words_to_bytes}

pub record Sha256 : Type 0 where
  pub state : List ℕ
  pub block : List ℕ
  pub total : ℕ

abbrev pub initial : Sha256
initial = record { state = init_state; block = []; total = 0 }

-- `if self.filled == 64`
abbrev pub settle : Sha256 → Sha256
settle h =
    if length h.block == 64 then record h { state = compress h.state h.block; block = [] } else h

-- `while !data.is_empty()`: one round for each byte is enough.
unfoldable pub absorb : (fuel : ℕ) → Sha256 → List ℕ → Sha256
absorb zero h bytes = h
absorb (suc fuel) h [] = h
absorb (suc fuel) h (x ∷ xs) =
    let n = min (64 - length h.block) (length (x ∷ xs)) in
    absorb fuel (settle (record h { block = h.block ++ take n (x ∷ xs) })) (drop n (x ∷ xs))

unfoldable pub update : Sha256 → List ℕ → Sha256
update h bytes =
    absorb (length bytes) (record h { total = (h.total + length bytes) % 2 ^ 64 }) bytes

abbrev pub uncount : Sha256 → Sha256
uncount h = record h { total = (h.total + (2 ^ 64 - 1)) % 2 ^ 64 }

-- `while self.filled != 56`: at most one block of zeros.
unfoldable pub pad_zeros : (fuel : ℕ) → Sha256 → Sha256
pad_zeros zero h = h
pad_zeros (suc fuel) h =
    if length h.block == 56 then h else pad_zeros fuel (uncount (update h (0 ∷ [])))

unfoldable pub finish : Sha256 → List ℕ
finish h =
    let padded = pad_zeros 64 (uncount (update h (0x80 ∷ []))) in
    words_to_bytes (compress padded.state (padded.block ++ to_be_bytes 8 (h.total * 8 % 2 ^ 64)))

unfoldable pub digest : List ℕ → List ℕ
digest bytes = finish (update initial bytes)
