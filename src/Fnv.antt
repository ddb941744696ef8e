-- ===== src/Fnv.antt =====
-- FNV-1a over 64 bits, as kernel/src/audit.rs (`hash_record`) and kernel/src/model.rs (`hash_bytes`)
-- both write it out: an exclusive or with the byte, then a multiplication that wraps.
use jungey_os.Prelude.{
  ℕ, zero, suc, ◌*◌, ◌%◌, ◌^◌, ◌<◌, ◌≡◌, ap, sym, bit_xor, List, [], ◌∷◌, some, All, set, length,
  get_elem?, arith,
}
use jungey_os.Prelude.Xor.{bit_xor-lt, bit_xor-cancel_left, bit_xor-cancel_right}

abbrev pub fnv_basis : ℕ
fnv_basis = 0xcbf2_9ce4_8422_2325

abbrev pub fnv_prime : ℕ
fnv_prime = 0x0000_0100_0000_01B3

unfoldable pub mix : (h b : ℕ) → ℕ
mix h b = bit_xor h b * fnv_prime % 2 ^ 64

unfoldable pub hash_bytes : (seed : ℕ) → List ℕ → ℕ
unfolding mix
hash_bytes h [] = h
hash_bytes h (b ∷ bs) = hash_bytes (mix h b) bs

-- The prime is odd, so that the multiplication loses nothing.
times_prime :
    (x y : ℕ) → x < 2 ^ 64 → y < 2 ^ 64 → x * fnv_prime % 2 ^ 64 ≡ y * fnv_prime % 2 ^ 64 → x ≡ y
times_prime x y h g e = omega arith

pub mix-lt : (h b : ℕ) → mix h b < 2 ^ 64
unfolding mix
mix-lt h b = omega arith

mix-cancel_byte : (h b c : ℕ) → h < 2 ^ 64 → b < 256 → c < 256 → mix h b ≡ mix h c → b ≡ c
unfolding mix
mix-cancel_byte h b c s p q e = bit_xor-cancel_left h b c (
    times_prime (bit_xor h b) (bit_xor h c) (bit_xor-lt 64 h b s (omega arith))
      (bit_xor-lt 64 h c s (omega arith)) e)

mix-cancel_state : (h g b : ℕ) → h < 2 ^ 64 → g < 2 ^ 64 → b < 256 → mix h b ≡ mix g b → h ≡ g
unfolding mix
mix-cancel_state h g b s t p e = bit_xor-cancel_right h g b (
    times_prime (bit_xor h b) (bit_xor g b) (bit_xor-lt 64 h b s (omega arith))
      (bit_xor-lt 64 g b t (omega arith)) e)

abbrev pub IsByte : ℕ → Type 0
IsByte b = b < 256

-- Equal hashes of the same bytes come from equal seeds.
hash_bytes-cancel :
    (bs : List ℕ) (h g : ℕ)
    → All IsByte bs
    → h < 2 ^ 64
    → g < 2 ^ 64
    → hash_bytes h bs ≡ hash_bytes g bs
    → h ≡ g
unfolding hash_bytes
hash_bytes-cancel [] h g bytes s t e = e
hash_bytes-cancel (b ∷ bs) h g bytes s t e =
    mix-cancel_state h g b s t bytes.0
      (hash_bytes-cancel bs (mix h b) (mix g b) bytes.1 (mix-lt h b) (mix-lt g b) e)

-- A hash finds any change of one byte.
pub hash_bytes-set :
    (bs : List ℕ) (h i v : ℕ)
    → All IsByte bs
    → h < 2 ^ 64
    → v < 256
    → i < length bs
    → hash_bytes h (set bs i v) ≡ hash_bytes h bs
    → get_elem? bs i ≡ some v
unfolding hash_bytes
hash_bytes-set [] h i v bytes s p lt e = elim lt [ ]
hash_bytes-set (b ∷ bs) h zero v bytes s p lt e = ap some (
    mix-cancel_byte h b v s bytes.0 p
      (sym (hash_bytes-cancel bs (mix h v) (mix h b) bytes.1 (mix-lt h v) (mix-lt h b) e)))
hash_bytes-set (b ∷ bs) h (suc i) v bytes s p lt e =
    hash_bytes-set bs (mix h b) i v bytes.1 (mix-lt h b) p (omega arith) e

pub hash_bytes-lt : (bs : List ℕ) (h : ℕ) → h < 2 ^ 64 → hash_bytes h bs < 2 ^ 64
unfolding hash_bytes
hash_bytes-lt [] h s = s
hash_bytes-lt (b ∷ bs) h s = hash_bytes-lt bs (mix h b) (mix-lt h b)
