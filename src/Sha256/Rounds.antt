-- ===== src/Sha256/Rounds.antt =====
-- kernel/src/sha256.rs: the compression function and its constants.
use jungey_os.Prelude.{
  ℕ, zero, suc, ◌+◌, ◌-◌, ◌*◌, ◌/◌, ◌%◌, ◌^◌, bit_and, bit_xor, List, [], ◌∷◌, ◌++◌, drop,
}

abbrev pub round_constants : List ℕ
round_constants =
    0x428a2f98 ∷ 0x71374491 ∷ 0xb5c0fbcf ∷ 0xe9b5dba5 ∷ 0x3956c25b ∷ 0x59f111f1 ∷ 0x923f82a4
    ∷ 0xab1c5ed5 ∷ 0xd807aa98 ∷ 0x12835b01 ∷ 0x243185be ∷ 0x550c7dc3 ∷ 0x72be5d74 ∷ 0x80deb1fe
    ∷ 0x9bdc06a7 ∷ 0xc19bf174 ∷ 0xe49b69c1 ∷ 0xefbe4786 ∷ 0x0fc19dc6 ∷ 0x240ca1cc ∷ 0x2de92c6f
    ∷ 0x4a7484aa ∷ 0x5cb0a9dc ∷ 0x76f988da ∷ 0x983e5152 ∷ 0xa831c66d ∷ 0xb00327c8 ∷ 0xbf597fc7
    ∷ 0xc6e00bf3 ∷ 0xd5a79147 ∷ 0x06ca6351 ∷ 0x14292967 ∷ 0x27b70a85 ∷ 0x2e1b2138 ∷ 0x4d2c6dfc
    ∷ 0x53380d13 ∷ 0x650a7354 ∷ 0x766a0abb ∷ 0x81c2c92e ∷ 0x92722c85 ∷ 0xa2bfe8a1 ∷ 0xa81a664b
    ∷ 0xc24b8b70 ∷ 0xc76c51a3 ∷ 0xd192e819 ∷ 0xd6990624 ∷ 0xf40e3585 ∷ 0x106aa070 ∷ 0x19a4c116
    ∷ 0x1e376c08 ∷ 0x2748774c ∷ 0x34b0bcb5 ∷ 0x391c0cb3 ∷ 0x4ed8aa4a ∷ 0x5b9cca4f ∷ 0x682e6ff3
    ∷ 0x748f82ee ∷ 0x78a5636f ∷ 0x84c87814 ∷ 0x8cc70208 ∷ 0x90befffa ∷ 0xa4506ceb ∷ 0xbef9a3f7
    ∷ 0xc67178f2 ∷ []

abbrev pub init_state : List ℕ
init_state =
    0x6a09e667 ∷ 0xbb67ae85 ∷ 0x3c6ef372 ∷ 0xa54ff53a ∷ 0x510e527f ∷ 0x9b05688c ∷ 0x1f83d9ab
    ∷ 0x5be0cd19 ∷ []

-- An element of an array, at an index below its length.
unfoldable pub element : List ℕ → ℕ → ℕ
element [] i = 0
element (x ∷ xs) zero = x
element (x ∷ xs) (suc i) = element xs i

unfoldable pub rotate_right : ℕ → ℕ → ℕ
rotate_right x n = (x / 2 ^ n + x * 2 ^ (32 - n)) % 2 ^ 32

unfoldable pub wrapping_add : ℕ → ℕ → ℕ
wrapping_add a b = (a + b) % 2 ^ 32

unfoldable pub xor3 : ℕ → ℕ → ℕ → ℕ
xor3 a b c = bit_xor (bit_xor a b) c

-- u32::from_be_bytes of each four bytes
unfoldable pub load_words : (count : ℕ) → List ℕ → List ℕ
load_words zero block = []
load_words (suc count) block =
    let word =
      ((element block 0 * 256 + element block 1) * 256 + element block 2) * 256 + element block 3 in
    word ∷ load_words count (drop 4 block)

unfoldable pub next_word : List ℕ → (i : ℕ) → ℕ
unfolding element rotate_right wrapping_add xor3
next_word w i =
    let a = element w (i - 15) in
    let b = element w (i - 2) in
    let s0 = xor3 (rotate_right a 7) (rotate_right a 18) (a / 2 ^ 3) in
    let s1 = xor3 (rotate_right b 17) (rotate_right b 19) (b / 2 ^ 10) in
    wrapping_add (wrapping_add (wrapping_add (element w (i - 16)) s0) (element w (i - 7))) s1

-- `for i in 16..64`
unfoldable pub extend_words : (left i : ℕ) → List ℕ → List ℕ
extend_words zero i w = w
extend_words (suc left) i w = extend_words left (i + 1) (w ++ next_word w i ∷ [])

unfoldable pub round : List ℕ → (k w : ℕ) → List ℕ
unfolding element rotate_right wrapping_add xor3
round h k w =
    let h0 = element h 0 in
    let h1 = element h 1 in
    let h2 = element h 2 in
    let h4 = element h 4 in
    let h5 = element h 5 in
    let h6 = element h 6 in
    let s1 = xor3 (rotate_right h4 6) (rotate_right h4 11) (rotate_right h4 25) in
    let ch = bit_xor (bit_and h4 h5) (bit_and (2 ^ 32 - 1 - h4) h6) in
    let t1 = wrapping_add (wrapping_add (wrapping_add (wrapping_add (element h 7) s1) ch) k) w in
    let s0 = xor3 (rotate_right h0 2) (rotate_right h0 13) (rotate_right h0 22) in
    let maj = xor3 (bit_and h0 h1) (bit_and h0 h2) (bit_and h1 h2) in
    let t2 = wrapping_add s0 maj in
    wrapping_add t1 t2 ∷ h0 ∷ h1 ∷ h2 ∷ wrapping_add (element h 3) t1 ∷ h4 ∷ h5 ∷ h6 ∷ []

-- `for i in 0..64`
unfoldable pub rounds : List ℕ → (ks ws : List ℕ) → List ℕ
rounds h [] ws = h
rounds h (k ∷ ks) [] = h
rounds h (k ∷ ks) (w ∷ ws) = rounds (round h k w) ks ws

unfoldable pub add_words : List ℕ → List ℕ → List ℕ
unfolding wrapping_add
add_words [] hs = []
add_words (s ∷ ss) [] = []
add_words (s ∷ ss) (h ∷ hs) = wrapping_add s h ∷ add_words ss hs

unfoldable pub compress : (state block : List ℕ) → List ℕ
compress state block =
    add_words state (rounds state round_constants (extend_words 48 16 (load_words 16 block)))

-- to_be_bytes, by the number of bytes
abbrev pub to_be_bytes : (n : ℕ) → ℕ → List ℕ
to_be_bytes zero v = []
to_be_bytes (suc n) v = v / 256 ^ n % 256 ∷ to_be_bytes n v

unfoldable pub words_to_bytes : List ℕ → List ℕ
words_to_bytes [] = []
words_to_bytes (w ∷ ws) = to_be_bytes 4 w ++ words_to_bytes ws
