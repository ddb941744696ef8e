-- ===== src/Sha256/Tests.antt =====
-- The digest of "abc", as FIPS 180-4 gives it.
use jungey_os.Prelude.{◌≡◌, refl, [], ◌∷◌, length}
use jungey_os.Sha256.Rounds.{
  init_state, compress, words_to_bytes, element, load_words, extend_words, next_word, round, rounds,
  add_words, rotate_right, wrapping_add, xor3,
}
use jungey_os.Sha256.Stream.{feed}
use jungey_os.Sha256.Padding.{padded, digest_lem}
use jungey_os.Sha256.{digest, finish, update, absorb, pad_zeros}

abc :
    digest (97 ∷ 98 ∷ 99 ∷ [])
    ≡ 0xba ∷ 0x78 ∷ 0x16 ∷ 0xbf ∷ 0x8f ∷ 0x01 ∷ 0xcf ∷ 0xea ∷ 0x41 ∷ 0x41 ∷ 0x40 ∷ 0xde ∷ 0x5d
      ∷ 0xae ∷ 0x22 ∷ 0x23 ∷ 0xb0 ∷ 0x03 ∷ 0x61 ∷ 0xa3 ∷ 0x96 ∷ 0x17 ∷ 0x7a ∷ 0x9c ∷ 0xb4 ∷ 0x10
      ∷ 0xff ∷ 0x61 ∷ 0xf2 ∷ 0x00 ∷ 0x15 ∷ 0xad ∷ []
unfolding digest finish update absorb pad_zeros compress words_to_bytes element load_words
    extend_words next_word round rounds add_words rotate_right wrapping_add xor3
abc = refl

digest_lem_example :
    (digest (97 ∷ []) ≡ words_to_bytes (feed (init_state, []) (padded (97 ∷ []))).0)
    × (length (feed (init_state, []) (padded (97 ∷ []))).1 ≡ 0)
digest_lem_example = digest_lem (97 ∷ [])
