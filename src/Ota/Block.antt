-- ===== src/Ota/Block.antt =====
-- The control block is read back from its sector as it was written.
use jungey_os.Prelude.{
  ℕ, ◌^◌, ◌≤◌, ◌<◌, ◌≡◌, ◌⊎◌, inl, inr, refl, ap, ◌∙◌, subst, true, List, arith, length, some,
  bit_and, get_elem?,
}
use jungey_os.Prelude.Bits.{bit_and-low}
use jungey_os.Disk.{Sector, blank}
use jungey_os.Fs.Codec.{copy_at, slice, put_u64, get_u64, intact}
use jungey_os.Fs.Log.{byte_at}
use jungey_os.Fs.Layout.{
  copy_at-out, slice_ext, slice-copy_at, get_u64-put_u64, put_u64-out, get_u64_ext, seal-out,
  intact-seal,
}
use jungey_os.Ota.{
  Control, SlotState, state_from, state_to, empty, unverified, successful, failed, cb_magic,
  small_fields, encode_control, decode_control,
}

pub record IsControl (c : Control) : Type 0 where
  pub seq_fits : c.seq < 2 ^ 64
  pub slot : c.active < 2
  pub version_a : c.version.a < 2 ^ 64
  pub version_b : c.version.b < 2 ^ 64
  pub digest_a : length c.digest.a ≡ 32
  pub digest_b : length c.digest.b ≡ 32

state_from-state_to : (s : SlotState) → state_from (state_to s) ≡ s
state_from-state_to empty = refl
state_from-state_to unverified = refl
state_from-state_to successful = refl
state_from-state_to failed = refl

low_bit : (n : ℕ) → n < 2 → bit_and n 1 ≡ n
low_bit n h = bit_and-low 1 n ∙ omega arith

module _ (c : Control) (fits : IsControl c) where
  abbrev top : Sector
  top = put_u64 (put_u64 blank 0 cb_magic) 8 c.seq

  abbrev small : Sector
  small = copy_at top 16 (small_fields c)

  abbrev first : Sector
  first = copy_at (put_u64 small 24 c.version.a) 40 c.digest.a

  abbrev all : Sector
  all = copy_at (put_u64 first 32 c.version.b) 72 c.digest.b

  raw-all : (i : ℕ) → i < 508 → encode_control c i ≡ all i
  unfolding encode_control
  raw-all i h = seal-out all i h

  all-first : (i : ℕ) → (i < 32) ⊎ ((40 ≤ i) × (i < 72)) → all i ≡ first i
  all-first i (inl h) =
      copy_at-out c.digest.b _ 72 i (inl (omega arith))
      ∙ put_u64-out first 32 c.version.b i (inl (omega arith))
  all-first i (inr h) =
      copy_at-out c.digest.b _ 72 i (inl (omega arith))
      ∙ put_u64-out first 32 c.version.b i (inr (omega arith))

  first-small : (i : ℕ) → i < 24 → first i ≡ small i
  first-small i h =
      copy_at-out c.digest.a _ 40 i (inl (omega arith))
      ∙ put_u64-out small 24 c.version.a i (inl (omega arith))

  raw-small : (i : ℕ) → i < 24 → encode_control c i ≡ small i
  raw-small i h = raw-all i (omega arith) ∙ all-first i (inl (omega arith)) ∙ first-small i h

  small-top : (i : ℕ) → i < 16 → small i ≡ top i
  small-top i h = copy_at-out (small_fields c) top 16 i (inl h)

  magic_kept : get_u64 (encode_control c) 0 ≡ cb_magic
  magic_kept =
      get_u64_ext _ (put_u64 blank 0 cb_magic) 0 (λ i lo hi.
        raw-small i (omega arith)
        ∙ small-top i (omega arith)
        ∙ put_u64-out _ 8 c.seq i (inl (omega arith)))
      ∙ get_u64-put_u64 blank 0 cb_magic (omega arith)

  seq_kept : get_u64 (encode_control c) 8 ≡ c.seq
  seq_kept =
      get_u64_ext _ top 8 (λ i lo hi. raw-small i (omega arith) ∙ small-top i (omega arith))
      ∙ get_u64-put_u64 (put_u64 blank 0 cb_magic) 8 c.seq fits.seq_fits

  small_kept : slice (encode_control c) 16 5 ≡ small_fields c
  small_kept =
      slice_ext (encode_control c) small 16 5 (λ i lo hi. raw-small i (omega arith))
      ∙ slice-copy_at (small_fields c) top 16

  version_a_kept : get_u64 (encode_control c) 24 ≡ c.version.a
  version_a_kept =
      get_u64_ext _ (put_u64 small 24 c.version.a) 24 (λ i lo hi.
        raw-all i (omega arith)
        ∙ all-first i (inl (omega arith))
        ∙ copy_at-out c.digest.a _ 40 i (inl (omega arith)))
      ∙ get_u64-put_u64 small 24 c.version.a fits.version_a

  version_b_kept : get_u64 (encode_control c) 32 ≡ c.version.b
  version_b_kept =
      get_u64_ext _ (put_u64 first 32 c.version.b) 32
        (λ i lo hi. raw-all i (omega arith) ∙ copy_at-out c.digest.b _ 72 i (inl (omega arith)))
      ∙ get_u64-put_u64 first 32 c.version.b fits.version_b

  digest_a_kept : slice (encode_control c) 40 32 ≡ c.digest.a
  digest_a_kept =
      slice_ext (encode_control c) first 40 32
        (λ i lo hi. raw-all i (omega arith) ∙ all-first i (inr (lo, omega arith)))
      ∙ subst (λ (n : ℕ). slice first 40 n ≡ c.digest.a) fits.digest_a
          (slice-copy_at c.digest.a (put_u64 small 24 c.version.a) 40)

  digest_b_kept : slice (encode_control c) 72 32 ≡ c.digest.b
  digest_b_kept =
      slice_ext (encode_control c) all 72 32 (λ i lo hi. raw-all i (omega arith))
      ∙ subst (λ (n : ℕ). slice all 72 n ≡ c.digest.b) fits.digest_b
          (slice-copy_at c.digest.b (put_u64 first 32 c.version.b) 72)

  small_byte :
      (k : ℕ)
      → byte_at (get_elem? (slice (encode_control c) 16 5) k)
        ≡ byte_at (get_elem? (small_fields c) k)
  small_byte k = ap (λ (xs : List ℕ). byte_at (get_elem? xs k)) small_kept

  active_kept : bit_and (encode_control c 16) 1 ≡ c.active
  active_kept = ap (λ (n : ℕ). bit_and n 1) (small_byte 0) ∙ low_bit c.active fits.slot

  state_a_kept : state_from (encode_control c 19) ≡ c.state.a
  state_a_kept = ap state_from (small_byte 3) ∙ state_from-state_to c.state.a

  state_b_kept : state_from (encode_control c 20) ≡ c.state.b
  state_b_kept = ap state_from (small_byte 4) ∙ state_from-state_to c.state.b

  -- A control block whose fields fit into their bytes comes back from its own sector as it was: the
  -- checksum passes, and so does every field of both slots.
  pub decode-encode_control : decode_control (encode_control c) ≡ some c
  unfolding decode_control
  decode-encode_control =
      let sealed : intact (encode_control c) ≡ true = unfold encode_control in intact-seal _ in
      let tries_kept : encode_control c 17 ≡ c.tries = small_byte 1 in
      let rollbacks_kept : encode_control c 18 ≡ c.rollbacks = small_byte 2 in
      rw
        (
          magic_kept, sealed, seq_kept, active_kept, tries_kept, rollbacks_kept, state_a_kept,
          state_b_kept, version_a_kept, version_b_kept, digest_a_kept, digest_b_kept,
        )
        refl
