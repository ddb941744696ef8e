-- ===== src/Mm/Counter.antt =====
-- A frame allocator for the tests, in the place of kernel/src/mm/frames.rs.
use jungey_os.Prelude.{
  inl, ℕ, ◌+◌, ◌*◌, ◌<◌, ◌≤◌, ◌≡◌, inr, refl, Option, none, some, arith, ltb, ltb→lt, Bool-cases,
  if◌then◌else◌,
}
use jungey_os.Mm.Source.{FrameSource, FrameLaws}

-- An allocator that counts: frame after frame, up to the thousandth.
abbrev take_next : ℕ → Option ℕ × ℕ
take_next n = if ltb n 1000 then (some ((n + 1) * 4096), n + 1) else (none, n)

abbrev pub counter : FrameSource
counter = record { Pool = ℕ; take_frame = take_next; give_back = λ n f. n }

take_next-given :
    (n f : ℕ)
    → (take_next n).0 ≡ some f
    → (n < 1000) × (f ≡ (n + 1) * 4096) × ((take_next n).1 ≡ n + 1)
take_next-given n f h = elim (Bool-cases (ltb n 1000)) [
  | inl e ↦ let h' : some ((n + 1) * 4096) ≡ some f = rw e at h in (ltb→lt n 1000 e, cc, rw e refl)
  | inr e ↦ let h' : none ≡ some f = rw e at h in cc
]

take_next-onward : (n : ℕ) → n ≤ (take_next n).1
take_next-onward n = elim (Bool-cases (ltb n 1000)) [
  | inl e ↦ rw e (omega arith)
  | inr e ↦ rw e (omega arith)
]

pub counter_laws : FrameLaws counter
counter_laws = record {
  IsFree = λ n f. n * 4096 < f;
  aligned = λ n f h. omega (arith, (take_next-given n f h).1);
  small = λ n f h. omega (arith, (take_next-given n f h).0, (take_next-given n f h).1);
  was_free = λ n f h. omega (arith, (take_next-given n f h).1);
  taken = λ n f h free.
      let (lt, at, next) = take_next-given n f h in absurd (omega (arith, lt, at, next));
  no_more = λ n g free. omega (arith, take_next-onward n);
  back = λ n f g free. inl free;
}
