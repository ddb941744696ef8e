-- ===== src/Mm/Frames/Reserved.antt =====
-- The reserved ranges, and the loops that step over them: they end, and skip nothing usable.
use jungey_os.Prelude.{
  ℕ, zero, suc, ◌+◌, ◌-◌, ◌%◌, ◌^◌, ◌≤◌, ◌<◌, ◌≡◌, ◌≢◌, ◌⊎◌, inl, inr, false, ◌&&◌, ◌||◌, Option,
  none, some, List, [], ◌∷◌, ltb, ◌==◌, arith, Bool-cases, Option-cases, All, dec_lt,
}
use jungey_os.Mm.{page_size, page_align_up, page_align_up_lem}
use jungey_os.Mm.Frames.{blocked_until, bump_one}

-- A reserved range: whole pages, and not at the very end of the address space.
abbrev pub IsRange : ℕ × ℕ → Type 0
IsRange (s, e) = (s < e) × (s % 4096 ≡ 0) × (e % 4096 ≡ 0) × (e + 4095 < 2 ^ 64)

-- The frame shares a byte with a reserved range.
abbrev pub Overlaps : List (ℕ × ℕ) → ℕ → Type 0
Overlaps [] frame = ⊥
Overlaps ((s, e) ∷ rs) frame = ((frame < e) × (s < frame + 4096)) ⊎ Overlaps rs frame

pub blocked-none :
    (rs : List (ℕ × ℕ)) (frame : ℕ) → blocked_until rs frame ≡ none → ¬ Overlaps rs frame
unfolding blocked_until
blocked-none [] frame h o = o
blocked-none ((s, e) ∷ rs) frame h (inl o) = ground arith
blocked-none ((s, e) ∷ rs) frame h (inr o) = blocked-none rs frame (ground arith) o

-- A range that the frame overlaps: where it ends, and that it covers every frame up to there.
pub record IsSkip (rs : List (ℕ × ℕ)) (frame end : ℕ) : Type 0 where
  pub ahead : frame < end
  pub aligned : end % 4096 ≡ 0
  pub small : end + 4095 < 2 ^ 64
  pub covered : (g : ℕ) → frame ≤ g → g < end → Overlaps rs g

pub blocked-some :
    (rs : List (ℕ × ℕ)) (frame skip_to : ℕ)
    → All IsRange rs
    → blocked_until rs frame ≡ some skip_to
    → IsSkip rs frame skip_to
unfolding blocked_until
blocked-some [] frame skip_to ranges h = absurd (cc)
blocked-some ((s, e) ∷ rs) frame skip_to ranges h =
    elim (Bool-cases (ltb frame e && ltb s (frame + page_size))) [
      | inl hit ↦
          let same : e ≡ skip_to = ground arith in
          record {
            ahead = ground arith;
            aligned = omega (arith, ranges.0);
            small = omega (arith, ranges.0);
            covered = λ g lo hi. inl (omega arith, ground arith);
          }
      | inr miss ↦
          let rest = blocked-some rs frame skip_to ranges.1 (ground arith) in
          record {
            ahead = rest.ahead;
            aligned = rest.aligned;
            small = rest.small;
            covered = λ g lo hi. inr (rest.covered g lo hi);
          }
    ]

-- Rounding the end of a reserved range up changes nothing.
skip-aligned :
    {rs : List (ℕ × ℕ)} {frame skip_to : ℕ}
    → IsSkip rs frame skip_to
    → page_align_up skip_to ≡ skip_to
skip-aligned {skip_to = e} k = omega (arith, k.aligned, k.small, page_align_up_lem e)

-- What the loop of `alloc` comes to: the first frame from `cur` on that is not reserved, or none
-- below the end.
pub record IsBump (rs : List (ℕ × ℕ)) (end cur : ℕ) (r : Option ℕ) (bump : ℕ) : Type 0 where
  pub onward : cur ≤ bump
  pub whole : bump % 4096 ≡ 0
  pub got :
      (a : ℕ)
      → r ≡ some a
      → (cur ≤ a)
        × (bump ≡ a + 4096)
        × (bump ≤ end)
        × (¬ Overlaps rs a)
        × ((g : ℕ) → cur ≤ g → g < a → Overlaps rs g)
  pub out : r ≡ none → (end < bump + 4096) × ((g : ℕ) → cur ≤ g → g + 4096 ≤ end → Overlaps rs g)

past_end : (cur end : ℕ) → (cur == 0 || ltb end (cur + page_size)) ≡ false → cur + 4096 ≤ end
past_end cur end h = ground arith

covered_from :
    {rs : List (ℕ × ℕ)} {cur skip_to : ℕ}
    → IsSkip rs cur skip_to
    → (a : ℕ) → ((g : ℕ) → skip_to ≤ g → g < a → Overlaps rs g)
    → (g : ℕ) → cur ≤ g
    → g < a
    → Overlaps rs g
covered_from {skip_to = e} k a beyond g lo hi = elim (dec_lt g e) [
  | yes before ↦ k.covered g lo before
  | no after ↦ beyond g (omega arith) hi
]

-- What was found from the end of a range on, was found from its frame on.
IsBump-skip :
    {rs : List (ℕ × ℕ)} {end cur skip_to next bump : ℕ} {r : Option ℕ}
    → IsSkip rs cur skip_to
    → next ≡ skip_to
    → IsBump rs end next r bump
    → IsBump rs end cur r bump
IsBump-skip {rs} {end} {cur} {skip_to} k to b = record {
  onward = omega (arith, k.ahead, b.onward);
  whole = b.whole;
  got = λ a e.
      let (lo, at, below, free, all) = b.got a e in
      (
        omega (arith, k.ahead),
        at,
        below,
        free,
        covered_from k a (λ g lo hi. all g (omega arith) hi),
      );
  out = λ e.
      let (full, all) = b.out e in
      (
        full,
        λ g lo hi. elim (dec_lt g skip_to) [
          | yes before ↦ k.covered g lo before
          | no after ↦ all g (omega arith) hi
        ],
      );
}

-- The loop of `alloc` ends. Over page-aligned ranges, from a pointer that is page-aligned and not 0, and
-- with more fuel than there are addresses up to the end, it returns the first frame that no range
-- overlaps, or none when every frame below the end is reserved, and the pointer stays page-aligned.
pub bump_one_lem :
    (rs : List (ℕ × ℕ)) (end : ℕ)
    → All IsRange rs
    → (fuel cur : ℕ) → cur ≢ 0
    → cur % 4096 ≡ 0
    → end + 1 - cur < fuel
    → (r : Option ℕ) × (bump : ℕ) × (bump_one fuel rs end cur ≡ some (r, bump))
      × IsBump rs end cur r bump
unfolding bump_one
bump_one_lem rs end ranges zero cur nz al h = absurd (omega arith)
bump_one_lem rs end ranges (suc fuel) cur nz al h =
    elim (Bool-cases (cur == 0 || ltb end (cur + page_size))) [
      | inl stop ↦ (
        none,
        cur,
        rw (stop, bump_one),
        record {
          onward = omega arith;
          whole = al;
          got = λ a e. absurd (cc);
          out = λ _. (ground arith, λ g lo hi. absurd (ground arith));
        },
      )
      | inr go ↦ elim (Option-cases (blocked_until rs cur)) [
        | inl free ↦ (
          some cur,
          cur + 4096,
          rw (go, free, bump_one),
          record {
            onward = omega arith;
            whole = omega arith;
            got = λ a e.
                let same : cur ≡ a = cc in
                (
                  omega arith,
                  omega arith,
                  ground arith,
                  rw (← same) (blocked-none rs cur free),
                  λ g lo hi. absurd (omega arith),
                );
            out = λ e. absurd (cc);
          },
        )
        | inr (skip_to, hit) ↦
            let k = blocked-some rs cur skip_to ranges hit in
            let to = skip-aligned k in
            let (r, bump, run, b) =
              bump_one_lem rs end ranges fuel (page_align_up skip_to) (omega (arith, k.ahead))
                (omega (arith, k.aligned)) (omega (arith, k.ahead, past_end cur end go)) in
            (r, bump, rw (go, hit, bump_one) run, IsBump-skip k to b)
      ]
    ]
