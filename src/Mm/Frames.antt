-- ===== src/Mm/Frames.antt =====
-- kernel/src/mm/frames.rs: the physical frame allocator. The statics are the fields of a record, and
-- `link a` is the word at the frame `a`, where a freed frame keeps the next one. Each call is one step
-- here; in the source no lock makes it one, so this is the allocator as long as one core at a time uses it.
pub mod Reserved
pub mod Inv
pub mod Supply
use jungey_os.Prelude.{
  ℕ, zero, suc, ◌+◌, ◌-◌, ◌*◌, ◌≡◌, Bool, true, false, ◌&&◌, ◌||◌, Option, none, some, List, [],
  ◌∷◌, ◌++◌, ltb, leb, ◌==◌, if◌then◌else◌, take, length,
}
use jungey_os.Mm.{page_size, page_align_up, page_align_down}

abbrev pub max_reserved : ℕ
max_reserved = 8

pub record Frames : Type 0 where
  pub bump : ℕ
  pub end : ℕ
  pub total : ℕ
  pub free_list : ℕ
  pub free_list_len : ℕ
  pub reserved : List (ℕ × ℕ)
  pub link : ℕ → ℕ

abbrev empty : Frames
empty = record {
  bump = 0;
  end = 0;
  total = 0;
  free_list = 0;
  free_list_len = 0;
  reserved = [];
  link = λ a. 0;
}

-- `frame < e && s < end`, the end of the first range that the frame overlaps.
unfoldable pub blocked_until : List (ℕ × ℕ) → ℕ → Option ℕ
blocked_until [] frame = none
blocked_until ((s, e) ∷ rs) frame =
    if ltb frame e && ltb s (frame + page_size) then some e else blocked_until rs frame

-- The ranges that are kept, rounded outward to whole pages.
unfoldable pub reserve : List (ℕ × ℕ) → List (ℕ × ℕ)
reserve [] = []
reserve ((s, e) ∷ rs) =
    if leb e s then reserve rs else (page_align_down s, page_align_up e) ∷ reserve rs

-- The largest region, the first of those.
unfoldable pub largest : Option (ℕ × ℕ) → List (ℕ × ℕ) → Option (ℕ × ℕ)
largest best [] = best
largest none (r ∷ rs) = largest (some r) rs
largest (some (b, bs)) ((base, size) ∷ rs) =
    largest (if ltb bs size then some (base, size) else some (b, bs)) rs

-- `while p + PAGE_SIZE <= end`: how many frames from `p` on are not reserved.
unfoldable pub count_usable : (fuel : ℕ) → List (ℕ × ℕ) → (end p : ℕ) → Option ℕ
count_usable zero rs end p = none
count_usable (suc fuel) rs end p = elim (leb (p + page_size) end) [
  | false ↦ some 0
  | true ↦ elim (blocked_until rs p) [
    | some skip_to ↦ count_usable fuel rs end (page_align_up skip_to)
    | none ↦ elim (count_usable fuel rs end (p + page_size)) [ none ↦ none | some n ↦ some (n + 1) ]
  ]
]

-- `none` where the counting would not end.
unfoldable pub init : List (ℕ × ℕ) → (memory_regions : List (ℕ × ℕ)) → Option Frames
init reserved_ranges memory_regions =
    let rs = reserve (take max_reserved reserved_ranges) in
    let bare = record empty { reserved = rs } in
    elim (largest none memory_regions) [
      | none ↦ some bare
      | some (base, size) ↦
          let start = page_align_up base in
          let end = page_align_down (base + size) in
          if leb end start then some bare else elim (count_usable (suc end) rs end start) [
            | none ↦ none
            | some usable ↦ some (record bare { bump = start; end = end; total = usable })
          ]
    ]

-- The loop of `alloc`: the frame, and where the bump pointer stands after it.
unfoldable pub bump_one : (fuel : ℕ) → List (ℕ × ℕ) → (end cur : ℕ) → Option (Option ℕ × ℕ)
bump_one zero rs end cur = none
bump_one (suc fuel) rs end cur = elim (cur == 0 || ltb end (cur + page_size)) [
  | true ↦ some (none, cur)
  | false ↦ elim (blocked_until rs cur) [
    | some skip_to ↦ bump_one fuel rs end (page_align_up skip_to)
    | none ↦ some (some cur, cur + page_size)
  ]
]

from_bump : Frames → Option (Option ℕ × ℕ) → Option (Option ℕ × Frames)
from_bump f none = none
from_bump f (some (frame, bump)) = some (frame, record f { bump = bump })

unfoldable pub alloc : Frames → Option (Option ℕ × Frames)
unfolding from_bump
alloc f =
    if f.free_list == 0
    then from_bump f (bump_one (suc f.end) f.reserved f.end f.bump)
    else some (
      some f.free_list,
      record f { free_list = f.link f.free_list; free_list_len = f.free_list_len - 1 },
    )

-- `for i in 0..count`: the first frame of the run that is reserved.
unfoldable pub run_blocked : (left : ℕ) → List (ℕ × ℕ) → (frame : ℕ) → Option ℕ
run_blocked zero rs frame = none
run_blocked (suc left) rs frame = elim (blocked_until rs frame) [
  | some skip_to ↦ some skip_to
  | none ↦ run_blocked left rs (frame + page_size)
]

unfoldable pub bump_run : (fuel count : ℕ) → List (ℕ × ℕ) → (end cur : ℕ) → Option (Option ℕ × ℕ)
bump_run zero count rs end cur = none
bump_run (suc fuel) count rs end cur = elim (cur == 0 || ltb end (cur + count * page_size)) [
  | true ↦ some (none, cur)
  | false ↦ elim (run_blocked count rs cur) [
    | some skip_to ↦ bump_run fuel count rs end (page_align_up skip_to)
    | none ↦ some (some cur, cur + count * page_size)
  ]
]

unfoldable pub alloc_contiguous : Frames → ℕ → Option (Option ℕ × Frames)
unfolding from_bump
alloc_contiguous f count =
    if count == 0
    then some (none, f)
    else from_bump f (bump_run (suc f.end) count f.reserved f.end f.bump)

unfoldable pub free : Frames → ℕ → Frames
free f frame = record f {
  link = λ a. if a == frame then f.free_list else f.link a;
  free_list = frame;
  free_list_len = f.free_list_len + 1;
}

unfoldable pub free_count : Frames → Option ℕ
free_count f =
    if f.bump == 0
    then some f.free_list_len
    else elim (count_usable (suc f.end) f.reserved f.end f.bump) [
      | none ↦ none
      | some unbumped ↦ some (unbumped + f.free_list_len)
    ]
