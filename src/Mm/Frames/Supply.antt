-- ===== src/Mm/Frames/Supply.antt =====
-- kernel/src/mm/frames.rs: the allocator, as its users see it.
use mathlib.Core.Logic.Or
use mathlib.Core.List.{
  Mem, Nodup, Perm, perm_middle, Nodup-cons, mem-cons, mem-cons_self, mem-cons_of_mem,
  mem-append_right,
}
use mathlib.Core.List.Perm
use jungey_os.Prelude.{
  ℕ, suc, ◌%◌, ◌^◌, ◌<◌, ◌≤◌, ◌≡◌, ◌⊎◌, inl, inr, refl, ap, arith, ℕ_discrete, ◌-◌, Bool-cases,
  ◌==◌, Option, none, some, List, [], ◌∷◌, ◌++◌, subst,
}
use jungey_os.Mm.Frames.{Frames, bump_one, from_bump, alloc, free}
use jungey_os.Mm.Frames.Inv.{IsPool, IsAlloc, alloc_lem, free-IsPool}
use jungey_os.Mm.Source.{FrameSource, FrameLaws}

-- A well-formed pool below 2^48, with the frames that are in use.
pub record Supply : Type 0 where
  pub state : Frames
  pub free_frames : List ℕ
  pub used : List ℕ
  pub pool : IsPool state free_frames used
  pub low : state.end ≤ 2 ^ 48

take_out : (a : ℕ) (xs : List ℕ) → ((ys : List ℕ) × Perm xs (a ∷ ys)) ⊎ Unit {0}
take_out a [] = inr tt
take_out a (x ∷ xs) = elim (ℕ_discrete x a) [
  | yes e ↦ inl (xs, rw e (Perm.refl _))
  | no n ↦ elim (take_out a xs) [
    | inl (ys, p) ↦ inl (x ∷ ys, Perm.trans (Perm.cons x p) (Perm.swap _ _ _))
    | inr _ ↦ inr tt
  ]
]

from_bump-end :
    (f f' : Frames) (o : Option (Option ℕ × ℕ)) (r : Option ℕ)
    → from_bump f o ≡ some (r, f')
    → f'.end ≡ f.end
unfolding from_bump
from_bump-end f f' none r h = cc
from_bump-end f f' (some (frame, bump)) r h =
    let same : f' ≡ record f { bump = bump } = cc in ap (λ (g : Frames). g.end) same

alloc-end : (f f' : Frames) (r : Option ℕ) → alloc f ≡ some (r, f') → f'.end ≡ f.end
unfolding alloc
alloc-end f f' r h = elim (Bool-cases (f.free_list == 0)) [
  | inl e ↦
      let h' : from_bump f (bump_one (suc f.end) f.reserved f.end f.bump) ≡ some (r, f') =
        rw e at h in
      from_bump-end f f' _ r h'
  | inr e ↦
      let g : Frames = record f {
        free_list = f.link f.free_list;
        free_list_len = f.free_list_len - 1;
      } in
      let h' : some (some f.free_list, g) ≡ some (r, f') = rw e at h in
      let same : f' ≡ g = cc in ap (λ (k : Frames). k.end) same
]

given :
    (s : Supply) (r : Option ℕ) (f' : Frames)
    → f'.end ≤ 2 ^ 48
    → IsAlloc s.state s.free_frames s.used r f'
    → Option ℕ × Supply
given s none f' low a =
    (none, record { state = f'; free_frames = []; used = s.used; pool = (a.out refl).1; low = low })
given s (some x) f' low a =
    let (rest, pool) = a.got x refl in
    (some x, record { state = f'; free_frames = rest; used = x ∷ s.used; pool = pool; low = low })

freed-low : (s : Supply) (a : ℕ) → (free s.state a).end ≤ 2 ^ 48
unfolding free
freed-low s a = s.low

-- What `alloc` gives.
pub take_frame : Supply → Option ℕ × Supply
take_frame s =
    let (r, f', e, a) = alloc_lem s.state s.free_frames s.used s.pool in
    given s r f' (omega (arith, s.low, alloc-end s.state f' r e)) a

given_back : (s : Supply) (a : ℕ) → ((ys : List ℕ) × Perm s.used (a ∷ ys)) ⊎ Unit {0} → Supply
given_back s a (inl (rest, p)) = record {
  state = free s.state a;
  free_frames = a ∷ s.free_frames;
  used = rest;
  pool = free-IsPool s.state s.free_frames s.used rest a s.pool p;
  low = freed-low s a;
}
given_back s a (inr tt) = s

-- A frame that is in use goes back; `free` is not called for another.
pub give_back : Supply → ℕ → Supply
give_back s a = given_back s a (take_out a s.used)

abbrev pub supply : FrameSource
supply = record { Pool = Supply; take_frame = take_frame; give_back = give_back }

apart : (x : ℕ) (xs ys : List ℕ) → Nodup (xs ++ x ∷ ys) → ¬ Mem x ys
apart x xs ys n m =
    let moved : Nodup (x ∷ xs ++ ys) = Perm.nodup (perm_middle xs ys) n in
    (Nodup-cons.0 moved).0 (mem-append_right xs m)

-- What page tables and the other users rely on, of one frame that is given.
record IsGiven (s : Supply) (f : ℕ) (s' : Supply) : Type 0 where
  aligned : f % 4096 ≡ 0
  small : f < 2 ^ 48
  was_free : ¬ Mem f s.used
  taken : Mem f s'.used

given-IsGiven :
    (s : Supply) (r : Option ℕ) (f' : Frames) (low : f'.end ≤ 2 ^ 48)
    (a : IsAlloc s.state s.free_frames s.used r f') (f : ℕ)
    → (given s r f' low a).0 ≡ some f
    → IsGiven s f (given s r f' low a).1
unfolding given
given-IsGiven s none f' low a f h = cc
given-IsGiven s (some x) f' low a f h =
    let (rest, pool) = a.got x refl in
    let same : x ≡ f = cc in
    let frame = pool.frames x (mem-append_right rest mem-cons_self) in
    subst
      (λ y.
        IsGiven s y
          (record { state = f'; free_frames = rest; used = x ∷ s.used; pool = pool; low = low }))
      same
      (record {
        aligned = frame.aligned;
        small = omega (arith, frame.inside);
        was_free = apart x rest s.used pool.distinct;
        taken = mem-cons_self;
      })

given-keeps :
    (s : Supply) (r : Option ℕ) (f' : Frames) (low : f'.end ≤ 2 ^ 48)
    (a : IsAlloc s.state s.free_frames s.used r f') (g : ℕ)
    → Mem g s.used
    → Mem g (given s r f' low a).1.used
unfolding given
given-keeps s none f' low a g m = m
given-keeps s (some x) f' low a g m = mem-cons_of_mem x m

given_back-others :
    (s : Supply) (a g : ℕ) (o : ((ys : List ℕ) × Perm s.used (a ∷ ys)) ⊎ Unit {0})
    → ¬ Mem g (given_back s a o).used
    → (¬ Mem g s.used) ⊎ (g ≡ a)
unfolding given_back
given_back-others s a g (inl (rest, p)) out = elim (ℕ_discrete g a) [
  | yes e ↦ inr e
  | no n ↦ inl (λ m. Or.elim (λ x y. absurd x) (mem-cons.0 ((Perm.mem_iff p).0 m)) n out)
]
given_back-others s a g (inr tt) out = inl out

-- One call at a time; nothing keeps two cores apart in there.
pub supply-FrameLaws : FrameLaws supply
unfolding take_frame given_back give_back
supply-FrameLaws = record {
  IsFree = λ s f. ¬ Mem f s.used;
  aligned = λ s f h. (given-IsGiven s _ _ _ _ f h).aligned;
  small = λ s f h. (given-IsGiven s _ _ _ _ f h).small;
  was_free = λ s f h. (given-IsGiven s _ _ _ _ f h).was_free;
  taken = λ s f h n. n (given-IsGiven s _ _ _ _ f h).taken;
  no_more = λ s g n m. n (given-keeps s _ _ _ _ g m);
  back = λ s f g out. given_back-others s f g (take_out f s.used) out;
}
