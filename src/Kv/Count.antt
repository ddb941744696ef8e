-- ===== src/Kv/Count.antt =====
-- kernel/src/kv.rs: the blocks of the cache that stand in a frame, and their number.
use jungey_os.Prelude.{
  ℕ, zero, suc, ◌+◌, ◌≡◌, refl, arith, some, List, [], ◌∷◌, ◌++◌, get_elem?, set, modify,
}
use jungey_os.Kv.{Block, resident, spilling, spilled, Session}

-- A block that is being written out still has its frame.
abbrev pub frames_of : Block → ℕ
frames_of (resident frame used_tick) = 1
frames_of (spilling frame sector) = 1
frames_of (spilled sector) = 0

unfoldable pub framed : List Block → ℕ
framed [] = 0
framed (b ∷ bs) = frames_of b + framed bs

unfoldable pub framed_in : List Session → ℕ
framed_in [] = 0
framed_in (s ∷ ss) = framed s.blocks + framed_in ss

pub framed-set :
    (bs : List Block) (i : ℕ) (b c : Block)
    → get_elem? bs i ≡ some b
    → framed (set bs i c) + frames_of b ≡ framed bs + frames_of c
unfolding framed
framed-set [] i b c h = cc
framed-set (a ∷ bs) zero b c h =
    let e : some a ≡ some b = h in let same : a ≡ b = cc in rw same (omega arith)
framed-set (a ∷ bs) (suc i) b c h = omega (arith, framed-set bs i b c h)

pub framed-append : (bs : List Block) (b : Block) → framed (bs ++ b ∷ []) ≡ framed bs + frames_of b
unfolding framed
framed-append [] b = omega arith
framed-append (a ∷ bs) b = omega (arith, framed-append bs b)

pub framed_in-append :
    (ss : List Session) (s : Session) → framed_in (ss ++ s ∷ []) ≡ framed_in ss + framed s.blocks
unfolding framed_in
framed_in-append [] s = omega arith
framed_in-append (a ∷ ss) s = omega (arith, framed_in-append ss s)

pub framed_in-modify :
    (ss : List Session) (i : ℕ) (f : Session → Session) (s : Session)
    → get_elem? ss i ≡ some s
    → framed_in (modify ss i f) + framed s.blocks ≡ framed_in ss + framed (f s).blocks
unfolding framed_in
framed_in-modify [] i f s h = cc
framed_in-modify (a ∷ ss) zero f s h =
    let e : some a ≡ some s = h in let same : a ≡ s = cc in rw same (omega arith)
framed_in-modify (a ∷ ss) (suc i) f s h = omega (arith, framed_in-modify ss i f s h)

-- A change of sessions that keeps what each of them holds.
pub framed_in-modify_same :
    (ss : List Session) (i : ℕ) (f : Session → Session)
    → ((s : Session) → framed (f s).blocks ≡ framed s.blocks)
    → framed_in (modify ss i f) ≡ framed_in ss
unfolding framed_in
framed_in-modify_same [] i f h = refl
framed_in-modify_same (a ∷ ss) zero f h = omega (arith, h a)
framed_in-modify_same (a ∷ ss) (suc i) f h = omega (arith, framed_in-modify_same ss i f h)
