-- ===== src/Kv/Choice.antt =====
-- kernel/src/kv.rs, `make_room`: what is evicted, and when nothing is.
use jungey_os.Prelude.{
  ℕ, ◌+◌, ◌<◌, ◌≤◌, ◌≡◌, ◌⊎◌, inl, inr, refl, arith, Bool-cases, Option-cases, none, some,
  get_elem?, ltb, leb, ltb→lt, leb→le, ◌*◌, ◌-◌, ◌/◌, lt→ltb,
}
use jungey_os.Kv.{
  resident, Session, Cache, Victim, eviction_score, scan_sessions, choose, budget_blocks,
  prefix_blocks, sectors_per_block,
}
use jungey_os.Kv.Worst.{AtLeast, scan_sessions_all, scan_sessions_at}

-- The block at this place of the cache, resident in this frame since this tick.
pub record IsAt (c : Cache) (si bi frame used : ℕ) : Type 0 where
  pub session : Session
  pub at_session : get_elem? c.sessions si ≡ some session
  pub at_block : get_elem? session.blocks bi ≡ some (resident frame used)

-- There is no room, there are sectors to spill to, and no resident block scores higher.
pub record IsWorst (c : Cache) (want now : ℕ) (v : Victim) : Type 0 where
  pub full : budget_blocks < c.resident_blocks + want
  pub space : c.spill_next + sectors_per_block ≤ c.spill_end
  pub used : ℕ
  pub place : IsAt c v.si v.bi v.frame used
  pub scored : v.score ≡ eviction_score v.bi used now
  pub worst :
      (si bi frame used : ℕ) → IsAt c si bi frame used → eviction_score bi used now ≤ v.score

abbrev pub NoneResident : Cache → Type 0
NoneResident c = (si bi frame used : ℕ) → ¬ IsAt c si bi frame used

scan_none : (c : Cache) (now : ℕ) → scan_sessions now 0 c.sessions none ≡ none → NoneResident c
scan_none c now h si bi frame used p =
    let least : AtLeast (scan_sessions now 0 c.sessions none) (eviction_score bi used now) =
      scan_sessions_all now 0 c.sessions none si bi frame used p.session p.at_session p.at_block in
    let none' : AtLeast none (eviction_score bi used now) = rw h at least in none'

scan_some :
    (c : Cache) (want now : ℕ) (v : Victim)
    → scan_sessions now 0 c.sessions none ≡ some v
    → budget_blocks < c.resident_blocks + want
    → c.spill_next + sectors_per_block ≤ c.spill_end
    → IsWorst c want now v
scan_some c want now v h full space =
    let (i, j, frame, used, s, at, at_block, e) = scan_sessions_at now c.sessions v h in
    record {
      full = full;
      space = space;
      used = used;
      place = record { session = s; at_session = rw e at; at_block = rw e at_block };
      scored = rw e refl;
      worst = λ si bi f u p.
          let least : AtLeast (scan_sessions now 0 c.sessions none) (eviction_score bi u now) =
            scan_sessions_all now 0 c.sessions none si bi f u p.session p.at_session p.at_block in
          let some' : AtLeast (some v) (eviction_score bi u now) = rw h at least in some';
    }

-- A round evicts a resident block that no other outscores, and only when there is no room and there
-- are sectors to spill to; otherwise there is room, or nothing is resident, or the sectors are used up.
pub choose_lem :
    (c : Cache) (want now : ℕ)
    → ((v : Victim) × (choose c want now ≡ some v) × IsWorst c want now v)
      ⊎ ((choose c want now ≡ none)
          × ((c.resident_blocks + want ≤ budget_blocks)
              ⊎ NoneResident c
              ⊎ (c.spill_end < c.spill_next + sectors_per_block)))
unfolding choose
choose_lem c want now = elim (Bool-cases (leb (c.resident_blocks + want) budget_blocks)) [
  | inl room_for_one ↦ inr (rw room_for_one refl, inl (leb→le _ _ room_for_one))
  | inr full ↦ elim (Option-cases (scan_sessions now 0 c.sessions none)) [
    | inl n ↦ inr (rw (full, n) refl, inr (inl (scan_none c now n)))
    | inr (v, e) ↦ elim (Bool-cases (ltb c.spill_end (c.spill_next + sectors_per_block))) [
      | inl out ↦ inr (rw (full, e, out) refl, inr (inr (ltb→lt _ _ out)))
      | inr left ↦
          inl (v, rw (full, e, left) refl, scan_some c want now v e (ground arith) (ground arith))
    ]
  ]
]

score_prefix :
    (bi used now : ℕ) → bi < prefix_blocks → eviction_score bi used now ≡ (now - used) / 8
unfolding eviction_score
score_prefix bi used now h = rw (lt→ltb bi prefix_blocks h) refl

score_middle :
    (bi used now : ℕ) → prefix_blocks ≤ bi → eviction_score bi used now ≡ (now - used) + 1000
unfolding eviction_score
score_middle bi used now h = elim (Bool-cases (ltb bi prefix_blocks)) [
  | inl yes' ↦ let lt = ltb→lt bi prefix_blocks yes' in absurd (omega arith)
  | inr no' ↦ rw no' refl
]

-- If one of the first four blocks of a session is chosen, with index 0 to 3, a block with index 4 or more
-- can be resident in any session only if the chosen one has not been used for eight times as long, and
-- 8000 ticks more.
pub choose-Prefix :
    (c : Cache) (want now : ℕ) (v : Victim)
    → choose c want now ≡ some v
    → v.bi < prefix_blocks
    → (used : ℕ) × IsAt c v.si v.bi v.frame used
      × ((si bi frame other : ℕ)
          → IsAt c si bi frame other
          → prefix_blocks ≤ bi
          → (now - other) * 8 + 8000 ≤ now - used)
choose-Prefix c want now v h p = elim (choose_lem c want now) [
  | inl (w, e, worst) ↦
      let same : v ≡ w = cc in
      let worst : IsWorst c want now v = rw same worst in
      (
        worst.used,
        worst.place,
        λ si bi frame other at middle.
            let le = worst.worst si bi frame other at in
            let a = score_middle bi other now middle in
            let b = score_prefix v.bi worst.used now p in let s = worst.scored in omega arith,
      )
  | inr (e, why) ↦ cc
]
