-- ===== src/Kv/Evict.antt =====
-- kernel/src/kv.rs, `make_room`: the count of resident blocks, and the end of the loop.
use jungey_os.Prelude.{
  ℕ, ◌+◌, ◌-◌, ◌<◌, ◌≤◌, ◌≡◌, inl, inr, refl, arith, true, some, List, get_elem?,
  get_elem?-set_self, get_elem?-lt, get_elem?-modify_self, Result, ok, err,
}
use jungey_os.Disk.{Done}
use jungey_os.Kv.{
  Block, resident, spilling, spilled, Session, Cache, Kv, FrameSource, Victim, budget_blocks,
  put_block, set_block, count_spill, mark, succeeded, finish_spill, spill, evict,
}
use jungey_os.Kv.Choice.{IsAt, choose_lem}
use jungey_os.Kv.Count.{frames_of, framed_in, framed-set, framed_in-modify, framed_in-modify_same}

-- The count of resident blocks is the number of blocks that have a frame.
abbrev pub IsCounted : Cache → Type 0
IsCounted c = framed_in c.sessions ≡ c.resident_blocks

put_lem :
    (ss : List Session) (si bi : ℕ) (s : Session) (b c : Block)
    → get_elem? ss si ≡ some s
    → get_elem? s.blocks bi ≡ some b
    → framed_in (set_block si bi c ss) + frames_of b ≡ framed_in ss + frames_of c
put_lem ss si bi s b c h g =
    omega (arith, framed_in-modify ss si (put_block bi c) s h, framed-set s.blocks bi b c g)

-- The block that another thread works on: written out, and not looked at meanwhile.
pub record IsMarked (ss : List Session) (v : Victim) : Type 0 where
  pub session : Session
  pub sector : ℕ
  pub at_session : get_elem? ss v.si ≡ some session
  pub at_block : get_elem? session.blocks v.bi ≡ some (spilling v.frame sector)

pub mark-IsMarked :
    (c : Cache) (v : Victim) (used : ℕ)
    → IsAt c v.si v.bi v.frame used
    → IsMarked (mark c v).sessions v
unfolding mark
mark-IsMarked c v used p = record {
  session = put_block v.bi (spilling v.frame c.spill_next) p.session;
  sector = c.spill_next;
  at_session = get_elem?-modify_self c.sessions v.si _ p.session p.at_session;
  at_block =
      get_elem?-set_self p.session.blocks v.bi _ (get_elem?-lt p.session.blocks v.bi _ p.at_block);
}

mark-IsCounted :
    (c : Cache) (v : Victim) (used : ℕ)
    → IsAt c v.si v.bi v.frame used
    → IsCounted c
    → IsCounted (mark c v)
unfolding mark
mark-IsCounted c v used p h = omega (
  arith,
  put_lem c.sessions v.si v.bi p.session _ (spilling v.frame c.spill_next) p.at_session p.at_block,
)

module _ (frames : FrameSource) where
  open frames use {Pool}

  finish_spill-IsCounted :
      (sector now : ℕ) (v : Victim) (r : Result Done) (k : Kv Pool)
      → IsMarked k.cache.sessions v
      → IsCounted k.cache
      → IsCounted (finish_spill frames sector now v r k).cache
  unfolding finish_spill
  finish_spill-IsCounted sector now v (ok done) k m h = omega (
    arith,
    put_lem k.cache.sessions v.si v.bi m.session _ (spilled sector) m.at_session m.at_block,
    framed_in-modify_same (set_block v.si v.bi (spilled sector) k.cache.sessions) v.si count_spill
        (λ s. refl),
  )
  finish_spill-IsCounted sector now v (err e) k m h = omega (
    arith,
    put_lem k.cache.sessions v.si v.bi m.session _ (resident v.frame now) m.at_session m.at_block,
  )

  pub evict-IsCounted :
      (want : ℕ) (k : Kv Pool) → IsCounted k.cache → IsCounted (evict frames want k).1.cache
  unfolding evict spill
  evict-IsCounted want k h = elim (choose_lem k.cache want (k.clock k.readings)) [
    | inl (v, e, w) ↦ rw e (
        finish_spill-IsCounted _ _ v _ _ (mark-IsMarked k.cache v w.used w.place)
          (mark-IsCounted k.cache v w.used w.place h))
    | inr (e, why) ↦ rw e h
  ]

  finish_fewer :
      (sector now : ℕ) (v : Victim) (r : Result Done) (k : Kv Pool)
      → ((finish_spill frames sector now v r k).cache.resident_blocks ≤ k.cache.resident_blocks)
        × (succeeded frames r ≡ true
            → (finish_spill frames sector now v r k).cache.resident_blocks
              ≡ k.cache.resident_blocks - 1)
  unfolding finish_spill
  finish_fewer sector now v (ok done) k = (omega arith, λ h. refl)
  finish_fewer sector now v (err e) k = (omega arith, λ h. cc)

  -- A round with another after it has one resident block less, and was short of room.
  pub evict_fewer :
      (want : ℕ) (k : Kv Pool)
      → ((evict frames want k).1.cache.resident_blocks ≤ k.cache.resident_blocks)
        × ((evict frames want k).0 ≡ true
            → ((evict frames want k).1.cache.resident_blocks ≡ k.cache.resident_blocks - 1)
              × (budget_blocks < k.cache.resident_blocks + want))
  unfolding evict spill mark
  evict_fewer want k = elim (choose_lem k.cache want (k.clock k.readings)) [
    | inl (v, e, w) ↦
        let f = finish_fewer k.cache.spill_next (k.clock k.readings) v _ _ in
        rw e (f.0, λ h. (f.1 h, w.full))
    | inr (e, why) ↦ rw e (omega arith, λ h. cc)
  ]
