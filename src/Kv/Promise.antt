-- ===== src/Kv/Promise.antt =====
-- kernel/src/kv.rs: what a client sees of the cache, whatever is evicted: the sessions, each with the
-- number of its blocks.
use jungey_os.Prelude.{
  ℕ, zero, suc, ◌+◌, ◌≡◌, inl, inr, refl, ◌∙◌, ap, Bool, true, false, Bool-cases, Option, none,
  some, List, [], ◌∷◌, ◌++◌, length, modify, length-set, length-append, ◌==◌, Result, ok, err,
}
use jungey_os.Prelude.Find.{modify_first}
use jungey_os.Disk.{Done}
use jungey_os.Kv.{
  Block, resident, spilling, spilled, Session, Cache, Kv, FrameSource, Victim, put_block, set_block,
  count_spill, choose, mark, finish_spill, spill, evict, make_room,
}
use jungey_os.Kv.Ops.{has_id, push_block, open_session, append_one, read}

-- A session as its client knows it.
pub record Seen : Type 0 where
  pub id : ℕ
  pub blocks : ℕ

abbrev pub seen : Session → Seen
seen s = record { id = s.id; blocks = length s.blocks }

unfoldable pub seen_all : List Session → List Seen
seen_all [] = []
seen_all (s ∷ ss) = seen s ∷ seen_all ss

abbrev pub seen_id : ℕ → Seen → Bool
seen_id id s = s.id == id

abbrev pub grown : Seen → Seen
grown s = record s { blocks = s.blocks + 1 }

-- A call, and what it is to do to what is seen.
pub data Call : Type 0 where
  opens : (owner model : ℕ) → Call
  appends : (id : ℕ) → Call
  reads : (id index len : ℕ) → (out : ℕ → ℕ) → Call

modify-seen :
    (ss : List Session) (i : ℕ) (f : Session → Session)
    → ((s : Session) → seen (f s) ≡ seen s)
    → seen_all (modify ss i f) ≡ seen_all ss
unfolding seen_all
modify-seen [] i f h = refl
modify-seen (s ∷ ss) zero f h = ap (λ v. v ∷ seen_all ss) (h s)
modify-seen (s ∷ ss) (suc i) f h = ap (◌∷◌ (seen s)) (modify-seen ss i f h)

pub modify_first-seen :
    (id : ℕ) (f : Session → Session) (ss : List Session)
    → ((s : Session) → seen (f s) ≡ seen s)
    → seen_all (modify_first (has_id id) f ss) ≡ seen_all ss
unfolding seen_all modify_first
modify_first-seen id f [] h = refl
modify_first-seen id f (s ∷ ss) h = elim (Bool-cases (s.id == id)) [
  | inl yes' ↦ rw yes' (ap (λ v. v ∷ seen_all ss) (h s))
  | inr no' ↦ rw no' (ap (◌∷◌ (seen s)) (modify_first-seen id f ss h))
]

pub push-seen :
    (id frame now : ℕ) (ss : List Session)
    → seen_all (modify_first (has_id id) (push_block frame now) ss)
      ≡ modify_first (seen_id id) grown (seen_all ss)
unfolding seen_all modify_first
push-seen id frame now [] = refl
push-seen id frame now (s ∷ ss) = elim (Bool-cases (s.id == id)) [
  | inl yes' ↦ rw yes' (
      ap (λ n. record { id = s.id; blocks = n } ∷ seen_all ss)
        (length-append s.blocks (resident frame now ∷ [])))
  | inr no' ↦ rw no' (ap (◌∷◌ (seen s)) (push-seen id frame now ss))
]

pub append-seen :
    (ss : List Session) (s : Session) → seen_all (ss ++ s ∷ []) ≡ seen_all ss ++ seen s ∷ []
unfolding seen_all
append-seen [] s = refl
append-seen (t ∷ ts) s = ap (◌∷◌ (seen t)) (append-seen ts s)

-- A block is replaced: the same session is seen.
put_block-seen : (i : ℕ) (b : Block) (s : Session) → seen (put_block i b s) ≡ seen s
put_block-seen i b s = ap (λ n. record { id = s.id; blocks = n }) (length-set s.blocks i b)

-- What is seen of the cache.
pub record View : Type 0 where
  pub next_id : ℕ
  pub sessions : List Seen

abbrev pub view : Cache → View
view c = record { next_id = c.next_id; sessions = seen_all c.sessions }

-- The cache as its clients may think of it: nothing is ever evicted.
unfoldable pub promised : Call → (worked : Bool) → View → View
promised (opens owner model) worked w = record w {
  next_id = w.next_id + 1;
  sessions = w.sessions ++ record { id = w.next_id; blocks = 0 } ∷ [];
}
promised (appends id) true w = record w { sessions = modify_first (seen_id id) grown w.sessions }
promised (appends id) false w = w
promised (reads id index len out) worked w = w

unfoldable pub promised_all : List Call → List Bool → View → View
promised_all [] rs w = w
promised_all (c ∷ cs) [] w = w
promised_all (c ∷ cs) (r ∷ rs) w = promised_all cs rs (promised c r w)

abbrev pub is_ok {ℓ} : {A : Type ℓ} → Result A → Bool
is_ok (ok a) = true
is_ok (err e) = false

module _ (frames : FrameSource) where
  open frames use {Pool}

  -- One call, and whether it worked.
  unfoldable pub call : Call → Kv Pool → Bool × Kv Pool
  call (opens owner model) k = (true, (open_session owner model k).1)
  call (appends id) k = (is_ok (append_one frames id k).0, (append_one frames id k).1)
  call (reads id index len out) k = (true, (read frames id index len out k).1)

  unfoldable pub calls : List Call → Kv Pool → List Bool × Kv Pool
  calls [] k = ([], k)
  calls (c ∷ cs) k = let (worked, k) = call c k in let (rest, k) = calls cs k in (worked ∷ rest, k)

  finish_spill-view :
      (sector now : ℕ) (v : Victim) (r : Result Done) (k : Kv Pool)
      → view (finish_spill frames sector now v r k).cache ≡ view k.cache
  unfolding finish_spill
  finish_spill-view sector now v (ok done) k =
      ap (λ ss. record { next_id = k.cache.next_id; sessions = ss })
        (modify-seen (set_block v.si v.bi (spilled sector) k.cache.sessions) v.si count_spill
            (λ s. refl)
          ∙ modify-seen k.cache.sessions v.si (put_block v.bi (spilled sector))
              (put_block-seen v.bi (spilled sector)))
  finish_spill-view sector now v (err e) k =
      ap (λ ss. record { next_id = k.cache.next_id; sessions = ss })
        (modify-seen k.cache.sessions v.si (put_block v.bi (resident v.frame now))
          (put_block-seen v.bi (resident v.frame now)))

  spill-view :
      (now : ℕ) (o : Option Victim) (k : Kv Pool)
      → view (spill frames now o k).1.cache ≡ view k.cache
  unfolding spill mark
  spill-view now none k = refl
  spill-view now (some v) k =
      finish_spill-view _ now v _ _
      ∙ ap (λ ss. record { next_id = k.cache.next_id; sessions = ss })
          (modify-seen k.cache.sessions v.si (put_block v.bi (spilling v.frame k.cache.spill_next))
            (put_block-seen v.bi (spilling v.frame k.cache.spill_next)))

  pub make_room-view :
      (fuel want : ℕ) (k : Kv Pool) → view (make_room frames fuel want k).cache ≡ view k.cache
  unfolding make_room evict
  make_room-view zero want k = refl
  make_room-view (suc fuel) want k =
      let now = k.clock k.readings in
      let once =
        spill-view now (choose k.cache want now) (record k { readings = k.readings + 1 }) in
      elim (Bool-cases (evict frames want k).0) [
        | inl more ↦ rw more (make_room-view fuel want (evict frames want k).1 ∙ once)
        | inr last ↦ rw last once
      ]
