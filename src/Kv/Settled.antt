-- ===== src/Kv/Settled.antt =====
-- kernel/src/kv.rs: no block is left half written out between two calls.
use jungey_os.Prelude.{
  ℕ, zero, suc, ◌+◌, ◌≡◌, ◌≢◌, inl, inr, refl, sym, ◌∙◌, ap, Bool-cases, Option-cases, some, List,
  [], ◌∷◌, ◌++◌, get_elem?, get_elem?-snoc, get_elem?-set, get_elem?-modify, set, modify, leb,
  subst, Result, ok, err,
}
use jungey_os.Prelude.Find.{find, find_cases, modify_first, modify_first_cases}
use jungey_os.Disk.{Done}
use jungey_os.Kv.{
  Block, resident, spilling, spilled, Session, Kv, FrameSource, Victim, budget_blocks, put_block,
  set_block, count_spill, mark, finish_spill, spill, evict, make_room, room_for_one,
}
use jungey_os.Kv.Ops.{
  has_id, touch_session, hit_block, restore_block, open_session, add_to, append_frame, append_one,
  bring_back, restore, read_block, read, waits, answered,
}
use jungey_os.Kv.Choice.{choose_lem}
use jungey_os.Kv.Promise.{Call, opens, appends, reads, call, calls}

-- No block of the list is half written out.
abbrev pub NoHalf : List Block → Type 0
NoHalf bs = (j frame sector : ℕ) → get_elem? bs j ≢ some (spilling frame sector)

abbrev pub IsSettled : List Session → Type 0
IsSettled ss = (i : ℕ) (s : Session) → get_elem? ss i ≡ some s → NoHalf s.blocks

-- None but this one.
abbrev IsNearly : List Session → (si bi : ℕ) → Type 0
IsNearly ss si bi =
    (i : ℕ) (s : Session)
    → get_elem? ss i ≡ some s
    → (j frame sector : ℕ) → get_elem? s.blocks j ≡ some (spilling frame sector)
    → (i ≡ si) × (j ≡ bi)

modify-IsSettled :
    (ss : List Session) (si : ℕ) (f : Session → Session)
    → ((s : Session) → NoHalf s.blocks → NoHalf (f s).blocks)
    → IsSettled ss
    → IsSettled (modify ss si f)
modify-IsSettled ss si f keep h i s at = elim (get_elem?-modify ss si i f s at) [
  | inl (v, e, found, eq) ↦ subst (λ (t : Session). NoHalf t.blocks) eq (keep v (h i v found))
  | inr (ne, found) ↦ h i s found
]

modify_first-IsSettled :
    (ss : List Session) (id : ℕ) (f : Session → Session)
    → ((s : Session) → NoHalf s.blocks → NoHalf (f s).blocks)
    → IsSettled ss
    → IsSettled (modify_first (has_id id) f ss)
modify_first-IsSettled ss id f keep h = elim (modify_first_cases (has_id id) f ss) [
  | inl (e, n) ↦ rw e h
  | inr (i, g, e) ↦ rw e (modify-IsSettled ss i f keep h)
]

set-NoHalf :
    (bs : List Block) (bi : ℕ) (c : Block)
    → ((frame sector : ℕ) → c ≢ spilling frame sector)
    → NoHalf bs
    → NoHalf (set bs bi c)
set-NoHalf bs bi c other h j frame sector at =
    elim (get_elem?-set bs bi j c (spilling frame sector) at) [
      | inl (here, is) ↦ other frame sector is
      | inr (off, old) ↦ h j frame sector old
    ]

push-NoHalf : (bs : List Block) (frame now : ℕ) → NoHalf bs → NoHalf (bs ++ resident frame now ∷ [])
push-NoHalf bs frame now h j frame' sector at =
    elim (get_elem?-snoc bs (resident frame now) j (spilling frame' sector) at) [
      | inl (lt, old) ↦ h j frame' sector old
      | inr (here, is) ↦ cc
    ]

mark-IsNearly :
    (ss : List Session) (si bi : ℕ) (c : Block)
    → IsSettled ss
    → IsNearly (set_block si bi c ss) si bi
mark-IsNearly ss si bi c h i s at j frame sector half =
    elim (get_elem?-modify ss si i (put_block bi c) s at) [
      | inr (ne, found) ↦ absurd (h i s found j frame sector half)
      | inl (v, e, found, eq) ↦
          let half' : get_elem? (set v.blocks bi c) j ≡ some (spilling frame sector) =
            ap (λ (t : Session). get_elem? t.blocks j) eq ∙ half in
          elim (get_elem?-set v.blocks bi j c (spilling frame sector) half') [
            | inl (here, is) ↦ (sym e, sym here)
            | inr (off, old) ↦ absurd (h i v found j frame sector old)
          ]
    ]

put-IsSettled :
    (ss : List Session) (si bi : ℕ) (c : Block)
    → ((frame sector : ℕ) → c ≢ spilling frame sector)
    → IsNearly ss si bi
    → IsSettled (set_block si bi c ss)
put-IsSettled ss si bi c other h i s at j frame sector half =
    elim (get_elem?-modify ss si i (put_block bi c) s at) [
      | inr (ne, found) ↦ ne (sym (h i s found j frame sector half).0)
      | inl (v, e, found, eq) ↦
          let half' : get_elem? (set v.blocks bi c) j ≡ some (spilling frame sector) =
            ap (λ (t : Session). get_elem? t.blocks j) eq ∙ half in
          elim (get_elem?-set v.blocks bi j c (spilling frame sector) half') [
            | inl (here, is) ↦ other frame sector is
            | inr (off, old) ↦ off (sym (h i v found j frame sector old).1)
          ]
    ]

module _ (frames : FrameSource) where
  open frames use {Pool}

  finish_spill-IsSettled :
      (sector now : ℕ) (v : Victim) (r : Result Done) (k : Kv Pool)
      → IsNearly k.cache.sessions v.si v.bi
      → IsSettled (finish_spill frames sector now v r k).cache.sessions
  unfolding finish_spill
  finish_spill-IsSettled sector now v (ok done) k h =
      modify-IsSettled (set_block v.si v.bi (spilled sector) k.cache.sessions) v.si count_spill
        (λ s g. g) (put-IsSettled k.cache.sessions v.si v.bi (spilled sector) (λ a b e. cc) h)
  finish_spill-IsSettled sector now v (err e) k h =
      put-IsSettled k.cache.sessions v.si v.bi (resident v.frame now) (λ a b e. cc) h

  make_room-IsSettled :
      (fuel want : ℕ) (k : Kv Pool)
      → IsSettled k.cache.sessions
      → IsSettled (make_room frames fuel want k).cache.sessions
  unfolding make_room evict spill mark
  make_room-IsSettled zero want k h = h
  make_room-IsSettled (suc fuel) want k h =
      let once : IsSettled (evict frames want k).1.cache.sessions =
        elim (choose_lem k.cache want (k.clock k.readings)) [
          | inr (e, why) ↦ rw e h
          | inl (v, e, w) ↦
              rw e (finish_spill-IsSettled _ _ v _ _ (mark-IsNearly k.cache.sessions v.si v.bi _ h))
        ] in
      elim (Bool-cases (evict frames want k).0) [
        | inl more ↦ rw more (make_room-IsSettled fuel want (evict frames want k).1 once)
        | inr last ↦ rw last once
      ]

  put_back-IsSettled :
      (ss : List Session) (id index frame now : ℕ) (f : Session → Session)
      → ((s : Session) → (f s).blocks ≡ set s.blocks index (resident frame now))
      → IsSettled ss
      → IsSettled (modify_first (has_id id) f ss)
  put_back-IsSettled ss id index frame now f same h =
      modify_first-IsSettled ss id f
        (λ s g.
          subst NoHalf (sym (same s))
            (set-NoHalf s.blocks index (resident frame now) (λ a b e. cc) g))
        h

  bring_back-IsSettled :
      (id index now frame : ℕ) (r : Result Done) (k : Kv Pool)
      → IsSettled k.cache.sessions
      → IsSettled (bring_back frames id index now frame r k).1.cache.sessions
  unfolding bring_back
  bring_back-IsSettled id index now frame (err e) k h = h
  bring_back-IsSettled id index now frame (ok done) k h =
      put_back-IsSettled k.cache.sessions id index frame now (restore_block index frame now)
        (λ s. refl) h

  restore-IsSettled :
      (id index now sector : ℕ) (k : Kv Pool)
      → IsSettled k.cache.sessions
      → IsSettled (restore frames id index now sector k).1.cache.sessions
  unfolding restore
  restore-IsSettled id index now sector k h =
      let made = make_room-IsSettled (suc k.cache.resident_blocks) 1 k h in
      elim (Option-cases (frames.take_frame (room_for_one frames k).pool).0) [
        | inl e ↦ rw (e, restore) made
        | inr (frame, e) ↦ rw (e, restore) (bring_back-IsSettled id index now frame _ _ made)
      ]

  answered-given : (len : ℕ) (out : ℕ → ℕ) (r : Result (ℕ → ℕ)) → answered frames len out r ≢ waits
  answered-given len out (ok bytes) e = cc
  answered-given len out (err m) e = cc

  read_block-IsSettled :
      (id index len : ℕ) (out : ℕ → ℕ) (b : Block) (k : Kv Pool)
      → ((frame sector : ℕ) → b ≢ spilling frame sector)
      → IsSettled k.cache.sessions
      → IsSettled (read_block frames id index len out b k).1.cache.sessions
        × ((read_block frames id index len out b k).0 ≢ waits)
  unfolding read_block
  read_block-IsSettled id index len out (resident frame used) k n h = (
    put_back-IsSettled k.cache.sessions id index frame (k.clock k.readings)
        (hit_block index frame (k.clock k.readings)) (λ s. refl) h,
    λ e. cc,
  )
  read_block-IsSettled id index len out (spilling frame sector) k n h = absurd (n frame sector refl)
  read_block-IsSettled id index len out (spilled sector) k n h = (
    restore-IsSettled id index (k.clock k.readings) sector (record k { readings = k.readings + 1 })
        h,
    answered-given len out _,
  )

  pub read-IsSettled :
      (id index len : ℕ) (out : ℕ → ℕ) (k : Kv Pool)
      → IsSettled k.cache.sessions
      → IsSettled (read frames id index len out k).1.cache.sessions
        × ((read frames id index len out k).0 ≢ waits)
  unfolding read
  read-IsSettled id index len out k h =
      let ss = k.cache.sessions in
      let now = k.clock k.readings in
      let touched : IsSettled (modify_first (has_id id) (touch_session now) ss) =
        modify_first-IsSettled ss id (touch_session now) (λ s g. g) h in
      elim (find_cases (has_id id) ss) [
        | inl (e, none') ↦ rw (e, read) (h, λ w. cc)
        | inr (i, first, e, place) ↦ elim (Option-cases (get_elem? first.item.blocks index)) [
          | inl g ↦ rw (e, g, read) (touched, λ w. cc)
          | inr (b, g) ↦
              rw (e, g, read)
                (read_block-IsSettled id index len out b _
                  (λ frame sector is.
                    h i first.item first.at_place index frame sector (g ∙ ap some is))
                  touched)
        ]
      ]

  append_one-IsSettled :
      (id : ℕ) (k : Kv Pool)
      → IsSettled k.cache.sessions
      → IsSettled (append_one frames id k).1.cache.sessions
  unfolding append_one append_frame add_to
  append_one-IsSettled id k h =
      let r = room_for_one frames k in
      let made = make_room-IsSettled (suc k.cache.resident_blocks) 1 k h in
      elim (Bool-cases (leb budget_blocks r.cache.resident_blocks)) [
        | inl full ↦ rw full made
        | inr free' ↦ elim (Option-cases (frames.take_frame r.pool).0) [
          | inl e ↦ rw (free', e, append_frame) made
          | inr (frame, e) ↦ elim (Option-cases (find (has_id id) r.cache.sessions)) [
            | inl f ↦ rw (free', e, f, append_frame, add_to) made
            | inr (s, f) ↦
                rw (free', e, f, append_frame, add_to)
                  (modify_first-IsSettled r.cache.sessions id _
                    (λ s g. push-NoHalf s.blocks frame _ g) made)
          ]
        ]
      ]

  open-IsSettled :
      (owner model : ℕ) (k : Kv Pool)
      → IsSettled k.cache.sessions
      → IsSettled (open_session owner model k).1.cache.sessions
  unfolding open_session
  open-IsSettled owner model k h i s at = elim (get_elem?-snoc k.cache.sessions _ i s at) [
    | inl (lt, old) ↦ h i s old
    | inr (here, is) ↦ subst (λ (t : Session). NoHalf t.blocks) is (λ j frame sector e. cc)
  ]

  pub calls-IsSettled :
      (cs : List Call) (k : Kv Pool)
      → IsSettled k.cache.sessions
      → IsSettled (calls frames cs k).1.cache.sessions
  unfolding calls call
  calls-IsSettled [] k h = h
  calls-IsSettled (opens owner model ∷ cs) k h =
      calls-IsSettled cs _ (open-IsSettled owner model k h)
  calls-IsSettled (appends id ∷ cs) k h = calls-IsSettled cs _ (append_one-IsSettled id k h)
  calls-IsSettled (reads id index len out ∷ cs) k h =
      calls-IsSettled cs _ (read-IsSettled id index len out k h).0
