-- ===== src/Mm/Paging/Words.antt =====
-- kernel/src/mm/paging.rs: what one word that is written does to the walks of all addresses.
use jungey_os.Prelude.{
  ℕ, zero, suc, ◌+◌, ◌*◌, ◌/◌, ◌%◌, ◌^◌, ◌≤◌, ◌≡◌, ◌≢◌, inl, inr, refl, ◌∙◌, arith, ℕ_discrete,
  Bool-cases, Option-cases, none, some,
}
use jungey_os.Mm.{page_size}
use jungey_os.Mm.Paging.{Tables, index, valid, put_word, descend, word_at}
use jungey_os.Mm.Paging.Tree.{
  Places, prefix, IsClosed, index-lt, put_word_self, put_word-frame, put_word-index, descend-place,
}

-- The walk reads 36 bits of page number; the bits above them are not looked at.
unfoldable pub page_of : (va : ℕ) → ℕ
page_of va = va / page_size % 2 ^ 36

page_of-digits : (va : ℕ) → page_of va ≡ prefix va 3 * 512 + index va 3
unfolding page_of index
page_of-digits va = omega arith

pub same_page-index : (va vb l : ℕ) → page_of va ≡ page_of vb → l ≤ 3 → index va l ≡ index vb l
unfolding page_of index
same_page-index va vb zero h le = omega arith
same_page-index va vb (suc zero) h le = omega arith
same_page-index va vb (suc (suc zero)) h le = omega arith
same_page-index va vb (suc (suc (suc zero))) h le = omega arith
same_page-index va vb (suc (suc (suc (suc l)))) h le = absurd (omega arith)

pub same_page-descend :
    (t : Tables) (left l va vb table : ℕ)
    → page_of va ≡ page_of vb
    → l + left ≡ 3
    → descend left l va table t ≡ descend left l vb table t
unfolding descend
same_page-descend t zero l va vb table h top = refl
same_page-descend t (suc left) l va vb table h top =
    let same = same_page-index va vb l h (omega arith) in
    elim (Bool-cases (valid (t table (index vb l)))) [
      | inl v ↦ rw (same, v) (same_page-descend t left (suc l) va vb _ h (omega arith))
      | inr v ↦ rw (same, v) refl
    ]

-- A word of a level-3 table is written; walks do not look at it.
module _ (t : Tables) (places : Places) (c : IsClosed t places) (leaf va w : ℕ)
    (at : places leaf ≡ some (3, prefix va 3)) where
  abbrev pub put : Tables
  put = put_word t leaf (index va 3) w

  pub put-IsClosed : IsClosed put places
  put-IsClosed g l p i h lt il v =
      let same : put g i ≡ t g i = put_word-frame t leaf (index va 3) w g i (λ e.
        let h' : places leaf ≡ some (l, p) = rw e at h in let level : l ≡ 3 = cc in omega arith) in
      rw same (c g l p i h lt il (rw same at v))

  put-descend :
      (left l vb g : ℕ)
      → l + left ≡ 3
      → places g ≡ some (l, prefix vb l)
      → descend left l vb g put ≡ descend left l vb g t
  unfolding descend
  put-descend zero l vb g top h = refl
  put-descend (suc left) l vb g top h =
      let same : put g (index vb l) ≡ t g (index vb l) =
        put_word-frame t leaf (index va 3) w g (index vb l) (λ e.
          let h' : places leaf ≡ some (l, prefix vb l) = rw e at h in
          let level : l ≡ 3 = cc in omega arith) in
      elim (Bool-cases (valid (t g (index vb l)))) [
        | inl v ↦
            rw (same, v)
              (put-descend left (suc l) vb _ (omega arith)
                (c g l (prefix vb l) (index vb l) h (omega arith) (index-lt vb l) v))
        | inr v ↦ rw (same, v) refl
      ]

  module _ (root : ℕ) (rooted : places root ≡ some (0, 0)) where
    pub put_self :
        (vb : ℕ)
        → descend 3 0 va root t ≡ some leaf
        → page_of vb ≡ page_of va
        → word_at put root vb ≡ w
    unfolding word_at
    put_self vb h same =
        let there : descend 3 0 vb root put ≡ some leaf =
          put-descend 3 0 vb root refl rooted ∙ same_page-descend t 3 0 vb va root same refl ∙ h in
        rw (there, same_page-index vb va 3 same (omega arith)) (put_word_self t leaf (index va 3) w)

    pub put-other : (vb : ℕ) → page_of vb ≢ page_of va → word_at put root vb ≡ word_at t root vb
    unfolding word_at
    put-other vb ne = elim (Option-cases (descend 3 0 vb root t)) [
      | inl e ↦
          let e' : descend 3 0 vb root put ≡ none = put-descend 3 0 vb root refl rooted ∙ e in
          rw (e', e) refl
      | inr (last, e) ↦
          let e' : descend 3 0 vb root put ≡ some last = put-descend 3 0 vb root refl rooted ∙ e in
          rw (e', e)
            (elim (ℕ_discrete (index vb 3) (index va 3)) [
              | no ni ↦ put_word-index t leaf (index va 3) w last (index vb 3) ni
              | yes d ↦ put_word-frame t leaf (index va 3) w last (index vb 3) (λ same.
                  let at' = descend-place t places 3 0 vb root last c refl rooted e in
                  let here : places leaf ≡ some (3, prefix vb 3) = rw same at at' in
                  let parts : prefix va 3 ≡ prefix vb 3 = cc in
                  ne (omega (arith, page_of-digits va, page_of-digits vb)))
            ])
    ]
