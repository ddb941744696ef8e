-- ===== src/Mm/Uaccess/Bytes.antt =====
-- kernel/src/mm/uaccess.rs: the copies by pages are copies byte by byte.
use jungey_os.Prelude.{
  ℕ, zero, suc, ◌+◌, ◌-◌, ◌%◌, ◌<◌, ◌≤◌, ◌≡◌, inl, inr, refl, sym, ◌∙◌, ap, ap₂, arith, Bool-cases,
  Option, Option-cases, none, some, List, [], ◌∷◌, length, take, drop, length-drop, ltb,
  if◌then◌else◌, Result, ok, err,
}
use jungey_os.Disk.{Done}
use jungey_os.Mm.{page_size}
use jungey_os.Mm.Paging.{Tables, descend, word_at, valid, address, backing, translate}
use jungey_os.Mm.Paging.Words.{page_of, same_page-descend, same_page-index}
use jungey_os.Mm.Uaccess.{
  Memory, max_transfer, slice_at, put_byte, store, round_size, page_then, write_then, read_pages,
  copy_from_user, write_pages, copy_to_user,
}

same_page-word :
    (t : Tables) (root va vb : ℕ) → page_of va ≡ page_of vb → word_at t root va ≡ word_at t root vb
unfolding word_at
same_page-word t root va vb h = elim (Option-cases (descend 3 0 vb root t)) [
  | inl e ↦
      let e' : descend 3 0 va root t ≡ none = same_page-descend t 3 0 va vb root h refl ∙ e in
      rw (e', e) refl
  | inr (last, e) ↦
      let e' : descend 3 0 va root t ≡ some last = same_page-descend t 3 0 va vb root h refl ∙ e in
      rw (e', e) (ap (t last) (same_page-index va vb 3 h (omega arith)))
]

-- Inside a page the translations are one after the other.
abbrev pub IsPaged : ((va : ℕ) → Option ℕ) → Type 0
IsPaged tr =
    (va pa k : ℕ) → tr va ≡ some pa → va % page_size + k < page_size → tr (va + k) ≡ some (pa + k)

pub translate-IsPaged : (t : Tables) (root : ℕ) → IsPaged (translate t root)
unfolding translate backing page_of
translate-IsPaged t root va pa k h within =
    let w : word_at t root (va + k) ≡ word_at t root va =
      same_page-word t root (va + k) va (omega arith) in
    elim (Bool-cases (valid (word_at t root va))) [
      | inl v ↦
          let h' : some (address (word_at t root va) + va % page_size) ≡ some pa = rw v at h in
          let same : address (word_at t root va) + va % page_size ≡ pa = cc in
          rw (w, v) (ap some (omega arith))
      | inr v ↦ let h' : none ≡ some pa = rw v at h in cc
    ]

round_size_lem :
    (va left : ℕ)
    → (1 ≤ round_size va (suc left))
      × (round_size va (suc left) ≤ suc left)
      × (va % page_size + round_size va (suc left) ≤ page_size)
unfolding round_size
round_size_lem va left = (omega arith, omega arith, omega arith)

module _ (tr : (va : ℕ) → Option ℕ) (paged : IsPaged tr) where
  -- The bytes that a process sees, one after the other.
  unfoldable pub gather : (n va : ℕ) → Memory → Result (List ℕ)
  gather zero va m = ok []
  gather (suc n) va m = page_then tr (tr va) 1 m (gather n (va + 1) m)

  unfoldable pub scatter : (va : ℕ) → List ℕ → Memory → Result Done × Memory
  scatter va [] m = (ok tt, m)
  scatter va (b ∷ bs) m = write_then tr (tr va) (b ∷ []) m (scatter (va + 1) bs)

  page_then-zero : (pa : ℕ) (m : Memory) (r : Result (List ℕ)) → page_then tr (some pa) 0 m r ≡ r
  unfolding slice_at
  page_then-zero pa m (ok bs) = refl
  page_then-zero pa m (err e) = refl

  page_then-suc :
      (pa n : ℕ) (m : Memory) (r : Result (List ℕ))
      → page_then tr (some pa) 1 m (page_then tr (some (pa + 1)) n m r)
        ≡ page_then tr (some pa) (suc n) m r
  unfolding slice_at
  page_then-suc pa n m (ok bs) = refl
  page_then-suc pa n m (err e) = refl

  gather-page :
      (n left va pa : ℕ) (m : Memory)
      → n ≤ left
      → ((k : ℕ) → k < n → tr (va + k) ≡ some (pa + k))
      → gather left va m ≡ page_then tr (some pa) n m (gather (left - n) (va + n) m)
  unfolding gather
  gather-page zero left va pa m le run = sym (
      page_then-zero pa m (gather (left - 0) (va + 0) m)
      ∙ ap₂ (λ k a. gather k a m) (omega arith) (omega arith))
  gather-page (suc n) zero va pa m le run = absurd (omega arith)
  gather-page (suc n) (suc left) va pa m le run =
      let here : tr va ≡ some pa =
        ap tr (omega arith) ∙ run 0 (omega arith) ∙ ap some (omega arith) in
      let rest =
        gather-page n left (va + 1) (pa + 1) m (omega arith)
          (λ k lt. ap tr (omega arith) ∙ run (suc k) (omega arith) ∙ ap some (omega arith)) in
      ap₂ (λ o r. page_then tr o 1 m r) here rest
      ∙ page_then-suc pa n m (gather (left - n) (va + 1 + n) m)
      ∙ ap₂ (λ k a. page_then tr (some pa) (suc n) m (gather k a m)) (omega arith) (omega arith)

  read_pages-gather :
      (fuel left va : ℕ) (m : Memory)
      → left ≤ fuel
      → read_pages tr fuel left va m ≡ gather left va m
  unfolding read_pages gather
  read_pages-gather fuel zero va m le = refl
  read_pages-gather zero (suc left) va m le = absurd (omega arith)
  read_pages-gather (suc fuel) (suc left) va m le =
      let n = round_size va (suc left) in
      let (some_byte, most, within) = round_size_lem va left in
      let rest = read_pages-gather fuel (suc left - n) (va + n) m (omega arith) in
      elim (Option-cases (tr va)) [
        | inl e ↦
            ap (λ o. page_then tr o n m (read_pages tr fuel (suc left - n) (va + n) m)) e
            ∙ sym (ap (λ o. page_then tr o 1 m (gather left (va + 1) m)) e)
        | inr (pa, e) ↦
            ap₂ (λ o r. page_then tr o n m r) e rest
            ∙ sym (
                gather-page n (suc left) va pa m (omega arith)
                  (λ k lt. paged va pa k e (omega arith)))
      ]

  -- Copying from a process by pages gives the bytes at its addresses, each translated by itself, and
  -- fails if one of them is not mapped; it fails for more than 4096 bytes before it looks at any.
  pub copy_from_user-gather :
      (uva len : ℕ) (m : Memory)
      → copy_from_user tr uva len m
        ≡ (if ltb max_transfer len then err "transfer too large" else gather len uva m)
  unfolding copy_from_user
  copy_from_user-gather uva len m =
      ap (λ r. if ltb max_transfer len then err "transfer too large" else r)
        (read_pages-gather len len uva m (omega arith))

  scatter-page :
      (n va pa : ℕ) (bs : List ℕ) (m : Memory)
      → n ≤ length bs
      → ((k : ℕ) → k < n → tr (va + k) ≡ some (pa + k))
      → scatter va bs m ≡ scatter (va + n) (drop n bs) (store pa (take n bs) m)
  unfolding scatter store
  scatter-page zero va pa bs m le run = ap (λ a. scatter a bs m) (omega arith)
  scatter-page (suc n) va pa [] m le run = absurd (omega arith)
  scatter-page (suc n) va pa (b ∷ bs) m le run =
      let here : tr va ≡ some pa =
        ap tr (omega arith) ∙ run 0 (omega arith) ∙ ap some (omega arith) in
      let rest =
        scatter-page n (va + 1) (pa + 1) bs (put_byte pa b m) (omega arith)
          (λ k lt. ap tr (omega arith) ∙ run (suc k) (omega arith) ∙ ap some (omega arith)) in
      ap (λ o. write_then tr o (b ∷ []) m (scatter (va + 1) bs)) here
      ∙ rest
      ∙ ap (λ a. scatter a (drop n bs) (store (pa + 1) (take n bs) (put_byte pa b m))) (omega arith)

  write_pages-scatter :
      (fuel va : ℕ) (bs : List ℕ) (m : Memory)
      → length bs ≤ fuel
      → write_pages tr fuel va bs m ≡ scatter va bs m
  unfolding write_pages scatter
  write_pages-scatter fuel va [] m le = refl
  write_pages-scatter zero va (b ∷ bs) m le = absurd (omega arith)
  write_pages-scatter (suc fuel) va (b ∷ bs) m le =
      let n = round_size va (suc (length bs)) in
      let (some_byte, most, within) = round_size_lem va (length bs) in
      let head = take n (b ∷ bs) in
      let tail = drop n (b ∷ bs) in
      elim (Option-cases (tr va)) [
        | inl e ↦
            ap (λ o. write_then tr o head m (write_pages tr fuel (va + n) tail)) e
            ∙ sym (ap (λ o. write_then tr o (b ∷ []) m (scatter (va + 1) bs)) e)
        | inr (pa, e) ↦
            ap (λ o. write_then tr o head m (write_pages tr fuel (va + n) tail)) e
            ∙ write_pages-scatter fuel (va + n) tail (store pa head m)
                (omega (arith, length-drop n (b ∷ bs)))
            ∙ sym (
                scatter-page n va pa (b ∷ bs) m (omega arith)
                  (λ k lt. paged va pa k e (omega arith)))
      ]

  -- Copying to a process by pages writes byte after byte where each address is translated to, until
  -- one is not mapped; the bytes before that one have been written then. What the page allows the
  -- process to do is not asked.
  pub copy_to_user-scatter :
      (uva : ℕ) (bs : List ℕ) (m : Memory) → copy_to_user tr uva bs m ≡ scatter uva bs m
  unfolding copy_to_user
  copy_to_user-scatter uva bs m = write_pages-scatter (length bs) uva bs m (omega arith)
