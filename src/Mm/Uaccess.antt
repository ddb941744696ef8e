-- ===== src/Mm/Uaccess.antt =====
-- kernel/src/mm/uaccess.rs: bytes that cross between a process and the kernel, page by page. Memory is a
-- byte for each physical address, and a space is what it translates. A loop gets as many rounds as there
-- are bytes, since each takes one byte at least.
pub mod Bytes
use jungey_os.Prelude.{
  ℕ, zero, suc, ◌+◌, ◌-◌, ◌%◌, Bool, true, false, Option, none, some, List, [], ◌∷◌, ◌++◌, length,
  take, drop, min, ltb, ◌==◌, if◌then◌else◌, Result, ok, err,
}
use jungey_os.Disk.{Done}
use jungey_os.Mm.{page_size}

abbrev pub max_transfer : ℕ
max_transfer = 4096

abbrev pub Memory : Type 0
Memory = (pa : ℕ) → ℕ

-- `from_raw_parts(src, n)`.
unfoldable pub slice_at : (n pa : ℕ) → Memory → List ℕ
slice_at zero pa m = []
slice_at (suc n) pa m = m pa ∷ slice_at n (pa + 1) m

abbrev pub put_byte : (pa b : ℕ) → Memory → Memory
put_byte pa b m = λ a. if a == pa then b else m a

-- `copy_nonoverlapping` to memory.
unfoldable pub store : (pa : ℕ) → List ℕ → Memory → Memory
store pa [] m = m
store pa (b ∷ bs) m = store (pa + 1) bs (put_byte pa b m)

-- What is left of the page, or of the transfer.
unfoldable pub round_size : (va left : ℕ) → ℕ
round_size va left = min (page_size - va % page_size) left

module _ (translate : (va : ℕ) → Option ℕ) where
  -- One round: the bytes of the page, and then the rest.
  abbrev pub page_then : Option ℕ → (n : ℕ) → Memory → Result (List ℕ) → Result (List ℕ)
  page_then none n m rest = err "unmapped user address"
  page_then (some pa) n m (ok rest) = ok (slice_at n pa m ++ rest)
  page_then (some pa) n m (err e) = err e

  unfoldable pub read_pages : (fuel left va : ℕ) → Memory → Result (List ℕ)
  read_pages fuel zero va m = ok []
  read_pages zero (suc left) va m = ok []
  read_pages (suc fuel) (suc left) va m =
      let n = round_size va (suc left) in
      page_then (translate va) n m (read_pages fuel (suc left - n) (va + n) m)

  unfoldable pub copy_from_user : (uva len : ℕ) → Memory → Result (List ℕ)
  copy_from_user uva len m =
      let copied = read_pages len len uva m in
      if ltb max_transfer len then err "transfer too large" else copied

  abbrev pub write_then :
      Option ℕ → List ℕ → Memory → (next : Memory → Result Done × Memory) → Result Done × Memory
  write_then none bytes m next = (err "unmapped user address", m)
  write_then (some pa) bytes m next = next (store pa bytes m)

  unfoldable pub write_pages : (fuel va : ℕ) → List ℕ → Memory → Result Done × Memory
  write_pages fuel va [] m = (ok tt, m)
  write_pages zero va (b ∷ bs) m = (ok tt, m)
  write_pages (suc fuel) va (b ∷ bs) m =
      let n = round_size va (length (b ∷ bs)) in
      write_then (translate va) (take n (b ∷ bs)) m (write_pages fuel (va + n) (drop n (b ∷ bs)))

  unfoldable pub copy_to_user : (uva : ℕ) → List ℕ → Memory → Result Done × Memory
  copy_to_user uva data_ m = write_pages (length data_) uva data_ m
