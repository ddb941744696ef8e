-- ===== src/Mm/Tests.antt =====
-- Runs of the frame allocator: two frames below the end, the first of them reserved.
use jungey_os.Prelude.{
  inl, ℕ, ◌+◌, ◌%◌, ◌≡◌, inl, inr, refl, Option, none, some, List, [], ◌∷◌, arith, ltb,
  if◌then◌else◌, err,
}
use mathlib.Core.Logic.Or
use mathlib.Core.List.{not-mem-nil, Nodup-cons, Nodup-nil, mem-cons}
use jungey_os.Mm.Frames.{Frames}
use jungey_os.Mm.Counter.{counter, counter_laws}
use jungey_os.Mm.Paging.{
  map, Tables, AddressSpace, user_text, user_read_only, user_data, bits, index, address, put_word,
  zeroed, descend, word_at, backing, translate, alloc_table, new, present, grow, entry_for,
  map_from,
}
use jungey_os.Mm.Paging.Tree.{Places}
use jungey_os.Mm.Paging.Grow.{IsSpace}
use jungey_os.Mm.Paging.Map.{entries, Maps, map-Maps}
use jungey_os.Mm.Paging.Exclusive.{IsExclusive, map_from-IsExclusive, new-IsSpace}
use jungey_os.Mm.Uaccess.{
  max_transfer, store, round_size, copy_from_user, write_pages, copy_to_user,
}
use jungey_os.Mm.Uaccess.Bytes.{
  translate-IsPaged, gather, scatter, copy_from_user-gather, copy_to_user-scatter,
}
use jungey_os.Mm.Heap.{
  Block, Heap, insert, layout_size, unlink_fit, put_front, put_tail, merge_forward, align_up,
}
use jungey_os.Mm.Heap.{alloc as alloc_block}
use jungey_os.Mm.Heap.Alloc.{IsHanded, alloc-IsFree}
use jungey_os.Mm.Frames.Inv.{IsFrame-IsProp, IsPool}

abbrev kernel_image : List (ℕ × ℕ)
kernel_image = (8192, 12288) ∷ []

abbrev frames : Frames
frames = record {
  bump = 8192;
  end = 20480;
  total = 2;
  free_list = 0;
  free_list_len = 0;
  reserved = kernel_image;
  link = λ a. 0;
}

frames-IsPool : IsPool frames [] []
frames-IsPool = record {
  ranges = ((omega arith, refl, refl, omega arith), tt);
  aligned = refl;
  links = refl;
  counted = refl;
  distinct = Nodup-nil;
  frames = λ a m. absurd (not-mem-nil m);
}

abbrev one_out : Frames
one_out = record frames { bump = 16384 }

one_out-IsPool : IsPool one_out [] (12288 ∷ [])
one_out-IsPool = record {
  ranges = ((omega arith, refl, refl, omega arith), tt);
  aligned = refl;
  links = refl;
  counted = refl;
  distinct = Nodup-cons.1 (not-mem-nil, Nodup-nil);
  frames = λ a m.
      Or.elim (IsFrame-IsProp one_out a) (mem-cons.0 m)
        (λ same. rw same (record {
          nonzero = omega arith;
          aligned = refl;
          passed = omega arith;
          inside = omega arith;
          unreserved = λ o. elim o [ inl h ↦ absurd (omega arith) | inr h ↦ h ];
        }))
        (λ none_. absurd (not-mem-nil none_));
}

abbrev one_block : List Block
one_block = record { addr = 8192; size = 4096 } ∷ []

abbrev given : Block
given = record { addr = 4096; size = 4096 }

abbrev heap : Heap
heap = record { blocks = one_block; total = 4096; allocated = 0; regions = (8192, 12288) ∷ [] }

abbrev heap_after : Heap
heap_after = record heap { blocks = record { addr = 8296; size = 3992 } ∷ []; allocated = 104 }

heap_run : alloc_block heap 100 8 ≡ (some 8192, heap_after)
unfolding alloc_block unlink_fit put_front put_tail insert merge_forward align_up
heap_run = refl

alloc-IsFree_example : IsHanded one_block heap_after.blocks 8192 (layout_size 100)
alloc-IsFree_example =
    alloc-IsFree heap heap_after 100 8 8192 (omega arith, omega arith, tt) (omega arith, tt)
      (omega arith) heap_run

abbrev no_tables : Tables
no_tables f i = 0

abbrev fresh_space : AddressSpace counter
fresh_space = record {
  root = 4096;
  asid = 1;
  owned = 4096 ∷ [];
  tables = zeroed no_tables 4096;
  pool = 1;
}

fresh_is_new : (new counter 1 no_tables 0).0 ≡ some fresh_space
unfolding new alloc_table
fresh_is_new = refl

fresh_space-IsSpace :
    (places : Places) × IsSpace counter counter_laws fresh_space places
    × ((va : ℕ) → translate fresh_space.tables fresh_space.root va ≡ none)
fresh_space-IsSpace = new-IsSpace counter counter_laws 1 no_tables 0 fresh_space fresh_is_new

map-Maps_example :
    Maps counter counter_laws 8388608 32768 3 user_data fresh_space
      (map counter 8388608 32768 3 user_data fresh_space)
map-Maps_example =
    map-Maps counter counter_laws 8388608 32768 3 user_data fresh_space fresh_space-IsSpace.0
      fresh_space-IsSpace.1

abbrev mapped : AddressSpace counter
mapped = (map_from counter 3 0 8388608 32768 user_data fresh_space).1

-- The second page, a byte into it.
second_page : translate mapped.tables mapped.root 8392705 ≡ some 36865
unfolding translate backing word_at descend map_from entry_for grow present put_word zeroed address
    bits index
second_page = refl

empty-IsExclusive : IsExclusive (entries counter counter_laws fresh_space)
unfolding translate backing
empty-IsExclusive va v =
    let u = fresh_space-IsSpace.2 va in
    let u' : some (address (entries counter counter_laws fresh_space va) + va % 4096) ≡ none =
      rw v at u in
    cc

map_from-IsExclusive_example :
    IsExclusive
      (entries counter counter_laws (map_from counter 3 0 8388608 32768 user_text fresh_space).1)
map_from-IsExclusive_example =
    map_from-IsExclusive counter counter_laws 3 0 8388608 32768 user_text fresh_space
      fresh_space-IsSpace.0 fresh_space-IsSpace.1 (omega arith) (omega arith) empty-IsExclusive

-- A page that the process may only read, written to all the same, at its end and past it.
abbrev read_only : AddressSpace counter
read_only = (map_from counter 2 0 8388608 32768 user_read_only fresh_space).1

abbrev tr : ℕ → Option ℕ
tr = translate read_only.tables read_only.root

copy_to_user-scatter_example :
    copy_to_user tr 8392702 (1 ∷ 2 ∷ 3 ∷ []) (λ a. 0)
    ≡ scatter tr
        (translate-IsPaged read_only.tables read_only.root)
        8392702
        (1 ∷ 2 ∷ 3 ∷ [])
        (λ a. 0)
copy_to_user-scatter_example =
    copy_to_user-scatter tr (translate-IsPaged read_only.tables read_only.root) 8392702
      (1 ∷ 2 ∷ 3 ∷ []) (λ a. 0)

copy_from_user-gather_example : copy_from_user tr 8392702 3 (λ a. a) ≡ (
    if ltb max_transfer 3
    then err "transfer too large"
    else gather tr (translate-IsPaged read_only.tables read_only.root) 3 8392702 (λ a. a))
copy_from_user-gather_example =
    copy_from_user-gather tr (translate-IsPaged read_only.tables read_only.root) 8392702 3 (λ a. a)

-- The byte is written, though the page is read-only.
written_through : (copy_to_user tr 8388608 (7 ∷ []) (λ a. 0)).1 32768 ≡ 7
unfolding copy_to_user write_pages round_size store translate backing word_at descend map_from
    entry_for grow present put_word zeroed address bits index
written_through = refl
