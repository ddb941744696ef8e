-- ===== src/Kv/Fails.antt =====
-- kernel/src/kv.rs: when `read` fails.
use jungey_os.Prelude.{ℕ, ◌≡◌, inl, inr, refl, some, get_elem?, String}
use jungey_os.Prelude.Find.{find_cases}
use jungey_os.Kv.{Block, resident, spilling, spilled, Kv, FrameSource}
use jungey_os.Kv.Ops.{has_id, read_block, read, fails}
use jungey_os.Kv.Keep.{BlockAt, first_same}
use jungey_os.Kv.Read.{IsSpilled}

module _ (frames : FrameSource) where
  open frames use {Pool}

  read_block-fails :
      (id index len : ℕ) (out : ℕ → ℕ) (b : Block) (k : Kv Pool) (e : String)
      → (read_block frames id index len out b k).0 ≡ fails e
      → IsSpilled b
  unfolding read_block
  read_block-fails id index len out (resident frame used) k e h = cc
  read_block-fails id index len out (spilling frame sector) k e h = cc
  read_block-fails id index len out (spilled sector) k e h = (sector, refl)

  pub read-fails :
      (id index len : ℕ) (out : ℕ → ℕ) (b : Block) (k : Kv Pool) (e : String)
      → BlockAt k.cache.sessions id index b
      → (read frames id index len out k).0 ≡ fails e
      → IsSpilled b
  unfolding read
  read-fails id index len out b k e p h = elim (find_cases (has_id id) k.cache.sessions) [
    | inl (no', none') ↦
        let no' = none' p.place p.first.item p.first.at_place in let yes' = p.first.passes in cc
    | inr (i, first, found', place) ↦
        let same = first_same id k.cache.sessions i p.place first p.first in
        let at : get_elem? k.cache.sessions i ≡ some p.first.item = rw same p.first.at_place in
        let there = first.at_place in
        let one : first.item ≡ p.first.item = cc in
        let here : get_elem? first.item.blocks index ≡ some b = rw one p.at_block in
        read_block-fails id index len out b _ e (rw (found', here, read) at h)
  ]
