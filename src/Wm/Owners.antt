-- ===== src/Wm/Owners.antt =====
-- user/src/wm.rs: an operation reaches the windows of its sender and no others.
use jungey_os.Prelude.{
  ℕ, ◌+◌, ◌≡◌, ◌≢◌, ◌⊎◌, ◌↔◌, inl, inr, refl, sym, ap, ◌∙◌, Bool, true, false, some, List,
  get_elem?, set, arith, get_elem?-set, get_elem?-set_ne, get_elem?-same, ℕ_discrete,
}
use jungey_os.Prelude.Find.{position_cases, NonePass}
use jungey_os.Wm.{
  Rect, Window, Wm, dirty, owned_by, is_free, find_window, created, put_window, create, touch,
  with_window,
}

owned_by_lem :
    (owner id : ℕ) (w : Window)
    → owned_by owner id w ≡ true
    → (w.used ≡ true) × (w.owner ≡ owner) × (w.id ≡ id)
owned_by_lem owner id w h = (ground arith, ground arith, ground arith)

-- What `with` does: nothing but count, or it changes one window of the sender.
pub record Touches (m : Wm) (owner id : ℕ) (f : Window → Window) (r : Bool × Wm) : Type 0 where
  pub slot : ℕ
  pub before : Window
  pub at_slot : get_elem? m.windows slot ≡ some before
  pub in_use : before.used ≡ true
  pub owned : before.owner ≡ owner
  pub named : before.id ≡ id
  pub done : r ≡ (
    true,
    dirty
        (dirty (record m { windows = set m.windows slot (f before) }) before.rect)
        (f before).rect,
  )

pub with_window_lem :
    (m : Wm) (owner id : ℕ) (f : Window → Window)
    → ((with_window m owner id f ≡ (false, record m { rejected = m.rejected + 1 }))
        × NonePass (owned_by owner id) m.windows)
      ⊎ Touches m owner id f (with_window m owner id f)
unfolding with_window find_window
with_window_lem m owner id f = elim (position_cases (owned_by owner id) m.windows) [
  | inl (e, none') ↦ inl (rw (e, with_window) refl, none')
  | inr (i, e, first) ↦ inr (record {
    slot = i;
    before = first.item;
    at_slot = first.at_place;
    in_use = (owned_by_lem owner id first.item first.passes).0;
    owned = (owned_by_lem owner id first.item first.passes).1;
    named = (owned_by_lem owner id first.item first.passes).2;
    done = rw (e, with_window) (rw (first.at_place, touch) refl);
  })
]

-- What a successful `create` does: it puts a new window, on top, into a free slot, where the sender has
-- no window of that id.
pub record Creates (m : Wm) (owner id : ℕ) (rect : Rect) (bg : ℕ) (title : List ℕ) (r : Bool × Wm)
    : Type 0 where
  pub slot : ℕ
  pub before : Window
  pub at_slot : get_elem? m.windows slot ≡ some before
  pub free : before.used ≡ false
  pub new_id : NonePass (owned_by owner id) m.windows
  pub done : r ≡ (
    true,
    dirty
        (record m {
          windows = set m.windows slot (created owner id rect bg title m.next_z);
          next_z = m.next_z + 1;
        })
        (created owner id rect bg title m.next_z).rect,
  )

pub create_lem :
    (m : Wm) (owner id : ℕ) (rect : Rect) (bg : ℕ) (title : List ℕ)
    → (create m owner id rect bg title ≡ (false, m))
      ⊎ Creates m owner id rect bg title (create m owner id rect bg title)
unfolding create find_window
create_lem m owner id rect bg title = elim (position_cases (owned_by owner id) m.windows) [
  | inr (i, e, first) ↦ inl (rw (e, create) refl)
  | inl (e, none') ↦ elim (position_cases is_free m.windows) [
    | inl (full, all) ↦ inl (rw (e, create) (rw (full, put_window) refl))
    | inr (i, at, first) ↦ inr (record {
      slot = i;
      before = first.item;
      at_slot = first.at_place;
      free = (let p = first.passes in ground arith);
      new_id = none';
      done = rw (e, create) (rw (at, put_window) refl);
    })
  ]
]

-- The windows that others have are the same.
abbrev pub SameOthers : (owner : ℕ) → List Window → List Window → Type 0
SameOthers owner ws ws' =
    (j : ℕ) (w : Window)
    → w.used ≡ true
    → w.owner ≢ owner
    → (get_elem? ws j ≡ some w) ↔ (get_elem? ws' j ≡ some w)

set_others :
    (owner : ℕ) (ws : List Window) (i : ℕ) (b w' : Window)
    → get_elem? ws i ≡ some b
    → (b.used ≡ false) ⊎ (b.owner ≡ owner)
    → w'.owner ≡ owner
    → SameOthers owner ws (set ws i w')
set_others owner ws i b w' at mine new j w used other = (
  λ e. elim (ℕ_discrete i j) [
    | no n ↦ get_elem?-set_ne ws i j w' n ∙ e
    | yes s ↦
        let k : b ≡ w = get_elem?-same ws i j b w s at e in
        elim mine [ inl f ↦ cc | inr o ↦ absurd (other (ap (λ (v : Window). v.owner) (sym k) ∙ o)) ]
  ],
  λ e. elim (get_elem?-set ws i j w' w e) [
    | inl (s, k) ↦ absurd (other (ap (λ (v : Window). v.owner) (sym k) ∙ new))
    | inr (n, k) ↦ k
  ],
)

-- `with` on any change that keeps the owner leaves the windows of all others as they were.
pub with_window-SameOthers :
    (m : Wm) (owner id : ℕ) (f : Window → Window)
    → ((w : Window) → (f w).owner ≡ w.owner)
    → SameOthers owner m.windows (with_window m owner id f).1.windows
unfolding dirty
with_window-SameOthers m owner id f keeps = elim (with_window_lem m owner id f) [
  | inl (e, n) ↦ rw e (λ j w used other. (λ h. h, λ h. h))
  | inr t ↦ rw t.done (
      set_others owner m.windows t.slot t.before (f t.before) t.at_slot (inr t.owned)
        (keeps t.before ∙ t.owned))
]

pub create-SameOthers :
    (m : Wm) (owner id : ℕ) (rect : Rect) (bg : ℕ) (title : List ℕ)
    → SameOthers owner m.windows (create m owner id rect bg title).1.windows
unfolding dirty
create-SameOthers m owner id rect bg title = elim (create_lem m owner id rect bg title) [
  | inl e ↦ rw e (λ j w used other. (λ h. h, λ h. h))
  | inr c ↦ rw c.done (
      set_others owner m.windows c.slot c.before (created owner id rect bg title m.next_z) c.at_slot
        (inl c.free) refl)
]
