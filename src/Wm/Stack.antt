-- ===== src/Wm/Stack.antt =====
-- user/src/wm.rs: the windows form a stack, each owner has one window of an id, and every operation
-- keeps it so.
use jungey_os.Prelude.{
  ℕ, ◌+◌, ◌≤◌, ◌<◌, ◌≡◌, ◌≢◌, ◌⊎◌, inl, inr, refl, sym, ap, ◌∙◌, true, some, List, [], ◌∷◌, ◌++◌,
  get_elem?, set, arith, length, length-set, length-take, length-append, get_elem?-replicate,
  get_elem?-set, Bool-cases, ltb,
}
use jungey_os.Wm.{
  new_wm, blank_window, Rect, Window, Wm, Cmd, dirty, created, create, with_window, clamp_to_screen,
  raise, push, reset, add_cmd,
}
use jungey_os.Wm.Owners.{with_window_lem, create_lem}

-- A window lies on the screen, and its lists are as long as their arrays allow.
pub record IsCut (w : Window) : Type 0 where
  pub right : w.rect.x + w.rect.w ≤ 480
  pub bottom : w.rect.y + w.rect.h ≤ 960
  pub short_title : length w.title ≤ 24
  pub few_cmds : length w.cmds ≤ 24

pub record IsStack (ws : List Window) (next_z : ℕ) : Type 0 where
  pub below : (i : ℕ) (w : Window) → get_elem? ws i ≡ some w → w.used ≡ true → w.z < next_z
  pub apart :
      (i j : ℕ) (v w : Window)
      → get_elem? ws i ≡ some v
      → get_elem? ws j ≡ some w
      → v.used ≡ true
      → w.used ≡ true
      → v.z ≡ w.z
      → i ≡ j
  pub unique :
      (i j : ℕ) (v w : Window)
      → get_elem? ws i ≡ some v
      → get_elem? ws j ≡ some w
      → v.used ≡ true
      → w.used ≡ true
      → v.owner ≡ w.owner
      → v.id ≡ w.id
      → i ≡ j
  pub cut : (i : ℕ) (w : Window) → get_elem? ws i ≡ some w → w.used ≡ true → IsCut w

abbrev pub IsWm : Wm → Type 0
IsWm m = (length m.windows ≡ 8) × IsStack m.windows m.next_z

-- Two places after a write: where the new value stands, and where the old ones do.
module _ (ws : List Window) (n n' slot : ℕ) (w : Window) (s : IsStack ws n) (grows : n ≤ n')
    (height : w.z < n') (fits : IsCut w)
    (alone : (j : ℕ) (v : Window) → get_elem? ws j ≡ some v → v.used ≡ true → j ≢ slot → v.z ≢ w.z)
    (own : (j : ℕ) (v : Window)
      → get_elem? ws j ≡ some v
      → v.used ≡ true
      → v.owner ≡ w.owner
      → v.id ≡ w.id
      → j ≡ slot) where
  set-IsStack : IsStack (set ws slot w) n'
  set-IsStack = record {
    below = λ i v at used. elim (get_elem?-set ws slot i w v at) [
      | inl (e, k) ↦ rw (← k) height
      | inr (ne, old) ↦ let b = s.below i v old used in omega arith
    ];
    apart = λ i j v u ai aj vu uu same. elim (get_elem?-set ws slot i w v ai) [
      | inl (e, k) ↦ elim (get_elem?-set ws slot j w u aj) [
        | inl (f, l) ↦ sym e ∙ f
        | inr (nf, old) ↦
            absurd
              (alone j u old uu (λ g. nf (sym g)) (sym same ∙ ap (λ (t : Window). t.z) (sym k)))
      ]
      | inr (ne, old) ↦ elim (get_elem?-set ws slot j w u aj) [
        | inl (f, l) ↦
            absurd (alone i v old vu (λ g. ne (sym g)) (same ∙ ap (λ (t : Window). t.z) (sym l)))
        | inr (nf, old') ↦ s.apart i j v u old old' vu uu same
      ]
    ];
    unique = λ i j v u ai aj vu uu so si. elim (get_elem?-set ws slot i w v ai) [
      | inl (e, k) ↦ elim (get_elem?-set ws slot j w u aj) [
        | inl (f, l) ↦ sym e ∙ f
        | inr (nf, old) ↦ absurd (
            nf (
              sym (
                own j u old uu (sym so ∙ ap (λ (t : Window). t.owner) (sym k))
                  (sym si ∙ ap (λ (t : Window). t.id) (sym k)))))
      ]
      | inr (ne, old) ↦ elim (get_elem?-set ws slot j w u aj) [
        | inl (f, l) ↦ absurd (
            ne (
              sym (
                own i v old vu (so ∙ ap (λ (t : Window). t.owner) (sym l))
                  (si ∙ ap (λ (t : Window). t.id) (sym l)))))
        | inr (nf, old') ↦ s.unique i j v u old old' vu uu so si
      ]
    ];
    cut = λ i v at used. elim (get_elem?-set ws slot i w v at) [
      | inl (e, k) ↦ rw (← k) fits
      | inr (ne, old) ↦ s.cut i v old used
    ];
  }

pub clamp_to_screen_lem :
    (r : Rect)
    → ((clamp_to_screen r).x + (clamp_to_screen r).w ≤ 480)
      × ((clamp_to_screen r).y + (clamp_to_screen r).h ≤ 960)
unfolding clamp_to_screen
clamp_to_screen_lem r = (omega arith, omega arith)

-- A new window: nobody's of that id, and on top of all others.
pub create-IsWm :
    (m : Wm) (owner id : ℕ) (rect : Rect) (bg : ℕ) (title : List ℕ)
    → IsWm m
    → IsWm (create m owner id rect bg title).1
unfolding dirty
create-IsWm m owner id rect bg title (slots, s) = elim (create_lem m owner id rect bg title) [
  | inl e ↦ rw e (slots, s)
  | inr c ↦
      let w = created owner id rect bg title m.next_z in
      rw c.done (
        length-set m.windows c.slot w ∙ slots,
        set-IsStack m.windows m.next_z (m.next_z + 1) c.slot w s (omega arith) (omega arith)
            (record {
              right = (clamp_to_screen_lem rect).0;
              bottom = (clamp_to_screen_lem rect).1;
              short_title = omega (arith, length-take 24 title);
              few_cmds = omega arith;
            })
            (λ j v at used n e. let b = s.below j v at used in omega arith)
            (λ j v at used so si. let f = c.new_id j v at in ground arith),
      )
]

grow-IsStack : (ws : List Window) (n n' : ℕ) → n ≤ n' → IsStack ws n → IsStack ws n'
grow-IsStack ws n n' h s = record {
  below = λ i w at used. let b = s.below i w at used in omega arith;
  apart = s.apart;
  unique = s.unique;
  cut = s.cut;
}

changed-IsCut :
    (w : Window) (z : ℕ) (cmds : List Cmd)
    → IsCut w
    → length cmds ≤ 24
    → IsCut (record w { z = z; cmds = cmds })
changed-IsCut w z cmds c few = record {
  right = c.right;
  bottom = c.bottom;
  short_title = c.short_title;
  few_cmds = few;
}

-- A change that keeps whose window it is.
pub record Keeps (f : Window → Window) : Type 0 where
  pub owner : (w : Window) → (f w).owner ≡ w.owner
  pub id : (w : Window) → (f w).id ≡ w.id
  pub cut : (w : Window) → IsCut w → IsCut (f w)

with_window-IsWm :
    (m : Wm) (n owner id : ℕ) (f : Window → Window)
    → length m.windows ≡ 8
    → IsStack m.windows n
    → n ≤ m.next_z
    → Keeps f
    → ((w : Window) → (f w).z ≡ w.z) ⊎ (((w : Window) → (f w).z ≡ n) × (n < m.next_z))
    → IsWm (with_window m owner id f).1
unfolding dirty
with_window-IsWm m n owner id f slots s grows keeps heights = elim (with_window_lem m owner id f) [
  | inl (e, none') ↦ rw e (slots, grow-IsStack m.windows n m.next_z grows s)
  | inr t ↦
      let w = f t.before in
      rw t.done (
        length-set m.windows t.slot w ∙ slots,
        set-IsStack m.windows n m.next_z t.slot w s grows
            (let b = s.below t.slot t.before t.at_slot t.in_use in
              elim heights [
                | inl same ↦ omega (arith, same t.before)
                | inr (top, lt) ↦ omega (arith, top t.before)
              ])
            (keeps.cut t.before (s.cut t.slot t.before t.at_slot t.in_use))
            (λ j v at used ne z. elim heights [
              | inl same ↦
                  ne (s.apart j t.slot v t.before at t.at_slot used t.in_use (z ∙ same t.before))
              | inr (top, lt) ↦ let b = s.below j v at used in omega (arith, top t.before)
            ])
            (λ j v at used so si.
              s.unique j t.slot v t.before at t.at_slot used t.in_use (so ∙ keeps.owner t.before)
                (si ∙ keeps.id t.before)),
      )
]

pub change-IsWm :
    (m : Wm) (owner id : ℕ) (f : Window → Window)
    → Keeps f
    → ((w : Window) → (f w).z ≡ w.z)
    → IsWm m
    → IsWm (with_window m owner id f).1
change-IsWm m owner id f keeps same (slots, s) =
    with_window-IsWm m m.next_z owner id f slots s (omega arith) keeps (inl same)

pub raise-IsWm : (m : Wm) (owner id : ℕ) → IsWm m → IsWm (raise m owner id).1
unfolding raise
raise-IsWm m owner id (slots, s) =
    with_window-IsWm (record m { next_z = m.next_z + 1 }) m.next_z owner id
      (λ w. record w { z = m.next_z }) slots s (omega arith)
      (record {
        owner = λ w. refl;
        id = λ w. refl;
        cut = λ w c. changed-IsCut w m.next_z w.cmds c c.few_cmds;
      })
      (inr (λ w. refl, omega arith))

pub add_cmd-Keeps : (cmd : Cmd) → Keeps (add_cmd cmd)
unfolding add_cmd
add_cmd-Keeps cmd = record {
  owner = λ w. ground arith;
  id = λ w. ground arith;
  cut = λ w c. elim (Bool-cases (ltb (length w.cmds) 24)) [
    | inl room ↦
        rw room (changed-IsCut w w.z (w.cmds ++ cmd ∷ []) c (rw length-append (ground arith)))
    | inr full ↦ rw full c
  ];
}

pub push-IsWm : (m : Wm) (owner id : ℕ) (cmd : Cmd) → IsWm m → IsWm (push m owner id cmd).1
unfolding push add_cmd
push-IsWm m owner id cmd v =
    change-IsWm m owner id (add_cmd cmd) (add_cmd-Keeps cmd) (λ w. ground arith) v

pub reset-IsWm : (m : Wm) (owner id : ℕ) → IsWm m → IsWm (reset m owner id).1
unfolding reset
reset-IsWm m owner id v =
    change-IsWm m owner id (λ w. record w { cmds = [] })
      (record {
        owner = λ w. refl;
        id = λ w. refl;
        cut = λ w c. changed-IsCut w w.z [] c (omega arith);
      })
      (λ w. refl) v

no_window : (i : ℕ) (w : Window) → get_elem? new_wm.windows i ≡ some w → w.used ≢ true
no_window i w at used = let e = get_elem?-replicate 8 blank_window i w at in cc

pub new-IsWm : IsWm new_wm
new-IsWm = (
  refl,
  record {
    below = λ i w at used. absurd (no_window i w at used);
    apart = λ i j v w ai aj vu wu e. absurd (no_window i v ai vu);
    unique = λ i j v w ai aj vu wu e f. absurd (no_window i v ai vu);
    cut = λ i w at used. absurd (no_window i w at used);
  },
)
