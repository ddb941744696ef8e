-- ===== src/Fs/Crash.antt =====
-- A write that stops anywhere: the power is cut, the driver refuses, or it does not answer.
use jungey_os.Prelude.{
  ℕ, zero, suc, ◌+◌, ◌-◌, ◌≤◌, ◌<◌, ◌≡◌, ◌≢◌, ◌⊎◌, inl, inr, refl, sym, ap, ◌∙◌, subst, List, arith,
  All, ==_self, ==_ne, Option, some, Bool-cases, ℕ_discrete,
}
use jungey_os.Disk.{Sector, Device, write_sector, put_sector, write_sector_lem}
use jungey_os.Fs.{Checkpoint, Fs, decode, encode, cp_sector}
use jungey_os.Fs.Log.{commit, rooted, Outcome, landed, failed, off, write_chunks, chunk, is_cut}
use jungey_os.Fs.Roundtrip.{IsStorable, decode-encode}
use jungey_os.Fs.Root.{IsRoot, InLog}

-- Only sectors below 8 make the root.
pub IsRoot_ext :
    (fs : Fs) (media media' : ℕ → Sector)
    → IsRoot fs media
    → ((n : ℕ) → n < 8 → media' n ≡ media n)
    → IsRoot fs media'
IsRoot_ext fs media media' r same = record {
  magic = rw (same 0 (omega arith)) r.magic;
  sealed = rw (same 0 (omega arith)) r.sealed;
  regions = rw (same 0 (omega arith)) r.regions;
  two = r.two;
  current =
      rw (same (cp_sector fs.slot) (elim r.two [ inl z ↦ omega arith | inr o ↦ omega arith ]))
        r.current;
  older = λ c e. r.older c (rw (same (cp_sector (1 - fs.slot)) (omega arith)) at e);
  storable = r.storable;
  head = r.head;
  in_log = r.in_log;
  addressable = r.addressable;
}

module _ (fs : Fs) (media : ℕ → Sector) (cp : Checkpoint) (r : IsRoot fs media)
    (storable : IsStorable cp) (next_seq : cp.seq ≡ fs.cp.seq + 1) (head : 8 ≤ cp.log_head)
    (in_log : All (InLog cp.log_head) cp.files) where
  target_ne : cp_sector (1 - (1 - fs.slot)) ≢ cp_sector (1 - fs.slot)
  target_ne e = elim r.two [ inl z ↦ omega arith | inr o ↦ omega arith ]

  other_slot : cp_sector (1 - (1 - fs.slot)) ≡ cp_sector fs.slot
  other_slot = elim r.two [ inl z ↦ omega arith | inr o ↦ omega arith ]

  older_root :
      (c : Checkpoint)
      → decode
          (put_sector media (cp_sector (1 - fs.slot)) (encode cp) (cp_sector (1 - (1 - fs.slot))))
        ≡ some c
      → c.seq < cp.seq
  older_root c e =
      let was : decode (media (cp_sector (1 - (1 - fs.slot)))) ≡ some c =
        rw (==_ne _ _ target_ne) at e in
      let here : decode (media (cp_sector (1 - (1 - fs.slot)))) ≡ some fs.cp =
        subst (λ (n : ℕ). decode (media n) ≡ some fs.cp) (sym other_slot) r.current in
      let same : fs.cp ≡ c = cc in omega (arith, next_seq, ap (λ (x : Checkpoint). x.seq) same)

  -- The new checkpoint in the other slot is the root.
  pub put_root : IsRoot (rooted fs cp) (put_sector media (cp_sector (1 - fs.slot)) (encode cp))
  put_root =
      let first : put_sector media (cp_sector (1 - fs.slot)) (encode cp) 0 ≡ media 0 =
        rw (==_ne 0 (cp_sector (1 - fs.slot)) (λ e. omega arith)) refl in
      record {
        magic = rw first r.magic;
        sealed = rw first r.sealed;
        regions = rw first (ap (λ (x : Fs). rooted x cp) r.regions);
        two = elim r.two [ inl z ↦ inr (omega arith) | inr o ↦ inl (omega arith) ];
        current = rw (==_self (cp_sector (1 - fs.slot))) (decode-encode cp storable);
        older = older_root;
        storable = storable;
        head = head;
        in_log = in_log;
        addressable = r.addressable;
      }

-- A commit that succeeds has moved the root; one that fails may have.
pub commit_lem :
    (fs : Fs) (cp : Checkpoint) (d : Device)
    → ((commit fs cp d ≡ (landed, rooted fs cp, (commit fs cp d).2))
        × ((commit fs cp d).2.sectors ≡ put_sector d.sectors (cp_sector (1 - fs.slot)) (encode cp)))
      ⊎ (((commit fs cp d).0 ≢ landed)
          × (((commit fs cp d).2.sectors ≡ d.sectors)
              ⊎ ((commit fs cp d).2.sectors
                  ≡ put_sector d.sectors (cp_sector (1 - fs.slot)) (encode cp))))
unfolding commit
commit_lem fs cp d = elim (write_sector_lem d (cp_sector (1 - fs.slot)) (encode cp)) [
  | inl (good, wrote) ↦ inl (rw (good, commit) refl, rw (good, commit) wrote)
  | inr (e, bad, wrote) ↦ inr (rw (bad, commit) (λ h. cc), rw (bad, commit) wrote)
]

-- What the loop over the data leaves: nothing before the log's head has changed, and when it gets
-- through, every chunk is in its sector.
pub record IsLaid (start s left : ℕ) (bytes : List ℕ) (d : Device) (r : Outcome × Device)
    : Type 0 where
  pub below : (n : ℕ) → n < start + s → r.1.sectors n ≡ d.sectors n
  pub whole :
      r.0 ≡ landed → (j : ℕ) → s ≤ j → j < s + left → r.1.sectors (start + j) ≡ chunk bytes j

stopped-IsLaid :
    (start s left : ℕ) (bytes : List ℕ) (d d' : Device) (o : Outcome)
    → o ≢ landed
    → ((d'.sectors ≡ d.sectors) ⊎ (d'.sectors ≡ put_sector d.sectors (start + s) (chunk bytes s)))
    → IsLaid start s left bytes d (o, d')
stopped-IsLaid start s left bytes d d' o stopped h = record {
  below = λ n lt. elim h [
    | inl same ↦ rw same refl
    | inr wrote ↦ rw wrote (rw (==_ne n (start + s) (λ e. omega arith)) refl)
  ];
  whole = λ yes_. absurd (stopped yes_);
}

IsLaid-next :
    (start s left : ℕ) (bytes : List ℕ) (d d' : Device) (r : Outcome × Device)
    → d'.sectors ≡ put_sector d.sectors (start + s) (chunk bytes s)
    → IsLaid start (s + 1) left bytes d' r
    → IsLaid start s (suc left) bytes d r
IsLaid-next start s left bytes d d' r wrote rest = record {
  below = λ n lt.
      rest.below n (omega arith) ∙ rw wrote (rw (==_ne n (start + s) (λ e. omega arith)) refl);
  whole = λ done j lo hi. elim (ℕ_discrete s j) [
    | yes same ↦
        subst (λ (k : ℕ). r.1.sectors (start + k) ≡ chunk bytes k) same
          (rest.below (start + s) (omega arith) ∙ rw wrote (rw (==_self (start + s)) refl))
    | no ne ↦ rest.whole done j (omega arith) (omega arith)
  ];
}

pub write_chunks_lem :
    (left s start : ℕ) (bytes : List ℕ) (cut : Option ℕ) (d : Device)
    → IsLaid start s left bytes d (write_chunks left s start bytes cut d)
unfolding write_chunks
write_chunks_lem zero s start bytes cut d = record {
  below = λ n lt. refl;
  whole = λ done j lo hi. absurd (omega arith);
}
write_chunks_lem (suc left) s start bytes cut d = elim (Bool-cases (is_cut cut s)) [
  | inl cut_here ↦
      rw cut_here (stopped-IsLaid start s (suc left) bytes d d off (λ h. cc) (inl refl))
  | inr on ↦ elim (write_sector_lem d (start + s) (chunk bytes s)) [
    | inl (good, wrote) ↦
        rw (on, good, write_chunks)
          (IsLaid-next start s left bytes d (write_sector d (start + s) (chunk bytes s)).1 _ wrote (
            write_chunks_lem left (s + 1) start bytes cut
              (write_sector d (start + s) (chunk bytes s)).1))
    | inr (e, bad, wrote) ↦
        rw (on, bad, write_chunks)
          (stopped-IsLaid start s (suc left) bytes d _ (failed e) (λ h. cc) wrote)
  ]
]
