-- ===== src/Sched/Exclusion/Stays.antt =====
-- What operations on other threads leave of a core's claims.
use jungey_os.Prelude.{
  ℕ, ◌≡◌, ◌≢◌, inl, inr, sym, ◌∙◌, some, List, arith, get_elem?, modify, get_elem?-modify_at,
  get_elem?-modify_ne, ℕ_discrete,
}
use jungey_os.Sched.{Thread, Cpu}
use jungey_os.Sched.Claims.{KeepsClaims}
use jungey_os.Sched.Exclusion.{Claimed, IsHeld, IsPinned}

module _ {threads threads' : List Thread} (keeps : KeepsClaims threads threads') where
  keeps-Claimed : (i k : ℕ) → Claimed threads i k → Claimed threads' i k
  keeps-Claimed i k (t, found, on) =
      let (u, found', same, _) = keeps.old i t found in (u, found', same ∙ on)

  pub keeps-IsHeld : {k : ℕ} {c : Cpu} → IsHeld threads k c → IsHeld threads' k c
  keeps-IsHeld {k} {c} h = record {
    numbered = h.numbered;
    runs = keeps-Claimed c.current k h.runs;
    saves = λ p e. (keeps-Claimed p k (h.saves p e).0, (h.saves p e).1);
    idles =
        let (t, found, pin) = h.idles in
        let (u, found', _, same) = keeps.old c.idle t found in (u, found', same ∙ pin);
  }

  pub keeps-IsPinned : IsPinned threads → IsPinned threads'
  keeps-IsPinned pinned i u a b e pin on = elim (keeps.fresh i u e) [
    | inl (t, found, same, same') ↦ pinned i t a b found (sym same' ∙ pin) (sym same ∙ on)
    | inr free ↦ absurd (ground arith)
  ]

-- Two claims on one thread are of one core.
pub claims-agree :
    (threads : List Thread) (i k k' : ℕ) → Claimed threads i k → Claimed threads i k' → k ≡ k'
claims-agree threads i k k' (t, e, on) (u, e', on') = ground arith

-- What an operation on the thread `n` alone leaves of the claims.
module _ (threads : List Thread) (n : ℕ) (f : Thread → Thread)
    (same : (t : Thread) → (f t).affinity ≡ t.affinity) where
  pub stays-Claimed : (i j : ℕ) → n ≢ i → Claimed threads i j → Claimed (modify threads n f) i j
  stays-Claimed i j ne (t, found, on) = (t, get_elem?-modify_ne threads n i f ne ∙ found, on)

  abbrev pub Pins : List Thread → ℕ → ℕ → Type 0
  Pins ts i k = (t : Thread) × (get_elem? ts i ≡ some t) × (t.affinity ≡ some k)

  pub stays-Pins : (i k : ℕ) → Pins threads i k → Pins (modify threads n f) i k
  stays-Pins i k (t, found, pin) = elim (ℕ_discrete n i) [
    | yes e ↦ (f t, get_elem?-modify_at threads n i f t e found, same t ∙ pin)
    | no ne ↦ (t, get_elem?-modify_ne threads n i f ne ∙ found, pin)
  ]

  -- A core that neither runs nor saves `n` is not touched.
  pub stays-IsHeld :
      {k : ℕ} {c : Cpu}
      → n ≢ c.current
      → ((p : ℕ) → c.release_prev ≡ some p → n ≢ p)
      → IsHeld threads k c
      → IsHeld (modify threads n f) k c
  stays-IsHeld {k} {c} run save h = record {
    numbered = h.numbered;
    runs = stays-Claimed c.current k run h.runs;
    saves = λ p e. (stays-Claimed p k (save p e) (h.saves p e).0, (h.saves p e).1);
    idles = stays-Pins c.idle k h.idles;
  }
