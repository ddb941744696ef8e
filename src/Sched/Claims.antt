-- ===== src/Sched/Claims.antt =====
-- The operations that change a thread's state and never its claim: `on_cpu` and `affinity`.
use jungey_os.Prelude.{
  ℕ, ◌≡◌, ◌⊎◌, inl, inr, refl, sym, ap, ap₂, ◌∙◌, false, String, Option, none, some, List, [], ◌∷◌,
  ◌++◌, map, arith, get_elem?, get_elem?-map, get_elem?-map-none, get_elem?-modify_at,
  get_elem?-modify, get_elem?-modify_ne, get_elem?-snoc, get_elem?-append_old, get_elem?-lt, modify,
  Option-cases, ℕ_discrete,
}
use jungey_os.Sched.{
  Thread, State, new, runnable, sleeping, spawn_pinned, start, mark_service, attach_process,
  prepare_block, cancel_block, thread_exit, sleep_until, wake, wake_all_on, Survey, survey_thread,
  survey_from, wake_sleepers_and_survey,
}

abbrev pub SameClaim : Thread → Thread → Type 0
SameClaim t u = (u.on_cpu ≡ t.on_cpu) × (u.affinity ≡ t.affinity)

-- Every thread is still there with its claim, and a new one is claimed by no core.
pub record KeepsClaims (threads threads' : List Thread) : Type 0 where
  pub old :
      (i : ℕ) (t : Thread)
      → get_elem? threads i ≡ some t
      → (u : Thread) × (get_elem? threads' i ≡ some u)
        × (u.on_cpu ≡ t.on_cpu)
        × (u.affinity ≡ t.affinity)
  pub fresh :
      (i : ℕ) (u : Thread)
      → get_elem? threads' i ≡ some u
      → ((t : Thread) × (get_elem? threads i ≡ some t)
          × (u.on_cpu ≡ t.on_cpu)
          × (u.affinity ≡ t.affinity))
        ⊎ (u.on_cpu ≡ none)

on_cpu-eq : {t u : Thread} → t ≡ u → u.on_cpu ≡ t.on_cpu
on_cpu-eq e = ap (λ (x : Thread). x.on_cpu) (sym e)

affinity-eq : {t u : Thread} → t ≡ u → u.affinity ≡ t.affinity
affinity-eq e = ap (λ (x : Thread). x.affinity) (sym e)

module _ (f : Thread → Thread) (same : (t : Thread) → SameClaim t (f t)) where
  map-KeepsClaims : (threads : List Thread) → KeepsClaims threads (map f threads)
  map-KeepsClaims threads = record {
    old = λ i t e. (f t, get_elem?-map f threads i t e, (same t).0, (same t).1);
    fresh = λ i u e. elim (Option-cases (get_elem? threads i)) [
      | inl gone ↦ absurd (ground (arith, get_elem?-map-none f threads i gone))
      | inr (t, at) ↦
          let eq : f t ≡ u = ground (arith, get_elem?-map f threads i t at) in
          inl (t, at, on_cpu-eq eq ∙ (same t).0, affinity-eq eq ∙ (same t).1)
    ];
  }

  modify-KeepsClaims : (threads : List Thread) (k : ℕ) → KeepsClaims threads (modify threads k f)
  modify-KeepsClaims threads k = record {
    old = λ i t e. elim (ℕ_discrete k i) [
      | yes here ↦ (f t, get_elem?-modify_at threads k i f t here e, (same t).0, (same t).1)
      | no there ↦ (t, get_elem?-modify_ne threads k i f there ∙ e, refl, refl)
    ];
    fresh = λ i u e. elim (get_elem?-modify threads k i f u e) [
      | inl (t, _, at, eq) ↦ inl (t, at, on_cpu-eq eq ∙ (same t).0, affinity-eq eq ∙ (same t).1)
      | inr (_, at) ↦ inl (u, at, refl, refl)
    ];
  }

-- What the survey does to one thread.
rouse : ℕ → Thread → Thread
rouse now t = (survey_thread now t t.state (record { work = false; earliest = none })).0

survey_thread-rouse :
    (now : ℕ) (t : Thread) (st : State) (s s' : Survey)
    → (survey_thread now t st s).0 ≡ (survey_thread now t st s').0
unfolding survey_thread
survey_thread-rouse now t new s s' = refl
survey_thread-rouse now t (sleeping until) s s' = ground arith
survey_thread-rouse now t runnable s s' = refl
survey_thread-rouse now t _ s s' = refl

survey_from-rouse :
    (now : ℕ) (ts : List Thread) (s : Survey) → (survey_from now ts s).0 ≡ map (rouse now) ts
unfolding survey_from rouse
survey_from-rouse now [] s = refl
survey_from-rouse now (t ∷ ts) s =
    ap₂ ◌∷◌ (survey_thread-rouse now t t.state s _) (survey_from-rouse now ts _)

survey_thread-SameClaim :
    (now : ℕ) (t : Thread) (st : State) (s : Survey) → SameClaim t (survey_thread now t st s).0
unfolding survey_thread
survey_thread-SameClaim now t new s = (refl, refl)
survey_thread-SameClaim now t (sleeping until) s = (ground arith, ground arith)
survey_thread-SameClaim now t _ s = (refl, refl)

rouse-SameClaim : (now : ℕ) (t : Thread) → SameClaim t (rouse now t)
unfolding rouse
rouse-SameClaim now t = survey_thread-SameClaim now t t.state _

-- The operations on the table that leave claims alone, as the cores may call them at any time.
pub data TableOp (threads : List Thread) : List Thread → Type 0 where
  wakes : (token : ℕ) → TableOp threads (wake_all_on threads token)
  surveys : (now : ℕ) → TableOp threads (wake_sleepers_and_survey threads now).0
  starts : (tid : ℕ) → TableOp threads (start threads tid)
  serves : (tid : ℕ) → TableOp threads (mark_service threads tid)
  attaches : (tid pid ttbr0 : ℕ) → TableOp threads (attach_process threads tid pid ttbr0)
  prepares : (me token : ℕ) → TableOp threads (prepare_block threads me token)
  cancels : (me : ℕ) → TableOp threads (cancel_block threads me)
  exits : (me : ℕ) → TableOp threads (thread_exit threads me)
  sleeps : (me until : ℕ) → TableOp threads (sleep_until threads me until)
  spawns :
      (name : String) (stack_phys ttbr0 : ℕ) (affinity : Option ℕ)
      → TableOp threads (spawn_pinned threads name stack_phys ttbr0 affinity).1

snoc-KeepsClaims :
    (threads : List Thread) (t : Thread) → t.on_cpu ≡ none → KeepsClaims threads (threads ++ t ∷ [])
snoc-KeepsClaims threads t free = record {
  old = λ i u e.
      (u, get_elem?-append_old threads (t ∷ []) i (get_elem?-lt threads i u e) ∙ e, refl, refl);
  fresh = λ i u e. elim (get_elem?-snoc threads t i u e) [
    | inl was ↦ inl (u, was.1, refl, refl)
    | inr added ↦ inr (ap (λ (x : Thread). x.on_cpu) (sym added.1) ∙ free)
  ];
}

pub TableOp-KeepsClaims :
    {threads threads' : List Thread} → TableOp threads threads' → KeepsClaims threads threads'
unfolding wake_all_on wake_sleepers_and_survey start mark_service attach_process prepare_block
    cancel_block thread_exit sleep_until spawn_pinned
TableOp-KeepsClaims (wakes token) =
    map-KeepsClaims (wake token) (λ t. (ground arith, ground arith)) _
TableOp-KeepsClaims {threads} (surveys now) =
    rw (survey_from-rouse now threads _) (map-KeepsClaims (rouse now) (rouse-SameClaim now) threads)
TableOp-KeepsClaims (starts tid) = modify-KeepsClaims _ (λ t. (ground arith, ground arith)) _ tid
TableOp-KeepsClaims (serves tid) = modify-KeepsClaims _ (λ t. (refl, refl)) _ tid
TableOp-KeepsClaims (attaches tid pid ttbr0) = modify-KeepsClaims _ (λ t. (refl, refl)) _ tid
TableOp-KeepsClaims (prepares me token) = modify-KeepsClaims _ (λ t. (refl, refl)) _ me
TableOp-KeepsClaims (cancels me) = modify-KeepsClaims _ (λ t. (ground arith, ground arith)) _ me
TableOp-KeepsClaims (exits me) = modify-KeepsClaims _ (λ t. (refl, refl)) _ me
TableOp-KeepsClaims (sleeps me until) = modify-KeepsClaims _ (λ t. (refl, refl)) _ me
TableOp-KeepsClaims (spawns name stack_phys ttbr0 affinity) = snoc-KeepsClaims _ _ refl
