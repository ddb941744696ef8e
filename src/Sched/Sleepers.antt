-- ===== src/Sched/Sleepers.antt =====
-- `wake_sleepers_and_survey`: whom the sweep wakes, and what the core is told to wait for.
use jungey_os.Prelude.{
  ℕ, zero, suc, ◌≤◌, ◌<◌, ◌≡◌, ◌≢◌, ◌⊎◌, inl, inr, refl, true, false, Option, none, some, List, [],
  ◌∷◌, arith, get_elem?, leb, min, Bool-cases,
}
use jungey_os.Sched.{
  Thread, State, runnable, sleeping, Survey, sooner, survey_thread, survey_from,
  wake_sleepers_and_survey,
}

abbrev pub AtMost : Option ℕ → ℕ → Type 0
AtMost o x = (e : ℕ) × (o ≡ some e) × (e ≤ x)

-- One round, for a thread in the state `st`: `u` is the thread afterwards, `s'` the survey.
record IsRound (now : ℕ) (t u : Thread) (s s' : Survey) : Type 0 where
  due : (until : ℕ) → u.state ≡ sleeping until → (now < until) × AtMost s'.earliest until
  keeps : (x : ℕ) → AtMost s.earliest x → AtMost s'.earliest x
  attained : (e : ℕ) → s'.earliest ≡ some e → (s.earliest ≡ some e) ⊎ (u.state ≡ sleeping e)
  busy : u.affinity ≡ none → u.state ≡ runnable → s'.work ≡ true
  still_busy : s.work ≡ true → s'.work ≡ true

sooner-AtMost : (until : ℕ) (o : Option ℕ) → AtMost (sooner until o) until
unfolding sooner
sooner-AtMost until none = (until, refl, omega arith)
sooner-AtMost until (some e) = (min e until, refl, omega arith)

sooner-keeps : (until : ℕ) (o : Option ℕ) (x : ℕ) → AtMost o x → AtMost (sooner until o) x
unfolding sooner
sooner-keeps until none x (e, h, le) = absurd (cc)
sooner-keeps until (some d) x (e, h, le) = (min d until, refl, ground arith)

sooner-attained :
    (until : ℕ) (o : Option ℕ) (v : ℕ) → sooner until o ≡ some v → (o ≡ some v) ⊎ (until ≡ v)
unfolding sooner
sooner-attained until none v h = inr (cc)
sooner-attained until (some e) v h = elim (Bool-cases (leb e until)) [
  | inl le ↦ inl (ground arith)
  | inr gt ↦ inr (ground arith)
]

IsRound-sleeping :
    (now : ℕ) (t : Thread) (until : ℕ) (s : Survey)
    → t.state ≡ sleeping until
    → IsRound now t
        (survey_thread now t (sleeping until) s).0
        s
        (survey_thread now t (sleeping until) s).1
unfolding survey_thread sooner
IsRound-sleeping now t until s e = elim (Bool-cases (leb until now)) [
  | inl over ↦ rw over (record {
    due = λ v h. cc;
    keeps = λ x h. h;
    attained = λ v h. inl h;
    busy = λ _ _. refl;
    still_busy = λ _. refl;
  })
  | inr ahead ↦ rw ahead (record {
    due = λ v h.
        let same : until ≡ v = ground arith in
        (ground arith, rw (← same) (sooner-AtMost until s.earliest));
    keeps = λ x h. sooner-keeps until s.earliest x h;
    attained = λ v h. elim (sooner-attained until s.earliest v h) [
      | inl was ↦ inl was
      | inr same ↦ inr (ground arith)
    ];
    busy = λ _ h. cc;
    still_busy = λ h. h;
  })
]

round_lem :
    (now : ℕ) (t : Thread) (st : State) (s : Survey)
    → t.state ≡ st
    → IsRound now t (survey_thread now t st s).0 s (survey_thread now t st s).1
unfolding survey_thread
round_lem now t (sleeping until) s e = IsRound-sleeping now t until s e
round_lem now t runnable s e = record {
  due = λ v h. cc;
  keeps = λ x (v, f, le). (v, ground arith, le);
  attained = λ v h. inl (ground arith);
  busy = λ none_ _. rw none_;
  still_busy = λ h. ground arith;
}
round_lem now t _ s e = record {
  due = λ v h. cc;
  keeps = λ x h. h;
  attained = λ v h. inl h;
  busy = λ _ h. cc;
  still_busy = λ h. h;
}

-- The whole sweep, from a survey that has begun.
record IsSweep (now : ℕ) (us : List Thread) (s s' : Survey) : Type 0 where
  due :
      (i : ℕ) (u : Thread) (until : ℕ)
      → get_elem? us i ≡ some u
      → u.state ≡ sleeping until
      → (now < until) × AtMost s'.earliest until
  keeps : (x : ℕ) → AtMost s.earliest x → AtMost s'.earliest x
  attained :
      (e : ℕ)
      → s'.earliest ≡ some e
      → (s.earliest ≡ some e)
        ⊎ ((i : ℕ) × (u : Thread) × (get_elem? us i ≡ some u) × (u.state ≡ sleeping e))
  busy :
      (i : ℕ) (u : Thread)
      → get_elem? us i ≡ some u
      → u.affinity ≡ none
      → u.state ≡ runnable
      → s'.work ≡ true
  still_busy : s.work ≡ true → s'.work ≡ true

module _ (now : ℕ) (t u : Thread) (us : List Thread) (s m s' : Survey) (r : IsRound now t u s m)
    (w : IsSweep now us m s') where
  cons-due :
      (i : ℕ) (v : Thread) (until : ℕ)
      → get_elem? (u ∷ us) i ≡ some v
      → v.state ≡ sleeping until
      → (now < until) × AtMost s'.earliest until
  cons-due zero v until e h =
      let (ahead, bound) = r.due until (ground arith) in (ahead, w.keeps until bound)
  cons-due (suc i) v until e h = w.due i v until e h

  cons-busy :
      (i : ℕ) (v : Thread)
      → get_elem? (u ∷ us) i ≡ some v
      → v.affinity ≡ none
      → v.state ≡ runnable
      → s'.work ≡ true
  cons-busy zero v e a h = w.still_busy (r.busy (ground arith) (ground arith))
  cons-busy (suc i) v e a h = w.busy i v e a h

  IsSweep-cons : IsSweep now (u ∷ us) s s'
  IsSweep-cons = record {
    due = cons-due;
    keeps = λ x h. w.keeps x (r.keeps x h);
    attained = λ e h. elim (w.attained e h) [
      | inr (i, v, found, same) ↦ inr (suc i, v, found, same)
      | inl before ↦ elim (r.attained e before) [
        | inl old ↦ inl old
        | inr mine ↦ inr (0, u, refl, mine)
      ]
    ];
    busy = cons-busy;
    still_busy = λ h. w.still_busy (r.still_busy h);
  }

sweep_lem :
    (now : ℕ) (ts : List Thread) (s : Survey)
    → IsSweep now (survey_from now ts s).0 s (survey_from now ts s).1
unfolding survey_from
sweep_lem now [] s = record {
  due = λ i u until e. absurd (cc);
  keeps = λ x h. h;
  attained = λ e h. inl h;
  busy = λ i u e. absurd (cc);
  still_busy = λ h. h;
}
sweep_lem now (t ∷ ts) s =
    IsSweep-cons now t _ _ s (survey_thread now t t.state s).1 _ (round_lem now t t.state s refl)
      (sweep_lem now ts (survey_thread now t t.state s).1)

-- What a core may rely on when it arms its timer by the survey.
pub record IsSurveyed (now : ℕ) (threads : List Thread) (s : Survey) : Type 0 where
  pub none_due :
      (i : ℕ) (u : Thread) (until : ℕ)
      → get_elem? threads i ≡ some u
      → u.state ≡ sleeping until
      → (now < until) × AtMost s.earliest until
  pub attained :
      (e : ℕ)
      → s.earliest ≡ some e
      → (i : ℕ) × (u : Thread) × (get_elem? threads i ≡ some u) × (u.state ≡ sleeping e)
  pub no_work :
      s.work ≡ false
      → (i : ℕ) (u : Thread) → get_elem? threads i ≡ some u
      → u.affinity ≡ none
      → u.state ≢ runnable

-- A tickless core does not oversleep. After the sweep no sleeper is due, the reported deadline is that
-- of some sleeper and no sleeper's is earlier, and when no work is reported no unpinned thread is
-- runnable.
pub wake_sleepers_and_survey_lem :
    (threads : List Thread) (now : ℕ)
    → IsSurveyed now
        (wake_sleepers_and_survey threads now).0
        (wake_sleepers_and_survey threads now).1
unfolding wake_sleepers_and_survey
wake_sleepers_and_survey_lem threads now =
    let w = sweep_lem now threads (record { work = false; earliest = none }) in
    record {
      none_due = w.due;
      attained = λ e h. elim (w.attained e h) [ inl start ↦ absurd (cc) | inr found ↦ found ];
      no_work = λ idle i u found a h. ground (arith, w.busy i u found a h);
    }
