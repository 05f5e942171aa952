-- ===== src/Pipeline/Sound/Batch.antt =====
-- A batch of the run's loop.
use foldermcp.Base.{
  ℕ, ◌<◌, ◌≡◌, ◌≢◌, refl, sym, ap, ◌∙◌, ◌⊎◌, inl, inr, Bool, true, false, Bool-cases, ◌==◌, ==_iff,
  List, [], ◌∷◌, All, AllPairs, length, arith,
}
use mathlib.Core.Path.{subst}
use mathlib.Core.Bool.{false≢true}
use mathlib.Core.List.{Memᴰ}
use mathlib.Core.List.Memᴰ
use foldermcp.Pipeline.Tables.{Tables}
use foldermcp.Pipeline.Engine.{Engine}
use foldermcp.Pipeline.Runner.{Env}
use foldermcp.Pipeline.Process.{Runner, checked}
use foldermcp.Pipeline.Run.{Turn, was_attempted, attempt, visit, run_batch}
use foldermcp.Pipeline.Sound.{IsSound}
use foldermcp.Pipeline.Sound.Process.{process_one_file-Kept}

was_attempted-Mem : (f : ℕ) (att : List ℕ) → was_attempted f att ≡ true → Memᴰ f att
was_attempted-Mem f [] h = absurd (false≢true h)
was_attempted-Mem f (g ∷ att) h = elim (Bool-cases (g == f)) [
  | inl e ↦ Memᴰ.head (sym ((==_iff g f).0 e))
  | inr e ↦ Memᴰ.tail (was_attempted-Mem f att (rw e at h))
]

pub not_attempted : (f : ℕ) (att : List ℕ) → was_attempted f att ≡ false → All (λ g. f ≢ g) att
not_attempted f [] h = tt
not_attempted f (g ∷ att) h = elim (Bool-cases (g == f)) [
  | inl e ↦ absurd (false≢true (sym h ∙ rw e))
  | inr e ↦
      ((λ same. false≢true (sym e ∙ (==_iff g f).1 (sym same))), not_attempted f att (rw e at h))
]

module _ (E : Engine) (env : Env) (cancelled : ℕ → Bool) (before : Tables) where
  open E use {Db, tables}
  open env use {embed_query}

  -- Sound, with the files of before.
  abbrev pub Going : Runner Db → Type 0
  Going r = IsSound embed_query (tables r.db) × ((g : ℕ) → (tables r.db).file g ≡ before.file g)

  -- What visiting `ids` does to a turn.
  pub record Visits (ids : List ℕ) (t after : Turn Db) : Type 1 where
    pub going : Going t.runner → Going after.runner
    pub distinct : AllPairs (λ a b. a ≢ b) t.attempted → AllPairs (λ a b. a ≢ b) after.attempted
    pub within : (P : ℕ → Type 0) → All P ids → All P t.attempted → All P after.attempted
    pub keeps : (g : ℕ) → Memᴰ g t.attempted → Memᴰ g after.attempted
    pub covers : after.stopped ≡ false → (g : ℕ) → Memᴰ g ids → Memᴰ g after.attempted
    pub grows :
        ((after.progressed ≡ t.progressed)
          × (after.attempted ≡ t.attempted)
          × (after.runner ≡ t.runner))
        ⊎ ((after.progressed ≡ true) × (length t.attempted < length after.attempted))

  attempt-Going :
      (f : ℕ) (t : Turn Db) → Going t.runner → Going (attempt E env cancelled f t).runner
  attempt-Going f t (s, same) = elim (Bool-cases (cancelled t.runner.checks)) [
    | inl e ↦ rw e (s, same)
    | inr e ↦
        let (s', k) =
          process_one_file-Kept E env cancelled f (checked E env cancelled t.runner) s in
        rw e (s', (λ g. k.file_same g ∙ same g))
  ]

  attempt-marks :
      (f : ℕ) (t : Turn Db)
      → ((attempt E env cancelled f t).attempted ≡ t.attempted)
        × ((attempt E env cancelled f t).progressed ≡ t.progressed)
  attempt-marks f t = elim (Bool-cases (cancelled t.runner.checks)) [
    | inl e ↦ rw e (refl, refl)
    | inr e ↦ rw e (refl, refl)
  ]

  only : {f g : ℕ} {att : List ℕ} → Memᴰ g (f ∷ []) → Memᴰ f att → Memᴰ g att
  only {f} {g} {att} (Memᴰ.head e) m = subst (λ x. Memᴰ x att) (sym e) m
  only (Memᴰ.tail k) m = absurd (Memᴰ.not-nil k)

  visited_again : (f : ℕ) (t : Turn Db) → Memᴰ f t.attempted → Visits (f ∷ []) t t
  visited_again f t m = record {
    going = λ h. h;
    distinct = λ h. h;
    within = λ P h k. k;
    keeps = λ g h. h;
    covers = λ _ g h. only h m;
    grows = inl (refl, refl, refl);
  }

  visited_anew :
      (f : ℕ) (t out : Turn Db)
      → All (λ g. f ≢ g) t.attempted
      → (Going t.runner → Going out.runner)
      → out.attempted ≡ f ∷ t.attempted
      → out.progressed ≡ true
      → Visits (f ∷ []) t out
  visited_anew f t out new go att progress = record {
    going = go;
    distinct = λ d. subst (AllPairs (λ a b. a ≢ b)) (sym att) (new, d);
    within = λ P h k. subst (All P) (sym att) (h.0, k);
    keeps = λ g m. subst (Memᴰ g) (sym att) (Memᴰ.tail m);
    covers = λ _ g m. only m (subst (Memᴰ f) (sym att) (Memᴰ.head refl));
    grows = inr (progress, omega (arith, ap length att));
  }

  visit-Visits : (f : ℕ) (t : Turn Db) → Visits (f ∷ []) t (visit E env cancelled f t)
  visit-Visits f t = elim (Bool-cases (was_attempted f t.attempted)) [
    | inl e ↦ rw e (visited_again f t (was_attempted-Mem f t.attempted e))
    | inr e ↦
        let marked = record t { attempted = f ∷ t.attempted; progressed = true } in
        let marks = attempt-marks f marked in
        rw e (
          visited_anew f t (attempt E env cancelled f marked) (not_attempted f t.attempted e)
            (attempt-Going f marked) marks.0 marks.1)
  ]

  Visits-nil : (t : Turn Db) → Visits [] t t
  Visits-nil t = record {
    going = λ h. h;
    distinct = λ h. h;
    within = λ P h k. k;
    keeps = λ g h. h;
    covers = λ _ g h. absurd (Memᴰ.not-nil h);
    grows = inl (refl, refl, refl);
  }

  -- One visit, then the others where it did not stop.
  Visits-cons :
      (f : ℕ) (fs : List ℕ) (t next rest : Turn Db)
      → next.stopped ≡ false
      → Visits (f ∷ []) t next
      → Visits fs next rest
      → Visits (f ∷ fs) t rest
  Visits-cons f fs t next rest on v w = record {
    going = λ h. w.going (v.going h);
    distinct = λ h. w.distinct (v.distinct h);
    within = λ P h k. w.within P h.1 (v.within P (h.0, tt) k);
    keeps = λ g h. w.keeps g (v.keeps g h);
    covers = λ s g m. first s g m;
    grows = both v.grows w.grows;
  }
    where
      first : rest.stopped ≡ false → (g : ℕ) → Memᴰ g (f ∷ fs) → Memᴰ g rest.attempted
      first s g (Memᴰ.head e) = w.keeps g (v.covers on g (Memᴰ.head e))
      first s g (Memᴰ.tail m) = w.covers s g m

      both :
          ((next.progressed ≡ t.progressed)
              × (next.attempted ≡ t.attempted)
              × (next.runner ≡ t.runner))
            ⊎ ((next.progressed ≡ true) × (length t.attempted < length next.attempted))
          → ((rest.progressed ≡ next.progressed)
              × (rest.attempted ≡ next.attempted)
              × (rest.runner ≡ next.runner))
            ⊎ ((rest.progressed ≡ true) × (length next.attempted < length rest.attempted))
          → ((rest.progressed ≡ t.progressed)
              × (rest.attempted ≡ t.attempted)
              × (rest.runner ≡ t.runner))
            ⊎ ((rest.progressed ≡ true) × (length t.attempted < length rest.attempted))
      both (inl (p, a, m)) (inl (q, b, n)) = inl (q ∙ p, b ∙ a, n ∙ m)
      both (inl (p, a, m)) (inr (q, b)) = inr (q, omega (arith, b, ap length a))
      both (inr (p, a)) (inl (q, b, n)) = inr (q ∙ p, omega (arith, a, ap length b))
      both (inr (p, a)) (inr (q, b)) = inr (q, omega (arith, a, b))

  Visits-stop :
      (f : ℕ) (fs : List ℕ) (t next : Turn Db)
      → next.stopped ≡ true
      → Visits (f ∷ []) t next
      → Visits (f ∷ fs) t next
  Visits-stop f fs t next off v = record {
    going = v.going;
    distinct = v.distinct;
    within = λ P h k. v.within P (h.0, tt) k;
    keeps = v.keeps;
    covers = λ s g m. absurd (false≢true (sym s ∙ off));
    grows = v.grows;
  }

  pub run_batch-Visits :
      (ids : List ℕ) (t : Turn Db) → Visits ids t (run_batch E env cancelled ids t)
  unfolding run_batch
  run_batch-Visits [] t = Visits-nil t
  run_batch-Visits (f ∷ fs) t = go (run_batch-Visits fs (visit E env cancelled f t))
    where
      go :
          Visits fs
            (visit E env cancelled f t)
            (run_batch E env cancelled fs (visit E env cancelled f t))
          → Visits (f ∷ fs) t (run_batch E env cancelled (f ∷ fs) t)
      go rest = elim (Bool-cases (visit E env cancelled f t).stopped) [
        | inl e ↦ rw e (Visits-stop f fs t (visit E env cancelled f t) e (visit-Visits f t))
        | inr e ↦ rw e (Visits-cons f fs t (visit E env cancelled f t) _ e (visit-Visits f t) rest)
      ]
