-- ===== src/Pipeline/Sound/Loop.antt =====
-- The loop of the run.
use foldermcp.Base.{
  ℕ, zero, suc, ◌+◌, ◌≤◌, ◌<◌, ◌≡◌, ◌≢◌, refl, sym, ap, ◌∙◌, inl, inr, Bool, true, false,
  Bool-cases, List, [], ◌∷◌, Bytes, some, All, AllPairs, length, arith,
}
use foldermcp.Base.Distinct.{length-distinct, All-Mem}
use mathlib.Core.Path.{subst}
use mathlib.Core.Bool.{false≢true}
use mathlib.Core.List.{Memᴰ}
use foldermcp.Pipeline.Tables.{embeddings, FilesRow, Tables}
use foldermcp.Pipeline.Engine.{Engine, Sql, done, error, IsWaiting}
use foldermcp.Pipeline.Runner.{Env}
use foldermcp.Pipeline.Process.{Runner, checked}
use foldermcp.Pipeline.Run.{
  Ending, complete, cancelled_run, fatal, out_of_fuel, Turn, Result, fresh_turn, after, fetched,
  run_loop, pending_fetch_size,
}
use foldermcp.Pipeline.Sound.{IsSound}
use foldermcp.Pipeline.Sound.Batch.{Going, Visits, run_batch-Visits}

abbrev is_out : Ending → Bool
is_out out_of_fuel = true
is_out _ = false

abbrev is_complete : Ending → Bool
is_complete complete = true
is_complete _ = false

module _ (E : Engine) (embed_query : Bytes → Sql Bytes) where
  open E use {Db, tables}

  -- The run ended, sound; no file was attempted twice, and a run that is complete left no pending file
  -- out.
  pub record Ended (out : Result Db) : Type 0 where
    pub ended : out.0 ≢ out_of_fuel
    pub sound : IsSound embed_query (tables out.2.db)
    pub distinct : AllPairs (λ a b. a ≢ b) out.1
    pub covers :
        out.0 ≡ complete → (g : ℕ) → IsWaiting (tables out.2.db) embeddings g → Memᴰ g out.1

  -- An ending that is neither complete nor for want of fuel.
  pub Ended-other :
      (e : Ending) (att : List ℕ) (r : Runner Db)
      → is_out e ≡ false
      → is_complete e ≡ false
      → IsSound embed_query (tables r.db)
      → AllPairs (λ a b. a ≢ b) att
      → Ended (e, att, r)
  Ended-other e att r no_out no_complete s d = record {
    ended = λ h. false≢true (sym no_out ∙ ap is_out h);
    sound = s;
    distinct = d;
    covers = λ h. absurd (false≢true (sym no_complete ∙ ap is_complete h));
  }

module _ (E : Engine) (env : Env) (cancelled : ℕ → Bool) (before : Tables) where
  open E use {Db, tables}

  abbrev GoingOf : Runner Db → Type 0
  GoingOf = Going E env cancelled before

  -- The pending files of a turn that attempts no new one were all attempted.
  covered :
      (att ids : List ℕ) (r : Runner Db)
      → E.select_pending r.db embeddings (length att + pending_fetch_size) ≡ done ids
      → ((g : ℕ) → Memᴰ g ids → Memᴰ g att)
      → (g : ℕ) → IsWaiting (tables r.db) embeddings g
      → Memᴰ g att
  covered att ids r e sub g waits =
      let (distinct, _, all) =
        E.select_pending_rows r.db embeddings (length att + pending_fetch_size) ids e in
      let few : length ids ≤ length att =
        length-distinct ids att distinct (All-Mem (λ x. Memᴰ x att) ids sub) in
      sub g (all (omega (arith, few)) g waits)

  module _ (known : List ℕ)
      (all_known : (g : ℕ) (x : FilesRow) → before.file g ≡ some x → Memᴰ g known) where
    -- What the loop does from a point on with so much fuel.
    abbrev Follows : ℕ → (List ℕ → Runner Db → Result Db) → Type 0
    Follows fuel next =
        (att : List ℕ) (r : Runner Db)
        → GoingOf r
        → AllPairs (λ a b. a ≢ b) att
        → All (λ g. Memᴰ g known) att
        → length known < length att + fuel
        → Ended E env.embed_query (next att r)

    pending_known :
        (att ids : List ℕ) (r : Runner Db)
        → GoingOf r
        → E.select_pending r.db embeddings (length att + pending_fetch_size) ≡ done ids
        → All (λ g. Memᴰ g known) ids
    pending_known att ids r go e =
        let (_, live, _) =
          E.select_pending_rows r.db embeddings (length att + pending_fetch_size) ids e in
        All-Mem (λ g. Memᴰ g known) ids
          (λ g m. let ((x, at, _), _) = live g m in all_known g x (sym (go.1 g) ∙ at))

    turn-Ended :
        (fuel : ℕ) (next : List ℕ → Runner Db → Result Db) (att ids : List ℕ) (r : Runner Db)
        → Follows fuel next
        → E.select_pending r.db embeddings (length att + pending_fetch_size) ≡ done ids
        → GoingOf r
        → AllPairs (λ a b. a ≢ b) att
        → All (λ g. Memᴰ g known) att
        → length known < length att + suc fuel
        → (t : Turn Db) → Visits E env cancelled before ids (fresh_turn E env cancelled att r) t
        → Ended E env.embed_query (after E env cancelled next t)
    turn-Ended fuel next att ids r follows e go d k enough t v = elim (Bool-cases t.stopped) [
      | inl off ↦ rw off (
          Ended-other E env.embed_query cancelled_run t.attempted t.runner refl refl (v.going go).0
            (v.distinct d))
      | inr on ↦ elim v.grows [
        | inl (quiet, same, still) ↦
            rw (on, quiet)
              (record {
                ended = λ h. false≢true (sym (ap is_complete h));
                sound = (v.going go).0;
                distinct = v.distinct d;
                covers = λ _ g waits.
                    subst (λ a. Memᴰ g a) (sym same)
                      (covered att ids r e (λ x m. subst (λ a. Memᴰ x a) same (v.covers on x m)) g
                        (subst (λ (q : Runner Db). IsWaiting (tables q.db) embeddings g) still
                          waits));
              })
        | inr (progress, more) ↦
            rw (on, progress)
              (follows t.attempted t.runner (v.going go) (v.distinct d)
                (v.within (λ g. Memᴰ g known) (pending_known att ids r go e) k)
                (omega (arith, more, enough)))
      ]
    ]

    fetched-Ended :
        (fuel : ℕ) (next : List ℕ → Runner Db → Result Db) (att : List ℕ) (r : Runner Db)
        → Follows fuel next
        → GoingOf r
        → AllPairs (λ a b. a ≢ b) att
        → All (λ g. Memᴰ g known) att
        → length known < length att + suc fuel
        → (x : Sql (List ℕ))
        → E.select_pending r.db embeddings (length att + pending_fetch_size) ≡ x
        → Ended E env.embed_query (fetched E env cancelled next att r x)
    fetched-Ended fuel next att r follows go d k enough (error m) e =
        Ended-other E env.embed_query (fatal ("runner: pending files" ∷ m ∷ [])) att r refl refl
          go.0 d
    fetched-Ended fuel next att r follows go d k enough (done ids) e =
        turn-Ended fuel next att ids r follows e go d k enough _
          (run_batch-Visits E env cancelled before ids (fresh_turn E env cancelled att r))

    pub run_loop-Ended : (fuel : ℕ) → Follows fuel (run_loop E env cancelled fuel)
    unfolding run_loop
    run_loop-Ended zero att r go d k enough =
        absurd (omega (arith, enough, length-distinct att known d k))
    run_loop-Ended (suc fuel) att r go d k enough = split (run_loop-Ended fuel)
      where
        split :
            Follows fuel (run_loop E env cancelled fuel)
            → Ended E env.embed_query (run_loop E env cancelled (suc fuel) att r)
        split follows = elim (Bool-cases (cancelled r.checks)) [
          | inl e ↦ rw e (
              Ended-other E env.embed_query cancelled_run att (checked E env cancelled r) refl refl
                go.0 d)
          | inr e ↦ rw e (
              fetched-Ended fuel (run_loop E env cancelled fuel) att (checked E env cancelled r)
                follows go d k enough _ refl)
        ]
