-- ===== src/Search/Broadly/Sent.antt =====
-- The statuses of a response are those that the goroutines sent.
use Prim.Native.String.{String}
use mathlib.Core.Option.{none-ne-some, some-injective}
use mathlib.Core.Path.{subst}
use foldermcp.Base.{
  ℕ, zero, suc, ◌≡◌, ◌⊎◌, sym, inl, inr, List, [], ◌∷◌, ◌++◌, Option, none, some, length,
  Option-cases,
}
use foldermcp.Floats.{Floats}
use foldermcp.Proto.{ScoredNode, SourceStatus}
use foldermcp.Search.Sources.{
  SearchRequest, Sources, SearchResponse, SrcResult, Choice, receive, done, clamp_max, launch,
}
use foldermcp.Search.Broadly.{pick, received, expired, add_ranked, collect, initial, search_broadly}
use foldermcp.Search.Broadly.Status.{mode_of, search_broadly-cases, conclude-sources}
use foldermcp.Search.Broadly.Required.{HasRun}

HasRun-append :
    (name : String) (xs ys : List (Option SourceStatus))
    → HasRun name (xs ++ ys)
    → HasRun name xs ⊎ HasRun name ys
HasRun-append name [] ys h = inr h
HasRun-append name (none ∷ xs) ys h = HasRun-append name xs ys h
HasRun-append name (some st ∷ xs) ys (inl h) = inl (inl h)
HasRun-append name (some st ∷ xs) ys (inr h) = elim (HasRun-append name xs ys h) [
  | inl a ↦ inl (inr a)
  | inr b ↦ inr b
]

HasRun-cons :
    (name : String) (o : Option SourceStatus) (sts : List (Option SourceStatus))
    → HasRun name (o ∷ []) ⊎ HasRun name sts
    → HasRun name (o ∷ sts)
HasRun-cons name none sts (inl h) = absurd h
HasRun-cons name none sts (inr h) = h
HasRun-cons name (some st) sts (inl (inl h)) = inl h
HasRun-cons name (some st) sts (inl (inr h)) = absurd h
HasRun-cons name (some st) sts (inr h) = inr h

HasRun-split :
    (name : String) (o : Option SourceStatus) (sts : List (Option SourceStatus))
    → HasRun name (o ∷ sts)
    → HasRun name (o ∷ []) ⊎ HasRun name sts
HasRun-split name none sts h = inr h
HasRun-split name (some st) sts (inl h) = inl (inl h)
HasRun-split name (some st) sts (inr h) = inr h

module _ {F : Type 0} where
  abbrev pub statuses : List (SrcResult F) → List (Option SourceStatus)
  statuses [] = []
  statuses (r ∷ rs) = r.status ∷ statuses rs

  -- The source has run by the result taken, or by one that stays.
  abbrev IsTaken : String → SrcResult F × List (SrcResult F) → Type 0
  IsTaken name (r, rest) = HasRun name (r.status ∷ []) ⊎ HasRun name (statuses rest)

  -- What is received, and what stays pending, was pending.
  pick-HasRun :
      (name : String) (i : ℕ) (pending : List (SrcResult F)) (r : SrcResult F)
      (rest : List (SrcResult F))
      → pick i pending ≡ some (r, rest)
      → IsTaken name (r, rest)
      → HasRun name (statuses pending)
  unfolding pick
  pick-HasRun name i [] r rest e h = absurd (none-ne-some (r, rest) e)
  pick-HasRun name zero (p ∷ ps) r rest e h =
      HasRun-cons name p.status (statuses ps)
        (subst (IsTaken name) (sym (some-injective (p, ps) (r, rest) e)) h)
  pick-HasRun name (suc i) (p ∷ ps) r rest e h = elim (Option-cases (pick i ps)) [
    | inl f ↦ absurd (none-ne-some (r, rest) (rw f at e))
    | inr ((s, left), f) ↦
        let same : (s, p ∷ left) ≡ (r, rest) = some-injective (s, p ∷ left) (r, rest) (rw f at e) in
        let back : IsTaken name (s, p ∷ left) = subst (IsTaken name) (sym same) h in
        elim back [
          | inl a ↦
              HasRun-cons name p.status (statuses ps) (inr (pick-HasRun name i ps s left f (inl a)))
          | inr b ↦ elim (HasRun-split name p.status (statuses left) b) [
            | inl c ↦ HasRun-cons name p.status (statuses ps) (inl c)
            | inr c ↦
                HasRun-cons name p.status (statuses ps)
                  (inr (pick-HasRun name i ps s left f (inr c)))
          ]
        ]
  ]

  received-HasRun :
      (name : String) (r : SrcResult F) (resp : SearchResponse F)
      → HasRun name (received r resp).sources
      → HasRun name resp.sources ⊎ HasRun name (r.status ∷ [])
  unfolding received
  received-HasRun name r resp h = HasRun-append name resp.sources (r.status ∷ []) h

  -- A source that has run behind the loop had run before it, or is among the pending ones.
  collect-HasRun :
      (name : String) (n : ℕ) (pending : List (SrcResult F)) (cs : List Choice)
      (resp : SearchResponse F) (lists : List (String × List (ScoredNode F)))
      → HasRun name (collect n pending cs resp lists).0.sources
      → HasRun name resp.sources ⊎ HasRun name (statuses pending)
  unfolding collect expired
  collect-HasRun name zero pending cs resp lists h = inl h
  collect-HasRun name (suc n) pending [] resp lists h =
      collect-HasRun name n pending [] (expired resp) lists h
  collect-HasRun name (suc n) pending (done ∷ cs) resp lists h =
      collect-HasRun name n pending cs (expired resp) lists h
  collect-HasRun name (suc n) pending (receive i ∷ cs) resp lists h =
      elim (Option-cases (pick i pending)) [
        | inl e ↦ collect-HasRun name n pending cs (expired resp) lists (rw (e, collect) at h)
        | inr ((r, rest), e) ↦
            let later =
              collect-HasRun name n rest cs (received r resp) (add_ranked r.name r.results lists)
                (rw (e, collect) at h) in
            elim later [
              | inr b ↦ inr (pick-HasRun name i pending r rest e (inr b))
              | inl a ↦ elim (received-HasRun name r resp a) [
                | inl c ↦ inl c
                | inr c ↦ inr (pick-HasRun name i pending r rest e (inl c))
              ]
            ]
      ]

module _ (fl : Floats) where
  open fl use {F32}

  -- A source that has run was started.
  pub search_broadly-sent :
      (src : Sources F32) (req : SearchRequest) (schedule : List Choice) (name : String)
      → HasRun name (search_broadly fl src req schedule).sources
      → HasRun name (statuses (launch src req (clamp_max req.max_results) (mode_of fl req)))
  search_broadly-sent src req schedule name =
      let pending = launch src req (clamp_max req.max_results) (mode_of fl req) in
      search_broadly-cases fl (λ r. HasRun name r.sources → HasRun name (statuses pending)) src req
        schedule (λ e h. absurd h)
        (λ h.
          elim (collect-HasRun name (length pending) pending schedule initial []
            (rw ((conclude-sources fl _ _ _ _ _).0) at h)) [ inl a ↦ absurd a | inr b ↦ b ])
