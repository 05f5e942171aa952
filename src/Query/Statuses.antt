-- ===== src/Query/Statuses.antt =====
-- What the query handlers answer.
use Prim.Native.String.{String}
use foldermcp.Base.{
  ℕ, zero, suc, ◌≤◌, ◌≡◌, refl, sym, ap, ◌∙◌, ◌⊎◌, inl, inr, List, [], ◌∷◌, Option, none, some, map,
  arith, Bytes, length, Option-cases,
}
use mathlib.Core.Option.{some-injective, none-ne-some}
use foldermcp.Base.Int.{ℤ, pos, negsuc}
use foldermcp.Proto.{HydratedNode, ScoredNode}
use foldermcp.Query.Match.{Decoder, build_fts_match, clamp_k}
use foldermcp.Query.Hydrate.{
  Fetched, query_failed, scan_failed, rows_failed, rows, NodeDb, HydrationHint, found_nodes,
  node_by_id, attach, hydrate_nodes,
}
use foldermcp.Query.Handlers.{Answered, answered, executed_status, scored, conclude, fts_search}

abbrev pub fetched_rows : {R : Type 0} → Fetched R → List R
fetched_rows (query_failed e) = []
fetched_rows (scan_failed rs e) = rs
fetched_rows (rows_failed rs e) = rs
fetched_rows (rows rs) = rs

-- The LIMIT of a query.
abbrev pub Limited : {Q R : Type 0} → (Q → ℕ → Fetched R) → Type 0
Limited {Q} run = (q : Q) (k : ℕ) → length (fetched_rows (run q k)) ≤ k

pub clamp_k-le : (k : ℤ) → clamp_k k ≤ 100
unfolding clamp_k
clamp_k-le (negsuc n) = omega arith
clamp_k-le (pos zero) = omega arith
clamp_k-le (pos (suc k)) = ground arith

module _ {F : Type 0} where
  -- The answer names its source and holds at most 100 results. Its status is OK and there is a
  -- result, or EMPTY_BUT_EXECUTED and there is none, or one of the two statuses of a failure.
  abbrev pub IsReport : String → Option (Answered F) → Type 0
  IsReport name none = Unit
  IsReport name (some a) =
      (a.status.source_name ≡ name)
      × (((a.status.status ≡ "OK") × (1 ≤ length a.results))
          ⊎ (((a.status.status ≡ "EMPTY_BUT_EXECUTED") × (a.results ≡ []))
              ⊎ ((a.status.status ≡ "DEGRADED") ⊎ (a.status.status ≡ "CONTRACT_ERROR"))))
      × (length a.results ≤ 100)

  -- The node ids and scores of results.
  abbrev pub keys : List (ScoredNode F) → List (ℕ × F)
  keys [] = []
  keys (s ∷ ss) = (s.node_id, s.score) ∷ keys ss

  length-keys : (ss : List (ScoredNode F)) → length (keys ss) ≡ length ss
  length-keys [] = refl
  length-keys (s ∷ ss) = omega (arith, length-keys ss)

  keys-attach : (hs : List HydratedNode) (ss : List (ScoredNode F)) → keys (attach hs ss) ≡ keys ss
  keys-attach hs [] = refl
  keys-attach hs (s ∷ ss) = elim (Option-cases (node_by_id s.node_id hs)) [
    | inl e ↦ rw (e, attach, keys-attach hs ss)
    | inr (h, e) ↦ rw (e, attach, keys-attach hs ss)
  ]

  length-scored : {G : Type 0} (f : G → F) (rs : List (ℕ × G)) → length (scored f rs) ≡ length rs
  length-scored f [] = refl
  length-scored f ((id, g) ∷ rs) = omega (arith, length-scored f rs)

  -- Hydration keeps the ids and the scores of the results in their order.
  pub keys-hydrate_nodes :
      (db : NodeDb) (hint : HydrationHint) (ss out : List (ScoredNode F))
      → hydrate_nodes db hint ss ≡ some out
      → keys out ≡ keys ss
  unfolding hydrate_nodes
  keys-hydrate_nodes db hint [] out e = ap (λ z. keys z) (sym (some-injective [] out e))
  keys-hydrate_nodes db hint (s ∷ ss) out e =
      go (db.nodes (map (λ (r : ScoredNode F). r.node_id) (s ∷ ss))) refl
    where
      go :
          (f : Fetched HydratedNode)
          → db.nodes (map (λ (r : ScoredNode F). r.node_id) (s ∷ ss)) ≡ f
          → keys out ≡ keys (s ∷ ss)
      go (query_failed m) q = absurd (none-ne-some out (rw (q, hydrate_nodes) at e))
      go (scan_failed hs m) q = absurd (none-ne-some out (rw (q, hydrate_nodes) at e))
      go (rows_failed hs m) q = absurd (none-ne-some out (rw (q, hydrate_nodes) at e))
      go (rows hs) q = elim (Option-cases (found_nodes db hint hs)) [
        | inl f ↦ absurd (none-ne-some out (rw (q, f, hydrate_nodes) at e))
        | inr (found, f) ↦
            let same : some (attach found (s ∷ ss)) ≡ some out = rw (q, f, hydrate_nodes) at e in
            ap (λ z. keys z) (sym (some-injective (attach found (s ∷ ss)) out same))
            ∙ keys-attach found (s ∷ ss)
      ]

  executed-IsReport :
      (name : String) (rs : List (ScoredNode F))
      → length rs ≤ 100
      → IsReport name (some (answered name (executed_status rs) "" rs))
  executed-IsReport name [] h = (refl, inr (inl (refl, refl)), h)
  executed-IsReport name (r ∷ rs) h = (refl, inl (refl, omega arith), h)

  pub conclude-IsReport :
      (db : NodeDb) (hint : Option HydrationHint) (name : String) (rs : List (ScoredNode F))
      → length rs ≤ 100
      → IsReport name (conclude db hint name rs)
  conclude-IsReport db none name rs h = executed-IsReport name rs h
  conclude-IsReport db (some hint) name rs h = elim (Option-cases (hydrate_nodes db hint rs)) [
    | inl e ↦ rw (e, conclude) tt
    | inr (out, e) ↦
        let size : length out ≡ length rs =
          sym (length-keys out)
          ∙ ap (λ z. length z) (keys-hydrate_nodes db hint rs out e)
          ∙ length-keys rs in
        let same : conclude db (some hint) name rs
            ≡ some (answered name (executed_status out) "" out) =
          rw (e, conclude) in
        rw same (executed-IsReport name out (omega (arith, size, h)))
  ]

  pub bounded :
      {G : Type 0} (f : G → F) (rs : List (ℕ × G)) (k : ℤ)
      → length rs ≤ clamp_k k
      → length (scored f rs) ≤ 100
  bounded f rs k h = omega (arith, length-scored f rs, clamp_k-le k, h)

  module _ (db : NodeDb) (hint : Option HydrationHint) where
    -- Where the query respects its limit, the answer of the FTS handler, if it is not an error of the
    -- call, names fts and holds at most 100 results; its status is OK and there is a result, or
    -- EMPTY_BUT_EXECUTED and there is none, or one of the two statuses of a failure.
    pub fts_search-IsReport :
        (d : Decoder) (run : Bytes → ℕ → Fetched (ℕ × F))
        → Limited run
        → (query : Bytes) (k : ℤ) → IsReport "fts" (fts_search db hint d run query k)
    unfolding fts_search
    fts_search-IsReport d run lim query k = elim (Option-cases (build_fts_match d query)) [
      | inl e ↦
          let same : fts_search db hint d run query k
              ≡ some (answered "fts" "EMPTY_BUT_EXECUTED" "" []) =
            rw (e, fts_search) in
          rw same (refl, inr (inl (refl, refl)), omega arith)
      | inr (expr, e) ↦ go expr e (run expr (clamp_k k)) refl (lim expr (clamp_k k))
    ]
      where
        go :
            (expr : Bytes)
            → build_fts_match d query ≡ some expr
            → (f : Fetched (ℕ × F)) → run expr (clamp_k k) ≡ f
            → length (fetched_rows (run expr (clamp_k k))) ≤ clamp_k k
            → IsReport "fts" (fts_search db hint d run query k)
        go expr e (query_failed m) q h =
            let same : fts_search db hint d run query k ≡ some (answered "fts" "DEGRADED" m []) =
              rw (e, q, fts_search) in
            rw same (refl, inr (inr (inl refl)), omega arith)
        go expr e (scan_failed rs m) q h =
            let same : fts_search db hint d run query k
                ≡ some (answered "fts" "CONTRACT_ERROR" m (scored (λ x. x) rs)) =
              rw (e, q, fts_search) in
            rw same (refl, inr (inr (inr refl)), bounded (λ x. x) rs k (rw q at h))
        go expr e (rows_failed rs m) q h =
            let same : fts_search db hint d run query k
                ≡ some (answered "fts" "CONTRACT_ERROR" m (scored (λ x. x) rs)) =
              rw (e, q, fts_search) in
            rw same (refl, inr (inr (inr refl)), bounded (λ x. x) rs k (rw q at h))
        go expr e (rows rs) q h =
            let same : fts_search db hint d run query k
                ≡ conclude db hint "fts" (scored (λ x. x) rs) =
              rw (e, q, fts_search) in
            rw same (
              conclude-IsReport db hint "fts" (scored (λ x. x) rs)
                (bounded (λ x. x) rs k (rw q at h)))
