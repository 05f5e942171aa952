-- ===== src/Query/Batch/Order.antt =====
-- The results of a batch, and its warnings.
use Prim.Native.String.{String}
use text.Mathlib.Text.{◌==◌ as str_eq}
use text.Mathlib.TextEquality.{eq_iff}
use foldermcp.Base.{
  ℕ, zero, suc, ◌+◌, ◌≤◌, ◌≡◌, ◌≢◌, refl, sym, ap, ◌∙◌, ◌↔◌, inl, inr, false, Bool-cases, List, [],
  ◌∷◌, ◌++◌, append_assoc, append-nil, some, get_elem?, length, length-append, map, ltb,
  if◌then◌else◌, arith,
}
use mathlib.Core.Path.{subst}
use mathlib.Core.Bool.{false≢true}
use mathlib.Core.Option.{none-ne-some, some-injective}
use mathlib.Core.List.{Memᴰ}
use mathlib.Core.List.Memᴰ
use foldermcp.Query.Direct.{reply}
use foldermcp.Query.Batch.{
  BatchOp, BatchHandler, BatchResponse, dispatch, append_result, batch_ops, max_batch_ops,
  batch_all,
}

module _ {V T N M G I C R : Type 0} (h : BatchHandler V T N M G I C R) where
  -- The warnings of operations that are numbered from `n` on.
  abbrev failures : ℕ → List (BatchOp V T N M G I C) → List (ℕ × String)
  failures n [] = []
  failures n (op ∷ ops) =
      let rest = failures (suc n) ops in
      if str_eq (dispatch h op).error "" then rest else (n, (dispatch h op).error) ∷ rest

  -- Operation `i` failed with this message.
  abbrev pub IsFailure : List (BatchOp V T N M G I C) → ℕ → String → Type 0
  IsFailure ops i e =
      (e ≢ "")
      × ((op : BatchOp V T N M G I C) × (get_elem? ops i ≡ some op) × ((dispatch h op).error ≡ e))

  batch_ops_lem :
      (ops : List (BatchOp V T N M G I C)) (out : BatchResponse R)
      → ((batch_ops h ops out).results ≡ out.results ++ map (dispatch h) ops)
        × ((batch_ops h ops out).warnings ≡ out.warnings ++ failures (length out.results) ops)
  unfolding batch_ops
  batch_ops_lem [] out = (sym (append-nil out.results), sym (append-nil out.warnings))
  batch_ops_lem (op ∷ ops) out = go (batch_ops_lem ops (append_result h out (dispatch h op)))
    where
      next : BatchResponse R
      next = append_result h out (dispatch h op)

      counted : length (out.results ++ dispatch h op ∷ []) ≡ suc (length out.results)
      counted = omega (arith, length-append out.results (dispatch h op ∷ []))

      warned :
          next.warnings ++ failures (suc (length out.results)) ops
          ≡ out.warnings ++ failures (length out.results) (op ∷ ops)
      warned = elim (Bool-cases (str_eq (dispatch h op).error "")) [
        | inl e ↦ rw e refl
        | inr e ↦ rw e (append_assoc out.warnings _ _)
      ]

      go :
          ((batch_ops h ops next).results ≡ next.results ++ map (dispatch h) ops)
            × ((batch_ops h ops next).warnings
                ≡ next.warnings ++ failures (length next.results) ops)
          → ((batch_ops h (op ∷ ops) out).results ≡ out.results ++ map (dispatch h) (op ∷ ops))
            × ((batch_ops h (op ∷ ops) out).warnings
                ≡ out.warnings ++ failures (length out.results) (op ∷ ops))
      go (rs, ws) = (
        rs ∙ append_assoc out.results (dispatch h op ∷ []) (map (dispatch h) ops),
        ws ∙ ap (λ n. next.warnings ++ failures n ops) counted ∙ warned,
      )

  failures-IsFailure :
      (n : ℕ) (ops : List (BatchOp V T N M G I C)) (i : ℕ) (e : String)
      → Memᴰ (i, e) (failures n ops)
      → (j : ℕ) × (i ≡ n + j) × IsFailure ops j e
  failures-IsFailure n [] i e m = absurd (Memᴰ.not-nil m)
  failures-IsFailure n (op ∷ ops) i e m = elim (Bool-cases (str_eq (dispatch h op).error "")) [
    | inl fine ↦ later (failures-IsFailure (suc n) ops i e (rw fine at m))
    | inr bad ↦ first bad (rw bad at m) (λ k. failures-IsFailure (suc n) ops i e k)
  ]
    where
      later :
          (j : ℕ) × (i ≡ suc n + j) × IsFailure ops j e
          → (j : ℕ) × (i ≡ n + j) × IsFailure (op ∷ ops) j e
      later (j, at, is) = (suc j, omega (arith, at), is)

      first :
          str_eq (dispatch h op).error "" ≡ false
          → Memᴰ (i, e) ((n, (dispatch h op).error) ∷ failures (suc n) ops)
          → (Memᴰ (i, e) (failures (suc n) ops) → (j : ℕ) × (i ≡ suc n + j) × IsFailure ops j e)
          → (j : ℕ) × (i ≡ n + j) × IsFailure (op ∷ ops) j e
      first bad (Memᴰ.head q) rest =
          let same : e ≡ (dispatch h op).error = ap (λ (x : ℕ × String). x.1) q in
          (
            zero,
            omega (arith, ap (λ (x : ℕ × String). x.0) q),
            (
              (λ blank.
                  false≢true (sym bad ∙ (eq_iff (dispatch h op).error "").1 (sym same ∙ blank))),
              (op, refl, sym same),
            ),
          )
      first bad (Memᴰ.tail k) rest = later (rest k)

  IsFailure-failures :
      (n : ℕ) (ops : List (BatchOp V T N M G I C)) (j : ℕ) (e : String)
      → IsFailure ops j e
      → Memᴰ (n + j, e) (failures n ops)
  IsFailure-failures n [] j e (_, (op, at, _)) = absurd (none-ne-some op at)
  IsFailure-failures n (op ∷ ops) zero e (filled, (op', at, is)) =
      let same : op ≡ op' = some-injective op op' at in
      let err : (dispatch h op).error ≡ e = ap (λ o. (dispatch h o).error) same ∙ is in
      elim (Bool-cases (str_eq (dispatch h op).error "")) [
        | inl fine ↦ absurd (filled (sym err ∙ (eq_iff (dispatch h op).error "").0 fine))
        | inr bad ↦ rw bad (let z : n + zero ≡ n = omega arith in Memᴰ.head (rw (z, err) refl))
      ]
  IsFailure-failures n (op ∷ ops) (suc j) e is =
      let z : n + suc j ≡ suc n + j = omega arith in
      let m : Memᴰ (n + suc j, e) (failures (suc n) ops) =
        rw z (IsFailure-failures (suc n) ops j e is) in
      elim (Bool-cases (str_eq (dispatch h op).error "")) [
        | inl fine ↦ rw fine m
        | inr bad ↦ rw bad (Memᴰ.tail m)
      ]

  listed :
      (ops : List (BatchOp V T N M G I C)) (ws : List (ℕ × String))
      → ws ≡ failures 0 ops
      → (i : ℕ) (e : String) → Memᴰ (i, e) ws ↔ IsFailure ops i e
  listed ops ws all i e = (
    (λ m.
        let (j, at, is) = failures-IsFailure 0 ops i e (subst (λ xs. Memᴰ (i, e) xs) all m) in
        let z : i ≡ j = omega (arith, at) in subst (λ k. IsFailure ops k e) (sym z) is),
    (λ is.
        let z : 0 + i ≡ i = omega arith in
        subst (λ xs. Memᴰ (i, e) xs) (sym all)
          (subst (λ k. Memᴰ (k, e) (failures 0 ops)) z (IsFailure-failures 0 ops i e is))),
  )

-- A batch of at most 32 operations answers; its results are those of the operations in their order, and
-- its warnings are exactly the numbers of the operations that failed with a message, with it.
pub batch_all-IsOrdered :
    {V T N M G I C R : Type 0} (h : BatchHandler V T N M G I C R)
    (ops : List (BatchOp V T N M G I C))
    → length ops ≤ max_batch_ops
    → (out : BatchResponse R) × (batch_all h ops ≡ reply out)
      × (out.results ≡ map (dispatch h) ops)
      × ((i : ℕ) (e : String) → Memᴰ (i, e) out.warnings ↔ IsFailure h ops i e)
unfolding batch_all
batch_all-IsOrdered h ops few =
    let start : BatchResponse _ = record { results = []; warnings = [] } in
    let (rs, ws) = batch_ops_lem h ops start in
    let fits : ltb max_batch_ops (length ops) ≡ false = ground arith in
    (batch_ops h ops start, (rw fits refl), rs, listed h ops (batch_ops h ops start).warnings ws)
