-- ===== src/Search/Fuse/Order.antt =====
-- The order of the fused hits.
use foldermcp.Base.{
  ◌<◌, ℕ, suc, ◌≡◌, ◌≢◌, ◌⊎◌, inl, inr, sym, true, false, List, [], ◌∷◌, arith, ◌==◌, Bool-cases,
  All, All-imp, AllPairs,
}
use mathlib.Core.List.{Permᴰ}
use mathlib.Core.List.Permᴰ
use Prim.Native.String.{String}
use foldermcp.Base.Sort.{
  sort_slice, sort_slice-permᴰ, AllPairs-permᴰ, NotLess, sort_slice-IsSorted, sort_slice-eq_of_perm,
  IsOrder, IsSorted, Differs,
}
use foldermcp.Floats.{Floats}
use foldermcp.Proto.{ScoredNode}
use foldermcp.Search.Fuse.{Hit, Ranked, upsert, add_list, add_lists, ranks_before, rrf_fuse}

module _ (fl : Floats) where
  open fl use {F64, F32, eq, lt, eq_iff, lt_asym, lt_cotrans, lt_tie}

  ranks_before_asym : (f g : Hit fl) → ranks_before fl f g ≡ true → ranks_before fl g f ≡ false
  unfolding ranks_before
  ranks_before_asym f g h =
      ground (arith, eq_iff f.score g.score, eq_iff g.score f.score, lt_asym g.score f.score)

  ranks_before_cotrans :
      (f g h : Hit fl)
      → ranks_before fl g f ≡ false
      → ranks_before fl h g ≡ false
      → ranks_before fl h f ≡ false
  unfolding ranks_before
  ranks_before_cotrans f g h a b = ground (
    arith,
    eq_iff f.score g.score,
    eq_iff g.score f.score,
    eq_iff h.score g.score,
    eq_iff h.score f.score,
    lt_cotrans h.score g.score f.score,
    lt_tie g.score f.score,
  )

  pub ranks_before-IsOrder : IsOrder (ranks_before fl)
  ranks_before-IsOrder = record { asym = ranks_before_asym; cotrans = ranks_before_cotrans }

  abbrev pub DistinctIds : List (Hit fl) → Type 0
  DistinctIds = AllPairs (λ f g. f.node_id ≢ g.node_id)

  upsert-All-ne :
      (i k : ℕ) (src : String) (rank : ℕ) (n : ScoredNode F32) (hs : List (Hit fl))
      → i ≢ n.node_id
      → All (λ g. i ≢ g.node_id) hs
      → All (λ g. i ≢ g.node_id) (upsert fl k src rank n hs)
  unfolding upsert
  upsert-All-ne i k src rank n [] e h = (e, tt)
  upsert-All-ne i k src rank n (g ∷ hs) e h = elim (Bool-cases (g.node_id == n.node_id)) [
    | inl q ↦ rw q h
    | inr q ↦ rw q (h.0, upsert-All-ne i k src rank n hs e h.1)
  ]

  upsert-DistinctIds :
      (k : ℕ) (src : String) (rank : ℕ) (n : ScoredNode F32) (hs : List (Hit fl))
      → DistinctIds hs
      → DistinctIds (upsert fl k src rank n hs)
  unfolding upsert
  upsert-DistinctIds k src rank n [] h = (tt, tt)
  upsert-DistinctIds k src rank n (g ∷ hs) h = elim (Bool-cases (g.node_id == n.node_id)) [
    | inl q ↦ rw q h
    | inr q ↦ rw q (
      upsert-All-ne g.node_id k src rank n hs (ground arith) h.0,
      upsert-DistinctIds k src rank n hs h.1,
    )
  ]

  add_list-DistinctIds :
      (k : ℕ) (src : String) (rank : ℕ) (ns : List (ScoredNode F32)) (hs : List (Hit fl))
      → DistinctIds hs
      → DistinctIds (add_list fl k src rank ns hs)
  unfolding add_list
  add_list-DistinctIds k src rank [] hs h = h
  add_list-DistinctIds k src rank (n ∷ ns) hs h =
      add_list-DistinctIds k src (suc rank) ns _ (upsert-DistinctIds k src rank n hs h)

  pub add_lists-DistinctIds :
      (k : ℕ) (lists : Ranked fl) (hs : List (Hit fl))
      → DistinctIds hs
      → DistinctIds (add_lists fl k lists hs)
  unfolding add_lists
  add_lists-DistinctIds k [] hs h = h
  add_lists-DistinctIds k ((src, l) ∷ rest) hs h =
      add_lists-DistinctIds k rest _ (add_list-DistinctIds k src 0 l hs h)

  -- Two hits of different nodes are never tied.
  ranks_before-Differs :
      (f g : Hit fl) → f.node_id ≢ g.node_id → Differs (ranks_before fl) ranks_before-IsOrder f g
  unfolding ranks_before
  ranks_before-Differs f g e = elim (Bool-cases (ranks_before fl f g)) [
    | inl q ↦ inl q
    | inr q ↦
        inr (ground (arith, eq_iff f.score g.score, eq_iff g.score f.score, lt_tie f.score g.score))
  ]

  AllPairs-Differs :
      (hs : List (Hit fl))
      → DistinctIds hs
      → AllPairs (Differs (ranks_before fl) ranks_before-IsOrder) hs
  AllPairs-Differs [] h = tt
  AllPairs-Differs (f ∷ hs) h = (All-imp (ranks_before-Differs f) hs h.0, AllPairs-Differs hs h.1)

  -- The score falls, or stays and the node id rises.
  abbrev pub Precedes : Hit fl → Hit fl → Type 0
  Precedes f g = (lt g.score f.score ≡ true) ⊎ ((f.score ≡ g.score) × (f.node_id < g.node_id))

  Precedes-of_sorted :
      (f g : Hit fl) → ranks_before fl g f ≡ false → f.node_id ≢ g.node_id → Precedes f g
  unfolding ranks_before
  Precedes-of_sorted f g h ne = elim (Bool-cases (lt g.score f.score)) [
    | inl q ↦ inl q
    | inr q ↦
        let e : f.score ≡ g.score =
          ground (arith, eq_iff g.score f.score, lt_tie f.score g.score) in
        inr (e, ground (arith, eq_iff g.score f.score, e))
  ]

  All-Precedes :
      (f : Hit fl) (hs : List (Hit fl))
      → All (NotLess (ranks_before fl) f) hs
      → All (λ g. f.node_id ≢ g.node_id) hs
      → All (Precedes f) hs
  All-Precedes f [] h d = tt
  All-Precedes f (g ∷ hs) h d = (Precedes-of_sorted f g h.0 d.0, All-Precedes f hs h.1 d.1)

  AllPairs-Precedes :
      (hs : List (Hit fl)) → IsSorted (ranks_before fl) hs → DistinctIds hs → AllPairs Precedes hs
  AllPairs-Precedes [] h d = tt
  AllPairs-Precedes (f ∷ hs) h d = (All-Precedes f hs h.0 d.0, AllPairs-Precedes hs h.1 d.1)

  pub rrf_fuse-DistinctIds : (lists : Ranked fl) (k : ℕ) → DistinctIds (rrf_fuse fl lists k)
  unfolding rrf_fuse
  rrf_fuse-DistinctIds lists k =
      AllPairs-permᴰ (λ f g. f.node_id ≢ g.node_id) (λ f g h e. h (sym e))
        (Permᴰ.symm (sort_slice-permᴰ (ranks_before fl) (add_lists fl k lists [])))
        (add_lists-DistinctIds k lists [] tt)

  -- Along the fused list the score falls; where it is equal, the node id rises. No two places of
  -- the list are of the same node.
  pub rrf_fuse_order :
      (lists : Ranked fl) (k : ℕ)
      → AllPairs Precedes (rrf_fuse fl lists k)
        × AllPairs (λ f g. f.node_id ≢ g.node_id) (rrf_fuse fl lists k)
  unfolding rrf_fuse
  rrf_fuse_order lists k =
      let distinct = rrf_fuse-DistinctIds lists k in
      (
        AllPairs-Precedes _
            (sort_slice-IsSorted (ranks_before fl) ranks_before-IsOrder (add_lists fl k lists []))
            distinct,
        distinct,
      )

  -- The order in which Go ranges over the map of hits does not change the fused list.
  pub rrf_fuse_range :
      (lists : Ranked fl) (k : ℕ) {hits : List (Hit fl)}
      → Permᴰ (add_lists fl k lists []) hits
      → sort_slice (ranks_before fl) hits ≡ rrf_fuse fl lists k
  unfolding rrf_fuse
  rrf_fuse_range lists k p = sym (
      sort_slice-eq_of_perm (ranks_before fl) ranks_before-IsOrder p
        (AllPairs-Differs _ (add_lists-DistinctIds k lists [] tt)))
