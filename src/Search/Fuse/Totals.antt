-- ===== src/Search/Fuse/Totals.antt =====
-- What the fused hits hold, against a reference that looks at one node alone.
use Prim.Native.String.{String}
use foldermcp.Base.{
  ℕ, suc, ◌+◌, ◌≡◌, ◌≢◌, inl, inr, refl, sym, ap, ◌∙◌, Bool, true, false, ◌||◌, List, [], ◌∷◌, ◌++◌,
  map, Option, none, some, arith, ◌==◌, Bool-cases, All, All-imp, if◌then◌else◌, append_assoc,
  append-nil,
}
use mathlib.Core.List.{Permᴰ}
use foldermcp.Base.Sort.{sort_slice-permᴰ, sort_slice-All}
use mathlib.Core.Bool.{or-false}
use foldermcp.Floats.{Floats}
use foldermcp.Proto.{HydratedNode, ScoredNode}
use foldermcp.Search.Fuse.{
  Hit, Ranked, or_else, boost, upsert, add_list, add_lists, ranks_before, rrf_fuse,
}
use foldermcp.Search.Fuse.Order.{DistinctIds, add_lists-DistinctIds}

-- A place where a node stands in a ranked list.
pub record Place (F : Type 0) : Type 0 where
  pub source : String
  pub rank : ℕ
  pub node : ScoredNode F

abbrev pub first_hydrated : {F : Type 0} → List (Place F) → Option HydratedNode
first_hydrated [] = none
first_hydrated (p ∷ ps) = or_else p.node.hydrated (first_hydrated ps)

abbrev pub is_cons {ℓ} : {A : Type ℓ} → List A → Bool
is_cons [] = false
is_cons (x ∷ xs) = true

or_else_assoc : (a b c : Option HydratedNode) → or_else (or_else a b) c ≡ or_else a (or_else b c)
or_else_assoc (some x) b c = refl
or_else_assoc none b c = refl

or_else-none : (a : Option HydratedNode) → or_else a none ≡ a
or_else-none (some x) = refl
or_else-none none = refl

or_else_self : (a : Option HydratedNode) → or_else a a ≡ a
or_else_self (some x) = refl
or_else_self none = refl

module _ (fl : Floats) where
  open fl use {F64, F32, zero_f, add, reciprocal}

  abbrev pub places_in : ℕ → String → ℕ → List (ScoredNode F32) → List (Place F32)
  places_in id src rank [] = []
  places_in id src rank (n ∷ ns) =
      let rest = places_in id src (suc rank) ns in
      if n.node_id == id then record { source = src; rank = rank; node = n } ∷ rest else rest

  -- The places of a node, list by list and rank by rank.
  abbrev pub places : ℕ → Ranked fl → List (Place F32)
  places id [] = []
  places id ((src, l) ∷ rest) = places_in id src 0 l ++ places id rest

  -- `acc` and the reciprocal ranks of the places, added from the left.
  abbrev pub total : ℕ → F64 → List (Place F32) → F64
  total k acc [] = acc
  total k acc (p ∷ ps) = total k (add acc (reciprocal (k + p.rank + 1))) ps

  -- The hit that one node should have.
  abbrev pub reference : ℕ → ℕ → Ranked fl → Hit fl
  reference k id lists = record {
    node_id = id;
    hydrated = first_hydrated (places id lists);
    score = total k zero_f (places id lists);
    matched_sources = map (λ (p : Place F32). p.source) (places id lists);
  }

  abbrev pub has_id : ℕ → List (Hit fl) → Bool
  has_id id [] = false
  has_id id (h ∷ hs) = h.node_id == id || has_id id hs

  abbrev blank : ℕ → Hit fl
  blank id = record { node_id = id; hydrated = none; score = zero_f; matched_sources = [] }

  hit_or : ℕ → List (Hit fl) → Hit fl
  hit_or id [] = blank id
  hit_or id (h ∷ hs) = if h.node_id == id then h else hit_or id hs

  abbrev boosts : ℕ → List (Place F32) → Hit fl → Hit fl
  boosts k [] h = h
  boosts k (p ∷ ps) h = boosts k ps (boost fl k p.source p.rank p.node h)

  hit_or-upsert :
      (id k : ℕ) (src : String) (rank : ℕ) (n : ScoredNode F32) (hs : List (Hit fl))
      → hit_or id (upsert fl k src rank n hs)
        ≡ (if n.node_id == id then boost fl k src rank n (hit_or id hs) else hit_or id hs)
  unfolding hit_or upsert
  hit_or-upsert id k src rank n [] = ground (arith, or_else_self n.hydrated)
  hit_or-upsert id k src rank n (h ∷ hs) = ground (arith, hit_or-upsert id k src rank n hs)

  boosts-append :
      (k : ℕ) (ps qs : List (Place F32)) (h : Hit fl)
      → boosts k (ps ++ qs) h ≡ boosts k qs (boosts k ps h)
  boosts-append k [] qs h = refl
  boosts-append k (p ∷ ps) qs h = boosts-append k ps qs _

  hit_or-add_list :
      (id k : ℕ) (src : String) (rank : ℕ) (ns : List (ScoredNode F32)) (hs : List (Hit fl))
      → hit_or id (add_list fl k src rank ns hs)
        ≡ boosts k (places_in id src rank ns) (hit_or id hs)
  unfolding add_list
  hit_or-add_list id k src rank [] hs = refl
  hit_or-add_list id k src rank (n ∷ ns) hs = elim (Bool-cases (n.node_id == id)) [
    | inl e ↦
        hit_or-add_list id k src (suc rank) ns (upsert fl k src rank n hs)
        ∙ rw (hit_or-upsert id k src rank n hs, e)
    | inr e ↦
        hit_or-add_list id k src (suc rank) ns (upsert fl k src rank n hs)
        ∙ rw (hit_or-upsert id k src rank n hs, e)
  ]

  hit_or-add_lists :
      (id k : ℕ) (lists : Ranked fl) (hs : List (Hit fl))
      → hit_or id (add_lists fl k lists hs) ≡ boosts k (places id lists) (hit_or id hs)
  unfolding add_lists
  hit_or-add_lists id k [] hs = refl
  hit_or-add_lists id k ((src, l) ∷ rest) hs =
      hit_or-add_lists id k rest (add_list fl k src 0 l hs)
      ∙ rw (hit_or-add_list id k src 0 l hs, boosts-append k (places_in id src 0 l))

  boosts_lem :
      (k : ℕ) (ps : List (Place F32)) (h : Hit fl)
      → boosts k ps h ≡ record h {
        hydrated = or_else h.hydrated (first_hydrated ps);
        score = total k h.score ps;
        matched_sources = h.matched_sources ++ map (λ (p : Place F32). p.source) ps;
      }
  boosts_lem k [] h = rw (or_else-none, append-nil)
  boosts_lem k (p ∷ ps) h = boosts_lem k ps _ ∙ rw (or_else_assoc, append_assoc)

  hit_or-rrf :
      (id k : ℕ) (lists : Ranked fl) → hit_or id (add_lists fl k lists []) ≡ reference k id lists
  unfolding hit_or
  hit_or-rrf id k lists = hit_or-add_lists id k lists [] ∙ boosts_lem k (places id lists) (blank id)

  All-hit_or : (hs : List (Hit fl)) → DistinctIds fl hs → All (λ h. hit_or h.node_id hs ≡ h) hs
  unfolding hit_or
  All-hit_or [] d = tt
  All-hit_or (h ∷ hs) d = (ground arith, skip hs d.0 (All-hit_or hs d.1))
    where
      skip :
          (gs : List (Hit fl))
          → All (λ g. h.node_id ≢ g.node_id) gs
          → All (λ g. hit_or g.node_id hs ≡ g) gs
          → All (λ g. hit_or g.node_id (h ∷ hs) ≡ g) gs
      skip [] ne e = tt
      skip (g ∷ gs) ne e = (ground (arith, ne.0, e.0), skip gs ne.1 e.1)

  has_id-upsert :
      (id k : ℕ) (src : String) (rank : ℕ) (n : ScoredNode F32) (hs : List (Hit fl))
      → has_id id (upsert fl k src rank n hs) ≡ (n.node_id == id || has_id id hs)
  unfolding upsert
  has_id-upsert id k src rank n [] = refl
  has_id-upsert id k src rank n (h ∷ hs) = ground (arith, has_id-upsert id k src rank n hs)

  has_id-add_list :
      (id k : ℕ) (src : String) (rank : ℕ) (ns : List (ScoredNode F32)) (hs : List (Hit fl))
      → has_id id (add_list fl k src rank ns hs)
        ≡ (is_cons (places_in id src rank ns) || has_id id hs)
  unfolding add_list
  has_id-add_list id k src rank [] hs = refl
  has_id-add_list id k src rank (n ∷ ns) hs = ground (
    arith,
    has_id-add_list id k src (suc rank) ns (upsert fl k src rank n hs),
    has_id-upsert id k src rank n hs,
  )

  is_cons-append {ℓ} :
      {A : Type ℓ} (xs ys : List A) → is_cons (xs ++ ys) ≡ (is_cons xs || is_cons ys)
  is_cons-append [] ys = refl
  is_cons-append (x ∷ xs) ys = refl

  has_id-add_lists :
      (id k : ℕ) (lists : Ranked fl) (hs : List (Hit fl))
      → has_id id (add_lists fl k lists hs) ≡ (is_cons (places id lists) || has_id id hs)
  unfolding add_lists
  has_id-add_lists id k [] hs = refl
  has_id-add_lists id k ((src, l) ∷ rest) hs = ground (
    arith,
    has_id-add_lists id k rest (add_list fl k src 0 l hs),
    has_id-add_list id k src 0 l hs,
    is_cons-append (places_in id src 0 l) (places id rest),
  )

  -- Every fused hit is the one its node should have: its score is the sum of the reciprocal ranks
  -- of all places of the node in the lists, its sources are those of these places, and its node
  -- data is the first that is there.
  pub rrf_fuse_sound :
      (lists : Ranked fl) (k : ℕ) → All (λ h. h ≡ reference k h.node_id lists) (rrf_fuse fl lists k)
  unfolding rrf_fuse
  rrf_fuse_sound lists k =
      sort_slice-All (ranks_before fl) (λ h. h ≡ reference k h.node_id lists) _
        (All-imp (λ h e. sym e ∙ hit_or-rrf h.node_id k lists) (add_lists fl k lists [])
          (All-hit_or _ (add_lists-DistinctIds fl k lists [] tt)))

  has_id-permᴰ : (id : ℕ) {hs gs : List (Hit fl)} → Permᴰ hs gs → has_id id hs ≡ has_id id gs
  has_id-permᴰ id Permᴰ.nil = refl
  has_id-permᴰ id (Permᴰ.cons e p) =
      ground (arith, ap (λ (h : Hit fl). h.node_id) e, has_id-permᴰ id p)
  has_id-permᴰ id (Permᴰ.swap d e) =
      ground (arith, ap (λ (h : Hit fl). h.node_id) d, ap (λ (h : Hit fl). h.node_id) e)
  has_id-permᴰ id (Permᴰ.trans p q) = has_id-permᴰ id p ∙ has_id-permᴰ id q

  -- A node is among the fused hits exactly when it stands in one of the lists.
  pub rrf_fuse_complete :
      (lists : Ranked fl) (k id : ℕ) → has_id id (rrf_fuse fl lists k) ≡ is_cons (places id lists)
  unfolding rrf_fuse
  rrf_fuse_complete lists k id =
      has_id-permᴰ id (sort_slice-permᴰ (ranks_before fl) (add_lists fl k lists []))
      ∙ has_id-add_lists id k lists []
      ∙ or-false _
