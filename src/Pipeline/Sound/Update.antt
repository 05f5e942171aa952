-- ===== src/Pipeline/Sound/Update.antt =====
-- What a table holds behind an insertion of a row.
use foldermcp.Base.{
  ℕ, ◌≡◌, ◌≢◌, sym, ap, ◌↔◌, ◌∙◌, ◌⊎◌, inl, inr, ◌==◌, ==_iff, Bool-cases, if◌then◌else◌, Option,
  none, some,
}
use mathlib.Core.Bool.{false≢true}
use mathlib.Core.Option.{none-ne-some, some-injective}
use foldermcp.Pipeline.Tables.{NodeRow, ChunkRow, Tables, with_node, with_chunk}
use foldermcp.Pipeline.Sound.{IsIntact, HasFile, IsChunk}

module _ {ℓ} {A : Type ℓ} (id n : ℕ) (a b : A) where
  pub update_same : n ≡ id → (if n == id then a else b) ≡ a
  update_same h = rw ((==_iff n id).1 h)

  pub update_other : n ≢ id → (if n == id then a else b) ≡ b
  update_other h = elim (Bool-cases (n == id)) [
    | inl e ↦ absurd (h ((==_iff n id).0 e))
    | inr e ↦ rw e
  ]

pub ℕ-cases : (a b : ℕ) → (a ≡ b) ⊎ (a ≢ b)
ℕ-cases a b = elim (Bool-cases (a == b)) [
  | inl e ↦ inl ((==_iff a b).0 e)
  | inr e ↦ inr (λ h. false≢true (sym e ∙ (==_iff a b).1 h))
]

-- A table `m` with the row `a` under `id`.
module _ {ℓ} {A : Type ℓ} (m : ℕ → Option A) (id : ℕ) (a : A) where
  abbrev pub inserted : ℕ → Option A
  inserted n = if n == id then some a else m n

  pub inserted-back : (n : ℕ) (r : A) → inserted n ≡ some r → (m n ≡ some r) ⊎ ((n ≡ id) × (r ≡ a))
  inserted-back n r h = elim (ℕ-cases n id) [
    | inl e ↦ inr (e, some-injective r a (sym h ∙ update_same id n (some a) (m n) e))
    | inr e ↦ inl (sym (update_other id n (some a) (m n) e) ∙ h)
  ]

  module _ (unused : m id ≡ none) where
    pub unused-other : (n : ℕ) (r : A) → m n ≡ some r → n ≢ id
    unused-other n r h e = none-ne-some r (sym unused ∙ rw (sym e) h)

    pub inserted-kept : (n : ℕ) (r : A) → m n ≡ some r → inserted n ≡ some r
    inserted-kept n r h = update_other id n (some a) (m n) (unused-other n r h) ∙ h

module _ (t : Tables) (id : ℕ) (new : NodeRow) (unused : t.node id ≡ none) where
  pub HasFile-with_node : (n g : ℕ) → HasFile t n g → HasFile (with_node id new t) n g
  HasFile-with_node n g (r, e, h) = (r, inserted-kept t.node id new unused n r e, h)

  pub HasFile-with_node_back :
      (n g : ℕ) → HasFile (with_node id new t) n g → HasFile t n g ⊎ ((n ≡ id) × (g ≡ new.file_id))
  HasFile-with_node_back n g (r, e, h) = elim (inserted-back t.node id new n r e) [
    | inl old ↦ inl (r, old, h)
    | inr (same, row) ↦ inr (same, sym h ∙ ap (λ (x : NodeRow). x.file_id) row)
  ]

  -- No chunk hangs on a node that is new.
  pub IsChunk-with_node :
      IsIntact t → (g c : ℕ) (r : ChunkRow) → IsChunk (with_node id new t) g c r ↔ IsChunk t g c r
  IsChunk-with_node i g c r = (
    (λ (e, f). elim (HasFile-with_node_back r.node_id g f) [
      | inl old ↦ (e, old)
      | inr (same, _) ↦
          let (_, (row, at_row, _)) = i.node_of_chunk c r e in
          absurd (unused-other t.node id new unused r.node_id row at_row same)
    ]),
    (λ (e, f). (e, HasFile-with_node r.node_id g f)),
  )

module _ (t : Tables) (id : ℕ) (new : ChunkRow) (unused : t.chunk id ≡ none) where
  pub IsChunk-with_chunk :
      (g c : ℕ) (r : ChunkRow)
      → IsChunk (with_chunk id new t) g c r
      → IsChunk t g c r ⊎ ((c ≡ id) × (r ≡ new))
  IsChunk-with_chunk g c r (e, f) = elim (inserted-back t.chunk id new c r e) [
    | inl old ↦ inl (old, f)
    | inr same ↦ inr same
  ]
