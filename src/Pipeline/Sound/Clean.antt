-- ===== src/Pipeline/Sound/Clean.antt =====
-- What the defensive deletes leave.
use foldermcp.Base.{
  ℕ, ◌≡◌, ◌≢◌, refl, sym, ◌∙◌, inl, inr, Bool, true, false, Bool-cases, ◌==◌, ==_iff, if◌then◌else◌,
  [], Option, none, some, Bytes,
}
use mathlib.Core.Bool.{false≢true}
use mathlib.Core.Option.{none-ne-some}
use mathlib.Core.List.Memᴰ
use foldermcp.Pipeline.Tables.{
  NodeRow, ChunkRow, Tables, is_file, file_of_node, file_of_chunk, cleaned,
}
use foldermcp.Pipeline.Engine.{Sql}
use foldermcp.Pipeline.Sound.{HasFile, IsChunk, IsIntact, Working}

erased {ℓ} :
    {A : Type ℓ} (b : Bool) (o : Option A) (a : A)
    → (if b then none else o) ≡ some a
    → (b ≡ false) × (o ≡ some a)
erased true o a h = absurd (none-ne-some a h)
erased false o a h = (refl, h)

==_false : (a b : ℕ) → a ≢ b → (a == b) ≡ false
==_false a b h = elim (Bool-cases (a == b)) [ inl e ↦ absurd (h ((==_iff a b).0 e)) | inr e ↦ e ]

false_≢ : (a b : ℕ) → (a == b) ≡ false → a ≢ b
false_≢ a b h e = false≢true (sym h ∙ (==_iff a b).1 e)

module _ (f : ℕ) (t : Tables) where
  is_file-node : (n g : ℕ) → HasFile t n g → is_file f (file_of_node t n) ≡ (g == f)
  is_file-node n g (r, e, h) = rw (is_file, e, h)

  is_file-chunk :
      (g c : ℕ) (r : ChunkRow) → IsChunk t g c r → is_file f (file_of_chunk t c) ≡ (g == f)
  is_file-chunk g c r (e, has) = rw (is_file, e) (is_file-node r.node_id g has)

  node_kept :
      (n g : ℕ) (r : NodeRow)
      → g ≢ f
      → t.node n ≡ some r
      → r.file_id ≡ g
      → (cleaned f t).node n ≡ some r
  node_kept n g r h e q = rw (is_file-node n g (r, e, q), ==_false g f h) e

  HasFile-cleaned : (n g : ℕ) → g ≢ f → HasFile t n g → HasFile (cleaned f t) n g
  HasFile-cleaned n g h (r, e, q) = (r, node_kept n g r h e q, q)

  HasFile-cleaned_back : (n g : ℕ) → HasFile (cleaned f t) n g → HasFile t n g
  HasFile-cleaned_back n g (r, e, q) =
      (r, (erased (is_file f (file_of_node t n)) (t.node n) r e).1, q)

  IsChunk-cleaned : (g c : ℕ) (r : ChunkRow) → g ≢ f → IsChunk t g c r → IsChunk (cleaned f t) g c r
  IsChunk-cleaned g c r h (e, has) =
      (rw (is_file-chunk g c r (e, has), ==_false g f h) e, HasFile-cleaned r.node_id g h has)

  IsChunk-cleaned_back :
      (g c : ℕ) (r : ChunkRow) → IsChunk (cleaned f t) g c r → IsChunk t g c r × (g ≢ f)
  IsChunk-cleaned_back g c r (e, has) =
      let (other, old) = erased (is_file f (file_of_chunk t c)) (t.chunk c) r e in
      let is : IsChunk t g c r = (old, HasFile-cleaned_back r.node_id g has) in
      (is, false_≢ g f (sym (is_file-chunk g c r is) ∙ other))

  module _ (i : IsIntact t) where
    IsIntact-cleaned : IsIntact (cleaned f t)
    IsIntact-cleaned = record {
      node_of_chunk = λ c r h.
          let (other, old) = erased (is_file f (file_of_chunk t c)) (t.chunk c) r h in
          let (g, has) = i.node_of_chunk c r old in
          (
            g,
            HasFile-cleaned r.node_id g (false_≢ g f (sym (is_file-chunk g c r (old, has)) ∙ other))
                has,
          );
      chunk_of_vector = λ c v h.
          let (other, old) = erased (is_file f (file_of_chunk t c)) (t.vector c) v h in
          let (r, e) = i.chunk_of_vector c v old in (r, rw other e);
    }

    pub cleaned-Working :
        (embed_query : Bytes → Sql Bytes) → Working embed_query f t [] (cleaned f t)
    cleaned-Working embed_query = record {
      intact = IsIntact-cleaned;
      frame = record {
        file_same = λ g. refl;
        fingerprint_same = refl;
        pass_same = λ g p h. rw (==_false g f h);
        node_same = λ n r h. (
          (λ e. (erased (is_file f (file_of_node t n)) (t.node n) r e).1),
          (λ e. node_kept n r.file_id r h e refl),
        );
        chunk_same = λ g c r h. ((λ x. (IsChunk-cleaned_back g c r x).0), IsChunk-cleaned g c r h);
        vector_same = λ g c r h x. rw (is_file-chunk g c r x, ==_false g f h);
      };
      own = λ c r x. absurd ((IsChunk-cleaned_back f c r x).1 refl);
      listed = λ p m. absurd (Memᴰ.not-nil m);
    }
