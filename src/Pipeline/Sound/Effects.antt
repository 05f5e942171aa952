-- ===== src/Pipeline/Sound/Effects.antt =====
-- What each statement of the transaction of a file keeps.
use foldermcp.Base.{
  ℕ, [], ◌≡◌, ◌≢◌, refl, sym, ap, ◌∙◌, ◌⊎◌, inl, inr, ◌↔◌, Bool-cases, ◌==◌, ==_iff, List, ◌∷◌,
  Option, none, some, Bytes,
}
use mathlib.Core.Path.{subst}
use mathlib.Core.Option.{some-injective}
use mathlib.Core.List.{Memᴰ}
use mathlib.Core.List.Memᴰ
use foldermcp.Pipeline.Tables.{
  embeddings, Pass, Status, NodeRow, ChunkRow, Tables, effect, upsert_pass, put_vector, with_node,
  with_chunk,
}
use foldermcp.Pipeline.Engine.{Sql}
use foldermcp.Pipeline.Tx.{PendingChunk}
use foldermcp.Pipeline.Sound.{
  IsSound, HasFile, IsChunk, IsEmbedding, IsStored, Frame, Waits, Working,
}
use foldermcp.Pipeline.Sound.Update.{
  ℕ-cases, update_same, update_other, inserted-back, inserted-kept, HasFile-with_node,
  IsChunk-with_node, IsChunk-with_chunk,
}

-- A row of one file is none of another's.
one_file : (t : Tables) (n f g : ℕ) → HasFile t n f → HasFile t n g → f ≡ g
one_file t n f g (r, e, h) (r', e', h') =
    sym h ∙ ap (λ (x : NodeRow). x.file_id) (some-injective r r' (sym e ∙ e')) ∙ h'

pub upsert_pass-other :
    (t : Tables) (f g : ℕ) (p q : Pass) (s : Status) (m : Option (List _))
    → g ≢ f
    → (effect (upsert_pass f p s m) t).pass_row g q ≡ t.pass_row g q
upsert_pass-other t f g p q s m h = elim (Bool-cases (g == f)) [
  | inl e ↦ absurd (h ((==_iff g f).0 e))
  | inr e ↦ rw e
]

pub Frame-refl : (f : ℕ) (t : Tables) → Frame f t t
Frame-refl f t = record {
  file_same = λ g. refl;
  fingerprint_same = refl;
  pass_same = λ g p h. refl;
  node_same = λ n r h. ((λ e. e), (λ e. e));
  chunk_same = λ g c r h. ((λ x. x), (λ x. x));
  vector_same = λ g c r h x. refl;
}

pub Frame-upsert_pass :
    {f : ℕ} {before t : Tables}
    → Frame f before t
    → (p : Pass) (s : Status) (m : Option (List _))
    → Frame f before (effect (upsert_pass f p s m) t)
Frame-upsert_pass {f} {before} {t} k p s m = record {
  file_same = k.file_same;
  fingerprint_same = k.fingerprint_same;
  pass_same = λ g q h. upsert_pass-other t f g p q s m h ∙ k.pass_same g q h;
  node_same = k.node_same;
  chunk_same = k.chunk_same;
  vector_same = k.vector_same;
}

module _ {embed_query : Bytes → Sql Bytes} {f : ℕ} {before : Tables} {ps : List PendingChunk}
    {t : Tables} (w : Working embed_query f before ps t) where
  pub Working-upsert_pass :
      (p : Pass) (s : Status) (m : Option (List _))
      → Working embed_query f before ps (effect (upsert_pass f p s m) t)
  Working-upsert_pass p s m = record {
    intact = record {
      node_of_chunk = w.intact.node_of_chunk;
      chunk_of_vector = w.intact.chunk_of_vector;
    };
    frame = Frame-upsert_pass w.frame p s m;
    own = w.own;
    listed = w.listed;
  }

  pub Working-with_node :
      (id : ℕ) (new : NodeRow)
      → t.node id ≡ none
      → new.file_id ≡ f
      → Working embed_query f before ps (with_node id new t)
  Working-with_node id new unused own_file = record {
    intact = record {
      node_of_chunk = λ c r h.
          let (g, has) = w.intact.node_of_chunk c r h in
          (g, HasFile-with_node t id new unused r.node_id g has);
      chunk_of_vector = w.intact.chunk_of_vector;
    };
    frame = record {
      file_same = w.frame.file_same;
      fingerprint_same = w.frame.fingerprint_same;
      pass_same = w.frame.pass_same;
      node_same = λ n r h. (
        (λ e. elim (inserted-back t.node id new n r e) [
          | inl old ↦ (w.frame.node_same n r h).0 old
          | inr (_, row) ↦ absurd (h (ap (λ (x : NodeRow). x.file_id) row ∙ own_file))
        ]),
        (λ e. inserted-kept t.node id new unused n r ((w.frame.node_same n r h).1 e)),
      );
      chunk_same = λ g c r h. (
        (λ x. (w.frame.chunk_same g c r h).0 ((same g c r).0 x)),
        (λ x. (same g c r).1 ((w.frame.chunk_same g c r h).1 x)),
      );
      vector_same = w.frame.vector_same;
    };
    own = λ c r x. w.own c r ((same f c r).0 x);
    listed = λ p m. let (r, x, e) = w.listed p m in (r, (same f p.chunk_id r).1 x, e);
  }
    where
      same : (g c : ℕ) (r : ChunkRow) → IsChunk (with_node id new t) g c r ↔ IsChunk t g c r
      same = IsChunk-with_node t id new unused w.intact

  pub Working-with_chunk :
      (id : ℕ) (new : ChunkRow)
      → t.chunk id ≡ none
      → HasFile t new.node_id f
      → Working embed_query f before
          (record { chunk_id = id; text = new.text } ∷ ps)
          (with_chunk id new t)
  Working-with_chunk id new unused has = record {
    intact = record {
      node_of_chunk = λ c r h. elim (inserted-back t.chunk id new c r h) [
        | inl old ↦ w.intact.node_of_chunk c r old
        | inr (_, row) ↦ (f, rw row has)
      ];
      chunk_of_vector = λ c v h.
          let (r, e) = w.intact.chunk_of_vector c v h in
          (r, inserted-kept t.chunk id new unused c r e);
    };
    frame = record {
      file_same = w.frame.file_same;
      fingerprint_same = w.frame.fingerprint_same;
      pass_same = w.frame.pass_same;
      node_same = w.frame.node_same;
      chunk_same = λ g c r h. (
        (λ x. elim (back g c r x) [
          | inl old ↦ (w.frame.chunk_same g c r h).0 old
          | inr (_, row) ↦ absurd (h (one_file t r.node_id g f x.1 (rw row has)))
        ]),
        (λ x. kept g c r ((w.frame.chunk_same g c r h).1 x)),
      );
      vector_same = w.frame.vector_same;
    };
    own = λ c r x. elim (back f c r x) [
      | inl old ↦ elim (w.own c r old) [
        | inl stored ↦ inl stored
        | inr (p, m, at, is) ↦ inr (p, Memᴰ.tail m, at, is)
      ]
      | inr (same, row) ↦
          inr (record { chunk_id = id; text = new.text }, Memᴰ.head refl, sym same, rw row)
    ];
    listed = λ p m. waiting p m;
  }
    where
      back :
          (g c : ℕ) (r : ChunkRow)
          → IsChunk (with_chunk id new t) g c r
          → IsChunk t g c r ⊎ ((c ≡ id) × (r ≡ new))
      back = IsChunk-with_chunk t id new unused

      kept : (g c : ℕ) (r : ChunkRow) → IsChunk t g c r → IsChunk (with_chunk id new t) g c r
      kept g c r (e, x) = (inserted-kept t.chunk id new unused c r e, x)

      waiting :
          (p : PendingChunk)
          → Memᴰ p (record { chunk_id = id; text = new.text } ∷ ps)
          → (r : ChunkRow) × IsChunk (with_chunk id new t) f p.chunk_id r × (r.text ≡ p.text)
      waiting p (Memᴰ.head e) = (
        new,
        (
          update_same id p.chunk_id (some new) (t.chunk p.chunk_id)
              (ap (λ (x : PendingChunk). x.chunk_id) e),
          has,
        ),
        sym (ap (λ (x : PendingChunk). x.text) e),
      )
      waiting p (Memᴰ.tail m) = let (r, x, e) = w.listed p m in (r, kept f p.chunk_id r x, e)

module _ {embed_query : Bytes → Sql Bytes} {f : ℕ} {before : Tables} where
  pub Working-same :
      {ps qs : List PendingChunk} {t : Tables}
      → ((p : PendingChunk) → Memᴰ p ps → Memᴰ p qs)
      → ((p : PendingChunk) → Memᴰ p qs → Memᴰ p ps)
      → Working embed_query f before ps t
      → Working embed_query f before qs t
  Working-same to from w = record {
    intact = w.intact;
    frame = w.frame;
    own = λ c r x. elim (w.own c r x) [
      | inl stored ↦ inl stored
      | inr (p, m, at, is) ↦ inr (p, to p m, at, is)
    ];
    listed = λ p m. w.listed p (from p m);
  }

  pub Working-put_vector :
      (p : PendingChunk) {ps : List PendingChunk} {t : Tables} (v : Bytes)
      → IsEmbedding embed_query p.text v
      → Working embed_query f before (p ∷ ps) t
      → Working embed_query f before ps (effect (put_vector p.chunk_id v) t)
  Working-put_vector p {ps} {t} v embeds w = record {
    intact = record {
      node_of_chunk = w.intact.node_of_chunk;
      chunk_of_vector = λ c u h. elim (inserted-back t.vector p.chunk_id v c u h) [
        | inl old ↦ w.intact.chunk_of_vector c u old
        | inr (same, _) ↦ (row, rw same found.0)
      ];
    };
    frame = record {
      file_same = w.frame.file_same;
      fingerprint_same = w.frame.fingerprint_same;
      pass_same = w.frame.pass_same;
      node_same = w.frame.node_same;
      chunk_same = w.frame.chunk_same;
      vector_same = λ g c r h x.
          update_other p.chunk_id c (some v) (t.vector c)
            (not_its g c r h ((w.frame.chunk_same g c r h).1 x))
          ∙ w.frame.vector_same g c r h x;
    };
    own = owns;
    listed = λ q m. w.listed q (Memᴰ.tail m);
  }
    where
      row : ChunkRow
      row = (w.listed p (Memᴰ.head refl)).0

      found : IsChunk t f p.chunk_id row
      found = (w.listed p (Memᴰ.head refl)).1

      text : row.text ≡ p.text
      text = (w.listed p (Memᴰ.head refl)).2

      same_row : (c : ℕ) (r : ChunkRow) → c ≡ p.chunk_id → t.chunk c ≡ some r → r ≡ row
      same_row c r same e = some-injective r row (sym e ∙ ap t.chunk same ∙ found.0)

      not_its : (g c : ℕ) (r : ChunkRow) → g ≢ f → IsChunk t g c r → c ≢ p.chunk_id
      not_its g c r h (e, x) same =
          h (one_file t row.node_id g f (rw (sym (same_row c r same e)) x) found.1)

      owns :
          (c : ℕ) (r : ChunkRow)
          → IsChunk t f c r
          → IsStored embed_query (effect (put_vector p.chunk_id v) t) c r.text ⊎ Waits c r.text ps
      owns c r x = elim (ℕ-cases c p.chunk_id) [
        | inl same ↦
            let e : r.text ≡ p.text =
              ap (λ (y : ChunkRow). y.text) (same_row c r same x.0) ∙ text in
            inl (v, update_same p.chunk_id c (some v) (t.vector c) same, rw e embeds)
        | inr other ↦ elim (w.own c r x) [
          | inl (u, at, is) ↦
              inl (u, update_other p.chunk_id c (some v) (t.vector c) other ∙ at, is)
          | inr (q, Memᴰ.head e, same, is) ↦
              absurd (other (sym same ∙ ap (λ (y : PendingChunk). y.chunk_id) e))
          | inr (q, Memᴰ.tail m, at, is) ↦ inr (q, m, at, is)
        ]
      ]

module _ {embed_query : Bytes → Sql Bytes} {f : ℕ} {before t : Tables} where
  pub Working-IsSound :
      IsSound embed_query before → Working embed_query f before [] t → IsSound embed_query t
  Working-IsSound b w = record {
    intact = w.intact;
    embedded = λ g c r m finished_row is. elim (ℕ-cases g f) [
      | inl same ↦ elim (w.own c r (subst (λ h. IsChunk t h c r) same is)) [
        | inl stored ↦ stored
        | inr (p, m, at, text) ↦ absurd (Memᴰ.not-nil m)
      ]
      | inr other ↦
          let was : IsChunk before g c r = (w.frame.chunk_same g c r other).0 is in
          let (v, at, embeds) =
            b.embedded g c r m (sym (w.frame.pass_same g embeddings other) ∙ finished_row) was in
          (v, w.frame.vector_same g c r other was ∙ at, embeds)
    ];
  }
