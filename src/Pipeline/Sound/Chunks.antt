-- ===== src/Pipeline/Sound/Chunks.antt =====
-- The chunker's pass inside the transaction of a file.
use Prim.Native.String.{String}
use foldermcp.Base.{
  ℕ, ◌≡◌, refl, inl, inr, List, [], ◌∷◌, ◌++◌, append-nil, Option, none, some, Option-cases,
  Bool-cases, Bytes, All,
}
use mathlib.Core.Path.{subst}
use mathlib.Core.Option.{none-ne-some, some-injective}
use mathlib.Core.List.{Memᴰ}
use mathlib.Core.List.Memᴰ
use foldermcp.Chunker.Code.{Symbol, CodeChunk}
use foldermcp.Chunker.Prose.{ProseChunk}
use foldermcp.Pipeline.Tables.{chunker, running, finished, FileRow, NodeRow, ChunkRow, Tables}
use foldermcp.Pipeline.Engine.{Engine}
use foldermcp.Pipeline.Tx.{
  failed, PendingChunk, Tx, Exec, pure, raise, Returns, Returns-wrap, Returns-bind, Returns-call,
}
use foldermcp.Pipeline.Runner.{
  Env, new_chunk, prose_row, code_row, same_symbol, node_of, symbol_node, insert_code, insert_prose,
  insert_chunks, run_chunker, Structure,
}
use foldermcp.Pipeline.Sound.{Working}
use foldermcp.Pipeline.Sound.Effects.{Working-with_chunk, Working-same}
use foldermcp.Pipeline.Sound.Steps.{Returns-raise, At, status-At, Structured, status-Structured}

-- The node that a symbol has is one of the nodes.
All-node_of :
    (P : ℕ → Type 0) (s : Symbol) (m : List (Symbol × ℕ)) (n : ℕ)
    → All (λ (x : Symbol × ℕ). P x.1) m
    → node_of s m ≡ some n
    → P n
All-node_of P s [] n h e = absurd (none-ne-some n e)
All-node_of P s ((q, id) ∷ m) n h e = elim (Option-cases (node_of s m)) [
  | inr (k, found) ↦
      let same : k ≡ n = some-injective k n (rw found at e) in
      subst P same (All-node_of P s m k h.1 found)
  | inl missing ↦ elim (Bool-cases (same_symbol s q)) [
    | inl is ↦ subst P (some-injective id n (rw (missing, is) at e)) h.0
    | inr isnt ↦ absurd (none-ne-some n (rw (missing, isnt) at e))
  ]
]

module _ {q : Bytes → _} {f : ℕ} {before t : Tables} where
  Working-middle :
      (p : PendingChunk) (rest ps : List PendingChunk)
      → Working q f before (rest ++ p ∷ ps) t
      → Working q f before ((p ∷ rest) ++ ps) t
  Working-middle p rest ps w = Working-same to from w
    where
      to : (x : PendingChunk) → Memᴰ x (rest ++ p ∷ ps) → Memᴰ x (p ∷ rest ++ ps)
      to x m = elim (Memᴰ.append_cases rest m) [
        | inl l ↦ Memᴰ.tail (Memᴰ.append_left ps l)
        | inr (Memᴰ.head e) ↦ Memᴰ.head e
        | inr (Memᴰ.tail r) ↦ Memᴰ.tail (Memᴰ.append_right rest r)
      ]

      from : (x : PendingChunk) → Memᴰ x (p ∷ rest ++ ps) → Memᴰ x (rest ++ p ∷ ps)
      from x (Memᴰ.head e) = Memᴰ.append_right rest (Memᴰ.head e)
      from x (Memᴰ.tail m) = elim (Memᴰ.append_cases rest m) [
        | inl l ↦ Memᴰ.append_left (p ∷ ps) l
        | inr r ↦ Memᴰ.append_right rest (Memᴰ.tail r)
      ]

module _ (E : Engine) (env : Env) (row : FileRow) (before : Tables) where
  open E use {Db, tables}

  abbrev AtOf : List PendingChunk → List PendingChunk → Tx Db → Type 0
  AtOf = At E env row before

  abbrev IsOwn : ℕ → Tx Db → Type 0
  IsOwn n s = (r : NodeRow) × ((tables s.db).node n ≡ some r) × (r.file_id ≡ row.id)

  abbrev Chunked : Tx Db → List PendingChunk → List PendingChunk → PendingChunk → Tx Db → Type 0
  Chunked s buf ps p s' = AtOf buf (p ∷ ps) s' × ((tables s'.db).node ≡ (tables s.db).node)

  new_chunk-At :
      (r : ChunkRow) (buf ps : List PendingChunk) (s : Tx Db)
      → IsOwn r.node_id s
      → AtOf buf ps s
      → Returns (Chunked s buf ps) (new_chunk E env r s)
  new_chunk-At r buf ps s own (b, w) =
      Returns-bind
        (λ (a : Db × ℕ) s'. Chunked s buf ps (record { chunk_id = a.1; text = r.text }) s')
        (Chunked s buf ps) _ _ s
        (Returns-wrap
          (λ (a : Db × ℕ) s'. Chunked s buf ps (record { chunk_id = a.1; text = r.text }) s') _ _ s
          (Returns-call E
            (λ (a : Db × ℕ) s'. Chunked s buf ps (record { chunk_id = a.1; text = r.text }) s') _ _
            s
            (λ (db, id) e.
              let (unused, after) = E.insert_chunk_new s.db db r id e in
              rw after ((b, Working-with_chunk w id r unused own), refl))))
        (λ a s' h. h)

  abbrev Waiting : List PendingChunk → List PendingChunk → List PendingChunk → Tx Db → Type 0
  Waiting buf ps out s = AtOf buf (out ++ ps) s

  insert_prose-At :
      (n : ℕ) (kind : String) (cs : List ProseChunk) (buf ps : List PendingChunk) (s : Tx Db)
      → IsOwn n s
      → AtOf buf ps s
      → Returns (Waiting buf ps) (insert_prose E env n kind cs s)
  unfolding insert_prose
  insert_prose-At n kind [] buf ps s own h = h
  insert_prose-At n kind (c ∷ cs) buf ps s own h =
      Returns-bind (Chunked s buf ps) (Waiting buf ps) _ _ s
        (new_chunk-At (prose_row E env n kind c) buf ps s own h)
        (λ p s1 (h1, same).
          Returns-bind (Waiting buf (p ∷ ps)) (Waiting buf ps) _ _ s1
            (insert_prose-At n kind cs buf (p ∷ ps) s1 (rw same own) h1)
            (λ rest s2 (b, w). (b, Working-middle p rest ps w)))

  abbrev OwnMap : List (Symbol × ℕ) → Tx Db → Type 0
  OwnMap m s = All (λ (x : Symbol × ℕ). IsOwn x.1 s) m

  -- A chunk of a symbol that has no node fails.
  symbol_node-At :
      (m : List (Symbol × ℕ)) (c : CodeChunk) (buf ps : List PendingChunk) (s : Tx Db)
      → OwnMap m s
      → AtOf buf ps s
      → Returns (λ n s'. (s' ≡ s) × IsOwn n s) (symbol_node E env m c s)
  symbol_node-At m c buf ps s own h = go (node_of c.symbol m) refl
    where
      go :
          (o : Option ℕ)
          → node_of c.symbol m ≡ o
          → Returns
              (λ n s'. (s' ≡ s) × IsOwn n s)
              ((elim o as (λ x. Exec (Tx Db) ℕ) [
                | none ↦ raise (failed ("chunk for unknown symbol" ∷ []))
                | some n ↦ pure n
              ])
                s)
      go none e = tt
      go (some n) e = (refl, All-node_of (λ k. IsOwn k s) c.symbol m n own e)

  insert_code-At :
      (m : List (Symbol × ℕ)) (cs : List CodeChunk) (buf ps : List PendingChunk) (s : Tx Db)
      → OwnMap m s
      → AtOf buf ps s
      → Returns (Waiting buf ps) (insert_code E env m cs s)
  unfolding insert_code
  insert_code-At m [] buf ps s own h = h
  insert_code-At m (c ∷ cs) buf ps s own h =
      Returns-bind (λ n s'. (s' ≡ s) × IsOwn n s) (Waiting buf ps) _ _ s
        (symbol_node-At m c buf ps s own h)
        (λ n s1 (stays, is).
          Returns-bind (Chunked s1 buf ps) (Waiting buf ps) _ _ s1
            (new_chunk-At (code_row E env n c) buf ps s1 (rw stays is) (rw stays h))
            (λ p s2 (h2, same).
              Returns-bind (Waiting buf (p ∷ ps)) (Waiting buf ps) _ _ s2
                (insert_code-At m cs buf (p ∷ ps) s2 (rw (same, stays) own) h2)
                (λ rest s3 (b, w). (b, Working-middle p rest ps w))))

  insert_chunks-At :
      (content : Bytes) (st : Structure E env) (buf : List PendingChunk) (s : Tx Db)
      → Structured E env row before buf [] st s
      → Returns (Waiting buf []) (insert_chunks E env row content st s)
  unfolding insert_chunks
  insert_chunks-At content (m, n, []) buf s (h, own) = insert_prose-At n _ _ buf [] s own h
  insert_chunks-At content (m, n, y ∷ ys) buf s (h, own) =
      Returns-bind (λ _ s'. s' ≡ s) (Waiting buf []) _ _ s
        (Returns-raise (λ _ s'. s' ≡ s) _ s (λ a e. refl))
        (λ cs s1 stays. insert_code-At m cs buf [] s1 (rw stays own) (rw stays h))

  pub run_chunker-At :
      (content : Bytes) (st : Structure E env) (buf : List PendingChunk) (s : Tx Db)
      → Structured E env row before buf [] st s
      → Returns (λ out s'. AtOf buf out s') (run_chunker E env row content st s)
  unfolding run_chunker
  run_chunker-At content st buf s h =
      Returns-bind (Waiting buf []) (λ out s'. AtOf buf out s') _ _ s
        (Returns-bind (λ _ s1. Structured E env row before buf [] st s1) (Waiting buf []) _ _ s
          (status-Structured E env row before st chunker running none buf [] s h)
          (λ _ s1 h1. insert_chunks-At content st buf s1 h1))
        (λ out s2 h2.
          Returns-bind (λ _ s3. AtOf buf (out ++ []) s3) (λ o s'. AtOf buf o s') _ _ s2
            (status-At E env row before chunker finished none buf (out ++ []) s2 h2)
            (λ _ s3 h3. subst (λ o. AtOf buf o s3) (append-nil out) h3))
