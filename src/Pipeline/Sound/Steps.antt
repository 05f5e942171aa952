-- ===== src/Pipeline/Sound/Steps.antt =====
-- The structural pass inside the transaction of a file.
use Prim.Native.String.{String}
use foldermcp.Base.{ℕ, ◌≡◌, refl, sym, List, [], ◌∷◌, Option, none, some, Bytes, All}
use mathlib.Core.Path.{subst}
use foldermcp.Chunker.Code.{Symbol}
use foldermcp.Pipeline.Tables.{
  Pass, structural, chunker, embeddings, skipped, running, finished, Status, FileRow, NodeRow,
  Tables, Statement, effect,
}
use foldermcp.Pipeline.Engine.{Engine}
use foldermcp.Pipeline.Tx.{
  Outcome, ok, failed, panicked, PendingChunk, Tx, Exec, pure, raise, wrap, Returns, Returns-imp,
  Returns-wrap, Returns-bind, statement, Returns-call,
}
use foldermcp.Pipeline.Runner.{
  Env, Extractor, mark_status, skip_all, new_node, symbol_row, file_row, insert_symbols,
  insert_structure, extractor_for, extracted, Structure, run_structural,
}
use foldermcp.Pipeline.Sound.{HasFile, Working}
use foldermcp.Pipeline.Sound.Effects.{Working-upsert_pass, Working-with_node}
use foldermcp.Pipeline.Sound.Update.{update_same, HasFile-with_node}

module _ (E : Engine) where
  open E use {Db, tables}

  pub Returns-statement :
      (Q : Db → Tx Db → Type 0) (q : Statement) (s : Tx Db)
      → ((db : Db) → tables db ≡ effect q (tables s.db) → Q db (record s { db = db }))
      → Returns Q (statement E q s)
  unfolding statement
  Returns-statement Q q s h =
      Returns-call E Q (λ d. d) (λ db. E.exec db q) s (λ db e. h db (E.exec_effect s.db db q e))

-- A value that is raised, by the way it was computed.
module _ {S A : Type 0} where
  pub Returns-raise :
      (Q : A → S → Type 0) (o : Outcome A) (s : S)
      → ((a : A) → o ≡ ok a → Q a s)
      → Returns Q (raise o s)
  Returns-raise Q (ok a) s h = h a refl
  Returns-raise Q (failed e) s h = tt
  Returns-raise Q (panicked e) s h = tt

module _ (E : Engine) (env : Env) (row : FileRow) (before : Tables) where
  open E use {Db, tables}

  -- The buffer of a step, the chunks that wait, the tables.
  abbrev pub At : List PendingChunk → List PendingChunk → Tx Db → Type 0
  At buf ps s = (s.embed_buf ≡ buf) × Working env.embed_query row.id before ps (tables s.db)

  pub mark_status-At :
      (p : Pass) (st : Status) (m : Option (List String)) (buf ps : List PendingChunk) (s : Tx Db)
      → At buf ps s
      → Returns
          (λ _ s'. At buf ps s' × ((tables s'.db).node ≡ (tables s.db).node))
          (mark_status E env row.id p st m s)
  mark_status-At p st m buf ps s (b, w) =
      Returns-statement E (λ _ s'. At buf ps s' × ((tables s'.db).node ≡ (tables s.db).node)) _ s
        (λ db e. rw e ((b, Working-upsert_pass w p st m), refl))

  pub status-At :
      (p : Pass) (st : Status) (m : Option (List String)) (buf ps : List PendingChunk) (s : Tx Db)
      → At buf ps s
      → Returns (λ _ s'. At buf ps s') (mark_status E env row.id p st m s)
  status-At p st m buf ps s h =
      Returns-imp (mark_status E env row.id p st m s) (λ _ s' q. q.0)
        (mark_status-At p st m buf ps s h)

  pub skip_all-At :
      (m : Option (List String)) (buf ps : List PendingChunk) (s : Tx Db)
      → At buf ps s
      → Returns (λ _ s'. At buf ps s') (skip_all E env row.id m s)
  unfolding skip_all
  skip_all-At m buf ps s h =
      Returns-bind (λ _ s'. At buf ps s') (λ _ s'. At buf ps s') _ _ s
        (Returns-bind (λ _ s'. At buf ps s') (λ _ s'. At buf ps s') _ _ s
          (status-At structural skipped m buf ps s h)
          (λ _ s1 h1. status-At chunker skipped m buf ps s1 h1))
        (λ _ s2 h2. status-At embeddings skipped m buf ps s2 h2)

  -- A node that is inserted, beside those there are.
  abbrev Grown : Tx Db → ℕ → Tx Db → Type 0
  Grown s id s' =
      HasFile (tables s'.db) id row.id
      × ((n g : ℕ) → HasFile (tables s.db) n g → HasFile (tables s'.db) n g)

  pub new_node-At :
      (r : NodeRow) (buf ps : List PendingChunk) (s : Tx Db)
      → r.file_id ≡ row.id
      → At buf ps s
      → Returns (λ id s'. At buf ps s' × Grown s id s') (new_node E env r s)
  new_node-At r buf ps s own (b, w) =
      Returns-bind (λ (a : Db × ℕ) s'. At buf ps s' × Grown s a.1 s')
        (λ id s'. At buf ps s' × Grown s id s') _ _ s
        (Returns-call E (λ (a : Db × ℕ) s'. At buf ps s' × Grown s a.1 s') _ _ s
          (λ (db, id) e.
            let (unused, after) = E.insert_node_new s.db db r id e in
            rw after (
              (b, Working-with_node w id r unused own),
              (
                (r, update_same id id (some r) ((tables s.db).node id) refl, own),
                HasFile-with_node (tables s.db) id r unused,
              ),
            )))
        (λ a s' h. h)

  abbrev HasNodes : Tables → List (Symbol × ℕ) → Type 0
  HasNodes t m = All (λ (x : Symbol × ℕ). HasFile t x.1 row.id) m

  abbrev Inserted :
      Tx Db → List PendingChunk → List PendingChunk → List (Symbol × ℕ) → Tx Db → Type 0
  Inserted s buf ps m s' =
      At buf ps s'
      × HasNodes (tables s'.db) m
      × ((n g : ℕ) → HasFile (tables s.db) n g → HasFile (tables s'.db) n g)

  insert_symbols-At :
      (ss : List Symbol) (buf ps : List PendingChunk) (s : Tx Db)
      → At buf ps s
      → Returns (Inserted s buf ps) (insert_symbols E env row.id ss s)
  unfolding insert_symbols
  insert_symbols-At [] buf ps s h = (h, tt, (λ n g x. x))
  insert_symbols-At (y ∷ ys) buf ps s h =
      Returns-bind (λ id s1. At buf ps s1 × Grown s id s1) (Inserted s buf ps) _ _ s
        (Returns-wrap (λ id s1. At buf ps s1 × Grown s id s1) _ _ s
          (new_node-At (symbol_row E env row.id y) buf ps s refl h))
        (λ id s1 (h1, (has, grown)).
          Returns-bind (Inserted s1 buf ps) (Inserted s buf ps) _ _ s1
            (insert_symbols-At ys buf ps s1 h1)
            (λ m s2 (h2, all, more).
              (h2, (more id row.id has, all), (λ n g x. more n g (grown n g x)))))

  -- The nodes that the chunks go to are the file's.
  abbrev pub HasStructure : (ℕ → Option NodeRow) → Structure E env → Type 0
  HasStructure node (m, n, []) = (r : NodeRow) × (node n ≡ some r) × (r.file_id ≡ row.id)
  HasStructure node (m, n, s ∷ ss) =
      All (λ (x : Symbol × ℕ). (r : NodeRow) × (node x.1 ≡ some r) × (r.file_id ≡ row.id)) m

  abbrev pub Structured : List PendingChunk → List PendingChunk → Structure E env → Tx Db → Type 0
  Structured buf ps st s = At buf ps s × HasStructure (tables s.db).node st

  -- A status is no node.
  pub status-Structured :
      (st : Structure E env) (p : Pass) (status : Status) (m : Option (List String))
      (buf ps : List PendingChunk) (s : Tx Db)
      → Structured buf ps st s
      → Returns (λ _ s'. Structured buf ps st s') (mark_status E env row.id p status m s)
  status-Structured st p status m buf ps s (h, has) =
      Returns-imp (mark_status E env row.id p status m s)
        (λ _ s' (h', same). (h', subst (λ node. HasStructure node st) (sym same) has))
        (mark_status-At p status m buf ps s h)

  insert_structure-At :
      (ss : List Symbol) (buf ps : List PendingChunk) (s : Tx Db)
      → At buf ps s
      → Returns (Structured buf ps) (insert_structure E env row ss s)
  unfolding insert_structure
  insert_structure-At [] buf ps s h =
      Returns-bind (λ id s1. At buf ps s1 × Grown s id s1) (Structured buf ps) _ _ s
        (Returns-wrap (λ id s1. At buf ps s1 × Grown s id s1) _ _ s
          (new_node-At (file_row E env row) buf ps s refl h))
        (λ id s1 (h1, (has, _)). (h1, has))
  insert_structure-At (y ∷ ys) buf ps s h =
      Returns-bind (Inserted s buf ps) (Structured buf ps) _ _ s
        (insert_symbols-At (y ∷ ys) buf ps s h) (λ m s1 (h1, all, _). (h1, all))

  extracted-At :
      (content : Bytes) (buf ps : List PendingChunk) (s : Tx Db)
      → At buf ps s
      → Returns (λ _ s'. At buf ps s') (extracted E env row content s)
  extracted-At content buf ps s h = go (extractor_for E env row)
    where
      go :
          (o : Option Extractor)
          → Returns
              (λ _ s'. At buf ps s')
              ((elim o as (λ x. Exec (Tx Db) (List Symbol)) [
                | none ↦ pure []
                | some ext ↦ wrap "extract" (raise (ext.extract content))
              ])
                s)
      go none = h
      go (some ext) =
          Returns-wrap (λ _ s'. At buf ps s') _ _ s
            (Returns-raise (λ _ s'. At buf ps s') (ext.extract content) s (λ a e. h))

  pub run_structural-At :
      (content : Bytes) (buf ps : List PendingChunk) (s : Tx Db)
      → At buf ps s
      → Returns (Structured buf ps) (run_structural E env row content s)
  unfolding run_structural
  run_structural-At content buf ps s h =
      Returns-bind (λ _ s2. At buf ps s2) (Structured buf ps) _ _ s
        (Returns-bind (λ _ s1. At buf ps s1) (λ _ s2. At buf ps s2) _ _ s
          (status-At structural running none buf ps s h)
          (λ _ s1 h1. extracted-At content buf ps s1 h1))
        (λ syms s2 h2.
          Returns-bind (Structured buf ps) (Structured buf ps) _ _ s2
            (insert_structure-At syms buf ps s2 h2)
            (λ st s3 h3.
              Returns-bind (λ _ s4. Structured buf ps st s4) (Structured buf ps) _ _ s3
                (status-Structured st structural finished none buf ps s3 h3) (λ _ s4 h4. h4)))
