-- ===== src/State/Upserts.antt =====
-- What the upserts of the store do to its rows.
use Prim.Native.String.{String}
use text.Mathlib.Text.{◌==◌ as str_eq}
use text.Mathlib.TextEquality.{eq_iff}
use mathlib.Core.Bool.{false≢true}
use mathlib.Core.Option.{none-ne-some, some-injective}
use foldermcp.Base.{
  Option, none, Bool-cases, ◌≡◌, ◌≢◌, ◌⊎◌, refl, sym, ◌∙◌, List, [], ◌∷◌, some, Option-cases, inl,
  inr,
}
use foldermcp.State.Table.{Table, merged}
use foldermcp.State.Store.{
  Tool, ok, db_error, or_text, inserted_tool, rescanned, insert_tool, upsert_tool, insert_all,
  upsert_tools_batch,
}
use foldermcp.State.Updates.{Same, SameBut, db_error≢ok}

-- The columns that a scan sets.
abbrev pub FromScan : Tool → Tool → Type 0
FromScan t new =
    (new.source_file ≡ t.source_file)
    × (new.description ≡ t.description)
    × (new.input_schema ≡ t.input_schema)
    × (new.risk ≡ t.risk)

-- A text, or what stands for the empty one.
abbrev pub Defaulted : String → String → String → Type 0
Defaulted s d new = ((s ≡ "") × (new ≡ d)) ⊎ ((s ≢ "") × (new ≡ s))

-- The other columns: those of the row that was there, or those of the tool.
abbrev pub FromRow : Option Tool → Tool → Tool → Type 0
FromRow none t new =
    (new.name ≡ t.name)
    × Defaulted t.state "pending" new.state
    × Defaulted t.dep_state "resolved" new.dep_state
    × (new.content_hash ≡ t.content_hash)
FromRow (some old) t new =
    (new.name ≡ old.name)
    × (new.state ≡ old.state)
    × (new.dep_state ≡ old.dep_state)
    × (new.content_hash ≡ old.content_hash)

or_text-Defaulted : (s d : String) → Defaulted s d (or_text s d)
or_text-Defaulted s d = elim (Bool-cases (str_eq s "")) [
  | inl e ↦ rw e (inl ((eq_iff s "").0 e, refl))
  | inr e ↦ rw e (inr ((λ h. absurd (false≢true (sym e ∙ (eq_iff s "").1 h))), refl))
]

merged-kept :
    (old : Option Tool) (t : Tool)
    → let new = merged old (inserted_tool t) (rescanned t) in FromScan t new × FromRow old t new
merged-kept none t = (
  (refl, refl, refl, refl),
  (refl, or_text-Defaulted t.state "pending", or_text-Defaulted t.dep_state "resolved", refl),
)
merged-kept (some old) t = ((refl, refl, refl, refl), (refl, refl, refl, refl))

module _ (tools : Table Tool) where
  open tools use {
    Db, row, select, insert, update, commit, select_row, insert_row, update_row, commit_row,
  }

  -- The row that an insert makes, or what it makes of the one that is there; or an error and the same
  -- rows.
  pub upsert_tool-merged :
      (db : Db) (t : Tool)
      → let (after, out) = upsert_tool tools db t in
        ((row after t.name ≡ some (merged (row db t.name) (inserted_tool t) (rescanned t)))
          × SameBut tools t.name db after
          × (out ≡ ok))
        ⊎ (Same tools db after × (out ≢ ok))
  unfolding upsert_tool
  upsert_tool-merged db t = elim (Option-cases (insert_tool tools db t)) [
    | inl e ↦
        let same : upsert_tool tools db t ≡ (db, db_error) = rw (e, upsert_tool) in
        rw same (inr ((λ m. refl), db_error≢ok tools))
    | inr (after, e) ↦
        let same : upsert_tool tools db t ≡ (after, ok) = rw (e, upsert_tool) in
        let r = insert_row db t.name (inserted_tool t) (rescanned t) after e in
        rw same (inl (r.0, r.1, refl))
  ]

  -- An upsert that reports no error leaves in the row of the tool's name its source file, description,
  -- input schema and risk. Where a row was there, its name, state, dependency state and content hash
  -- are as before; where there was none, they are the tool's, an empty state being pending and an
  -- empty dependency state resolved. No other row changes. With an error no row changes.
  pub upsert_tool_lem :
      (db : Db) (t : Tool)
      → let (after, out) = upsert_tool tools db t in
        ((new : Tool) × (row after t.name ≡ some new)
          × FromScan t new
          × FromRow (row db t.name) t new
          × SameBut tools t.name db after
          × (out ≡ ok))
        ⊎ (Same tools db after × (out ≢ ok))
  upsert_tool_lem db t = elim (upsert_tool-merged db t) [
    | inr same ↦ inr same
    | inl (written, others, fine) ↦
        let kept = merged-kept (row db t.name) t in
        inl (
          merged (row db t.name) (inserted_tool t) (rescanned t),
          written,
          kept.0,
          kept.1,
          others,
          fine,
        )
  ]

  -- The upserts of a list of tools, one by one.
  abbrev pub upsert_each : Db → List Tool → Db
  upsert_each db [] = db
  upsert_each db (t ∷ ts) = upsert_each (upsert_tool tools db t).0 ts

  insert_all-upsert_each :
      (db : Db) (ts : List Tool) (after : Db)
      → insert_all tools db ts ≡ some after
      → upsert_each db ts ≡ after
  unfolding insert_all upsert_tool
  insert_all-upsert_each db [] after h = some-injective db after h
  insert_all-upsert_each db (t ∷ ts) after h = elim (Option-cases (insert_tool tools db t)) [
    | inl e ↦ absurd (none-ne-some after (rw (e, insert_all) at h))
    | inr (next, e) ↦
        let same : upsert_tool tools db t ≡ (next, ok) = rw (e, upsert_tool) in
        rw same (insert_all-upsert_each next ts after (rw (e, insert_all) at h))
  ]

  -- A batch of upserts is all or nothing: where it reports no error, the rows are those that the
  -- upserts one by one leave; where it reports one, no row has changed.
  pub upsert_tools_batch_lem :
      (db : Db) (ts : List Tool)
      → let (after, out) = upsert_tools_batch tools db ts in
        ((out ≡ ok) × Same tools (upsert_each db ts) after) ⊎ ((out ≢ ok) × Same tools db after)
  unfolding upsert_tools_batch
  upsert_tools_batch_lem db [] = inl (refl, λ m. refl)
  upsert_tools_batch_lem db (t ∷ ts) = elim (Option-cases (insert_all tools db (t ∷ ts))) [
    | inl e ↦
        let same : upsert_tools_batch tools db (t ∷ ts) ≡ (db, db_error) =
          rw (e, upsert_tools_batch) in
        rw same (inr (db_error≢ok tools, λ m. refl))
    | inr (after, e) ↦ elim (Option-cases (commit after)) [
      | inl f ↦
          let same : upsert_tools_batch tools db (t ∷ ts) ≡ (db, db_error) =
            rw (e, f, upsert_tools_batch) in
          rw same (inr (db_error≢ok tools, λ m. refl))
      | inr (final, f) ↦
          let same : upsert_tools_batch tools db (t ∷ ts) ≡ (final, ok) =
            rw (e, f, upsert_tools_batch) in
          let each = insert_all-upsert_each db (t ∷ ts) after e in
          rw same (inl (refl, λ m. commit_row after final f m ∙ rw (sym each)))
    ]
  ]
