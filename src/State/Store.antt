-- ===== src/State/Store.antt =====
-- The tools and resources of internal/state/store.go. The columns `updated_at` are left out.
use Prim.Native.String.{String}
use text.Mathlib.Text.{◌==◌ as str_eq}
use foldermcp.Base.{ℕ, List, [], ◌∷◌, Option, none, some, if◌then◌else◌, ◌==◌}
use foldermcp.State.Lifecycle.{
  Verdict, allowed, unknown_state, invalid_transition, listed, tool_states, validate_transition,
}
use foldermcp.State.Table.{Table}

pub record Tool : Type 0 where
  pub name : String
  pub source_file : String
  pub description : String
  pub input_schema : String
  pub risk : String
  pub state : String
  pub dep_state : String
  pub content_hash : String

pub record Resource : Type 0 where
  pub name : String
  pub file_path : String
  pub mime_type : String
  pub size_bytes : ℕ
  pub resource_type : String
  pub state : String

abbrev pub dep_states : List String
dep_states = "resolved" ∷ "resolving" ∷ "failed" ∷ []

abbrev pub resource_states : List String
resource_states = "pending" ∷ "enabled" ∷ "disabled" ∷ []

-- `nil`, or the kind of an error.
pub data Outcome : Type 0 where
  ok : Outcome
  invalid_state : Outcome
  refused : Verdict → Outcome
  not_found : Outcome
  db_error : Outcome

-- A text, or its default where it is empty.
abbrev pub or_text : String → String → String
or_text s d = if str_eq s "" then d else s

abbrev pub inserted_tool : Tool → Tool
inserted_tool t = record t {
  state = or_text t.state "pending";
  dep_state = or_text t.dep_state "resolved";
}

-- The SET clause of the upsert.
abbrev pub rescanned : Tool → Tool → Tool
rescanned t old = record old {
  source_file = t.source_file;
  description = t.description;
  input_schema = t.input_schema;
  risk = t.risk;
}

module _ (tools : Table Tool) where
  open tools use {Db, row, select, insert, update, commit}

  abbrev pub insert_tool : Db → Tool → Option Db
  insert_tool db t = insert db t.name (inserted_tool t) (rescanned t)

  unfoldable pub upsert_tool : Db → Tool → Db × Outcome
  upsert_tool db t = elim (insert_tool db t) [ none ↦ (db, db_error) | some after ↦ (after, ok) ]

  abbrev pub get_tool : Db → String → Option (Option Tool)
  get_tool db name = select db name

  -- `UPDATE tools SET ... WHERE name = ?`, its error and the count of its rows.
  abbrev pub set_column : Db → String → (Tool → Tool) → Db × Outcome
  set_column db name f = elim (update db name f) [
    | none ↦ (db, db_error)
    | some (after, k) ↦ if k == 0 then (after, not_found) else (after, ok)
  ]

  abbrev pub with_state : String → Tool → Tool
  with_state new t = record t { state = new }

  -- The check of the transition, where the tool exists.
  abbrev pub check_transition : Option Tool → String → Verdict
  check_transition none new = allowed
  check_transition (some t) new = validate_transition t.state new

  unfoldable pub update_tool_state : Db → String → String → Db × Outcome
  update_tool_state db name new =
      let written = set_column db name (with_state new) in
      let checked : Db × Outcome = elim (get_tool db name) [
        | none ↦ (db, db_error)
        | some current ↦ elim (check_transition current new) [
          | allowed ↦ written
          | unknown_state ↦ (db, refused unknown_state)
          | invalid_transition ↦ (db, refused invalid_transition)
        ]
      ] in
      if listed new tool_states then checked else (db, invalid_state)

  unfoldable pub update_content_hash : Db → String → String → Db × Outcome
  update_content_hash db name hash = set_column db name (λ t. record t { content_hash = hash })

  unfoldable pub update_dep_state : Db → String → String → Db × Outcome
  update_dep_state db name new =
      let written = set_column db name (λ t. record t { dep_state = new }) in
      if listed new dep_states then written else (db, invalid_state)

  -- The statements of the transaction, up to the first that fails.
  unfoldable pub insert_all : Db → List Tool → Option Db
  insert_all db [] = some db
  insert_all db (t ∷ ts) = elim (insert_tool db t) [
    | none ↦ none
    | some after ↦ insert_all after ts
  ]

  -- `UpsertToolsBatch`: an error rolls the transaction back.
  unfoldable pub upsert_tools_batch : Db → List Tool → Db × Outcome
  unfolding insert_all
  upsert_tools_batch db [] = (db, ok)
  upsert_tools_batch db (t ∷ ts) = elim (insert_all db (t ∷ ts)) [
    | none ↦ (db, db_error)
    | some after ↦ elim (commit after) [ none ↦ (db, db_error) | some final ↦ (final, ok) ]
  ]
