-- ===== src/State/Updates.antt =====
-- What the operations of the store do to its rows.
use Prim.Native.String.{String}
use text.Mathlib.Text.{◌==◌ as str_eq}
use text.Mathlib.TextEquality.{eq_iff}
use mathlib.Core.Bool.{true≢false}
use mathlib.Core.Option.{none-ne-some}
use foldermcp.Base.{
  ◌≡◌, ◌≢◌, ◌⊎◌, refl, sym, ◌∙◌, true, Option, none, some, ◌==◌, ==_iff, Bool-cases, Option-cases,
  inl, inr,
}
use foldermcp.State.Lifecycle.{
  Verdict, allowed, unknown_state, invalid_transition, listed, tool_states, validate_transition,
  moves, validate_transition_lem,
}
use foldermcp.State.Table.{Table}
use foldermcp.State.Store.{
  Tool, Outcome, ok, invalid_state, refused, not_found, db_error, set_column, with_state,
  check_transition, update_tool_state,
}

module _ (tools : Table Tool) where
  open tools use {
    Db, row, select, insert, update, commit, select_row, insert_row, update_row, commit_row,
  }

  -- All rows but that of a name are the same.
  abbrev pub SameBut : String → Db → Db → Type 0
  SameBut n before after = (m : String) → m ≢ n → row after m ≡ row before m

  abbrev pub Same : Db → Db → Type 0
  Same before after = (m : String) → row after m ≡ row before m

  -- An update either rewrites the row that is there and reports no error, or changes no row.
  abbrev pub Rewrites : Db → String → (Tool → Tool) → Db × Outcome → Type 0
  Rewrites db n f (after, out) =
      ((old : Tool) × (row db n ≡ some old)
        × (row after n ≡ some (f old))
        × SameBut n db after
        × (out ≡ ok))
      ⊎ (Same db after × (out ≢ ok))

  not_found≢ok : not_found ≢ ok
  not_found≢ok h = absurd (cc)

  pub db_error≢ok : db_error ≢ ok
  db_error≢ok h = absurd (cc)

  Same-without :
      (db after : Db) (n : String)
      → row db n ≡ none
      → row after n ≡ none
      → SameBut n db after
      → Same db after
  Same-without db after n e f others m = elim (Bool-cases (str_eq m n)) [
    | inl h ↦ let q = (eq_iff m n).0 h in rw (q, e, f)
    | inr h ↦ others m (λ q. absurd (true≢false (sym ((eq_iff m n).1 q) ∙ h)))
  ]

  pub set_column-Rewrites :
      (db : Db) (n : String) (f : Tool → Tool) → Rewrites db n f (set_column tools db n f)
  set_column-Rewrites db n f = elim (Option-cases (update db n f)) [
    | inl e ↦ rw (e, set_column, Rewrites) (inr ((λ m. refl), db_error≢ok))
    | inr ((after, k), e) ↦
        let (written, others, count) = update_row db n f after k e in
        elim (Option-cases (row db n)) [
          | inl absent ↦
              let zero_rows : (k == 0) ≡ true = (==_iff k 0).1 (count.1 absent) in
              let gone : row after n ≡ none = rw absent at written in
              rw (e, zero_rows, set_column, Rewrites)
                (inr (Same-without db after n absent gone others, not_found≢ok))
          | inr (old, found) ↦ elim (Bool-cases (k == 0)) [
            | inl z ↦ absurd (none-ne-some old (sym (count.0 ((==_iff k 0).0 z)) ∙ found))
            | inr z ↦
                rw (e, z, set_column, Rewrites)
                  (inl (old, found, rw found at written, others, refl))
          ]
        ]
  ]

  invalid_state≢ok : invalid_state ≢ ok
  invalid_state≢ok h = absurd (cc)

  refused≢ok : (v : Verdict) → refused v ≢ ok
  refused≢ok v h = absurd (cc)

  verdict_cases : (v : Verdict) → (v ≡ allowed) ⊎ ((v ≡ unknown_state) ⊎ (v ≡ invalid_transition))
  verdict_cases allowed = inl refl
  verdict_cases unknown_state = inr (inl refl)
  verdict_cases invalid_transition = inr (inr refl)

  -- What an update of a tool's state may do.
  abbrev pub Moved : Db → String → String → Db × Outcome → Type 0
  Moved db name new (after, out) =
      ((old : Tool) × (row db name ≡ some old)
        × (moves old.state new ≡ true)
        × (row after name ≡ some (with_state tools new old))
        × SameBut name db after
        × (out ≡ ok))
      ⊎ (Same db after × (out ≢ ok))

  written-Moved :
      (db : Db) (name new : String) (current : Option Tool)
      → current ≡ row db name
      → check_transition tools current new ≡ allowed
      → Moved db name new (set_column tools db name (with_state tools new))
  written-Moved db name new current e v =
      elim (set_column-Rewrites db name (with_state tools new)) [
        | inr same ↦ inr same
        | inl (old, found, written, others, fine) ↦
            let here : current ≡ some old = e ∙ found in
            let move : validate_transition old.state new ≡ allowed = rw here at v in
            let may : moves old.state new ≡ true =
              sym (validate_transition_lem old.state new) ∙ rw move in
            inl (old, found, may, written, others, fine)
      ]

  -- An update of the state of a tool either reports no error: then the tool was there, its state and
  -- the new one are two different ones of the four, the state of the row is the new one and nothing
  -- else has changed. Or it reports an error, and no row has changed.
  pub update_tool_state-Moved :
      (db : Db) (name new : String) → Moved db name new (update_tool_state tools db name new)
  unfolding update_tool_state
  update_tool_state-Moved db name new =
      let written : Db × Outcome = set_column tools db name (with_state tools new) in
      elim (Bool-cases (listed new tool_states)) [
        | inr bad ↦ rw (bad, Moved, update_tool_state) (inr ((λ m. refl), invalid_state≢ok))
        | inl good ↦ elim (Option-cases (select db name)) [
          | inl e ↦ rw (good, e, Moved, update_tool_state) (inr ((λ m. refl), db_error≢ok))
          | inr (current, e) ↦ elim (verdict_cases (check_transition tools current new)) [
            | inl v ↦
                let same : update_tool_state tools db name new ≡ written =
                  rw (good, e, v, update_tool_state) in
                rw same (written-Moved db name new current (select_row db name current e) v)
            | inr (inl v) ↦
                let same : update_tool_state tools db name new ≡ (db, refused unknown_state) =
                  rw (good, e, v, update_tool_state) in
                rw same (inr ((λ m. refl), refused≢ok unknown_state))
            | inr (inr v) ↦
                let same : update_tool_state tools db name new ≡ (db, refused invalid_transition) =
                  rw (good, e, v, update_tool_state) in
                rw same (inr ((λ m. refl), refused≢ok invalid_transition))
          ]
        ]
      ]
