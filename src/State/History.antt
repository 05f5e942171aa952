-- ===== src/State/History.antt =====
-- A tool through any sequence of the operations of the store.
use Prim.Native.String.{String}
use text.Mathlib.Text.{◌==◌ as str_eq}
use text.Mathlib.TextEquality.{eq_iff}
use mathlib.Core.Bool.{true≢false}
use mathlib.Core.Option.{some-injective}
use foldermcp.Base.{◌≡◌, refl, sym, ◌∙◌, true, List, [], ◌∷◌, some, Bool-cases, inl, inr}
use foldermcp.State.Lifecycle.{listed, moves}
use foldermcp.State.Table.{Table}
use foldermcp.State.Store.{
  Tool, Outcome, dep_states, rescanned, upsert_tool, set_column, update_tool_state,
  update_content_hash, update_dep_state, upsert_tools_batch,
}
use foldermcp.State.Updates.{SameBut, Rewrites, set_column-Rewrites, Moved, update_tool_state-Moved}
use foldermcp.State.Upserts.{upsert_tool-merged, upsert_each, upsert_tools_batch_lem}

-- A call of the store that writes to the tools.
pub data Op : Type 0 where
  upsert : Tool → Op
  batch : List Tool → Op
  set_state : String → String → Op
  set_hash : String → String → Op
  set_dep : String → String → Op

-- A state is reached from another one by moves between different states of the four.
pub data Reaches : String → String → Type 0 where
  stay : {s : String} → Reaches s s
  move : {from mid to : String} → moves from mid ≡ true → Reaches mid to → Reaches from to

Reaches-append : {a b c : String} → Reaches a b → Reaches b c → Reaches a c
Reaches-append Reaches.stay r = r
Reaches-append (Reaches.move m q) r = Reaches.move m (Reaches-append q r)

module _ (tools : Table Tool) where
  open tools use {Db, row}

  abbrev pub step : Db → Op → Db
  step db (upsert t) = (upsert_tool tools db t).0
  step db (batch ts) = (upsert_tools_batch tools db ts).0
  step db (set_state n s) = (update_tool_state tools db n s).0
  step db (set_hash n h) = (update_content_hash tools db n h).0
  step db (set_dep n d) = (update_dep_state tools db n d).0

  abbrev pub run : Db → List Op → Db
  run db [] = db
  run db (op ∷ ops) = run (step db op) ops

  -- The tool of a name is still there, in a state that is reached from the one before.
  abbrev pub Follows : String → Tool → Db → Type 0
  Follows n old after = (new : Tool) × (row after n ≡ some new) × Reaches old.state new.state

  -- A call that rewrites at most one row, and there to a state that is reached.
  one_row :
      (db after : Db) (n name : String) (old : Tool)
      → row db n ≡ some old
      → (name ≡ n → Follows n old after)
      → SameBut tools name db after
      → Follows n old after
  one_row db after n name old e here others = elim (Bool-cases (str_eq n name)) [
    | inl h ↦ here (sym ((eq_iff n name).0 h))
    | inr h ↦
        (old, others n (λ q. absurd (true≢false (sym ((eq_iff n name).1 q) ∙ h))) ∙ e, Reaches.stay)
  ]

  Rewrites-Follows :
      (db : Db) (n name : String) (f : Tool → Tool) (out : Db × Outcome) (old : Tool)
      → ((t : Tool) → (f t).state ≡ t.state)
      → row db n ≡ some old
      → Rewrites tools db name f out
      → Follows n old out.0
  Rewrites-Follows db n name f out old keeps e (inr (same, _)) = (old, same n ∙ e, Reaches.stay)
  Rewrites-Follows db n name f (after, out) old keeps e (inl (was, found, written, others, fine)) =
      one_row db after n name old e
        (λ q.
          let same : some was ≡ some old = sym found ∙ rw q e in
          (f was, rw (sym q) written, rw (keeps was, some-injective was old same) Reaches.stay))
        others

  Moved-Follows :
      (db : Db) (n name new : String) (out : Db × Outcome) (old : Tool)
      → row db n ≡ some old
      → Moved tools db name new out
      → Follows n old out.0
  Moved-Follows db n name new out old e (inr (same, _)) = (old, same n ∙ e, Reaches.stay)
  Moved-Follows db n name new (after, out) old e (inl (was, found, may, written, others, fine)) =
      one_row db after n name old e
        (λ q.
          let same : was ≡ old = some-injective was old (sym found ∙ rw q e) in
          (
            record was { state = new },
            rw (sym q) written,
            Reaches.move (rw same at may) Reaches.stay,
          ))
        others

  upsert_tool-Follows :
      (db : Db) (n : String) (t old : Tool)
      → row db n ≡ some old
      → Follows n old (upsert_tool tools db t).0
  upsert_tool-Follows db n t old e = elim (upsert_tool-merged tools db t) [
    | inr (same, _) ↦ (old, same n ∙ e, Reaches.stay)
    | inl (written, others, fine) ↦
        one_row db (upsert_tool tools db t).0 n t.name old e
          (λ q.
            let there : row db t.name ≡ some old = rw q e in
            (rescanned t old, rw (sym q) (rw there at written), Reaches.stay))
          others
  ]

  upsert_each-Follows :
      (ts : List Tool) (db : Db) (n : String) (old : Tool)
      → row db n ≡ some old
      → Follows n old (upsert_each tools db ts)
  upsert_each-Follows [] db n old e = (old, e, Reaches.stay)
  upsert_each-Follows (t ∷ ts) db n old e =
      let (mid, f, r) = upsert_tool-Follows db n t old e in
      let (new, g, s) = upsert_each-Follows ts (upsert_tool tools db t).0 n mid f in
      (new, g, Reaches-append r s)

  step-Follows :
      (op : Op) (db : Db) (n : String) (old : Tool)
      → row db n ≡ some old
      → Follows n old (step db op)
  unfolding update_content_hash update_dep_state
  step-Follows (upsert t) db n old e = upsert_tool-Follows db n t old e
  step-Follows (batch ts) db n old e = elim (upsert_tools_batch_lem tools db ts) [
    | inl (fine, same) ↦ let (new, f, r) = upsert_each-Follows ts db n old e in (new, same n ∙ f, r)
    | inr (bad, same) ↦ (old, same n ∙ e, Reaches.stay)
  ]
  step-Follows (set_state name s) db n old e =
      Moved-Follows db n name s (update_tool_state tools db name s) old e
        (update_tool_state-Moved tools db name s)
  step-Follows (set_hash name h) db n old e =
      let f : Tool → Tool = λ t. record t { content_hash = h } in
      Rewrites-Follows db n name f (set_column tools db name f) old (λ t. refl) e
        (set_column-Rewrites tools db name f)
  step-Follows (set_dep name d) db n old e =
      let f : Tool → Tool = λ t. record t { dep_state = d } in
      elim (Bool-cases (listed d dep_states)) [
        | inl good ↦
            let same : update_dep_state tools db name d ≡ set_column tools db name f =
              rw (good, update_dep_state) in
            rw (same, step, Follows)
              (Rewrites-Follows db n name f (set_column tools db name f) old (λ t. refl) e
                (set_column-Rewrites tools db name f))
        | inr bad ↦
            let same : (update_dep_state tools db name d).0 ≡ db = rw (bad, update_dep_state) in
            (old, rw same e, Reaches.stay)
      ]

  -- Whatever calls of the store follow one another, a tool that is there is never lost, and its
  -- state changes only by moves between two different ones of the four states.
  pub run-Follows :
      (ops : List Op) (db : Db) (n : String) (old : Tool)
      → row db n ≡ some old
      → (new : Tool) × (row (run db ops) n ≡ some new) × Reaches old.state new.state
  run-Follows [] db n old e = (old, e, Reaches.stay)
  run-Follows (op ∷ ops) db n old e =
      let (mid, f, r) = step-Follows op db n old e in
      let (new, g, s) = run-Follows ops (step db op) n mid f in (new, g, Reaches-append r s)
