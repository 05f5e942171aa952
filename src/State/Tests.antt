-- ===== src/State/Tests.antt =====
-- A table as a function from names to rows, which meets what the store relies on, and the theorems
-- at it.
use Prim.Native.String.{String}
use text.Mathlib.Text.{◌==◌ as str_eq}
use text.Mathlib.TextEquality.{eq_iff}
use mathlib.Core.Option.{some-injective, some-ne-none}
use foldermcp.Base.{
  ℕ, ◌≡◌, ◌≢◌, ◌↔◌, ◌⊎◌, refl, sym, ap, ◌∙◌, List, [], ◌∷◌, Option, none, some, Bool-cases, inl,
  inr, if◌then◌else◌, arith,
}
use foldermcp.State.Lifecycle.{moves, is_allowed, validate_transition, validate_transition_lem}
use foldermcp.State.Table.{Table, merged, changed}
use foldermcp.State.Store.{
  Tool, ok, upsert_tool, update_tool_state, upsert_tools_batch, inserted_tool,
}
use foldermcp.State.Updates.{Moved, update_tool_state-Moved, Same, SameBut}
use foldermcp.State.Upserts.{
  FromScan, FromRow, upsert_tool_lem, upsert_tools_batch_lem, upsert_each,
}
use foldermcp.State.History.{upsert, set_state, Reaches, run, run-Follows}

abbrev put : (String → Option Tool) → String → Option Tool → String → Option Tool
put db n r m = if str_eq m n then r else db m

abbrev affected : Option Tool → ℕ
affected none = 0
affected (some t) = 1

put_at : (db : String → Option Tool) (n : String) (r : Option Tool) → put db n r n ≡ r
put_at db n r = rw ((eq_iff n n).1 refl)

put_other :
    (db : String → Option Tool) (n : String) (r : Option Tool) (m : String)
    → m ≢ n
    → put db n r m ≡ db m
put_other db n r m ne = elim (Bool-cases (str_eq m n)) [
  | inl e ↦ absurd (ne ((eq_iff m n).0 e))
  | inr e ↦ rw e
]

affected-none : (r : Option Tool) → (affected r ≡ 0) ↔ (r ≡ none)
affected-none none = ((λ h. refl), (λ h. refl))
affected-none (some t) = ((λ h. absurd (omega arith)), (λ h. absurd (some-ne-none t h)))

abbrev by_name : Table Tool
by_name = record {
  Db = String → Option Tool;
  row = λ db n. db n;
  select = λ db n. some (db n);
  insert = λ db n r f. some (put db n (some (merged (db n) r f)));
  update = λ db n f. some (put db n (changed (db n) f), affected (db n));
  commit = λ db. some db;
  select_row = λ db n r e. sym (some-injective (db n) r e);
  insert_row = λ db n r f after e.
      let same = some-injective (put db n (some (merged (db n) r f))) after e in
      (
        (ap (λ d. d n) (sym same)) ∙ put_at db n (some (merged (db n) r f)),
        λ m ne. (ap (λ d. d m) (sym same)) ∙ put_other db n (some (merged (db n) r f)) m ne,
      );
  update_row = λ db n f after k e.
      let same = some-injective (put db n (changed (db n) f), affected (db n)) (after, k) e in
      (
        (ap (λ d. d.0 n) (sym same)) ∙ put_at db n (changed (db n) f),
        (λ m ne. (ap (λ d. d.0 m) (sym same)) ∙ put_other db n (changed (db n) f) m ne),
        rw (ap (λ d. d.1) same) at (affected-none (db n)),
      );
  commit_row = λ db after e m. ap (λ d. d m) (sym (some-injective db after e));
}

abbrev greet : Tool
greet = record {
  name = "greet";
  source_file = "greet.py";
  description = "says hello";
  input_schema = "{}";
  risk = "low";
  state = "";
  dep_state = "";
  content_hash = "00";
}

abbrev none_yet : String → Option Tool
none_yet n = none

abbrev edited : Tool
edited = record greet { description = "says hi"; state = "enabled" }

abbrev one_tool : String → Option Tool
one_tool n = put none_yet "greet" (some (inserted_tool greet)) n

abbrev ap_state : Option Tool → List String
ap_state none = []
ap_state (some t) = t.state ∷ t.description ∷ []

-- An edited tool keeps the state that was given to it.
rescan_keeps :
    ap_state (
      run by_name none_yet
        (upsert greet ∷ set_state "greet" "disabled" ∷ upsert edited ∷ [])
        "greet")
    ≡ "disabled" ∷ "says hi" ∷ []
unfolding upsert_tool update_tool_state validate_transition
rescan_keeps = refl

validate_transition_lem_example :
    is_allowed (validate_transition "pending" "enabled") ≡ moves "pending" "enabled"
validate_transition_lem_example = validate_transition_lem "pending" "enabled"

update_tool_state-Moved_example :
    Moved by_name one_tool "greet" "enabled" (update_tool_state by_name one_tool "greet" "enabled")
update_tool_state-Moved_example = update_tool_state-Moved by_name one_tool "greet" "enabled"

upsert_tool_lem_example :
    let (after, out) = upsert_tool by_name one_tool edited in
    ((new : Tool) × (after "greet" ≡ some new)
      × FromScan edited new
      × FromRow (one_tool "greet") edited new
      × SameBut by_name "greet" one_tool after
      × (out ≡ ok))
    ⊎ (Same by_name one_tool after × (out ≢ ok))
upsert_tool_lem_example = upsert_tool_lem by_name one_tool edited

upsert_tools_batch_lem_example :
    let (after, out) = upsert_tools_batch by_name none_yet (greet ∷ edited ∷ []) in
    ((out ≡ ok) × Same by_name (upsert_each by_name none_yet (greet ∷ edited ∷ [])) after)
    ⊎ ((out ≢ ok) × Same by_name none_yet after)
upsert_tools_batch_lem_example = upsert_tools_batch_lem by_name none_yet (greet ∷ edited ∷ [])

run-Follows_example :
    (new : Tool) × (run by_name one_tool (set_state "greet" "enabled" ∷ upsert edited ∷ []) "greet"
      ≡ some new)
    × Reaches "pending" new.state
run-Follows_example =
    run-Follows by_name (set_state "greet" "enabled" ∷ upsert edited ∷ []) one_tool "greet"
      (inserted_tool greet) refl
