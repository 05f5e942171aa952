-- ===== src/State/Lifecycle.antt =====
-- internal/lifecycle/controller.go.
use Prim.Native.String.{String}
use text.Mathlib.Text.{◌==◌ as str_eq}
use text.Mathlib.TextEquality.{eq_iff}
use foldermcp.Base.{
  ◌≡◌, refl, Bool, true, false, not, ◌&&◌, List, [], ◌∷◌, Option, none, some, any, if◌then◌else◌,
  Bool-cases, inl, inr,
}

abbrev pub listed : String → List String → Bool
listed s ss = any (λ t. str_eq s t) ss

-- `validTransitions`: the states that a state may be left for.
pub targets_of : String → Option (List String)
targets_of from =
    if str_eq from "pending"
    then some ("enabled" ∷ "disabled" ∷ "requires_confirmation" ∷ [])
    else if str_eq from "enabled"
    then some ("disabled" ∷ "requires_confirmation" ∷ "pending" ∷ [])
    else if str_eq from "disabled"
    then some ("enabled" ∷ "requires_confirmation" ∷ "pending" ∷ [])
    else if str_eq from "requires_confirmation"
    then some ("enabled" ∷ "disabled" ∷ "pending" ∷ [])
    else none

pub data Verdict : Type 0 where
  allowed : Verdict
  unknown_state : Verdict
  invalid_transition : Verdict

unfoldable pub validate_transition : String → String → Verdict
unfolding targets_of
validate_transition from to = elim (targets_of from) [
  | none ↦ unknown_state
  | some targets ↦ if listed to targets then allowed else invalid_transition
]

-- The four states of a tool.
abbrev pub tool_states : List String
tool_states = "pending" ∷ "enabled" ∷ "disabled" ∷ "requires_confirmation" ∷ []

abbrev pub is_allowed : Verdict → Bool
is_allowed allowed = true
is_allowed unknown_state = false
is_allowed invalid_transition = false

-- One of two different states of a tool and the other.
abbrev pub moves : String → String → Bool
moves from to = listed from tool_states && listed to tool_states && not (str_eq from to)

-- A text is one of the four states or none of them.
state_cases :
    (P : String → Type 0)
    → P "pending"
    → P "enabled"
    → P "disabled"
    → P "requires_confirmation"
    → (s : String)
    → (str_eq s "pending" ≡ false
        → str_eq s "enabled" ≡ false
        → str_eq s "disabled" ≡ false
        → str_eq s "requires_confirmation" ≡ false
        → P s)
    → P s
state_cases P a b c d s other = elim (Bool-cases (str_eq s "pending")) [
  | inl e ↦ rw ((eq_iff s "pending").0 e) a
  | inr p ↦ elim (Bool-cases (str_eq s "enabled")) [
    | inl e ↦ rw ((eq_iff s "enabled").0 e) b
    | inr q ↦ elim (Bool-cases (str_eq s "disabled")) [
      | inl e ↦ rw ((eq_iff s "disabled").0 e) c
      | inr r ↦ elim (Bool-cases (str_eq s "requires_confirmation")) [
        | inl e ↦ rw ((eq_iff s "requires_confirmation").0 e) d
        | inr t ↦ other p q r t
      ]
    ]
  ]
]

-- ValidateTransition allows exactly the moves from one of the four states to another one of them.
pub validate_transition_lem :
    (from to : String) → is_allowed (validate_transition from to) ≡ moves from to
unfolding validate_transition
validate_transition_lem from to =
    state_cases (λ f. is_allowed (validate_transition f to) ≡ moves f to)
      (state_cases (λ t. is_allowed (validate_transition "pending" t) ≡ moves "pending" t) refl refl
        refl refl to (λ p q r s. rw (p, q, r, s)))
      (state_cases (λ t. is_allowed (validate_transition "enabled" t) ≡ moves "enabled" t) refl refl
        refl refl to (λ p q r s. rw (p, q, r, s)))
      (state_cases (λ t. is_allowed (validate_transition "disabled" t) ≡ moves "disabled" t) refl
        refl refl refl to (λ p q r s. rw (p, q, r, s)))
      (state_cases
        (λ t.
          is_allowed (validate_transition "requires_confirmation" t)
          ≡ moves "requires_confirmation" t)
        refl refl refl refl to (λ p q r s. rw (p, q, r, s)))
      from (λ p q r s. rw (p, q, r, s, targets_of, validate_transition))
