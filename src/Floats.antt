-- ===== src/Floats.antt =====
-- The float64 and float32 arithmetic that the code uses, as an interface. The values are those
-- that a score takes: sums of positive reciprocals, so neither NaN nor a signed zero.
use foldermcp.Base.{ℕ, ◌+◌, ◌/◌, ◌≡◌, ◌↔◌, Bool, true, false, ltb, ◌==◌, ==_iff, arith}

pub record Floats : Type 1 where
  pub F64 : Type 0
  pub F32 : Type 0
  pub zero_f : F64
  pub add : F64 → F64 → F64
  -- `1.0 / float64(n)`
  pub reciprocal : ℕ → F64
  pub eq : F64 → F64 → Bool
  pub lt : F64 → F64 → Bool
  pub to_f32 : F64 → F32
  pub eq_iff : (a b : F64) → (eq a b ≡ true) ↔ (a ≡ b)
  pub lt_asym : (a b : F64) → lt a b ≡ true → lt b a ≡ false
  pub lt_cotrans : (a b c : F64) → lt b a ≡ false → lt c b ≡ false → lt c a ≡ false
  pub lt_tie : (a b : F64) → lt a b ≡ false → lt b a ≡ false → a ≡ b

pub ltb_asym : (a b : ℕ) → ltb a b ≡ true → ltb b a ≡ false
ltb_asym a b h = ground arith

pub ltb_cotrans : (a b c : ℕ) → ltb b a ≡ false → ltb c b ≡ false → ltb c a ≡ false
ltb_cotrans a b c h k = ground arith

pub ltb_tie : (a b : ℕ) → ltb a b ≡ false → ltb b a ≡ false → a ≡ b
ltb_tie a b h k = ground arith

-- Fixed-point numbers in millionths meet the interface.
abbrev pub millionths : Floats
millionths = record {
  F64 = ℕ;
  F32 = ℕ;
  zero_f = 0;
  add = λ a b. a + b;
  reciprocal = λ n. 1_000_000 / n;
  eq = ◌==◌;
  lt = ltb;
  to_f32 = λ a. a;
  eq_iff = ==_iff;
  lt_asym = ltb_asym;
  lt_cotrans = ltb_cotrans;
  lt_tie = ltb_tie;
}
