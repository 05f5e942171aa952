-- ===== src/Base/Distinct.antt =====
-- Lists without repetitions.
use Prim.Native.Nat.{suc, ◌≤◌}
use mathlib.Core.Path.{◌≡◌, refl, sym, subst, ◌∙◌}
use mathlib.Core.Logic.{◌≢◌}
use mathlib.Core.List.{List, [], ◌∷◌, Memᴰ}
use mathlib.Core.List.Memᴰ
use native.Mathlib.Omega.{arith}
use foldermcp.Base.Lists.{length}
use foldermcp.Base.Preds.{All, AllPairs}

module _ {ℓ} {A : Type ℓ} where
  -- What is left of a list without one of its elements.
  rest_of :
      {x : A} {ys : List A}
      → Memᴰ x ys
      → (zs : List A) × (length ys ≡ suc (length zs)) × ((y : A) → x ≢ y → Memᴰ y ys → Memᴰ y zs)
  rest_of {ys = []} m = absurd (Memᴰ.not-nil m)
  rest_of {x} {ys = y ∷ ys} (Memᴰ.head e) = (ys, refl, other)
    where
      other : (z : A) → x ≢ z → Memᴰ z (y ∷ ys) → Memᴰ z ys
      other z ne (Memᴰ.head h) = absurd (ne (e ∙ sym h))
      other z ne (Memᴰ.tail m) = m
  rest_of {x} {ys = y ∷ ys} (Memᴰ.tail m) =
      let (zs, size, keeps) = rest_of m in (y ∷ zs, omega (arith, size), other zs keeps)
    where
      other :
          (zs : List A)
          → ((z : A) → x ≢ z → Memᴰ z ys → Memᴰ z zs)
          → (z : A) → x ≢ z
          → Memᴰ z (y ∷ ys)
          → Memᴰ z (y ∷ zs)
      other zs keeps z ne (Memᴰ.head h) = Memᴰ.head h
      other zs keeps z ne (Memᴰ.tail m) = Memᴰ.tail (keeps z ne m)

  All-rest :
      {x : A} {ys zs : List A} (xs : List A)
      → ((y : A) → x ≢ y → Memᴰ y ys → Memᴰ y zs)
      → All (λ y. x ≢ y) xs
      → All (λ y. Memᴰ y ys) xs
      → All (λ y. Memᴰ y zs) xs
  All-rest [] keeps h k = tt
  All-rest (y ∷ ys) keeps h k = (keeps y h.0 k.0, All-rest ys keeps h.1 k.1)

  -- Distinct elements of a list are no more than it has.
  pub length-distinct :
      (xs ys : List A)
      → AllPairs (λ x y. x ≢ y) xs
      → All (λ x. Memᴰ x ys) xs
      → length xs ≤ length ys
  length-distinct [] ys d h = omega arith
  length-distinct (x ∷ xs) ys d h =
      let (zs, size, keeps) = rest_of h.0 in
      omega (arith, size, length-distinct xs zs d.1 (All-rest xs keeps d.0 h.1))

module _ {ℓ κ} {A : Type ℓ} (P : A → Type κ) where
  pub Mem-All : {x : A} {xs : List A} → Memᴰ x xs → All P xs → P x
  Mem-All {xs = []} m h = absurd (Memᴰ.not-nil m)
  Mem-All {x} {xs = y ∷ ys} (Memᴰ.head e) h = subst P (sym e) h.0
  Mem-All {x} {xs = y ∷ ys} (Memᴰ.tail m) h = Mem-All m h.1

  pub All-Mem : (xs : List A) → ((x : A) → Memᴰ x xs → P x) → All P xs
  All-Mem [] h = tt
  All-Mem (x ∷ xs) h = (h x (Memᴰ.head refl), All-Mem xs (λ y m. h y (Memᴰ.tail m)))
