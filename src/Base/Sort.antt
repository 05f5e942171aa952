-- ===== src/Base/Sort.antt =====
-- `sort.Slice(xs, less)`: the ascending rearrangement of a list by a Boolean comparison.
use Prim.Native.Nat.{suc}
use foldermcp.Base.Lists.{length}
use mathlib.Core.Path.{ap, ◌≡◌, refl, sym, ap₂, ◌∙◌, subst, subst₂}
use mathlib.Core.Bool.{Bool, true, false}
use mathlib.Core.Logic.{◌⊎◌, inl, inr}
use mathlib.Core.List.{List, [], ◌∷◌, Permᴰ}
use mathlib.Core.List.Permᴰ
use native.Mathlib.Omega.{arith}
use foldermcp.Base.Tests.{if◌then◌else◌, Bool-cases}
use foldermcp.Base.Preds.{All, All-imp, AllPairs}

module _ {ℓ} {A : Type ℓ} (less : A → A → Bool) where
  insert_slice : A → List A → List A
  insert_slice x [] = x ∷ []
  insert_slice x (y ∷ ys) = if less y x then y ∷ insert_slice x ys else x ∷ y ∷ ys

  unfoldable pub sort_slice : List A → List A
  unfolding insert_slice
  sort_slice [] = []
  sort_slice (x ∷ xs) = insert_slice x (sort_slice xs)

  -- No later element is less than an earlier one.
  abbrev pub NotLess : A → A → Type 0
  NotLess a b = less b a ≡ false

  abbrev pub IsSorted : List A → Type 0
  IsSorted = AllPairs NotLess

  insert_slice-All {κ} :
      (P : A → Type κ) (x : A) (ys : List A) → P x → All P ys → All P (insert_slice x ys)
  unfolding insert_slice
  insert_slice-All P x [] px h = (px, h)
  insert_slice-All P x (y ∷ ys) px h = elim (Bool-cases (less y x)) [
    | inl e ↦ rw e (h.0, insert_slice-All P x ys px h.1)
    | inr e ↦ rw e (px, h)
  ]

  pub sort_slice-All {κ} : (P : A → Type κ) (xs : List A) → All P xs → All P (sort_slice xs)
  unfolding sort_slice
  sort_slice-All P [] h = tt
  sort_slice-All P (x ∷ xs) h = insert_slice-All P x _ h.0 (sort_slice-All P xs h.1)

  insert_slice-permᴰ : (x : A) (ys : List A) → Permᴰ (insert_slice x ys) (x ∷ ys)
  unfolding insert_slice
  insert_slice-permᴰ x [] = Permᴰ.refl _
  insert_slice-permᴰ x (y ∷ ys) = elim (Bool-cases (less y x)) [
    | inl e ↦ rw e (
        Permᴰ.trans (Permᴰ.cons refl (insert_slice-permᴰ x ys))
          (Permᴰ.swap {a = y} {b = x} refl refl))
    | inr e ↦ rw e (Permᴰ.refl _)
  ]

  pub sort_slice-permᴰ : (xs : List A) → Permᴰ (sort_slice xs) xs
  unfolding sort_slice
  sort_slice-permᴰ [] = Permᴰ.nil
  sort_slice-permᴰ (x ∷ xs) =
      Permᴰ.trans (insert_slice-permᴰ x (sort_slice xs)) (Permᴰ.cons refl (sort_slice-permᴰ xs))

-- What `sort.Slice` asks of `less`: a strict weak order.
pub record IsOrder {ℓ} {A : Type ℓ} (less : A → A → Bool) : Type ℓ where
  pub asym : (a b : A) → less a b ≡ true → less b a ≡ false
  pub cotrans : (a b c : A) → less b a ≡ false → less c b ≡ false → less c a ≡ false

module _ {ℓ} {A : Type ℓ} (less : A → A → Bool) (o : IsOrder less) where
  insert_slice-IsSorted :
      (x : A) (ys : List A) → IsSorted less ys → IsSorted less (insert_slice less x ys)
  unfolding insert_slice
  insert_slice-IsSorted x [] h = (tt, tt)
  insert_slice-IsSorted x (y ∷ ys) h = elim (Bool-cases (less y x)) [
    | inl e ↦ rw e (
      insert_slice-All less (NotLess less y) x ys (o.asym y x e) h.0,
      insert_slice-IsSorted x ys h.1,
    )
    | inr e ↦ rw e ((e, All-imp (λ z. o.cotrans x y z e) ys h.0), h)
  ]

  pub sort_slice-IsSorted : (xs : List A) → IsSorted less (sort_slice less xs)
  unfolding sort_slice
  sort_slice-IsSorted [] = tt
  sort_slice-IsSorted (x ∷ xs) = insert_slice-IsSorted x _ (sort_slice-IsSorted xs)

  -- One of the two comes first.
  abbrev pub Differs : A → A → Type 0
  Differs a b = (less a b ≡ true) ⊎ (less b a ≡ true)

  Differs-symm : (a b : A) → Differs a b → Differs b a
  Differs-symm a b (inl h) = inr h
  Differs-symm a b (inr h) = inl h

  less_through : (x y z : A) → less x y ≡ true → less z y ≡ false → less z x ≡ false
  less_through x y z h k = o.cotrans x y z (o.asym x y h) k

  insert_below :
      (x y : A) (l : List A)
      → less x y ≡ true
      → insert_slice less x (insert_slice less y l) ≡ insert_slice less y (insert_slice less x l)
  unfolding insert_slice
  insert_below x y [] h = rw (h, o.asym x y h)
  insert_below x y (z ∷ l) h =
      ground (arith, h, o.asym x y h, less_through x y z h, insert_below x y l h)

  insert_slice_comm :
      (x y : A) (l : List A)
      → Differs x y
      → insert_slice less x (insert_slice less y l) ≡ insert_slice less y (insert_slice less x l)
  insert_slice_comm x y l (inl h) = insert_below x y l h
  insert_slice_comm x y l (inr h) = sym (insert_below y x l h)

All-permᴰ {ℓ κ} : {A : Type ℓ} (P : A → Type κ) {xs ys : List A} → Permᴰ xs ys → All P xs → All P ys
All-permᴰ P Permᴰ.nil h = tt
All-permᴰ P (Permᴰ.cons e p) h = (subst P e h.0, All-permᴰ P p h.1)
All-permᴰ P (Permᴰ.swap d e) h = (subst P e h.1.0, (subst P d h.0, h.1.1))
All-permᴰ P (Permᴰ.trans p q) h = All-permᴰ P q (All-permᴰ P p h)

pub AllPairs-permᴰ {ℓ κ} :
    {A : Type ℓ} (R : A → A → Type κ)
    → ((a b : A) → R a b → R b a)
    → {xs ys : List A} → Permᴰ xs ys
    → AllPairs R xs
    → AllPairs R ys
AllPairs-permᴰ R s Permᴰ.nil h = tt
AllPairs-permᴰ R s (Permᴰ.cons {b = b} {l₁ = l} e p) h =
    (All-permᴰ (R b) p (subst (λ z. All (R z) l) e h.0), AllPairs-permᴰ R s p h.1)
AllPairs-permᴰ R s (Permᴰ.swap {l = l} d e) ((rab, ra), (rb, rl)) =
    ((subst₂ R e d (s _ _ rab), subst (λ z. All (R z) l) e rb), (subst (λ z. All (R z) l) d ra, rl))
AllPairs-permᴰ R s (Permᴰ.trans p q) h = AllPairs-permᴰ R s q (AllPairs-permᴰ R s p h)

module _ {ℓ} {A : Type ℓ} (less : A → A → Bool) (o : IsOrder less) where
  -- Where no two elements are tied, the result does not depend on the order of the input.
  pub sort_slice-eq_of_perm :
      {xs ys : List A}
      → Permᴰ xs ys
      → AllPairs (Differs less o) xs
      → sort_slice less xs ≡ sort_slice less ys
  unfolding sort_slice
  sort_slice-eq_of_perm Permᴰ.nil h = refl
  sort_slice-eq_of_perm (Permᴰ.cons e p) h = ap₂ (insert_slice less) e (sort_slice-eq_of_perm p h.1)
  sort_slice-eq_of_perm (Permᴰ.swap {a = a} {b = b} {l = l} d e) h =
      insert_slice_comm less o a b (sort_slice less l) h.0.0
      ∙ ap₂ (λ u v. insert_slice less u (insert_slice less v (sort_slice less l))) e d
  sort_slice-eq_of_perm (Permᴰ.trans p q) h =
      sort_slice-eq_of_perm p h
      ∙ sort_slice-eq_of_perm q (AllPairs-permᴰ (Differs less o) (Differs-symm less o) p h)

length-permᴰ {ℓ} : {A : Type ℓ} {xs ys : List A} → Permᴰ xs ys → length xs ≡ length ys
length-permᴰ Permᴰ.nil = refl
length-permᴰ (Permᴰ.cons e p) = ap suc (length-permᴰ p)
length-permᴰ (Permᴰ.swap d e) = refl
length-permᴰ (Permᴰ.trans p q) = length-permᴰ p ∙ length-permᴰ q

pub length-sort_slice {ℓ} :
    {A : Type ℓ} (less : A → A → Bool) (xs : List A) → length (sort_slice less xs) ≡ length xs
length-sort_slice less xs = length-permᴰ (sort_slice-permᴰ less xs)
