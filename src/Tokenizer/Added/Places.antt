-- ===== src/Tokenizer/Added/Places.antt =====
-- The place that the loop over the added tokens finds.
use foldermcp.Base.{
  ℕ, zero, suc, ◌≤◌, ◌≡◌, refl, sym, ◌∙◌, true, false, ◌&&◌, ◌||◌, List, [], ◌∷◌, Option, none,
  some, arith, length, drop, ltb, ◌==◌, starts_with, Bool-cases, ◌⊎◌, inl, inr,
}
use mathlib.Core.Bool.{true≢false}
use mathlib.Core.List.{Memᴰ}
use foldermcp.Tokenizer.Runes.{Runes, AddedTok}
use foldermcp.Tokenizer.Added.{Best, index, candidate, improve, best_of}

nat_cases : (P : ℕ → Type 0) → P zero → ((m : ℕ) → P (suc m)) → (k : ℕ) → P k
nat_cases P z s zero = z
nat_cases P z s (suc m) = s m

module _ (text : Runes) where
  -- Where a token occurs, it does so behind the best place, or there and is not longer.
  abbrev pub Beats : Option Best → AddedTok → Type 0
  Beats none a = (k : ℕ) → starts_with (drop k text) a.content ≡ false
  Beats (some b) a =
      (k : ℕ)
      → starts_with (drop k text) a.content ≡ true
      → (b.idx ≤ k) × (k ≡ b.idx → length a.content ≤ b.len)

index_lem :
    (s t : Runes)
    → ((index s t ≡ none) × ((k : ℕ) → starts_with (drop k s) t ≡ false))
      ⊎ ((i : ℕ) × (index s t ≡ some i)
          × (starts_with (drop i s) t ≡ true)
          × ((k : ℕ) → starts_with (drop k s) t ≡ true → i ≤ k))
unfolding index
index_lem [] t = elim (Bool-cases (starts_with [] t)) [
  | inl e ↦ inr (0, rw (e, index), e, (λ k h. omega arith))
  | inr e ↦ inl (rw (e, index), nat_cases (λ k. starts_with (drop k []) t ≡ false) e (λ m. e))
]
index_lem (r ∷ rs) t = elim (Bool-cases (starts_with (r ∷ rs) t)) [
  | inl e ↦ inr (0, rw (e, index), e, (λ k h. omega arith))
  | inr e ↦ elim (index_lem rs t) [
    | inl (f, never) ↦
        inl (rw (e, f, index), nat_cases (λ k. starts_with (drop k (r ∷ rs)) t ≡ false) e never)
    | inr (i, f, at, least) ↦ inr (
      suc i,
      rw (e, f, index),
      at,
      nat_cases (λ k. starts_with (drop k (r ∷ rs)) t ≡ true → suc i ≤ k)
          (λ h. absurd (true≢false (sym h ∙ e))) (λ m h. omega (arith, least m h)),
    )
  ]
]

module _ (text : Runes) where
  Beats-improve :
      (c a : AddedTok) (best : Option Best) → Beats text best a → Beats text (improve text c best) a
  unfolding improve
  Beats-improve c a none h = elim (index_lem text c.content) [
    | inl (e, never) ↦ rw (e, Beats, improve) h
    | inr (i, e, at, least) ↦ rw (e, Beats, improve) (λ k q. absurd (true≢false (sym q ∙ h k)))
  ]
  Beats-improve c a (some b) h = elim (index_lem text c.content) [
    | inl (e, never) ↦ rw (e, Beats, improve) h
    | inr (i, e, at, least) ↦
        elim (Bool-cases (ltb i b.idx || i == b.idx && ltb b.len (length c.content))) [
          | inl better ↦
              rw (e, better, Beats, improve)
                (λ k q. let (x, y) = h k q in (ground arith, λ s. ground (arith, y)))
          | inr worse ↦ rw (e, worse, Beats, improve) h
        ]
  ]

  improve-Beats : (a : AddedTok) (best : Option Best) → Beats text (improve text a best) a
  unfolding improve
  improve-Beats a none = elim (index_lem text a.content) [
    | inl (e, never) ↦ rw (e, Beats, improve) never
    | inr (i, e, at, least) ↦ rw (e, Beats, improve) (λ k q. (least k q, λ s. omega arith))
  ]
  improve-Beats a (some b) = elim (index_lem text a.content) [
    | inl (e, never) ↦ rw (e, Beats, improve) (λ k q. absurd (true≢false (sym q ∙ never k)))
    | inr (i, e, at, least) ↦
        elim (Bool-cases (ltb i b.idx || i == b.idx && ltb b.len (length a.content))) [
          | inl better ↦ rw (e, better, Beats, improve) (λ k q. (least k q, λ s. omega arith))
          | inr worse ↦
              rw (e, worse, Beats, improve)
                (λ k q. let x = least k q in (ground arith, λ s. ground arith))
        ]
  ]

  best_of-Beats-kept :
      (as' : List AddedTok) (a : AddedTok) (best : Option Best)
      → Beats text best a
      → Beats text (best_of text as' best) a
  unfolding best_of
  best_of-Beats-kept [] a best h = h
  best_of-Beats-kept (c ∷ as') a best h =
      best_of-Beats-kept as' a (improve text c best) (Beats-improve c a best h)

  pub best_of-Beats :
      (as' : List AddedTok) (best : Option Best) (a : AddedTok)
      → Memᴰ a as'
      → Beats text (best_of text as' best) a
  unfolding best_of
  best_of-Beats [] best a m = elim m [ ]
  best_of-Beats (c ∷ as') best a (Memᴰ.head e) =
      best_of-Beats-kept as' a (improve text c best) (rw (sym e) (improve-Beats a best))
  best_of-Beats (c ∷ as') best a (Memᴰ.tail m) = best_of-Beats as' (improve text c best) a m

  -- The best place is one of a token of the list.
  abbrev pub IsPlace : List AddedTok → Option Best → Type 0
  IsPlace all none = Unit
  IsPlace all (some b) =
      (a : AddedTok) × Memᴰ a all
      × (b ≡ candidate text b.idx a)
      × (starts_with (drop b.idx text) a.content ≡ true)

  improve-IsPlace :
      (all : List AddedTok) (a : AddedTok) (best : Option Best)
      → Memᴰ a all
      → IsPlace all best
      → IsPlace all (improve text a best)
  unfolding improve
  improve-IsPlace all a none m h = elim (index_lem text a.content) [
    | inl (e, never) ↦ rw (e, IsPlace, improve) tt
    | inr (i, e, at, least) ↦ rw (e, IsPlace, improve) (a, m, refl, at)
  ]
  improve-IsPlace all a (some b) m h = elim (index_lem text a.content) [
    | inl (e, never) ↦ rw (e, IsPlace, improve) h
    | inr (i, e, at, least) ↦
        elim (Bool-cases (ltb i b.idx || i == b.idx && ltb b.len (length a.content))) [
          | inl better ↦ rw (e, better, IsPlace, improve) (a, m, refl, at)
          | inr worse ↦ rw (e, worse, IsPlace, improve) h
        ]
  ]

  pub best_of-IsPlace :
      (all as' : List AddedTok) (best : Option Best)
      → ((a : AddedTok) → Memᴰ a as' → Memᴰ a all)
      → IsPlace all best
      → IsPlace all (best_of text as' best)
  unfolding best_of
  best_of-IsPlace all [] best sub h = h
  best_of-IsPlace all (a ∷ as') best sub h =
      best_of-IsPlace all as' (improve text a best) (λ c m. sub c (Memᴰ.tail m))
        (improve-IsPlace all a best (sub a (Memᴰ.head refl)) h)
