-- ===== src/Tokenizer/Encode/Shape.antt =====
-- What `Encode` returns.
use foldermcp.Base.{
  ℕ, zero, suc, ◌+◌, ◌-◌, ◌≤◌, ◌<◌, ◌≡◌, refl, sym, ap, ◌∙◌, true, false, List, [], ◌∷◌, ◌++◌, some,
  arith, length, take, take_all, drop, drop_cons, length-take, length-drop, get_elem?, ltb, leb,
  ◌==◌, Bool-cases, inl, inr, le→leb,
}
use foldermcp.Tokenizer.Runes.{Runes, Unicode, Tokenizer}
use foldermcp.Tokenizer.Encode.{
  fill, repeat, content_at, id_cell, mask_cell, all_content, shortened, encode,
}

length-repeat : (n x : ℕ) → length (repeat n x) ≡ n
length-repeat zero x = refl
length-repeat (suc n) x = omega (arith, length-repeat n x)

fill_add : (cell : ℕ → ℕ) (i m n : ℕ) → fill cell i (m + n) ≡ fill cell i m ++ fill cell (i + m) n
fill_add cell i zero n =
    let e : zero + n ≡ n = omega arith in let f : i + zero ≡ i = omega arith in rw (e, f)
fill_add cell i (suc m) n =
    let e : suc m + n ≡ suc (m + n) = omega arith in
    let f : i + suc m ≡ suc i + m = omega arith in rw (e, f, fill_add cell (suc i) m n)

fill-repeat :
    (cell : ℕ → ℕ) (x i n : ℕ)
    → ((j : ℕ) → i ≤ j → j < i + n → cell j ≡ x)
    → fill cell i n ≡ repeat n x
fill-repeat cell x i zero h = refl
fill-repeat cell x i (suc n) h = rw (
  h i (omega arith) (omega arith),
  fill-repeat cell x (suc i) n (λ j a b. h j (omega arith) (omega arith)),
)

module _ (u : Unicode) (t : Tokenizer) where
  open t use {cls_id, sep_id, pad_id, max_seq_len}

  content_at_lem :
      (content : List ℕ) (k x : ℕ)
      → get_elem? content k ≡ some x
      → content_at u t content (suc k) ≡ x
  content_at_lem content k x at =
      let same : suc k - 1 ≡ k = omega arith in rw (content_at, same, at)

  sep_cell : (content : List ℕ) → id_cell u t content (length content + 1) ≡ sep_id
  sep_cell content = ground arith

  fill-content :
      (content : List ℕ) (k : ℕ) (r : List ℕ)
      → drop k content ≡ r
      → fill (id_cell u t content) (suc k) (length r) ≡ r
  fill-content content k [] h = refl
  fill-content content k (x ∷ r) h =
      let (at, behind) = drop_cons k content x r h in
      let in_range : k < length content =
        omega (arith, length-drop k content, ap (λ (z : List ℕ). length z) h) in
      let low : leb (suc k) (length content) ≡ true = le→leb (omega arith) in
      let one : (suc k == 0) ≡ false = ground arith in
      rw (one, low, content_at_lem content k x at, fill-content content (suc k) r behind)

  fill-id_cell :
      (content : List ℕ) (p : ℕ)
      → fill (id_cell u t content) 0 (1 + (length content + (1 + p)))
        ≡ cls_id ∷ (content ++ (sep_id ∷ repeat p pad_id))
  fill-id_cell content p =
      let n = length content in
      let cell = id_cell u t content in
      let e : 1 + (n + (1 + p)) ≡ suc (n + suc p) = omega arith in
      let f : 1 + n ≡ n + 1 = omega arith in
      let zeroth : cell 0 ≡ cls_id = refl in
      let pads : fill cell (suc (n + 1)) p ≡ repeat p pad_id =
        fill-repeat cell pad_id (suc (n + 1)) p (λ j a b. ground arith) in
      rw e (
        ap (λ (z : List ℕ). cls_id ∷ z)
          (fill_add cell 1 n (suc p)
            ∙ rw (fill-content content 0 content refl, f, sep_cell content, pads)))

  fill-mask_cell :
      (content : List ℕ) (p : ℕ)
      → fill (mask_cell u t content) 0 ((length content + 2) + p)
        ≡ repeat (length content + 2) 1 ++ repeat p 0
  fill-mask_cell content p =
      fill_add (mask_cell u t content) 0 (length content + 2) p
      ∙ rw (
        fill-repeat (mask_cell u t content) 1 0 (length content + 2) (λ j a b. ground arith),
        fill-repeat (mask_cell u t content) 0 (0 + (length content + 2)) p (λ j a b. ground arith),
      )

  -- The tokens that Encode keeps.
  abbrev pub kept_content : Runes → List ℕ
  kept_content text = take (max_seq_len - 2) (all_content u t text)

  shortened_lem :
      (content : List ℕ)
      → 2 ≤ max_seq_len
      → shortened u t content ≡ some (take (max_seq_len - 2) content)
  shortened_lem content h =
      let ok : ltb max_seq_len 2 ≡ false = ground arith in
      elim (Bool-cases (ltb (max_seq_len - 2) (length content))) [
        | inl e ↦ rw (ok, e)
        | inr e ↦
            let whole = take_all (max_seq_len - 2) content (ground arith) in
            rw (ok, e) (ap (λ z. some z) (sym whole))
      ]

  -- Where the sequence length is at least 2, Encode does not panic. The identifiers are that of the
  -- class token, those of the first tokens of the text, as many as fit, that of the separator, and
  -- padding; the mask is 1 up to the separator and 0 behind it; the types are 0. Each array has the
  -- sequence length.
  pub encode_lem :
      2 ≤ max_seq_len
      → (text : Runes)
      → (p : ℕ) × (length (kept_content text) + 2 + p ≡ max_seq_len)
        × (encode u t text
            ≡ some (
              cls_id ∷ (kept_content text ++ (sep_id ∷ repeat p pad_id)),
              repeat (length (kept_content text) + 2) 1 ++ repeat p 0,
              repeat max_seq_len 0,
            ))
  unfolding encode
  encode_lem h text =
      let content = kept_content text in
      let n = length content in
      let p = max_seq_len - (n + 2) in
      let fits : n ≤ max_seq_len - 2 =
        omega (arith, length-take (max_seq_len - 2) (all_content u t text)) in
      let e : max_seq_len ≡ 1 + (n + (1 + p)) = omega arith in
      let f : max_seq_len ≡ n + 2 + p = omega arith in
      let ids : fill (id_cell u t content) 0 max_seq_len
          ≡ cls_id ∷ (content ++ (sep_id ∷ repeat p pad_id)) =
        ap (λ m. fill (id_cell u t content) 0 m) e ∙ fill-id_cell content p in
      let mask : fill (mask_cell u t content) 0 max_seq_len ≡ repeat (n + 2) 1 ++ repeat p 0 =
        ap (λ m. fill (mask_cell u t content) 0 m) f ∙ fill-mask_cell content p in
      (p, sym f, rw (shortened_lem (all_content u t text) h, encode, ids, mask))
