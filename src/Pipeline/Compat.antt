-- ===== src/Pipeline/Compat.antt =====
-- `SemanticIndexCompatible` of internal/v3/embed/compat.go, the mirror of the check on the read side.
use Prim.Native.String.{String}
use text.Mathlib.Text.{◌==◌ as str_eq}
use foldermcp.Base.{
  ◌≡◌, refl, sym, ap, ◌∙◌, inl, inr, Bool, true, false, ◌&&◌, Bool-cases, Option, none, some,
  if◌then◌else◌,
}
use mathlib.Core.Bool.{false≢true}
use mathlib.Core.Path.{subst}
use foldermcp.Pipeline.Tables.{Fingerprint, Tables, put_fingerprint}
use foldermcp.Pipeline.Engine.{Sql, done, error, is_done, from_done, Engine}
use foldermcp.Pipeline.Fingerprint.{
  same_fingerprint, writer_fingerprint, compared, if_checked, ensure_fingerprint,
}

abbrev pub quantization_mode_string : String
quantization_mode_string = "int8_fixed_s256"

-- Whether the stored vectors compare, and what else to say.
abbrev pub judged : Sql (Option Fingerprint) → Bool × String
judged (error e) = (false, "unreadable fingerprint")
judged (done none) = (true, "")
judged (done (some fp)) =
    if str_eq fp.quantization_mode quantization_mode_string
    then (true, "")
    else (false, fp.quantization_mode)

unfoldable pub semantic_index_compatible : (E : Engine) → E.Db → Bool × String
semantic_index_compatible E db = judged (E.read_fingerprint db)

-- The last of the tests of a fingerprint is that of the mode.
and_last : (a b : Bool) → (a && b) ≡ true → b ≡ true
and_last true b h = h
and_last false b h = absurd (false≢true h)

same-mode :
    (got : Fingerprint)
    → same_fingerprint got writer_fingerprint ≡ true
    → str_eq got.quantization_mode quantization_mode_string ≡ true
same-mode got h = and_last _ _ h

judged-mode :
    (got : Fingerprint)
    → same_fingerprint got writer_fingerprint ≡ true
    → (judged (done (some got))).0 ≡ true
judged-mode got h = rw (same-mode got h)

module _ (E : Engine) where
  open E use {Db, tables, read_fingerprint}

  -- What is read of tables whose fingerprint is the writer's in the mode.
  read-judged :
      (after : Db) (o : Option Fingerprint) (got : Fingerprint)
      → read_fingerprint after ≡ done o
      → (tables after).fingerprint ≡ some got
      → same_fingerprint got writer_fingerprint ≡ true
      → (semantic_index_compatible E after).0 ≡ true
  unfolding semantic_index_compatible
  read-judged after o got read at same =
      rw (read, E.read_fingerprint_row after o read, at) (judged-mode got same)

  ensured :
      (db after : Db) (x : Sql (Option Fingerprint)) (o : Option Fingerprint)
      → read_fingerprint db ≡ x
      → if_checked E db writer_fingerprint (compared E writer_fingerprint x) ≡ done after
      → read_fingerprint after ≡ done o
      → (semantic_index_compatible E after).0 ≡ true
  ensured db after (error m) o e h read = absurd (false≢true (ap is_done h))
  ensured db after (done none) o e h read =
      read-judged after o writer_fingerprint read
        (ap (λ (t : Tables). t.fingerprint)
          (E.exec_effect db after (put_fingerprint writer_fingerprint) (rw e at h)))
        refl
  ensured db after (done (some got)) o e h read =
      elim (Bool-cases (same_fingerprint got writer_fingerprint)) [
        | inl same ↦
            let is : db ≡ after = ap (from_done db) (rw (same, e) at h) in
            read-judged after o got read
              (subst (λ d. (tables d).fingerprint ≡ some got) is
                (sym (E.read_fingerprint_row db (some got) e)))
              same
        | inr other ↦ absurd (false≢true (ap is_done (rw other at h)))
      ]

  refused :
      (db : Db) (o : Option Fingerprint)
      → (judged (done o)).0 ≡ false
      → is_done (if_checked E db writer_fingerprint (compared E writer_fingerprint (done o)))
        ≡ false
  refused db none h = absurd (false≢true (sym h))
  refused db (some got) h = elim (Bool-cases (same_fingerprint got writer_fingerprint)) [
    | inl same ↦ absurd (false≢true (sym h ∙ judged-mode got same))
    | inr other ↦ rw other refl
  ]

-- Where the fingerprint can be read before and behind a call of EnsureFingerprint that succeeds, the
-- index is compatible for searches before and behind it; so one that is not is refused.
pub ensure_fingerprint-compatible :
    (E : Engine) (db after : E.Db) (o p : Option Fingerprint)
    → E.read_fingerprint db ≡ done o
    → ensure_fingerprint E db writer_fingerprint ≡ done after
    → E.read_fingerprint after ≡ done p
    → ((semantic_index_compatible E db).0 ≡ true) × ((semantic_index_compatible E after).0 ≡ true)
unfolding ensure_fingerprint semantic_index_compatible
ensure_fingerprint-compatible E db after o p e h read = (
  elim (Bool-cases (judged (done o)).0) [
    | inl is ↦ rw e is
    | inr isnt ↦ absurd (false≢true (sym (refused E db o isnt) ∙ ap is_done (rw e at h)))
  ],
  ensured E db after (E.read_fingerprint db) p refl h read,
)
