-- ===== src/Router/Safe.antt =====
-- What the router lets through.
use Prim.Native.String.{String}
use text.Mathlib.Text.{◌==◌ as str_eq}
use foldermcp.Base.{
  refl, ◌≡◌, map, inl, inr, Bool, true, false, ◌||◌, Bool-cases, List, [], ◌∷◌, Option, none, some,
  Bytes, codes, All, if◌then◌else◌,
}
use mathlib.Core.List.{Memᴰ}
use foldermcp.Proto.{SourceStatus}
use foldermcp.Search.Sources.{SearchResponse}
use foldermcp.Router.{
  SourceInfo, contains, sanitize_source_error, source_infos, search_result_from_proto,
  annotate_completeness, public_errors,
}

sanitize_source_error-public :
    (lower : Bytes → Bytes) (msg : String) → Memᴰ (sanitize_source_error lower msg) public_errors
unfolding sanitize_source_error
sanitize_source_error-public lower msg =
    choose (str_eq msg "") (has "sql" || has "sqlite") (has "embed")
      (has "timeout" || has "deadline") (has "connect" || has "refused")
  where
    has : String → Bool
    has sub = contains (lower (codes msg)) (codes sub)

    choose :
        (a b c d e : Bool)
        → Memᴰ
            (if a
              then ""
              else if b
              then "database query failed"
              else if c
              then "embedding operation failed"
              else if d
              then "operation timed out"
              else if e
              then "service connection failed"
              else "internal error")
            public_errors
    choose true b c d e = Memᴰ.head refl
    choose false true c d e = Memᴰ.tail (Memᴰ.head refl)
    choose false false true d e = Memᴰ.tail (Memᴰ.tail (Memᴰ.head refl))
    choose false false false true e = Memᴰ.tail (Memᴰ.tail (Memᴰ.tail (Memᴰ.head refl)))
    choose false false false false true =
        Memᴰ.tail (Memᴰ.tail (Memᴰ.tail (Memᴰ.tail (Memᴰ.head refl))))
    choose false false false false false =
        Memᴰ.tail (Memᴰ.tail (Memᴰ.tail (Memᴰ.tail (Memᴰ.tail (Memᴰ.head refl)))))

abbrev pub IsPublic : SourceInfo → Type 0
IsPublic s = Memᴰ s.error_message public_errors

source_infos-IsPublic :
    (lower : Bytes → Bytes) (ss : List (Option SourceStatus)) → All IsPublic (source_infos lower ss)
source_infos-IsPublic lower [] = tt
source_infos-IsPublic lower (none ∷ ss) = source_infos-IsPublic lower ss
source_infos-IsPublic lower (some s ∷ ss) =
    (sanitize_source_error-public lower s.error_message, source_infos-IsPublic lower ss)

-- The names and the statuses of the sources that are there.
abbrev pub labels : List (Option SourceStatus) → List (String × String)
labels [] = []
labels (none ∷ ss) = labels ss
labels (some s ∷ ss) = (s.source_name, s.status) ∷ labels ss

source_infos-labels :
    (lower : Bytes → Bytes) (ss : List (Option SourceStatus))
    → map (λ (s : SourceInfo). (s.source_name, s.status)) (source_infos lower ss) ≡ labels ss
source_infos-labels lower [] = refl
source_infos-labels lower (none ∷ ss) = source_infos-labels lower ss
source_infos-labels lower (some s ∷ ss) = rw (source_infos-labels lower ss)

-- The sources of the answer to a search are those of the response that are not nil, in its order, by
-- their names and statuses, and show as their error only one of six texts, whatever the message of
-- the server is.
pub search_result-IsPublic :
    {F : Type 0} (lower : Bytes → Bytes) (p : SearchResponse F)
    → let r = annotate_completeness (search_result_from_proto lower (some p)) in
      All IsPublic r.sources
      × (map (λ (s : SourceInfo). (s.source_name, s.status)) r.sources ≡ labels p.sources)
unfolding annotate_completeness search_result_from_proto
search_result-IsPublic lower p = elim (Bool-cases (str_eq p.completeness "partial")) [
  | inl e ↦ rw e (source_infos-IsPublic lower p.sources, source_infos-labels lower p.sources)
  | inr e ↦ rw e (source_infos-IsPublic lower p.sources, source_infos-labels lower p.sources)
]
