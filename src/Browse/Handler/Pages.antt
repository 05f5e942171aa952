-- ===== src/Browse/Handler/Pages.antt =====
-- A client that follows the cursors of `Browse` until there is none.
use foldermcp.Base.{
  ℕ, zero, suc, ◌+◌, ◌-◌, ◌≤◌, ◌<◌, ◌≡◌, ◌≢◌, ◌⊎◌, refl, true, List, [], ◌∷◌, ◌++◌, Option, none,
  some, leb, Bytes, length, take, drop, arith, inl, inr, Bool-cases, take-append-drop, drop-add,
}
use foldermcp.Base.Int.{ℤ, pos, negsuc}
use foldermcp.Base.Sort.{sort_slice, length-sort_slice}
use foldermcp.Browse.Paths.{normalize_browse_path, is_root}
use foldermcp.Browse.Handler.{
  BrowseDb, BrowseRequest, FolderEntry, Cursors, entries, gather, path_less, clamp_items, offset_of,
  page, respond, browse,
}

pub clamp_items_bounds : (n : ℤ) → (1 ≤ clamp_items n) × (clamp_items n ≤ 500)
unfolding clamp_items
clamp_items_bounds (negsuc n) = omega arith
clamp_items_bounds (pos n) = ground arith

-- A listing that is not refused: there are entries, or the folder is the root.
abbrev pub IsFolder : Bytes → List FolderEntry → Type 0
IsFolder path es = (is_root path ≡ true) ⊎ (es ≢ [])

module _ (cursors : Cursors) where
  open cursors use {encode, decode, encode_cons, decode_encode}

  respond-page :
      (req : BrowseRequest) (path : Bytes) (es : List FolderEntry)
      → IsFolder path es
      → respond cursors req path (entries es)
        ≡ page cursors
            (clamp_items req.max_items)
            (offset_of cursors req.cursor)
            (sort_slice path_less es)
  unfolding respond sort_slice
  respond-page req path [] (inl r) = rw r
  respond-page req path [] (inr n) = absurd (n refl)
  respond-page req path (e ∷ es) h = refl

  offset_of-encode : (n : ℕ) → 0 < n → offset_of cursors (encode n) ≡ n
  unfolding offset_of
  offset_of-encode n h =
      let (c, s, e) = encode_cons n h in
      let d : decode (c ∷ s) ≡ some n = rw (← e) (decode_encode n h) in rw (e, d)

  -- One request: the page is what a cut of the list gives.
  abbrev request : Bytes → ℤ → Bytes → BrowseRequest
  request path max cursor = record { path = path; max_items = max; cursor = cursor }

  abbrev proceed :
      List FolderEntry → Bytes → (Bytes → Option (List FolderEntry)) → Option (List FolderEntry)
  proceed es [] next = some es
  proceed es (c ∷ s) next = elim (next (c ∷ s)) [ none ↦ none | some rest ↦ some (es ++ rest) ]

  -- The pages that a client sees, put together; `none` where the requests run out.
  pub follow : ℕ → BrowseDb → Bytes → ℤ → Bytes → Option (List FolderEntry)
  follow zero db path max cursor = none
  follow (suc n) db path max cursor =
      let r = browse cursors db (request path max cursor) in
      proceed r.entries r.next_cursor (follow n db path max)

  module _ (db : BrowseDb) (path : Bytes) (max : ℤ) (es : List FolderEntry)
      (found : gather db (normalize_browse_path path) ≡ entries es)
      (folder : IsFolder (normalize_browse_path path) es) where
    abbrev listing : List FolderEntry
    listing = sort_slice path_less es

    browse-page :
        (cursor : Bytes)
        → browse cursors db (request path max cursor)
          ≡ page cursors (clamp_items max) (offset_of cursors cursor) listing
    unfolding browse
    browse-page cursor =
        rw found (respond-page (request path max cursor) (normalize_browse_path path) es folder)

    page_last :
        (o : ℕ)
        → o ≤ length listing
        → length listing ≤ o + clamp_items max
        → ((page cursors (clamp_items max) o listing).next_cursor ≡ [])
          × ((page cursors (clamp_items max) o listing).entries ≡ drop o listing)
    unfolding page
    page_last o h k = ground arith

    page_inner :
        (o : ℕ)
        → o + clamp_items max < length listing
        → ((page cursors (clamp_items max) o listing).next_cursor ≡ encode (o + clamp_items max))
          × ((page cursors (clamp_items max) o listing).entries
              ≡ take (clamp_items max) (drop o listing))
    unfolding page
    page_inner o h = ground arith

    follow-drop :
        (n o : ℕ) (cursor : Bytes)
        → offset_of cursors cursor ≡ o
        → o ≤ length listing
        → length listing - o < n
        → follow n db path max cursor ≡ some (drop o listing)
    unfolding follow
    follow-drop zero o cursor at h fuel = absurd (omega arith)
    follow-drop (suc n) o cursor at h fuel =
        elim (Bool-cases (leb (length listing) (o + clamp_items max))) [
          | inl e ↦
              let last = page_last o h (ground arith) in
              rw (browse-page cursor, follow, at, last.0, last.1)
          | inr e ↦
              let more : o + clamp_items max < length listing = ground arith in
              let inner = page_inner o more in
              let (c, s, q) =
                encode_cons (o + clamp_items max) (omega (arith, clamp_items_bounds max)) in
              let there : offset_of cursors (c ∷ s) ≡ o + clamp_items max =
                rw (← q) (
                  offset_of-encode (o + clamp_items max) (omega (arith, clamp_items_bounds max))) in
              let rest =
                follow-drop n (o + clamp_items max) (c ∷ s) there (omega arith)
                  (omega (arith, clamp_items_bounds max)) in
              rw (browse-page cursor, follow, at, inner.0, inner.1, q, rest)
                (rw (drop-add, take-append-drop))
        ]

    -- A client that follows the cursors of a folder from the start gets all its entries, each
    -- once and in the order of their paths, in no more requests than there are entries and one.
    pub follow_all :
        (n : ℕ) → length es < n → follow n db path max [] ≡ some (sort_slice path_less es)
    follow_all n fuel =
        follow-drop n 0 [] (unfold offset_of in refl) (omega arith)
          (omega (arith, length-sort_slice path_less es))
