-- ===== src/Pipeline/Sound/Seen.antt =====
-- What a walk that succeeds has put into the table of the files.
use Prim.Native.String.{String}
use foldermcp.Base.{
  ℕ, ◌≡◌, refl, sym, ap, ◌∙◌, ◌⊎◌, inl, inr, Bool, true, false, Bool-cases, ◌==◌, ==_iff, List, [],
  ◌∷◌, ◌++◌, Option, none, some, Bytes, bytes_eq, length, All, if◌then◌else◌, arith,
}
use mathlib.Core.Path.{subst}
use mathlib.Core.Option.{none-ne-some, some-injective}
use mathlib.Core.List.{Memᴰ}
use mathlib.Core.List.Memᴰ
use foldermcp.Pipeline.Tables.{FilesRow, SeenFile, Tables, seen_row, rewritten}
use foldermcp.Pipeline.Engine.{Engine, Sql, done, error}
use foldermcp.Pipeline.Tx.{Returns}
use foldermcp.Walker.Walk.{
  Stat, Entry, unreadable, file, folder, Entries, no_entries, entry, Disk, Options, Walking,
  should_ignore_dir, skip_file, hash_file, classified, upsert_all, flushed, upserted, begun,
  flush_found,
}
use foldermcp.Pipeline.Sound.Update.{ℕ-cases, update_same, update_other}

rewritten-file :
    (g : ℕ) (x : FilesRow) (now : ℕ) (f : SeenFile) (t : Tables) (h : ℕ)
    → (rewritten g x now f t).file h
      ≡ (if h == g then some (seen_row g x.parent_dir now f) else t.file h)
rewritten-file g x now f t h = elim (Bool-cases (bytes_eq f.sha256 x.sha256)) [
  | inl e ↦ rw e refl
  | inr e ↦ rw e refl
]

module _ (disk : Disk) where
  abbrev pub IsHash : SeenFile → Type 0
  IsHash f = hash_file disk f.path ≡ done f.sha256

  -- A live row of the path, with the hash of what is on the disk.
  abbrev pub IsIndexed : Tables → Bytes → Type 0
  IsIndexed t p =
      (g : ℕ) × (x : FilesRow) × (t.file g ≡ some x)
      × (x.row.path ≡ p)
      × (x.deleted ≡ false)
      × (hash_file disk p ≡ done x.sha256)

  -- The table with the row `new` under `g`: what was indexed still is.
  module _ (t after : Tables) (g : ℕ) (new : FilesRow) (f : SeenFile)
      (put : (h : ℕ) → after.file h ≡ (if h == g then some new else t.file h))
      (path : new.row.path ≡ f.path) (live : new.deleted ≡ false) (hash : new.sha256 ≡ f.sha256)
      (own : (x : FilesRow) → t.file g ≡ some x → x.row.path ≡ f.path) (valid : IsHash f) where
    put-IsIndexed : IsIndexed after f.path
    put-IsIndexed = (
      g,
      new,
      put g ∙ update_same g g (some new) (t.file g) refl,
      path,
      live,
      valid ∙ ap done (sym hash),
    )

    put-kept : (p : Bytes) → IsIndexed t p → IsIndexed after p
    put-kept p (h, y, at, is, alive, sum) = elim (ℕ-cases h g) [
      | inl same ↦
          let same_path : f.path ≡ p = sym (own y (ap t.file (sym same) ∙ at)) ∙ is in
          subst (IsIndexed after) same_path put-IsIndexed
      | inr other ↦
          (h, y, put h ∙ update_other g h (some new) (t.file h) other ∙ at, is, alive, sum)
    ]

  -- The paths that a walk keeps.
  abbrev pub class_paths : Bytes → Sql (Bytes × String) → List Bytes
  class_paths p (error e) = []
  class_paths p (done c) = p ∷ []

  abbrev pub hash_paths : Bytes → Sql Bytes → List Bytes
  hash_paths p (error e) = []
  hash_paths p (done sum) = class_paths p (classified disk p)

  abbrev pub info_paths : Bytes → Option Stat → List Bytes
  info_paths p none = []
  info_paths p (some st) = hash_paths p (hash_file disk p)

  unfoldable mutual
    pub kept_paths : List Bytes → Entry → List Bytes
    kept_paths globs unreadable = []
    kept_paths globs (file p name st) = if skip_file disk name globs then [] else info_paths p st
    kept_paths globs (folder name es) = if should_ignore_dir name then [] else all_paths globs es

    pub all_paths : List Bytes → Entries → List Bytes
    all_paths globs no_entries = []
    all_paths globs (entry e es) = kept_paths globs e ++ all_paths globs es

module _ (E : Engine) (disk : Disk) (cancelled : ℕ → Bool) (opts : Options) where
  open E use {Db, tables}

  abbrev pub Has : Db → Bytes → Type 0
  Has db p = IsIndexed disk (tables db) p

  upsert_file-Has :
      (db after : Db) (f : SeenFile) (now : ℕ)
      → E.upsert_file db f now ≡ done after
      → IsHash disk f
      → Has after f.path × ((p : Bytes) → Has db p → Has after p)
  upsert_file-Has db after f now e valid = elim (E.upsert_file_row db after f now e) [
    | inl (g, x, at, path, is) ↦
        let put : (h : ℕ)
            → (tables after).file h
              ≡ (if h == g then some (seen_row g x.parent_dir now f) else (tables db).file h) =
          λ h. ap (λ (t : Tables). t.file h) is ∙ rewritten-file g x now f (tables db) h in
        let own : (y : FilesRow) → (tables db).file g ≡ some y → y.row.path ≡ f.path =
          λ y at'. ap (λ (z : FilesRow). z.row.path) (some-injective y x (sym at' ∙ at)) ∙ path in
        (
          put-IsIndexed disk (tables db) (tables after) g _ f put refl refl refl own valid,
          put-kept disk (tables db) (tables after) g _ f put refl refl refl own valid,
        )
    | inr (g, missing, fresh, is) ↦
        let put : (h : ℕ)
            → (tables after).file h
              ≡ (if h == g then some (seen_row g f.parent now f) else (tables db).file h) =
          λ h. ap (λ (t : Tables). t.file h) is in
        let own : (y : FilesRow) → (tables db).file g ≡ some y → y.row.path ≡ f.path =
          λ y at'. absurd (none-ne-some y (sym missing ∙ at')) in
        (
          put-IsIndexed disk (tables db) (tables after) g _ f put refl refl refl own valid,
          put-kept disk (tables db) (tables after) g _ f put refl refl refl own valid,
        )
  ]

  abbrev pub InFound : Bytes → List SeenFile → Type 0
  InFound p fs = (f : SeenFile) × Memᴰ f fs × (f.path ≡ p)

  abbrev Upserted : Db → List SeenFile → Sql Db → Type 0
  Upserted tx fs (error e) = Unit
  Upserted tx fs (done after) =
      ((p : Bytes) → InFound p fs → Has after p) × ((p : Bytes) → Has tx p → Has after p)

  upsert_all-Upserted :
      (now : ℕ) (fs : List SeenFile) (tx : Db)
      → All (IsHash disk) fs
      → Upserted tx fs (upsert_all E disk cancelled opts now fs tx)
  unfolding upsert_all
  upsert_all-Upserted now [] tx v = ((λ p (_, m, _). absurd (Memᴰ.not-nil m)), (λ p h. h))
  upsert_all-Upserted now (f ∷ fs) tx v =
      go (E.upsert_file tx f now) refl (λ db. upsert_all-Upserted now fs db v.1)
    where
      first :
          (db : Db)
          → Has db f.path × ((p : Bytes) → Has tx p → Has db p)
          → (x : Sql Db) → Upserted db fs x
          → Upserted tx (f ∷ fs) x
      first db (own, keeps) (error m) h = tt
      first db (own, keeps) (done after) (all, kept) = (found, (λ p h. kept p (keeps p h)))
        where
          found : (p : Bytes) → InFound p (f ∷ fs) → Has after p
          found p (k, Memᴰ.head e, is) =
              subst (Has after) (ap (λ (z : SeenFile). z.path) (sym e) ∙ is) (kept f.path own)
          found p (k, Memᴰ.tail m, is) = all p (k, m, is)

      go :
          (x : Sql Db)
          → E.upsert_file tx f now ≡ x
          → ((db : Db) → Upserted db fs (upsert_all E disk cancelled opts now fs db))
          → Upserted tx (f ∷ fs) (elim x as (λ y. Sql Db) [
            | error e ↦ error e
            | done next ↦ upsert_all E disk cancelled opts now fs next
          ])
      go (error m) e next = tt
      go (done db) e next =
          first db (upsert_file-Has tx db f now e v.0) (upsert_all E disk cancelled opts now fs db)
            (next db)

  -- Every path of `P` is indexed or found, and what is found is on the disk.
  abbrev pub Walked : (Bytes → Type 0) → Walking Db → Type 0
  Walked P s = ((p : Bytes) → P p → Has s.db p ⊎ InFound p s.found) × All (IsHash disk) s.found

  pub Walked-sub :
      (P Q : Bytes → Type 0) (s : Walking Db) → ((p : Bytes) → Q p → P p) → Walked P s → Walked Q s
  Walked-sub P Q s sub (h, v) = ((λ p q. h p (sub p q)), v)

  abbrev pub AllIndexed : (Bytes → Type 0) → Unit {0} → Walking Db → Type 0
  AllIndexed P _ s = ((p : Bytes) → P p → Has s.db p) × (s.found ≡ [])

  length-nil : (fs : List SeenFile) → (length fs == 0) ≡ true → fs ≡ []
  length-nil [] h = refl
  length-nil (f ∷ fs) h = absurd (omega (arith, (==_iff (length (f ∷ fs)) 0).0 h))

  pub flush_found-AllIndexed :
      (P : Bytes → Type 0) (s : Walking Db)
      → Walked P s
      → Returns (AllIndexed P) (flush_found E disk cancelled opts s)
  unfolding flush_found
  flush_found-AllIndexed P s (h, v) = elim (Bool-cases (length s.found == 0)) [
    | inl e ↦ rw e (none_found (length-nil s.found e))
    | inr e ↦ rw e (start (E.begin s.db) refl)
  ]
    where
      none_found : s.found ≡ [] → AllIndexed P tt s
      none_found nil = (
        (λ p q. elim (h p q) [
          | inl is ↦ is
          | inr (f, m, _) ↦ absurd (Memᴰ.not-nil (subst (λ xs. Memᴰ f xs) nil m))
        ]),
        nil,
      )

      finish :
          (tx : Db)
          → ((p : Bytes) → P p → Has tx p)
          → (c : Sql Db) → E.commit tx ≡ c
          → Returns (AllIndexed P) (flushed E disk cancelled opts (record s { found = [] }) c)
      finish tx k (error m) e = tt
      finish tx k (done db) e =
          ((λ p q. subst (λ t. IsIndexed disk t p) (sym (E.commit_same tx db e)) (k p q)), refl)

      all :
          (tx : Db)
          → tables tx ≡ tables s.db
          → (x : Sql Db) → Upserted tx s.found x
          → Returns (AllIndexed P) (upserted E disk cancelled opts s x)
      all tx same (error m) k = tt
      all tx same (done after) (found, kept) =
          finish after
            (λ p q. elim (h p q) [
              | inl is ↦ kept p (subst (λ t. IsIndexed disk t p) (sym same) is)
              | inr is ↦ found p is
            ])
            (E.commit after) refl

      start :
          (x : Sql Db) → E.begin s.db ≡ x → Returns (AllIndexed P) (begun E disk cancelled opts s x)
      start (error m) e = tt
      start (done tx) e =
          all tx (E.begin_same s.db tx e)
            (upsert_all E disk cancelled opts (disk.now s.checks) s.found tx)
            (upsert_all-Upserted (disk.now s.checks) s.found tx v)

  pub AllIndexed-Walked : (P : Bytes → Type 0) (s : Walking Db) → AllIndexed P tt s → Walked P s
  AllIndexed-Walked P s (h, nil) = ((λ p q. inl (h p q)), subst (All (IsHash disk)) (sym nil) tt)
