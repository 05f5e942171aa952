-- ===== src/Pipeline/Sound/Visits.antt =====
-- The walk over the entries of the disk, path by path.
use Prim.Native.String.{String}
use foldermcp.Base.{
  ℕ, ◌≡◌, refl, sym, ◌⊎◌, inl, inr, Bool, true, false, Bool-cases, leb, List, [], ◌∷◌, ◌++◌, Option,
  none, some, Bytes, length, All, All-append, if◌then◌else◌,
}
use mathlib.Core.Path.{subst}
use mathlib.Core.List.{Memᴰ}
use mathlib.Core.List.Memᴰ
use foldermcp.Pipeline.Tables.{SeenFile}
use foldermcp.Pipeline.Engine.{Engine, Sql, done, error}
use foldermcp.Pipeline.Tx.{Outcome, ok, pure, Returns, Returns-bind, Returns-imp, ◌>>◌}
use foldermcp.Walker.Walk.{
  Stat, Entry, unreadable, file, folder, Entries, no_entries, entry, Disk, Options, Walking,
  should_ignore_dir, skip_file, hash_file, classified, flush_found, batch_limit, add_found,
  flush_full, with_class, with_hash, with_info, visit_file, check_context, walk_entry, walk_entries,
  walk,
}
use foldermcp.Pipeline.Sound.Seen.{
  IsHash, IsIndexed, class_paths, hash_paths, info_paths, kept_paths, all_paths, InFound, Walked,
  Walked-sub, AllIndexed, flush_found-AllIndexed, AllIndexed-Walked,
}

module _ (E : Engine) (disk : Disk) (cancelled : ℕ → Bool) (opts : Options) where
  open E use {Db, tables}

  abbrev HasOf : Db → Bytes → Type 0
  HasOf db p = IsIndexed disk (tables db) p

  abbrev InFoundOf : Bytes → List SeenFile → Type 0
  InFoundOf = InFound E disk cancelled opts

  abbrev WalkedOf : (Bytes → Type 0) → Walking Db → Type 0
  WalkedOf = Walked E disk cancelled opts

  -- A step of the walk keeps what was walked, and adds the paths.
  abbrev Adds : List Bytes → (Walking Db → Outcome (Unit {0}) × Walking Db) → Type 1
  Adds paths m =
      (P : Bytes → Type 0) (s : Walking Db)
      → WalkedOf P s
      → Returns (λ _ s'. WalkedOf (λ p. P p ⊎ Memᴰ p paths) s') (m s)

  Adds-none : Adds [] (pure tt)
  Adds-none P s w =
      Walked-sub E disk cancelled opts P _ s
        (λ p q. elim q [ inl k ↦ k | inr m ↦ absurd (Memᴰ.not-nil m) ]) w

  -- Two steps, with their paths.
  Adds-bind :
      (ps qs : List Bytes) (m n : Walking Db → Outcome (Unit {0}) × Walking Db)
      → Adds ps m
      → Adds qs n
      → Adds (ps ++ qs) (m >> n)
  Adds-bind ps qs m n first second P s w =
      Returns-bind (λ _ s'. WalkedOf (λ p. P p ⊎ Memᴰ p ps) s')
        (λ _ s'. WalkedOf (λ p. P p ⊎ Memᴰ p (ps ++ qs)) s') m (λ _. n) s (first P s w)
        (λ _ s1 w1.
          Returns-imp (n s1) (λ _ s2 w2. Walked-sub E disk cancelled opts _ _ s2 split w2)
            (second (λ p. P p ⊎ Memᴰ p ps) s1 w1))
    where
      split : (p : Bytes) → P p ⊎ Memᴰ p (ps ++ qs) → (P p ⊎ Memᴰ p ps) ⊎ Memᴰ p qs
      split p (inl k) = inl (inl k)
      split p (inr m) = elim (Memᴰ.append_cases ps m) [ inl a ↦ inl (inr a) | inr b ↦ inr b ]

  Adds-if :
      (b : Bool) (ps : List Bytes) (m : Walking Db → Outcome (Unit {0}) × Walking Db)
      → Adds ps m
      → Adds (if b then [] else ps) (if b then pure tt else m)
  Adds-if true ps m h = Adds-none
  Adds-if false ps m h = h

  check_context-Adds : Adds [] (check_context E disk cancelled opts)
  check_context-Adds P s w = elim (Bool-cases (cancelled s.checks)) [
    | inl e ↦ rw e tt
    | inr e ↦ rw e (Adds-none P s w)
  ]

  flush_full-Adds : Adds [] (flush_full E disk cancelled opts)
  flush_full-Adds P s w =
      elim (Bool-cases (leb (batch_limit E disk cancelled opts) (length s.found))) [
        | inl e ↦ rw e (
            Returns-imp (flush_found E disk cancelled opts s)
              (λ _ s' k. Adds-none P s' (AllIndexed-Walked E disk cancelled opts P s' k))
              (flush_found-AllIndexed E disk cancelled opts P s w))
        | inr e ↦ rw e (Adds-none P s w)
      ]

  add_found-Adds :
      (f : SeenFile) → IsHash disk f → Adds (f.path ∷ []) (add_found E disk cancelled opts f)
  add_found-Adds f valid P s (h, v) =
      (covered, All-append (IsHash disk) s.found (f ∷ []) v (valid, tt))
    where
      covered :
          (p : Bytes) → P p ⊎ Memᴰ p (f.path ∷ []) → HasOf s.db p ⊎ InFoundOf p (s.found ++ f ∷ [])
      covered p (inl k) = elim (h p k) [
        | inl is ↦ inl is
        | inr (g, m, is) ↦ inr (g, Memᴰ.append_left (f ∷ []) m, is)
      ]
      covered p (inr (Memᴰ.head e)) = inr (f, Memᴰ.append_right s.found (Memᴰ.head refl), sym e)
      covered p (inr (Memᴰ.tail m)) = absurd (Memᴰ.not-nil m)

  with_class-Adds :
      (path : Bytes) (st : Stat) (sum : Bytes) (c : Sql (Bytes × String))
      → hash_file disk path ≡ done sum
      → Adds (class_paths disk path c) (with_class E disk cancelled opts path st sum c)
  with_class-Adds path st sum (error e) h = Adds-none
  with_class-Adds path st sum (done (mime, class)) h =
      Adds-bind (path ∷ []) [] (add_found E disk cancelled opts _)
        (flush_full E disk cancelled opts)
        (add_found-Adds
          (record {
            path = path;
            sha256 = sum;
            size = st.size;
            mtime = st.mtime;
            mime = mime;
            class = class;
            parent = disk.dir path;
          })
          h)
        flush_full-Adds

  with_hash-Adds :
      (path : Bytes) (st : Stat) (sum : Sql Bytes)
      → hash_file disk path ≡ sum
      → Adds (hash_paths disk path sum) (with_hash E disk cancelled opts path st sum)
  with_hash-Adds path st (error e) h = Adds-none
  with_hash-Adds path st (done sum) h = with_class-Adds path st sum (classified disk path) h

  with_info-Adds :
      (path : Bytes) (st : Option Stat)
      → Adds (info_paths disk path st) (with_info E disk cancelled opts path st)
  with_info-Adds path none = Adds-none
  with_info-Adds path (some st) = with_hash-Adds path st (hash_file disk path) refl

  visit_file-Adds :
      (path name : Bytes) (st : Option Stat)
      → Adds
          (if skip_file disk name opts.ignore_globs then [] else info_paths disk path st)
          (visit_file E disk cancelled opts path name st)
  unfolding visit_file
  visit_file-Adds path name st =
      Adds-if (skip_file disk name opts.ignore_globs) (info_paths disk path st)
        (with_info E disk cancelled opts path st) (with_info-Adds path st)

  mutual
    unfolding walk_entry kept_paths

    walk_entry-Adds :
        (e : Entry)
        → Adds (kept_paths disk opts.ignore_globs e) (walk_entry E disk cancelled opts e)
    walk_entry-Adds unreadable = Adds-none
    walk_entry-Adds (file path name st) =
        Adds-bind [] _ (check_context E disk cancelled opts)
          (visit_file E disk cancelled opts path name st) check_context-Adds
          (visit_file-Adds path name st)
    walk_entry-Adds (folder name es) =
        Adds-bind [] _ (check_context E disk cancelled opts)
          (if should_ignore_dir name then pure tt else walk_entries E disk cancelled opts es)
          check_context-Adds
          (Adds-if (should_ignore_dir name) (all_paths disk opts.ignore_globs es)
            (walk_entries E disk cancelled opts es) (walk_entries-Adds es))

    walk_entries-Adds :
        (es : Entries)
        → Adds (all_paths disk opts.ignore_globs es) (walk_entries E disk cancelled opts es)
    walk_entries-Adds no_entries = Adds-none
    walk_entries-Adds (entry e es) =
        Adds-bind (kept_paths disk opts.ignore_globs e) (all_paths disk opts.ignore_globs es)
          (walk_entry E disk cancelled opts e) (walk_entries E disk cancelled opts es)
          (walk_entry-Adds e) (walk_entries-Adds es)

-- After a walk that succeeds, every file of the disk that is not left out by its name, a folder or the
-- globs and can be read has a row that is not deleted, with the hash of what is on the disk.
pub walk-IsIndexed :
    (E : Engine) (disk : Disk) (cancelled : ℕ → Bool) (opts : Options) (s out : Walking E.Db)
    → s.found ≡ []
    → walk E disk cancelled opts s ≡ (ok tt, out)
    → (p : Bytes) → Memᴰ p (kept_paths disk opts.ignore_globs disk.root)
    → IsIndexed disk (E.tables out.db) p
unfolding walk
walk-IsIndexed E disk cancelled opts s out nil ran p m =
    (subst (Returns (AllIndexed E disk cancelled opts Kept)) ran (
        Returns-bind (λ _ s1. Walked E disk cancelled opts (λ q. Kept q) s1)
          (AllIndexed E disk cancelled opts Kept) (walk_entry E disk cancelled opts disk.root)
          (λ _. flush_found E disk cancelled opts) s
          (Returns-imp (walk_entry E disk cancelled opts disk.root s)
            (λ _ s1 w. Walked-sub E disk cancelled opts _ Kept s1 (λ q k. inr k) w)
            (walk_entry-Adds E disk cancelled opts disk.root (λ _. ⊥) s
              ((λ q k. absurd k), subst (All (IsHash disk)) (sym nil) tt)))
          (λ _ s1 w. flush_found-AllIndexed E disk cancelled opts Kept s1 w))).0
      p m
  where
    Kept : Bytes → Type 0
    Kept q = Memᴰ q (kept_paths disk opts.ignore_globs disk.root)
