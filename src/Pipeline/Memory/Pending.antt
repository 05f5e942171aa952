-- ===== src/Pipeline/Memory/Pending.antt =====
-- The query of the pending files in memory.
use Prim.Native.String.{String}
use foldermcp.Base.{
  ℕ, ◌<◌, ◌≡◌, ◌≢◌, refl, sym, ap, ◌∙◌, inl, inr, Bool, true, false, not, ◌&&◌, Bool-cases, List,
  [], ◌∷◌, Option, none, some, All, AllPairs, AllPairs-take, All-take, length, take, length-take,
  take_all, if◌then◌else◌, arith,
}
use foldermcp.Base.Distinct.{Mem-All}
use mathlib.Core.Path.{subst}
use mathlib.Core.Bool.{false≢true}
use mathlib.Core.List.{Memᴰ}
use mathlib.Core.List.Memᴰ
use foldermcp.Pipeline.Tables.{
  Pass, Status, pending, running, finished, failed, skipped, PassRow, FilesRow, Tables, row_of,
}
use foldermcp.Pipeline.Engine.{done, from_done, IsWaiting}
use foldermcp.Pipeline.Memory.Store.{Memory}

abbrev pub is_done_row : Option PassRow → Bool
is_done_row none = false
is_done_row (some r) = elim r.status [ finished ↦ true | _ ↦ false ]

abbrev pub is_there : Option FilesRow → Bool
is_there none = false
is_there (some x) = not x.deleted

abbrev pub waits : Tables → Pass → ℕ → Bool
waits t p f = is_there (t.file f) && not (is_done_row (t.pass_row f p))

abbrev pub keep : (ℕ → Bool) → List ℕ → List ℕ
keep b [] = []
keep b (x ∷ xs) = let rest = keep b xs in if b x then x ∷ rest else rest

keep-All : (P : ℕ → Type 0) (b : ℕ → Bool) (xs : List ℕ) → All P xs → All P (keep b xs)
keep-All P b [] h = tt
keep-All P b (x ∷ xs) h = elim (Bool-cases (b x)) [
  | inl e ↦ rw e (h.0, keep-All P b xs h.1)
  | inr e ↦ rw e (keep-All P b xs h.1)
]

keep-AllPairs :
    (b : ℕ → Bool) (xs : List ℕ) → AllPairs (λ x y. x ≢ y) xs → AllPairs (λ x y. x ≢ y) (keep b xs)
keep-AllPairs b [] h = tt
keep-AllPairs b (x ∷ xs) h = elim (Bool-cases (b x)) [
  | inl e ↦ rw e (keep-All (λ y. x ≢ y) b xs h.0, keep-AllPairs b xs h.1)
  | inr e ↦ rw e (keep-AllPairs b xs h.1)
]

keep-true : (b : ℕ → Bool) (xs : List ℕ) → All (λ x. b x ≡ true) (keep b xs)
keep-true b [] = tt
keep-true b (x ∷ xs) = elim (Bool-cases (b x)) [
  | inl e ↦ rw e (e, keep-true b xs)
  | inr e ↦ rw e (keep-true b xs)
]

Mem-keep : (b : ℕ → Bool) (x : ℕ) (xs : List ℕ) → b x ≡ true → Memᴰ x xs → Memᴰ x (keep b xs)
Mem-keep b x [] t m = absurd (Memᴰ.not-nil m)
Mem-keep b x (y ∷ ys) t (Memᴰ.head e) = rw (sym (ap b e) ∙ t) (Memᴰ.head e)
Mem-keep b x (y ∷ ys) t (Memᴰ.tail m) = elim (Bool-cases (b y)) [
  | inl e ↦ rw e (Memᴰ.tail (Mem-keep b x ys t m))
  | inr e ↦ rw e (Mem-keep b x ys t m)
]

-- The test of the query is what it says.
not_done :
    (o : Option PassRow)
    → is_done_row o ≡ false
    → (m : Option (List String)) → o ≢ some (row_of finished m)
not_done o h m e = false≢true (sym h ∙ ap is_done_row e)

is_not_done :
    (o : Option PassRow)
    → ((m : Option (List String)) → o ≢ some (row_of finished m))
    → is_done_row o ≡ false
is_not_done none h = refl
is_not_done (some r) h = go r.status refl
  where
    go : (s : Status) → r.status ≡ s → elim s [ finished ↦ true | _ ↦ false ] ≡ false
    go finished e = absurd (h r.error_message (ap (λ z. some (row_of z r.error_message)) e))
    go pending e = refl
    go running e = refl
    go failed e = refl
    go skipped e = refl

there :
    (o : Option FilesRow) → is_there o ≡ true → (x : FilesRow) × (o ≡ some x) × (x.deleted ≡ false)
there none h = absurd (false≢true h)
there (some x) h = (x, refl, go x.deleted h)
  where
    go : (b : Bool) → not b ≡ true → b ≡ false
    go true e = absurd (false≢true e)
    go false e = refl

waits-IsWaiting : (t : Tables) (p : Pass) (f : ℕ) → waits t p f ≡ true → IsWaiting t p f
waits-IsWaiting t p f h = go (is_there (t.file f)) refl (is_done_row (t.pass_row f p)) refl h
  where
    go :
        (b : Bool)
        → is_there (t.file f) ≡ b
        → (d : Bool) → is_done_row (t.pass_row f p) ≡ d
        → (b && not d) ≡ true
        → IsWaiting t p f
    go false e d e' k = absurd (false≢true k)
    go true e true e' k = absurd (false≢true k)
    go true e false e' k = (there (t.file f) e, not_done (t.pass_row f p) e')

IsWaiting-waits : (t : Tables) (p : Pass) (f : ℕ) → IsWaiting t p f → waits t p f ≡ true
IsWaiting-waits t p f ((x, at, alive), h) = rw (at, alive, is_not_done (t.pass_row f p) h) refl

abbrev pub pending_ids : Memory → Pass → ℕ → List ℕ
pending_ids db p limit = take limit (keep (waits db.tables p) db.ids)

pending_ids_whole :
    (db : Memory) (p : Pass) (limit : ℕ)
    → length (pending_ids db p limit) < limit
    → pending_ids db p limit ≡ keep (waits db.tables p) db.ids
pending_ids_whole db p limit h =
    take_all limit (keep (waits db.tables p) db.ids)
      (omega (arith, h, length-take limit (keep (waits db.tables p) db.ids)))

pub pending_ids_lem :
    (db : Memory) (p : Pass) (limit : ℕ) (ids : List ℕ)
    → done (pending_ids db p limit) ≡ done ids
    → AllPairs (λ a b. a ≢ b) ids
      × ((f : ℕ) → Memᴰ f ids → IsWaiting db.tables p f)
      × (length ids < limit → (f : ℕ) → IsWaiting db.tables p f → Memᴰ f ids)
pending_ids_lem db p limit ids h =
    subst
      (λ xs.
        AllPairs (λ a b. a ≢ b) xs
        × ((f : ℕ) → Memᴰ f xs → IsWaiting db.tables p f)
        × (length xs < limit → (f : ℕ) → IsWaiting db.tables p f → Memᴰ f xs))
      (ap (from_done (pending_ids db p limit)) h)
      (
        AllPairs-take (λ a b. a ≢ b) limit kept
            (keep-AllPairs (waits db.tables p) db.ids db.distinct),
        (λ f m. waits-IsWaiting db.tables p f (
            Mem-All (λ x. waits db.tables p x ≡ true) m
              (All-take (λ x. waits db.tables p x ≡ true) limit kept
                (keep-true (waits db.tables p) db.ids)))),
        (λ few f h'.
            subst (λ xs. Memᴰ f xs) (sym (pending_ids_whole db p limit few))
              (let ((x, at, _), _) = h' in
                Mem-keep (waits db.tables p) f db.ids (IsWaiting-waits db.tables p f h')
                  (db.covers f x at).0)),
      )
  where
    kept : List ℕ
    kept = keep (waits db.tables p) db.ids
