-- ===== src/Pipeline/Tx.antt =====
-- The steps of a per-file transaction: they may return, fail or panic, and carry what the runner
-- holds meanwhile.
use Prim.Native.String.{String}
use foldermcp.Base.{ℕ, ◌≡◌, refl, List, [], ◌∷◌, Bytes}
use foldermcp.Pipeline.Tables.{Pass, Statement}
use foldermcp.Pipeline.Engine.{Sql, done, error, Engine}

pub data Outcome (A : Type 0) : Type 0 where
  ok : A → Outcome A
  failed : List String → Outcome A
  panicked : List String → Outcome A

pub record PendingChunk : Type 0 where
  pub chunk_id : ℕ
  pub text : Bytes

pub record Tx (Db : Type 0) : Type 0 where
  pub db : Db
  pub current_pass : Pass
  pub embed_buf : List PendingChunk

abbrev pub Exec : Type 0 → Type 0 → Type 0
Exec S A = S → Outcome A × S

module _ {S A : Type 0} where
  abbrev pub pure : A → Exec S A
  pure a s = (ok a, s)

  abbrev pub raise : Outcome A → Exec S A
  raise o s = (o, s)

  -- `fmt.Errorf("prefix: %w", err)`
  abbrev wrapped : String → Outcome A × S → Outcome A × S
  wrapped prefix (ok a, s) = (ok a, s)
  wrapped prefix (failed e, s) = (failed (prefix ∷ e), s)
  wrapped prefix (panicked e, s) = (panicked e, s)

  unfoldable pub wrap : String → Exec S A → Exec S A
  wrap prefix m s = wrapped prefix (m s)

module _ {S A B : Type 0} where
  abbrev pub continue : (A → Exec S B) → Outcome A × S → Outcome B × S
  continue f (ok a, s) = f a s
  continue f (failed e, s) = (failed e, s)
  continue f (panicked e, s) = (panicked e, s)

  infixl 10 ◌>>=◌ ◌>>◌
  unfoldable pub ◌>>=◌ : Exec S A → (A → Exec S B) → Exec S B
  ◌>>=◌ m f s = continue f (m s)

  abbrev pub ◌>>◌ : Exec S A → Exec S B → Exec S B
  m >> n = m >>= λ _. n

module _ {S A : Type 0} where
  -- What holds where a step returns.
  abbrev pub Returns : (A → S → Type 0) → Outcome A × S → Type 0
  Returns Q (ok a, s) = Q a s
  Returns Q (failed e, s) = Unit
  Returns Q (panicked e, s) = Unit

  pub Returns-wrap :
      (Q : A → S → Type 0) (prefix : String) (m : Exec S A) (s : S)
      → Returns Q (m s)
      → Returns Q (wrap prefix m s)
  unfolding wrap
  Returns-wrap Q prefix m s h = go (m s) h
    where
      go : (r : Outcome A × S) → Returns Q r → Returns Q (wrapped prefix r)
      go (ok a, s') k = k
      go (failed e, s') k = tt
      go (panicked e, s') k = tt

  pub Returns-imp :
      {P Q : A → S → Type 0} (r : Outcome A × S)
      → ((a : A) (s : S) → P a s → Q a s)
      → Returns P r
      → Returns Q r
  Returns-imp (ok a, s) f h = f a s h
  Returns-imp (failed e, s) f h = tt
  Returns-imp (panicked e, s) f h = tt

module _ {S A B : Type 0} where
  pub Returns-bind :
      (Q : A → S → Type 0) (R : B → S → Type 0) (m : Exec S A) (f : A → Exec S B) (s : S)
      → Returns Q (m s)
      → ((a : A) (s' : S) → Q a s' → Returns R (f a s'))
      → Returns R ((m >>= f) s)
  unfolding ◌>>=◌
  Returns-bind Q R m f s h k = go (m s) h k
    where
      go :
          (r : Outcome A × S)
          → Returns Q r
          → ((a : A) (s' : S) → Q a s' → Returns R (f a s'))
          → Returns R (continue f r)
      go (ok a, s') h' k' = k' a s' h'
      go (failed e, s') h' k' = tt
      go (panicked e, s') h' k' = tt

module _ {S A B : Type 0} where
  -- What both parts keep, whether they return or not.
  pub Keeps-bind :
      (P : S → Type 0) (m : Exec S A) (f : A → Exec S B)
      → ((s : S) → P s → P (m s).1)
      → ((a : A) (s : S) → P s → P (f a s).1)
      → (s : S) → P s
      → P ((m >>= f) s).1
  unfolding ◌>>=◌
  Keeps-bind P m f h k s p = go (m s) (h s p)
    where
      go : (r : Outcome A × S) → P r.1 → P (continue f r).1
      go (ok a, s') q = k a s' q
      go (failed e, s') q = q
      go (panicked e, s') q = q

module _ (E : Engine) where
  open E use {Db, exec}

  abbrev lifted : {A : Type 0} → (A → Db) → Tx Db → Sql A → Outcome A × Tx Db
  lifted f s (done a) = (ok a, record s { db = f a })
  lifted f s (error e) = (failed (e ∷ []), s)

  -- A call of the database inside the transaction.
  unfoldable pub call : {A : Type 0} → (A → Db) → (Db → Sql A) → Exec (Tx Db) A
  call f q s = lifted f s (q s.db)

  unfoldable pub statement : Statement → Exec (Tx Db) Db
  unfolding call
  statement q = call (λ d. d) (λ db. exec db q)

  pub Returns-call :
      {A : Type 0} (Q : A → Tx Db → Type 0) (f : A → Db) (q : Db → Sql A) (s : Tx Db)
      → ((a : A) → q s.db ≡ done a → Q a (record s { db = f a }))
      → Returns Q (call f q s)
  unfolding call
  Returns-call {A} Q f q s h = go (q s.db) refl
    where
      go : (r : Sql A) → q s.db ≡ r → Returns Q (lifted f s r)
      go (done a) e = h a e
      go (error m) e = tt
