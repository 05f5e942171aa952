-- ===== src/Pipeline/Fingerprint.antt =====
-- internal/v3/store/fingerprint.go, and `EnsureFingerprint` of internal/v3/embed/writer.go.
use text.Mathlib.Text.{◌==◌ as str_eq}
use foldermcp.Base.{Bool, ◌&&◌, Option, none, some, ◌==◌, if◌then◌else◌}
use foldermcp.Pipeline.Tables.{Fingerprint, put_fingerprint}
use foldermcp.Pipeline.Engine.{Sql, done, error, Engine}

-- `got == want`
abbrev pub same_fingerprint : Fingerprint → Fingerprint → Bool
same_fingerprint a b =
    str_eq a.model_name b.model_name
    && str_eq a.model_version b.model_version
    && a.dimension == b.dimension
    && str_eq a.chunking_policy b.chunking_policy
    && str_eq a.quantization_mode b.quantization_mode

-- What `NewWriter` expects; the policy is the string of the default configuration.
abbrev pub writer_fingerprint : Fingerprint
writer_fingerprint = record {
  model_name = "all-MiniLM-L6-v2";
  model_version = "2.2.0";
  dimension = 384;
  chunking_policy = "recursive_80_200_260_v1";
  quantization_mode = "int8_fixed_s256";
}

module _ (E : Engine) where
  open E use {Db, exec, read_fingerprint}

  abbrev pub write_fingerprint : Db → Fingerprint → Sql Db
  write_fingerprint db fp = exec db (put_fingerprint fp)

  abbrev pub compared : Fingerprint → Sql (Option Fingerprint) → Sql (Unit {0})
  compared want (error e) = error e
  compared want (done none) = done tt
  compared want (done (some got)) =
      if same_fingerprint got want then done tt else error "embedding_fingerprint mismatch"

  unfoldable pub check_fingerprint : Db → Fingerprint → Sql (Unit {0})
  check_fingerprint db want = compared want (read_fingerprint db)

  -- Behind the check.
  abbrev pub written : Db → Fingerprint → Sql (Option Fingerprint) → Sql Db
  written db fp (error e) = error e
  written db fp (done none) = write_fingerprint db fp
  written db fp (done (some got)) = done db

  abbrev pub if_checked : Db → Fingerprint → Sql (Unit {0}) → Sql Db
  if_checked db fp (error e) = error e
  if_checked db fp (done _) = written db fp (read_fingerprint db)

  unfoldable pub ensure_fingerprint : Db → Fingerprint → Sql Db
  unfolding check_fingerprint
  ensure_fingerprint db fp = if_checked db fp (check_fingerprint db fp)
