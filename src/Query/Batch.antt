-- ===== src/Query/Batch.antt =====
-- The batch dispatch of internal/v3/grpc/query/batch.go.
pub mod Order
use Prim.Native.String.{String}
use text.Mathlib.Text.{◌==◌ as str_eq}
use foldermcp.Base.{
  ℕ, suc, ◌+◌, ◌<◌, ◌≤◌, Bool, true, false, List, [], ◌∷◌, ◌++◌, Option, none, some, length, ltb,
  if◌then◌else◌,
}
use foldermcp.Query.Direct.{Reply, reply, refusal}

abbrev pub max_batch_ops : ℕ
max_batch_ops = 32

-- An operation with its request, for the seven kinds of them; another is one that the oneof leaves out.
pub data BatchOp (V T N M G I C : Type 0) : Type 0 where
  vector_op : V → BatchOp V T N M G I C
  fts_op : T → BatchOp V T N M G I C
  filename_op : N → BatchOp V T N M G I C
  metadata_op : M → BatchOp V T N M G I C
  graph_op : G → BatchOp V T N M G I C
  nodes_op : I → BatchOp V T N M G I C
  chunks_op : C → BatchOp V T N M G I C
  unknown_op : BatchOp V T N M G I C

-- The handlers, each with its own kind of request, and the results of all of them.
pub record BatchHandler (V T N M G I C R : Type 0) : Type 0 where
  pub vector : V → Reply R
  pub fts : T → Reply R
  pub filename : N → Reply R
  pub metadata : M → Reply R
  pub graph : G → Reply R
  pub nodes : I → Reply R
  pub chunks : C → Reply R

pub record BatchResult (R : Type 0) : Type 0 where
  pub result : Option R
  pub error : String

-- A warning is the number of its operation and the message.
pub record BatchResponse (R : Type 0) : Type 0 where
  pub results : List (BatchResult R)
  pub warnings : List (ℕ × String)

module _ {V T N M G I C R : Type 0} (h : BatchHandler V T N M G I C R) where
  abbrev pub settled : Reply R → BatchResult R
  settled (reply r) = record { result = some r; error = "" }
  settled (refusal e) = record { result = none; error = e }

  abbrev pub dispatch : BatchOp V T N M G I C → BatchResult R
  dispatch (vector_op q) = settled (h.vector q)
  dispatch (fts_op q) = settled (h.fts q)
  dispatch (filename_op q) = settled (h.filename q)
  dispatch (metadata_op q) = settled (h.metadata q)
  dispatch (graph_op q) = settled (h.graph q)
  dispatch (nodes_op q) = settled (h.nodes q)
  dispatch (chunks_op q) = settled (h.chunks q)
  dispatch unknown_op = record { result = none; error = "unknown batch op type" }

  abbrev pub append_result : BatchResponse R → BatchResult R → BatchResponse R
  append_result out res = record {
    results = out.results ++ res ∷ [];
    warnings =
        if str_eq res.error ""
        then out.warnings
        else out.warnings ++ (length out.results, res.error) ∷ [];
  }

  unfoldable pub batch_ops : List (BatchOp V T N M G I C) → BatchResponse R → BatchResponse R
  batch_ops [] out = out
  batch_ops (op ∷ ops) out = batch_ops ops (append_result out (dispatch op))

  unfoldable pub batch_all : List (BatchOp V T N M G I C) → Reply (BatchResponse R)
  unfolding batch_ops
  batch_all ops =
      if ltb max_batch_ops (length ops)
      then refusal "batch: ops exceed max 32"
      else reply (batch_ops ops (record { results = []; warnings = [] }))
