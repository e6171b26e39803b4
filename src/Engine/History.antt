-- ===== src/Engine/History.antt =====
-- Sequences of calls to the engine, each with the way its steps end.
use turbo_supermemory.Common.{ℕ, ◌+◌, String, List, [], ◌∷◌, length}
use turbo_supermemory.Record.{PointOffset}
use turbo_supermemory.Vectors.{Checks, Resize}
use turbo_supermemory.Engine.{Engine, Outcome}
use turbo_supermemory.Engine.Write.{
  Inputs, WriteInput, insert_with_payload_role, update_with_payload_role, delete_by_id,
  delete_by_id_at,
}
use turbo_supermemory.Engine.Batch.{BatchInput, insert_batch_with_payload_role}
use turbo_supermemory.Engine.Flush
use turbo_supermemory.Engine.Flush.{FlushOutcome}

pub data Call : Type 0 where
  insert : Outcome → (now : ℕ) → WriteInput → Call
  insert_batch : Outcome → (resizes : PointOffset → Resize) → (now : ℕ) → BatchInput → Call
  update : Outcome → (now : ℕ) → WriteInput → Call
  delete : Outcome → String → Call
  delete_at : Outcome → String → PointOffset → Call
  flush : FlushOutcome → Call

module _ (k : Checks) (x : Inputs) where
  unfoldable pub run : Call → Engine → Engine
  run (Call.insert out now input) e = (insert_with_payload_role k x out now input e).1
  run (Call.insert_batch out resizes now b) e =
      (insert_batch_with_payload_role k x out resizes now b e).1
  run (Call.update out now input) e = (update_with_payload_role k x out now input e).1
  run (Call.delete out id) e = (delete_by_id k x out 0 id e).1
  run (Call.delete_at out id offset) e = (delete_by_id_at k x out 0 id offset e).1
  run (Call.flush o) e = (Flush.flush k o e).1

  unfoldable pub run_all : List Call → Engine → Engine
  run_all [] e = e
  run_all (c ∷ cs) e = run_all cs (run c e)

-- How many offsets a call may hand out.
abbrev pub cost : Call → ℕ
cost (Call.insert out now input) = 1
cost (Call.insert_batch out resizes now b) = length b.ids
cost (Call.update out now input) = 1
cost (Call.delete out id) = 0
cost (Call.delete_at out id offset) = 0
cost (Call.flush o) = 0

abbrev pub total_cost : List Call → ℕ
total_cost [] = 0
total_cost (c ∷ cs) = cost c + total_cost cs
