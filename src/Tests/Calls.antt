-- ===== src/Tests/Calls.antt =====
-- Batches and sequences of calls of crates/turbomemory_storage/src/engine at a small engine.
use turbo_supermemory.Common.{◌+◌, ◌^◌, ◌<◌, refl, List, [], ◌∷◌, arith, nat_eq, string_eq}
use turbo_supermemory.Common.Dict.{lookup}
use turbo_supermemory.Metadata
use turbo_supermemory.Metadata.{open_store}
use turbo_supermemory.Vectors.{resized}
use turbo_supermemory.Engine.Batch.{BatchInput, insert_batch_with_payload_role}
use turbo_supermemory.Engine.History.{Call, run_all}
use turbo_supermemory.Engine.Durable.Stages.{IsDurable}
use turbo_supermemory.Engine.Durable.Batched.{insert_batch-IsDurable}
use turbo_supermemory.Engine.Consistent.{IsConsistent}
use turbo_supermemory.Engine.Consistent.Histories.{run_all-IsConsistent}
use turbo_supermemory.Tests.Writes.{checks, inputs, good, fresh, note, fresh-IsDurable}

abbrev two_notes : BatchInput
two_notes = record {
  ids = "a" ∷ "b" ∷ [];
  texts = "tea" ∷ "milk" ∷ [];
  embeddings = (3 ∷ 4 ∷ []) ∷ (5 ∷ 6 ∷ []) ∷ [];
  importances = 1 ∷ 1 ∷ [];
  concepts = [] ∷ [] ∷ [];
  payloads = [];
  scopes = [];
  source_roles = [];
}

fresh_offsets : fresh.meta.next_offset + 8 < 2 ^ 64
unfolding open_store Metadata.past_keys
fresh_offsets = omega arith

fresh_seqs : fresh.meta.next_seq + 8 < 2 ^ 64
unfolding open_store Metadata.past_seqs
fresh_seqs = omega arith

insert_batch-IsDurable_example :
    IsDurable checks
      (insert_batch_with_payload_role checks inputs good (λ o. resized) 5 two_notes fresh).1
insert_batch-IsDurable_example =
    insert_batch-IsDurable checks inputs good (λ o. resized) 5 two_notes fresh refl refl refl
      (omega (arith, fresh_offsets)) (omega (arith, fresh_seqs)) fresh-IsDurable

fresh-IsConsistent : IsConsistent fresh
unfolding open_store lookup Metadata.past_keys
fresh-IsConsistent = record { live = λ i o h. absurd (ground (arith, h)); below = λ o m h. cc }

abbrev calls : List Call
calls =
    Call.insert good 5 note
    ∷ Call.insert_batch good (λ o. resized) 6 two_notes
    ∷ Call.update good 7 note
    ∷ Call.delete good "a"
    ∷ Call.delete_at good "b" 2
    ∷ []

run_all-IsConsistent_example : IsConsistent (run_all checks inputs calls fresh)
run_all-IsConsistent_example =
    run_all-IsConsistent checks inputs calls fresh (omega (arith, fresh_offsets)) fresh-IsConsistent
