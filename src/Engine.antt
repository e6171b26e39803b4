-- ===== src/Engine.antt =====
-- crates/turbomemory_storage/src/engine: the state that a write touches, what may fail on the way,
-- and the stages of which write.rs and update_worker.rs compose the writes.
pub mod Write
pub mod Batch
pub mod Replay
pub mod Flush
pub mod Durable
pub mod History
pub mod Consistent
use turbo_supermemory.Common.{
  ℕ, zero, suc, String, List, [], ◌∷◌, ◌++◌, Option, none, some, Bool, true, false, not, ◌&&◌,
  nat_eq, string_eq, if◌then◌else◌,
}
use turbo_supermemory.Common.Dict.{Dict, insert, remove as remove_key, lookup}
use turbo_supermemory.Record.{
  StorageError, io, invalid_argument, index_error, Record, MetaRecord, PointOffset, Result, ok, err,
}
use turbo_supermemory.Wal.Codec.{WalOp}
use turbo_supermemory.Metadata
use turbo_supermemory.Metadata.{MetadataStore}
use turbo_supermemory.Vectors
use turbo_supermemory.Vectors.{Checks, VectorStore, Resize}
use turbo_supermemory.Access.{AccessCounters}

-- The calls to the indexes that are rebuilt from the records on open, in their order.
pub data IndexCall : Type 0 where
  payload_add : PointOffset → Option String → IndexCall
  payload_remove : PointOffset → Option String → IndexCall
  scope_add : PointOffset → Option String → IndexCall
  scope_remove : PointOffset → Option String → IndexCall
  text_add : List (PointOffset × String) → IndexCall
  text_remove : PointOffset → IndexCall
  graph_add : Record → IndexCall
  graph_remove : String → IndexCall
  hot_insert : PointOffset → Record → IndexCall
  seal_hot : IndexCall

pub record Engine : Type 0 where
  pub dimension : ℕ
  pub sync_writes : Bool
  pub meta : MetadataStore
  pub vectors : VectorStore
  pub wal : List WalOp
  pub id_index : Dict String ℕ
  pub counters : AccessCounters
  pub calls : List IndexCall

-- How `submit_and_wait` ends: with the result of the worker, with no worker to send to, or with a
-- worker that is gone before it answers, when it has or has not worked on the batch.
pub data Reply : Type 0 where
  acknowledged : Reply
  disconnected : Reply
  lost : (worked : Bool) → Reply

-- Whether the worker has put the batch into the cache.
abbrev pub reaches_worker : Reply → Bool
reaches_worker acknowledged = true
reaches_worker disconnected = false
reaches_worker (lost worked) = worked

-- How the fallible steps of one call end; `true` is success.
pub record Outcome : Type 0 where
  pub resize : Resize
  pub sync_vectors : Bool
  pub append : Bool
  -- the whole frames of a failed append that stay in the file, if its roll-back fails as well
  pub left : ℕ
  pub sync_log : Bool
  pub payload : PointOffset → Bool
  pub worker : Reply
  pub text : Bool
  pub segment : PointOffset → Bool
  -- whether an insertion fills the Hot segment
  pub fills : PointOffset → Bool
  pub seal : Bool
  pub text_removed : Bool

-- Actions that change the engine and may fail; what was changed before a failure stays.
abbrev pub Action {ℓ} : Type ℓ → Type ℓ
Action A = Engine → Result A × Engine

abbrev pub continue {ℓ κ} :
    {A : Type ℓ} {B : Type κ}
    → Result A × Engine
    → (A → Engine → Result B × Engine)
    → Result B × Engine
continue (ok a, e) f = f a e
continue (err x, e) f = (err x, e)

unfoldable pub put_vector :
    Checks → Outcome → PointOffset → List ℕ → Engine → Result (Unit {0}) × Engine
put_vector k o offset v e =
    let (r, s) = Vectors.put k o.resize offset v e.vectors in (r, record e { vectors = s })

-- The log after a failed append, of whose frames the last one at least is not whole.
abbrev pub leave : ℕ → List WalOp → List WalOp → List WalOp
leave frames wal [] = wal
leave frames wal (op ∷ []) = wal
leave zero wal (op ∷ next ∷ ops) = wal
leave (suc frames) wal (op ∷ next ∷ ops) = leave frames (wal ++ (op ∷ [])) (next ∷ ops)

module _ (o : Outcome) where
  -- `sync_range` changes nothing that a running process sees.
  unfoldable pub sync_vectors_if_configured : Engine → Result (Unit {0}) × Engine
  sync_vectors_if_configured e =
      if e.sync_writes && not o.sync_vectors then (err io, e) else (ok tt, e)

  -- `append_batch`, and then the log may be synced. The bytes of a cut frame that a failed roll-back
  -- leaves are no operation, and reading stops before them; that it also stops before what later
  -- calls append behind them is not part of this model of the log.
  unfoldable pub log : List WalOp → Engine → Result (Unit {0}) × Engine
  log ops e =
      if not o.append
      then (err io, record e { wal = leave o.left e.wal ops })
      else (let e' = record e { wal = e.wal ++ ops } in
          if e.sync_writes && not o.sync_log then (err io, e') else (ok tt, e'))

  -- the loop over the id, payload and scope indexes
  unfoldable pub index_loop : List (PointOffset × Record) → Engine → Result (Unit {0}) × Engine
  index_loop [] e = (ok tt, e)
  index_loop ((offset, r) ∷ rest) e =
      let e' = record e {
        id_index = insert r.id offset e.id_index;
        calls = e.calls ++ (payload_add offset r.payload ∷ []);
      } in
      let next =
        index_loop rest (record e' { calls = e'.calls ++ (scope_add offset r.scope ∷ []) }) in
      if o.payload offset then next else (err invalid_argument, e')

  abbrev text_docs : List (PointOffset × Record) → List (PointOffset × String)
  text_docs [] = []
  text_docs ((offset, r) ∷ rest) = (offset, r.text) ∷ text_docs rest

  unfoldable pub index_text : List (PointOffset × Record) → Engine → Result (Unit {0}) × Engine
  index_text records e =
      if o.text
      then (ok tt, record e { calls = e.calls ++ (text_add (text_docs records) ∷ []) })
      else (err index_error, e)

  unfoldable pub graph_loop : List (PointOffset × Record) → Engine → Engine
  graph_loop [] e = e
  graph_loop ((offset, r) ∷ rest) e =
      graph_loop rest (record e { calls = e.calls ++ (graph_add r ∷ []) })

  unfoldable pub segment_loop : List (PointOffset × Record) → Bool → Engine → Result Bool × Engine
  segment_loop [] needs_seal e = (ok needs_seal, e)
  segment_loop ((offset, r) ∷ rest) needs_seal e =
      let next =
        segment_loop rest (if o.fills offset then true else needs_seal)
          (record e { calls = e.calls ++ (hot_insert offset r ∷ []) }) in
      if o.segment offset then next else (err index_error, e)

  unfoldable pub seal_if_needed : Bool → Engine → Result (Unit {0}) × Engine
  seal_if_needed false e = (ok tt, e)
  seal_if_needed true e =
      if o.seal
      then (ok tt, record e { calls = e.calls ++ (seal_hot ∷ []) })
      else (err index_error, e)

  -- `IndexApplier::apply_batch`, which the worker runs
  unfoldable pub apply_batch : List (PointOffset × Record) → Engine → Result (Unit {0}) × Engine
  apply_batch records e =
      continue (index_loop records (record e { meta = Metadata.put_batch records e.meta })) λ _ e1.
        continue (index_text records e1) λ _ e2.
          continue (segment_loop records false (graph_loop records e2))
            λ needs_seal e3. seal_if_needed needs_seal e3

  -- a batch that the worker was at when it was lost may have stopped at any of the steps
  unfoldable pub submit_and_wait : List (PointOffset × Record) → Engine → Result (Unit {0}) × Engine
  submit_and_wait records e = elim o.worker [
    | acknowledged ↦ apply_batch records e
    | disconnected ↦ (err invalid_argument, e)
    | lost worked ↦ (err invalid_argument, if worked then (apply_batch records e).1 else e)
  ]

  -- the rest of `remove_from_indexes`, behind the indexes that need the old values
  abbrev remove_rest : String → PointOffset → Engine → Engine
  remove_rest id offset e = record e {
    meta = Metadata.remove offset e.meta;
    id_index = remove_key id e.id_index;
    calls = e.calls ++ (graph_remove id ∷ []);
  }

  unfoldable pub remove_from_indexes : String → PointOffset → Engine → Result (Unit {0}) × Engine
  remove_from_indexes id offset e = elim (lookup offset e.meta.records) [
    | none ↦ (ok tt, remove_rest id offset e)
    | some r ↦
        let e' = record e {
          calls = e.calls ++ (payload_remove offset r.payload ∷ scope_remove offset r.scope ∷ []);
        } in
        if o.text_removed
        then (
          ok tt,
          remove_rest id offset (record e' { calls = e'.calls ++ (text_remove offset ∷ []) }),
        )
        else (err index_error, e')
  ]
