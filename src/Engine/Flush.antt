-- ===== src/Engine/Flush.antt =====
-- `flush` of crates/turbomemory_storage/src/engine/mod.rs, which holds the flush barrier and so runs
-- while no write does. The seal of pending segments touches only what is rebuilt from the records.
use turbo_supermemory.Common.{◌-◌, [], Bool, if◌then◌else◌}
use turbo_supermemory.Record.{StorageError, io, index_error, ok, err}
use turbo_supermemory.Metadata
use turbo_supermemory.Vectors
use turbo_supermemory.Vectors.{Checks}
use turbo_supermemory.Access.{drain_into}
use turbo_supermemory.Engine.{Engine, Action, continue}

-- How the steps of a flush that can fail end; `true` is success. A log that could not be cleared is
-- as it was or already empty. One that is left without its header, which the next `open` of the file
-- writes again, counts as empty.
pub record FlushOutcome : Type 0 where
  pub sealed : Bool
  pub log_synced : Bool
  pub vectors : Bool
  pub text : Bool
  pub committed : Bool
  pub segments : Bool
  pub graph : Bool
  pub ccs : Bool
  pub cleared : Bool
  pub emptied : Bool

abbrev pub step : Bool → StorageError → Action (Unit {0})
step works x e = if works then (ok tt, e) else (err x, e)

unfoldable pub drain_counters : Engine → Engine
drain_counters e =
    let (counters, meta) = drain_into e.counters e.meta in
    record e { counters = counters; meta = meta }

unfoldable pub flush_vectors : Checks → (synced : Bool) → Action (Unit {0})
flush_vectors k synced e =
    let (r, s) = Vectors.flush k synced e.vectors in (r, record e { vectors = s })

-- `next_seq().saturating_sub(1)`
unfoldable pub flush_meta : (committed : Bool) → Action (Unit {0})
flush_meta committed e =
    let (r, m) = Metadata.flush committed (e.meta.next_seq - 1) e.meta in (r, record e { meta = m })

unfoldable pub clear_log : FlushOutcome → Action (Unit {0})
clear_log o e =
    if o.cleared
    then (ok tt, record e { wal = [] })
    else (err io, record e { wal = if o.emptied then [] else e.wal })

-- what comes before the snapshot of the metadata
unfoldable pub before_snapshot : Checks → FlushOutcome → Action (Unit {0})
before_snapshot k o e =
    continue (step o.log_synced io (drain_counters e))
      λ _ e1. continue (flush_vectors k o.vectors e1) λ _ e2. step o.text index_error e2

unfoldable pub to_snapshot : Checks → FlushOutcome → Action (Unit {0})
to_snapshot k o e = continue (before_snapshot k o e) λ _ e1. flush_meta o.committed e1

-- and what comes after it
unfoldable pub after_snapshot : FlushOutcome → Action (Unit {0})
after_snapshot o e = continue (step o.segments index_error e) λ _ e1.
    continue (step o.graph io e1) λ _ e2.
      continue (step o.ccs io e2)
        λ _ e3. continue (clear_log o e3) λ _ e4. step o.sealed index_error e4

unfoldable pub flush : Checks → FlushOutcome → Action (Unit {0})
flush k o e = continue (to_snapshot k o e) λ _ e1. after_snapshot o e1
