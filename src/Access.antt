-- ===== src/Access.antt =====
-- crates/turbomemory_storage/src/access_counters.rs: the access counts and timestamps that are kept
-- in memory and drained into the metadata. The ACT-R activation is floating point and left out. The
-- atomics are plain fields: a call runs alone. A drain walks the map in the order of the list.
use turbo_supermemory.Common.{
  ℕ, ◌+◌, ◌%◌, ◌^◌, max, min, List, [], ◌∷◌, length, set, replicate, Option, none, some, ◌==◌,
  nat_eq, if◌then◌else◌,
}
use turbo_supermemory.Common.Dict.{Dict, lookup, insert}
use turbo_supermemory.Common.Sort.{sort}
use turbo_supermemory.Record.{PointOffset}
use turbo_supermemory.Metadata.{MetadataStore, put_meta, append_access_history}

abbrev pub max_access_history_len : ℕ
max_access_history_len = 32

-- `len.clamp(1, MAX_ACCESS_HISTORY_LEN)`
abbrev pub clamp_history_len : ℕ → ℕ
clamp_history_len len = min (max len 1) max_access_history_len

pub record AccessEntry : Type 0 where
  pub count : ℕ
  pub last_accessed : ℕ
  pub ring : List ℕ
  pub ring_cursor : ℕ

abbrev pub new_entry : ℕ → AccessEntry
new_entry history_len = record {
  count = 0;
  last_accessed = 0;
  ring = replicate history_len 0;
  ring_cursor = 0;
}

pub record AccessCounters : Type 0 where
  pub counters : Dict ℕ AccessEntry
  pub history_len : ℕ

abbrev pub new_counters : ℕ → AccessCounters
new_counters history_len = record { counters = []; history_len = clamp_history_len history_len }

unfoldable pub bump_entry : ℕ → AccessEntry → AccessEntry
bump_entry now e = record {
  count = (e.count + 1) % 2 ^ 64;
  last_accessed = now;
  ring = set e.ring (e.ring_cursor % length e.ring) now;
  ring_cursor = (e.ring_cursor + 1) % 2 ^ 64;
}

abbrev entry_or_new : ℕ → Option AccessEntry → AccessEntry
entry_or_new history_len none = new_entry history_len
entry_or_new history_len (some e) = e

unfoldable pub bump : PointOffset → ℕ → AccessCounters → AccessCounters
unfolding bump_entry
bump offset now c = record c {
  counters =
      insert offset (bump_entry now (entry_or_new c.history_len (lookup offset c.counters)))
        c.counters;
}

-- Epoch 0 is the sentinel of a slot that was never written.
unfoldable pub nonzero : List ℕ → List ℕ
nonzero [] = []
nonzero (t ∷ ts) = let rest = nonzero ts in if t == 0 then rest else t ∷ rest

unfoldable pub drain_entry : ℕ → PointOffset → AccessEntry → MetadataStore → MetadataStore
unfolding nonzero
drain_entry history_len offset e m = if e.count == 0 then m else elim (lookup offset m.records) [
  | none ↦ m
  | some r ↦ append_access_history offset (sort (nonzero e.ring)) history_len (
      put_meta offset
        (record r {
          access_count = (r.access_count + e.count) % 2 ^ 64;
          last_accessed = max r.last_accessed e.last_accessed;
        })
        m)
]

unfoldable pub drain_all : ℕ → Dict ℕ AccessEntry → MetadataStore → MetadataStore
drain_all history_len [] m = m
drain_all history_len ((offset, e) ∷ rest) m =
    drain_all history_len rest (drain_entry history_len offset e m)

unfoldable pub drain_into : AccessCounters → MetadataStore → AccessCounters × MetadataStore
unfolding drain_all
drain_into c m = (record c { counters = [] }, drain_all c.history_len c.counters m)
