-- ===== src/FileIndex/Cache.antt =====
-- The lookup cache of the name server: lru_cache_init, lru_cache_get and lru_cache_invalidate of
-- name_server/src/file_index.c. The doubly linked list is the list of its entries from `head` to
-- `tail`; `size` is kept beside it, as in the source. An entry holds a pointer to a record that the
-- index owns.
pub mod Entries
pub mod Laws
pub mod Coherence
pub mod Recency
use network_file_storage.Prelude.{
  ℕ, ◌+◌, ◌-◌, Bytes, str_eq, Bool, true, false, if◌then◌else◌, List, [], ◌∷◌, Option, none, some,
  ◌==◌, leb, take, Memory, alloc,
}
use network_file_storage.FileIndex.{FileIndex, file_index_lookup}

-- cache_entry_t
pub record CacheEntry : Type 0 where
  pub filename : Bytes
  pub pointer : ℕ
  pub last_access : ℕ

-- lru_cache_t
pub record LruCache : Type 0 where
  pub entries : List CacheEntry
  pub capacity : ℕ
  pub size : ℕ

-- lru_cache_init: none where the capacity is 0 or calloc fails.
unfoldable pub lru_cache_init : ℕ → Memory → Option LruCache × Memory
lru_cache_init capacity m =
    let (made, m') = alloc m in
    if capacity == 0
    then (none, m)
    else if made
    then (some (record { entries = []; capacity = capacity; size = 0 }), m')
    else (none, m')

-- The loop that looks for a name from the head: the entry, and the list with the entry unlinked.
unfoldable pub unlink : List CacheEntry → Bytes → Option (CacheEntry × List CacheEntry)
unlink [] filename = none
unlink (e ∷ entries) filename =
    if str_eq e.filename filename then some (e, entries) else elim (unlink entries filename) [
      | none ↦ none
      | some (found, rest) ↦ some (found, e ∷ rest)
    ]

-- The list without its tail.
unfoldable pub drop_tail : List CacheEntry → List CacheEntry
drop_tail [] = []
drop_tail (e ∷ []) = []
drop_tail (e ∷ e' ∷ entries) = e ∷ drop_tail (e' ∷ entries)

-- lru_cache_remove_entry: `entries` is what unlinking leaves.
abbrev pub lru_cache_remove_entry : LruCache → List CacheEntry → LruCache
lru_cache_remove_entry c entries = record c { entries = entries; size = c.size - 1 }

-- lru_cache_add_to_front
abbrev pub lru_cache_add_to_front : LruCache → CacheEntry → LruCache
lru_cache_add_to_front c e = record c { entries = e ∷ c.entries; size = c.size + 1 }

abbrev pub is_empty : List CacheEntry → Bool
is_empty [] = true
is_empty (e ∷ entries) = false

-- The eviction of the tail, where the cache is full and not empty.
unfoldable pub evict : LruCache → LruCache
unfolding drop_tail
evict c =
    if leb c.capacity c.size
    then (if is_empty c.entries then c else lru_cache_remove_entry c (drop_tail c.entries))
    else c

-- A miss that found a record in the index.
unfoldable pub insert_new : LruCache → Bytes → ℕ → ℕ → Memory → LruCache × Memory
unfolding evict
insert_new c filename pointer now m =
    let (made, m') = alloc m in
    if made
    then (
      lru_cache_add_to_front (evict c)
          (record { filename = take 255 filename; pointer = pointer; last_access = now }),
      m',
    )
    else (c, m')

-- lru_cache_get. `now` is what time(NULL) returns.
unfoldable pub lru_cache_get :
    LruCache → FileIndex → Bytes → ℕ → Memory → LruCache × Option ℕ × Memory
unfolding unlink insert_new
lru_cache_get c index filename now m = elim (unlink c.entries filename) [
  | some (e, rest) ↦ (
    lru_cache_add_to_front (lru_cache_remove_entry c rest) (record e { last_access = now }),
    some e.pointer,
    m,
  )
  | none ↦ elim (file_index_lookup index filename) [
    | none ↦ (c, none, m)
    | some p ↦ let (c', m') = insert_new c filename p now m in (c', some p, m')
  ]
]

-- lru_cache_invalidate
unfoldable pub lru_cache_invalidate : LruCache → Bytes → LruCache
unfolding unlink
lru_cache_invalidate c filename = elim (unlink c.entries filename) [
  | none ↦ c
  | some (e, rest) ↦ lru_cache_remove_entry c rest
]
