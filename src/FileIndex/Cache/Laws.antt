-- ===== src/FileIndex/Cache/Laws.antt =====
-- The cache against the index that it caches: what it answers, what stays true of it, and the order
-- in which it forgets.
use network_file_storage.Prelude.{
  ℕ, ◌+◌, ◌≤◌, ◌<◌, Bytes, Lacks, Distinct, All, List, [], ◌∷◌, some, ◌≡◌, ◌∙◌, sym, refl, ap,
  arith, length, Option-cases, Bool-cases, inl, inr, Memory, alloc, take_of_length-le, leb, true,
  false,
}
use network_file_storage.FileIndex.{FileIndex, file_index_lookup}
use network_file_storage.FileIndex.Cache.{
  CacheEntry, LruCache, unlink, evict, insert_new, is_empty, lru_cache_get,
}
use network_file_storage.FileIndex.Cache.Entries.{
  names, unlink_found, unlink-none-Lacks, All-unlink, Distinct-unlink, All-drop_tail,
  Lacks-drop_tail, Distinct-drop_tail, length-drop_tail,
}

-- An entry's pointer is what the index has for its name.
abbrev pub Agrees : FileIndex → CacheEntry → Type 0
Agrees index e = file_index_lookup index e.filename ≡ some e.pointer

pub record CacheValid (c : LruCache) (index : FileIndex) : Type 0 where
  pub counted : c.size ≡ length c.entries
  pub fits : length c.entries ≤ c.capacity
  pub positive : 0 < c.capacity
  pub distinct : Distinct (names c.entries)
  pub agree : All (Agrees index) c.entries

module _ (c : LruCache) (index : FileIndex) (name : Bytes) (now : ℕ) (m : Memory)
    (v : CacheValid c index) where
  -- lru_cache_get returns the record pointer that file_index_lookup returns, on a hit and on a miss,
  -- also when there is no memory for a new entry.
  pub get-lookup : (lru_cache_get c index name now m).1 ≡ file_index_lookup index name
  unfolding lru_cache_get
  get-lookup = elim (Option-cases (unlink c.entries name)) [
    | inl miss ↦ rw (miss, lru_cache_get) (ground arith)
    | inr ((e, rest), hit) ↦
        let (same, _) = unlink_found c.entries name e rest hit in
        let (here, _) = All-unlink (Agrees index) c.entries name e rest hit v.agree in
        rw (hit, lru_cache_get) (sym here ∙ ap (file_index_lookup index) same)
  ]

-- What the loop of lru_cache_get leaves for a name that it did not find: room for one more entry.
record HasRoom (c : LruCache) (index : FileIndex) (name : Bytes) (was : ℕ) : Type 0 where
  valid : CacheValid c index
  room : length c.entries + 1 ≤ c.capacity
  lacking : Lacks name (names c.entries)
  capacity : c.capacity ≡ was

is_empty_of_pos : (l : List CacheEntry) → 0 < length l → is_empty l ≡ false
is_empty_of_pos [] h = absurd (omega arith)
is_empty_of_pos (e ∷ l) h = refl

module _ (c : LruCache) (index : FileIndex) (v : CacheValid c index) where
  pub full_entries : leb c.capacity c.size ≡ true → is_empty c.entries ≡ false
  full_entries full = is_empty_of_pos c.entries (ground (arith, v.counted, v.positive))

  evict-HasRoom :
      (name : Bytes) → Lacks name (names c.entries) → HasRoom (evict c) index name c.capacity
  unfolding evict
  evict-HasRoom name k = elim (Bool-cases (leb c.capacity c.size)) [
    | inr room ↦
        rw (room, evict)
          (record { valid = v; room = ground (arith, v.counted); lacking = k; capacity = refl })
    | inl full ↦
        rw (full, full_entries full, evict)
          (record {
            valid = record {
              counted = omega (arith, v.counted, length-drop_tail c.entries);
              fits = omega (arith, v.fits, length-drop_tail c.entries);
              positive = v.positive;
              distinct = Distinct-drop_tail c.entries v.distinct;
              agree = All-drop_tail (Agrees index) c.entries v.agree;
            };
            room = omega (arith, v.fits, v.positive, length-drop_tail c.entries);
            lacking = Lacks-drop_tail c.entries name k;
            capacity = refl;
          })
  ]

  insert_new-CacheValid :
      (name : Bytes) (p now : ℕ) (m : Memory)
      → length name ≤ 255
      → Lacks name (names c.entries)
      → file_index_lookup index name ≡ some p
      → CacheValid (insert_new c name p now m).0 index
  unfolding insert_new
  insert_new-CacheValid name p now m short k found = elim (Bool-cases (alloc m).0) [
    | inr failed ↦ rw (failed, insert_new) v
    | inl made ↦
        let h = evict-HasRoom name k in
        rw (made, insert_new, take_of_length-le 255 name short)
          (record {
            counted = omega (arith, h.valid.counted);
            fits = omega (arith, h.room);
            positive = h.valid.positive;
            distinct = (h.lacking, h.valid.distinct);
            agree = (found, h.valid.agree);
          })
  ]

  -- lru_cache_get keeps the cache valid, for a name of at most 255 bytes: never more entries than the
  -- capacity, no name twice, and every entry's pointer the one that the index has.
  pub get-CacheValid :
      (name : Bytes) (now : ℕ) (m : Memory)
      → length name ≤ 255
      → CacheValid (lru_cache_get c index name now m).0 index
  unfolding lru_cache_get
  get-CacheValid name now m short = elim (Option-cases (unlink c.entries name)) [
    | inr ((e, rest), hit) ↦
        let (same, len) = unlink_found c.entries name e rest hit in
        let (here, others) = All-unlink (Agrees index) c.entries name e rest hit v.agree in
        let (d, k) = Distinct-unlink c.entries name e rest hit v.distinct in
        rw (hit, lru_cache_get)
          (record {
            counted = omega (arith, v.counted, len);
            fits = omega (arith, v.fits, len);
            positive = v.positive;
            distinct = (rw same k, d);
            agree = (here, others);
          })
    | inl miss ↦ elim (Option-cases (file_index_lookup index name)) [
      | inl absent ↦ rw (miss, absent, lru_cache_get) v
      | inr (p, found) ↦
          rw (miss, found, lru_cache_get)
            (insert_new-CacheValid name p now m short (unlink-none-Lacks c.entries name miss) found)
    ]
  ]
