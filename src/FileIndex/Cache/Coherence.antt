-- ===== src/FileIndex/Cache/Coherence.antt =====
-- The cache while the index changes under it: file_index_add keeps it valid, and
-- lru_cache_invalidate makes it valid again after file_index_remove.
use network_file_storage.Prelude.{
  ℕ, Bytes, Lacks, All, str_eq_iff, List, [], ◌∷◌, some, ◌≡◌, ◌≢◌, ◌∙◌, sym, arith, Option-cases,
  inl, inr, Memory,
}
use network_file_storage.FileIndex.{FileIndex, file_index_add, file_index_lookup, file_index_remove}
use network_file_storage.FileIndex.Records.{find-add, find-add_failed, Status-cases}
use network_file_storage.FileIndex.Removal.{find-remove}
use network_file_storage.FileIndex.Cache.{CacheEntry, LruCache, unlink, lru_cache_invalidate}
use network_file_storage.FileIndex.Cache.Entries.{
  names, unlink_found, unlink-none-Lacks, All-unlink, Distinct-unlink,
}
use network_file_storage.FileIndex.Cache.Laws.{Agrees, CacheValid}

-- Entries for other names agree with an index that differs at one name only.
All-Agrees_ne :
    (index index' : FileIndex) (name : Bytes) (l : List CacheEntry)
    → ((q : Bytes) → name ≢ q → file_index_lookup index' q ≡ file_index_lookup index q)
    → Lacks name (names l)
    → All (Agrees index) l
    → All (Agrees index') l
All-Agrees_ne index index' name [] same k a = tt
All-Agrees_ne index index' name (e ∷ l) same k a =
    (same e.filename (λ p. k.0 (sym p)) ∙ a.0, All-Agrees_ne index index' name l same k.1 a.1)

module _ (c : LruCache) (index : FileIndex) (name : Bytes) (v : CacheValid c index) where
  lookup-remove_ne :
      (q : Bytes)
      → name ≢ q
      → file_index_lookup (file_index_remove index name).0 q ≡ file_index_lookup index q
  unfolding file_index_lookup
  lookup-remove_ne q d = ground (arith, find-remove index name q, str_eq_iff name q)

  -- After file_index_remove and lru_cache_invalidate of the same name, the cache is valid for the new
  -- index and holds no entry for the name.
  pub invalidate-remove :
      CacheValid (lru_cache_invalidate c name) (file_index_remove index name).0
      × Lacks name (names (lru_cache_invalidate c name).entries)
  unfolding lru_cache_invalidate
  invalidate-remove = elim (Option-cases (unlink c.entries name)) [
    | inl miss ↦
        let k = unlink-none-Lacks c.entries name miss in
        rw (miss, lru_cache_invalidate)
          (
            record {
              counted = v.counted;
              fits = v.fits;
              positive = v.positive;
              distinct = v.distinct;
              agree = All-Agrees_ne index _ name c.entries lookup-remove_ne k v.agree;
            },
            k,
          )
    | inr ((e, rest), hit) ↦
        let (_, len) = unlink_found c.entries name e rest hit in
        let (_, others) = All-unlink (Agrees index) c.entries name e rest hit v.agree in
        let (d, k) = Distinct-unlink c.entries name e rest hit v.distinct in
        rw (hit, lru_cache_invalidate)
          (
            record {
              counted = omega (arith, v.counted, len);
              fits = omega (arith, v.fits, len);
              positive = v.positive;
              distinct = d;
              agree = All-Agrees_ne index _ name rest lookup-remove_ne k others;
            },
            k,
          )
  ]

  lookup-add_some :
      (owner ss_id : Bytes) (now : ℕ) (m : Memory) (q : Bytes) (p : ℕ)
      → file_index_lookup index q ≡ some p
      → file_index_lookup (file_index_add index name owner ss_id now m).0 q ≡ some p
  unfolding file_index_lookup
  lookup-add_some owner ss_id now m q p h =
      elim (Status-cases (file_index_add index name owner ss_id now m).1) [
        | inl done ↦
            ground (arith, h, find-add index name owner ss_id now m q done, str_eq_iff name q)
        | inr failed ↦ find-add_failed index name owner ss_id now m q failed ∙ h
      ]

  All-Agrees-add :
      (owner ss_id : Bytes) (now : ℕ) (m : Memory) (l : List CacheEntry)
      → All (Agrees index) l
      → All (Agrees (file_index_add index name owner ss_id now m).0) l
  All-Agrees-add owner ss_id now m [] a = tt
  All-Agrees-add owner ss_id now m (e ∷ l) a = (
    lookup-add_some owner ss_id now m e.filename e.pointer a.0,
    All-Agrees-add owner ss_id now m l a.1,
  )

  -- file_index_add, whether it succeeds or not, leaves the cache valid with no invalidation: a record
  -- pointer that is cached never changes.
  pub CacheValid-add :
      (owner ss_id : Bytes) (now : ℕ) (m : Memory)
      → CacheValid c (file_index_add index name owner ss_id now m).0
  CacheValid-add owner ss_id now m = record {
    counted = v.counted;
    fits = v.fits;
    positive = v.positive;
    distinct = v.distinct;
    agree = All-Agrees-add owner ss_id now m c.entries v.agree;
  }
