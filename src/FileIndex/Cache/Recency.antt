-- ===== src/FileIndex/Cache/Recency.antt =====
-- The order in which the cache forgets.
use mathlib.Core.Path.{ap₂}
use network_file_storage.Prelude.{
  ℕ, zero, suc, ◌-◌, ◌≤◌, Bytes, Lacks, str_eq, str_eq_iff, if◌then◌else◌, List, [], ◌∷◌, none,
  some, ◌≡◌, ◌∙◌, refl, ap, sym, arith, length, Option-cases, Bool-cases, inl, inr, take,
  take_of_length-le, leb,
}
use network_file_storage.FileIndex.{FileIndex, file_index_lookup}
use network_file_storage.FileIndex.Cache.{
  CacheEntry, LruCache, unlink, drop_tail, evict, insert_new, lru_cache_get,
}
use network_file_storage.FileIndex.Cache.Entries.{
  names, unlink_found, unlink-none-Lacks, All-unlink,
}
use network_file_storage.FileIndex.Cache.Laws.{Agrees, CacheValid, full_entries}

-- A list of names without the first that is `name`.
pub erase_name : Bytes → List Bytes → List Bytes
erase_name name [] = []
erase_name name (x ∷ xs) = if str_eq x name then xs else x ∷ erase_name name xs

length-names : (l : List CacheEntry) → length (names l) ≡ length l
length-names [] = refl
length-names (e ∷ l) = ap suc (length-names l)

names-unlink :
    (l : List CacheEntry) (name : Bytes) (e : CacheEntry) (rest : List CacheEntry)
    → unlink l name ≡ some (e, rest)
    → names rest ≡ erase_name name (names l)
unfolding unlink erase_name
names-unlink [] name e rest h = cc
names-unlink (x ∷ l) name e rest h = elim (Option-cases (unlink l name)) [
  | inl n ↦ ground (arith, n)
  | inr ((e', r), f) ↦ ground (arith, f, names-unlink l name e' r f)
]

erase_absent : (name : Bytes) (l : List Bytes) → Lacks name l → erase_name name l ≡ l
unfolding erase_name
erase_absent name [] k = refl
erase_absent name (x ∷ l) k = ground (arith, k.0, str_eq_iff x name, erase_absent name l k.1)

names-drop_tail :
    (n : ℕ) (l : List CacheEntry) → length l ≡ suc n → names (drop_tail l) ≡ take n (names l)
unfolding drop_tail
names-drop_tail zero (e ∷ []) h = refl
names-drop_tail (suc n) (e ∷ e' ∷ l) h =
    ap (◌∷◌ e.filename) (names-drop_tail n (e' ∷ l) (omega arith))
names-drop_tail n l h = absurd (omega arith)

module _ (c : LruCache) (index : FileIndex) (v : CacheValid c index) where
  names-evict :
      (name : Bytes) → name ∷ names (evict c).entries ≡ take c.capacity (name ∷ names c.entries)
  unfolding evict
  names-evict name = elim (Bool-cases (leb c.capacity c.size)) [
    | inr room ↦
        rw (room, evict)
          (sym (
            take_of_length-le c.capacity (name ∷ names c.entries)
              (ground (arith, v.counted, length-names c.entries))))
    | inl full ↦
        let n = c.capacity - 1 in
        let cap : c.capacity ≡ suc n = omega (arith, v.positive) in
        let len : length c.entries ≡ suc n = ground (arith, v.counted, v.fits) in
        rw (full, full_entries c index v full, evict)
          (ap (◌∷◌ name) (names-drop_tail n c.entries len)
            ∙ ap (λ k. take k (name ∷ names c.entries)) (sym cap))
  ]

  -- lru_cache_get of a name that is in the index moves the name to the front and keeps the most recent
  -- names up to the capacity: what it evicts is the name that was asked for least recently. A name
  -- that is not in the index changes nothing. The name has at most 255 bytes, and memory does not
  -- run out.
  pub names-get :
      (name : Bytes) (now : ℕ)
      → length name ≤ 255
      → names (lru_cache_get c index name now []).0.entries ≡ elim (file_index_lookup index name) [
        | none ↦ names c.entries
        | some _ ↦ take c.capacity (name ∷ erase_name name (names c.entries))
      ]
  unfolding lru_cache_get insert_new
  names-get name now short = elim (Option-cases (unlink c.entries name)) [
    | inr ((e, rest), hit) ↦
        let (same, len) = unlink_found c.entries name e rest hit in
        let (here, _) = All-unlink (Agrees index) c.entries name e rest hit v.agree in
        let found : file_index_lookup index name ≡ some e.pointer =
          sym (ap (file_index_lookup index) same) ∙ here in
        rw (hit, found, lru_cache_get)
          (ap₂ ◌∷◌ same (names-unlink c.entries name e rest hit)
            ∙ sym (
                take_of_length-le c.capacity (name ∷ erase_name name (names c.entries)) (
                  omega (
                    arith,
                    v.fits,
                    len,
                    length-names rest,
                    ap length (names-unlink c.entries name e rest hit),
                  ))))
    | inl miss ↦ elim (Option-cases (file_index_lookup index name)) [
      | inl absent ↦ rw (miss, absent, lru_cache_get)
      | inr (p, found) ↦
          rw (miss, found, lru_cache_get, take_of_length-le 255 name short)
            (names-evict name
              ∙ ap (λ l. take c.capacity (name ∷ l))
                  (sym
                    (erase_absent name (names c.entries) (unlink-none-Lacks c.entries name miss))))
    ]
  ]
