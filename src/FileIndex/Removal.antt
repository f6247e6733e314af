-- ===== src/FileIndex/Removal.antt =====
-- file_index_remove and file_index_add_ss_replica, and the number of storage servers of a record.
use network_file_storage.Prelude.{
  ℕ, ◌≤◌, Bytes, Lacks, Distinct, Distinct-append, length, length-append, str_eq, str_eq_iff,
  str_eq_refl, Option-cases, Bool-cases, ltb→lt, take_of_length-le, ◌<◌, ◌↔◌, if◌then◌else◌, List,
  [], ◌∷◌, ◌++◌, none, some, ◌≡◌, ◌≢◌, arith, ltb, true, false, inl, inr, take,
}
use network_file_storage.FileIndex.{
  FileIndex, FileRecord, ok, error, enoent, enospc, max_ss_per_file, find_record, has_ss, add_ss,
  add_replica, file_index_lookup, file_index_remove,
}
use network_file_storage.FileIndex.Paths.{has_path_of_find, find-set_record}
use network_file_storage.FileIndex.Records.{IsSound, view}

module _ (index : FileIndex) (name : Bytes) where
  pub find-remove :
      (q : Bytes)
      → find_record (file_index_remove index name).0.root q
        ≡ (if str_eq name q then none else find_record index.root q)
  unfolding file_index_remove
  find-remove q = elim (Option-cases (find_record index.root name)) [
    | inl e ↦ ground (arith, e, str_eq_iff name q)
    | inr (p, e) ↦
        ground
          (arith, e, find-set_record index.root name none q, has_path_of_find index.root name p e)
  ]

  heap-remove_ne :
      (p q : ℕ)
      → find_record index.root name ≡ some p
      → p ≢ q
      → (file_index_remove index name).0.heap q ≡ index.heap q
  unfolding file_index_remove
  heap-remove_ne p q e d = ground arith

  heap-remove_absent :
      find_record index.root name ≡ none → file_index_remove index name ≡ (index, error enoent)
  unfolding file_index_remove
  heap-remove_absent e = ground arith

  next-remove : (file_index_remove index name).0.next ≡ index.next
  unfolding file_index_remove
  next-remove = ground arith

  status-remove :
      (file_index_remove index name).1
      ≡ elim (find_record index.root name) [ none ↦ error enoent | some _ ↦ ok ]
  unfolding file_index_remove
  status-remove = ground arith

  view-remove_found :
      (p : ℕ) (q : Bytes)
      → find_record index.root name ≡ some p
      → IsSound index
      → view (file_index_remove index name).0 q ≡ (if str_eq name q then none else view index q)
  unfolding file_index_lookup
  view-remove_found p q e sound = elim (Option-cases (find_record index.root q)) [
    | inl e' ↦ ground (arith, e', find-remove q)
    | inr (p', e') ↦ ground (
      arith,
      e',
      find-remove q,
      heap-remove_ne p p' e,
      sound.unshared name q p e,
      str_eq_iff name q,
    )
  ]

  -- On a sound index, file_index_remove makes the name lead nowhere and leaves every other name the
  -- record that it had. It returns 0 if the name led to a record and -1 with ENOENT if not.
  pub view-remove :
      (q : Bytes)
      → IsSound index
      → (view (file_index_remove index name).0 q ≡ (if str_eq name q then none else view index q))
        × ((file_index_remove index name).1
            ≡ elim (file_index_lookup index name) [ none ↦ error enoent | some _ ↦ ok ])
  unfolding file_index_lookup
  view-remove q sound = elim (Option-cases (find_record index.root name)) [
    | inl e ↦ (rw (heap-remove_absent e) (ground (arith, e, str_eq_iff name q)), status-remove)
    | inr (p, e) ↦ (view-remove_found p q e sound, status-remove)
  ]

  IsSound-remove_found :
      (p : ℕ)
      → find_record index.root name ≡ some p
      → IsSound index
      → IsSound (file_index_remove index name).0
  IsSound-remove_found p e sound = record {
    live = λ q k f.
        let old : find_record index.root q ≡ some k = ground (arith, find-remove q) in
        let (r, l) = sound.live q k old in
        (
          r,
          ground (
            arith,
            l,
            heap-remove_ne p k e,
            sound.unshared name q p e,
            find-remove q,
            str_eq_iff name q,
          ),
        );
    fresh = λ q k f. ground (arith, sound.fresh q k, next-remove, find-remove q);
    unshared = λ q q' k f f'. ground (arith, sound.unshared q q' k, find-remove q, find-remove q');
  }

  -- file_index_remove keeps the index sound.
  pub IsSound-remove : IsSound index → IsSound (file_index_remove index name).0
  IsSound-remove sound = elim (Option-cases (find_record index.root name)) [
    | inl e ↦ rw (heap-remove_absent e) sound
    | inr (p, e) ↦ IsSound-remove_found p e sound
  ]

-- A record holds at most MAX_SS_PER_FILE storage servers, each once.
pub record SsFits (r : FileRecord) : Type 0 where
  pub bounded : length r.ss_ids ≤ max_ss_per_file
  pub distinct : Distinct r.ss_ids

has_ss-Lacks : (ids : List Bytes) (id : Bytes) → has_ss ids id ≡ false → Lacks id ids
unfolding has_ss
has_ss-Lacks [] id h = tt
has_ss-Lacks (x ∷ ids) id h =
    (ground (arith, str_eq_iff x id), has_ss-Lacks ids id (ground (arith, str_eq_iff x id)))

has_ss-append : (ids : List Bytes) (id : Bytes) → has_ss (ids ++ id ∷ []) id ≡ true
unfolding has_ss
has_ss-append [] id = ground (arith, str_eq_refl id)
has_ss-append (x ∷ ids) id = ground (arith, has_ss-append ids id)

module _ (r : FileRecord) (ss_id : Bytes) where
  -- An identifier of at most 127 bytes is stored whole.
  appended-SsFits :
      length ss_id ≤ 127
      → length r.ss_ids < max_ss_per_file
      → has_ss r.ss_ids ss_id ≡ false
      → SsFits r
      → SsFits (record r { ss_ids = r.ss_ids ++ take 127 ss_id ∷ [] })
  appended-SsFits short room new v = rw (take_of_length-le 127 ss_id short) (record {
    bounded = omega (arith, length-append r.ss_ids (ss_id ∷ []));
    distinct = Distinct-append r.ss_ids ss_id v.distinct (has_ss-Lacks r.ss_ids ss_id new);
  })

  -- file_index_add and file_index_add_ss_replica keep the storage servers of a record distinct and at
  -- most MAX_SS_PER_FILE, for identifiers of at most 127 bytes.
  pub SsFits-add :
      length ss_id ≤ 127 → SsFits r → SsFits (add_ss r ss_id) × SsFits (add_replica r ss_id).0
  unfolding add_ss add_replica
  SsFits-add short v = elim (Bool-cases (has_ss r.ss_ids ss_id)) [
    | inl old ↦ (ground (arith, old), ground (arith, old))
    | inr new ↦ elim (Bool-cases (ltb (length r.ss_ids) max_ss_per_file)) [
      | inl room ↦
          let w = appended-SsFits short (ltb→lt _ _ room) new v in
          (rw (new, room) w, ground (arith, new, room, w))
      | inr full ↦ (rw full v, ground (arith, full, v))
    ]
  ]

  -- file_index_add_ss_replica refuses with ENOSPC exactly when the record already has
  -- MAX_SS_PER_FILE storage servers, even if `ss_id` is one of them.
  pub add_replica-enospc_iff :
      ((add_replica r ss_id).1 ≡ error enospc) ↔ (max_ss_per_file ≤ length r.ss_ids)
  unfolding add_replica
  add_replica-enospc_iff = (λ h. ground arith, λ h. ground arith)

  -- Where file_index_add_ss_replica succeeds on a record, the record then has the storage server, if
  -- its identifier has at most 127 bytes.
  pub has_ss-add_replica :
      length ss_id ≤ 127
      → (add_replica r ss_id).1 ≡ ok
      → has_ss (add_replica r ss_id).0.ss_ids ss_id ≡ true
  unfolding add_replica
  has_ss-add_replica short h =
      ground (arith, take_of_length-le 127 ss_id short, has_ss-append r.ss_ids ss_id)
