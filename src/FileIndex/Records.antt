-- ===== src/FileIndex/Records.antt =====
-- What file_index_add, file_index_lookup, file_index_remove and file_index_add_ss_replica do to the
-- records that a client can look up.
use network_file_storage.Prelude.{
  ℕ, ◌+◌, ◌<◌, Bytes, str_eq, str_eq_iff, Bool-cases, Option-cases, if◌then◌else◌, Option, none,
  some, ◌≡◌, ◌≢◌, ◌⊎◌, refl, sym, ◌∙◌, arith, Memory, inl, inr,
}
use network_file_storage.FileIndex.{
  FileIndex, FileRecord, Status, ok, error, update, new_record, create_path, find_record, add_ss,
  add_at, file_index_add, file_index_lookup, record_at,
}
use network_file_storage.FileIndex.Paths.{find-create_path, has_path-create_path, find-set_record}

-- The index as a client sees it: the record that a name leads to.
abbrev pub view : FileIndex → Bytes → Option FileRecord
view index name = record_at index (file_index_lookup index name)

-- Every pointer of the trie is live, below the next free address, and no two names share one.
pub record IsSound (index : FileIndex) : Type 0 where
  pub live :
      (name : Bytes) (p : ℕ)
      → find_record index.root name ≡ some p
      → (r : FileRecord) × (index.heap p ≡ some r)
  pub fresh : (name : Bytes) (p : ℕ) → find_record index.root name ≡ some p → p < index.next
  pub unshared :
      (name other : Bytes) (p : ℕ)
      → find_record index.root name ≡ some p
      → find_record index.root other ≡ some p
      → name ≡ other

-- The record of `name` after a successful file_index_add.
abbrev pub added : Option FileRecord → Bytes → Bytes → Bytes → ℕ → FileRecord
added none name owner ss_id now = add_ss (new_record name owner now) ss_id
added (some r) name owner ss_id now = add_ss r ss_id

pub Status-cases : (s : Status) → (s ≡ ok) ⊎ (s ≢ ok)
Status-cases ok = inl refl
Status-cases (error e) = inr (λ h. cc h)

-- The pointer that the name has after a successful file_index_add.
abbrev pointer_of : Option ℕ → ℕ → ℕ
pointer_of none next = next
pointer_of (some p) next = p

module _ (index : FileIndex) (name owner ss_id : Bytes) (now : ℕ) (m : Memory) where
  abbrev pub result : FileIndex × Status × Memory
  result = file_index_add index name owner ss_id now m

  -- The pointers after file_index_add, in both outcomes.
  pub find-add :
      (q : Bytes)
      → result.1 ≡ ok
      → find_record result.0.root q ≡ (
          if str_eq name q
          then some (pointer_of (find_record index.root name) index.next)
          else find_record index.root q)
  unfolding file_index_add add_at
  find-add q h = ground (
    arith,
    find-create_path index.root name m name,
    find-create_path index.root name m q,
    has_path-create_path index.root name m,
    find-set_record (create_path index.root name m).0 name (some index.next) q,
    str_eq_iff name q,
  )

  pub find-add_failed :
      (q : Bytes) → result.1 ≢ ok → find_record result.0.root q ≡ find_record index.root q
  unfolding file_index_add add_at
  find-add_failed q h = ground (arith, find-create_path index.root name m q)

  heap-add_failed : result.1 ≢ ok → (result.0.heap ≡ index.heap) × (result.0.next ≡ index.next)
  unfolding file_index_add add_at
  heap-add_failed h = ground arith

  heap-add_new :
      result.1 ≡ ok
      → find_record index.root name ≡ none
      → (result.0.heap
          ≡ update index.heap index.next (some (add_ss (new_record name owner now) ss_id)))
        × (result.0.next ≡ index.next + 1)
  unfolding file_index_add add_at
  heap-add_new h e = ground (arith, find-create_path index.root name m name)

  heap-add_old :
      (p : ℕ) (r : FileRecord)
      → result.1 ≡ ok
      → find_record index.root name ≡ some p
      → index.heap p ≡ some r
      → (result.0.heap ≡ update index.heap p (some (add_ss r ss_id))) × (result.0.next ≡ index.next)
  unfolding file_index_add add_at
  heap-add_old p r h e l = ground (arith, find-create_path index.root name m name)

  -- On a sound index, where file_index_add returns 0 the name leads to its record with the storage
  -- server added, a new record if there was none, and every other name leads to the record that it had.
  pub view-add :
      (q : Bytes)
      → IsSound index
      → result.1 ≡ ok
      → view result.0 q ≡ (
          if str_eq name q
          then some (added (view index name) name owner ss_id now)
          else view index q)
  unfolding file_index_lookup
  view-add q sound h = elim (Option-cases (find_record index.root name)) [
    | inl e ↦ elim (Option-cases (find_record index.root q)) [
      | inl e' ↦ ground (arith, e, e', find-add q h, heap-add_new h e, str_eq_iff name q)
      | inr (p', e') ↦
          ground
            (arith, e, e', find-add q h, heap-add_new h e, str_eq_iff name q, sound.fresh q p' e')
    ]
    | inr (p, e) ↦
        let (r, l) = sound.live name p e in
        elim (Option-cases (find_record index.root q)) [
          | inl e' ↦
              ground (arith, e, e', l, find-add q h, heap-add_old p r h e l, str_eq_iff name q)
          | inr (p', e') ↦ ground (
            arith,
            e,
            e',
            l,
            find-add q h,
            heap-add_old p r h e l,
            str_eq_iff name q,
            sound.unshared name q p e,
          )
        ]
  ]

  -- Where file_index_add does not return 0, every name leads to the record that it had.
  pub view-add_failed : (q : Bytes) → result.1 ≢ ok → view result.0 q ≡ view index q
  unfolding file_index_lookup
  view-add_failed q h = ground (arith, find-add_failed q h, heap-add_failed h)

  live-add :
      (q : Bytes) (p : ℕ)
      → IsSound index
      → result.1 ≡ ok
      → find_record result.0.root q ≡ some p
      → (r : FileRecord) × (result.0.heap p ≡ some r)
  live-add q p sound h f = elim (Option-cases (find_record index.root name)) [
    | inl e ↦ elim (Bool-cases (str_eq name q)) [
      | inl same ↦ (
        add_ss (new_record name owner now) ss_id,
        ground (arith, e, same, find-add q h, heap-add_new h e),
      )
      | inr other ↦
          let old : find_record index.root q ≡ some p = ground (arith, other, find-add q h) in
          let (r, l) = sound.live q p old in
          (r, ground (arith, e, l, heap-add_new h e, sound.fresh q p old))
    ]
    | inr (k, e) ↦
        let (r, l) = sound.live name k e in
        elim (Bool-cases (str_eq name q)) [
          | inl same ↦
              (add_ss r ss_id, ground (arith, e, l, same, find-add q h, heap-add_old k r h e l))
          | inr other ↦
              let old : find_record index.root q ≡ some p = ground (arith, other, find-add q h) in
              let (r', l') = sound.live q p old in
              (
                r',
                ground (
                  arith,
                  e,
                  l',
                  heap-add_old k r h e l,
                  sound.unshared name q p,
                  str_eq_iff name q,
                  other,
                ),
              )
        ]
  ]

  IsSound-add_ok : IsSound index → result.1 ≡ ok → IsSound result.0
  IsSound-add_ok sound h = record {
    live = λ q p. live-add q p sound h;
    fresh = λ q p f. elim (Option-cases (find_record index.root name)) [
      | inl e ↦ ground (arith, e, find-add q h, heap-add_new h e, sound.fresh q p)
      | inr (p', e) ↦
          let (r, l) = sound.live name p' e in
          ground (
            arith,
            e,
            find-add q h,
            heap-add_old p' r h e l,
            sound.fresh q p,
            sound.fresh name p' e,
          )
    ];
    unshared = λ q q' p f f'. elim (Option-cases (find_record index.root name)) [
      | inl e ↦ ground (
        arith,
        e,
        find-add q h,
        find-add q' h,
        sound.fresh q p,
        sound.fresh q' p,
        sound.unshared q q' p,
        str_eq_iff name q,
        str_eq_iff name q',
      )
      | inr (p', e) ↦ ground (
        arith,
        e,
        find-add q h,
        find-add q' h,
        sound.unshared q q' p,
        sound.unshared name q p,
        sound.unshared name q' p,
        str_eq_iff name q,
        str_eq_iff name q',
      )
    ];
  }

  IsSound-add_failed : IsSound index → result.1 ≢ ok → IsSound result.0
  IsSound-add_failed sound h = record {
    live = λ q p f. rw (heap-add_failed h).0 (sound.live q p (sym (find-add_failed q h) ∙ f));
    fresh = λ q p f. ground (arith, sound.fresh q p, find-add_failed q h, heap-add_failed h);
    unshared = λ q q' p f f'.
        ground (arith, sound.unshared q q' p, find-add_failed q h, find-add_failed q' h);
  }

  -- file_index_add keeps the index sound, also when memory runs out on the way.
  pub IsSound-add : IsSound index → IsSound result.0
  IsSound-add sound = elim (Status-cases result.1) [
    | inl h ↦ IsSound-add_ok sound h
    | inr h ↦ IsSound-add_failed sound h
  ]
