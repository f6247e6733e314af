-- ===== src/FileIndex/Acl/Laws.antt =====
-- What granting and revoking access change.
use network_file_storage.Prelude.{
  ℕ, ◌≤◌, ◌<◌, Bytes, Lacks, Distinct, Distinct-append, str_eq, str_eq_iff, str_eq_refl, lt→ltb,
  if◌then◌else◌, ◌∷◌, [], none, some, ◌==◌, ◌≡◌, ◌≢◌, ◌↔◌, refl, arith, Memory, length,
  length-append, Option-cases, inl, inr,
}
use network_file_storage.FileIndex.{FileRecord, Status, ok}
use network_file_storage.FileIndex.Acl.{
  find_entry, set_entry, copied_name, grow_acl, remove_entry, or_flags, file_record_add_acl,
  file_record_remove_acl, file_record_find_acl, file_record_check_access,
}
use network_file_storage.FileIndex.Acl.Entries.{
  usernames, entry, set_entry-none, find-set_entry, find-append, usernames-set_entry,
  find-remove_entry, remove_entry-none, Distinct-remove_entry, find_entry-Lacks, grow_acl-le,
  remove_entry-listed, usernames-append,
}

-- No user is listed twice, and the entries fit into what was allocated for them.
pub record AclValid (r : FileRecord) : Type 0 where
  pub distinct : Distinct (usernames r.acl)
  pub fits : length r.acl ≤ r.acl_capacity

module _ (r : FileRecord) (u : Bytes) (can_read can_write : ℕ) (beyond : Bytes) (m : Memory) where
  abbrev pub granted : FileRecord × Status × Memory
  granted = file_record_add_acl r u can_read can_write beyond m

  -- Where file_record_add_acl returns 0 for a name shorter than 127 bytes, file_record_find_acl finds
  -- the user with the two flags, and for every other user it finds what it found before. The owner
  -- does not change.
  pub find_acl-add_acl :
      (q : Bytes)
      → length u < 127
      → granted.1 ≡ ok
      → (file_record_find_acl granted.0 q ≡ (
          if str_eq u q
          then some (record { username = u; can_read = can_read; can_write = can_write })
          else file_record_find_acl r q))
        × (granted.0.owner ≡ r.owner)
  unfolding file_record_add_acl file_record_find_acl copied_name find_entry set_entry entry
  find_acl-add_acl q short h = elim (Option-cases (set_entry r.acl u can_read can_write)) [
    | inl n ↦ ground (
      arith,
      n,
      find-append u can_read can_write r.acl q (set_entry-none u can_read can_write r.acl n),
    )
    | inr (acl, e) ↦ ground (arith, e, find-set_entry u can_read can_write r.acl acl q e)
  ]

  -- Where file_record_add_acl does not return 0, the record does not change.
  pub add_acl_failed : granted.1 ≢ ok → granted.0 ≡ r
  unfolding file_record_add_acl
  add_acl_failed h = ground arith

  -- file_record_add_acl keeps every user listed at most once and the entries within what was
  -- allocated, for a name shorter than 127 bytes.
  pub AclValid-add_acl : length u < 127 → AclValid r → AclValid granted.0
  unfolding file_record_add_acl copied_name entry
  AclValid-add_acl short v = elim (Option-cases (set_entry r.acl u can_read can_write)) [
    | inr (acl, e) ↦
        let (names, len) = usernames-set_entry u can_read can_write r.acl acl e in
        rw (e, file_record_add_acl) (record { distinct = rw names v.distinct; fits = omega arith })
    | inl n ↦ elim (Option-cases (grow_acl r m).0) [
      | inl full ↦ rw (n, full, file_record_add_acl) v
      | inr (c, g) ↦
          let unlisted : Lacks u (usernames r.acl) =
            find_entry-Lacks r.acl u (set_entry-none u can_read can_write r.acl n) in
          rw (n, g, file_record_add_acl, lt→ltb (length u) 127 short)
            (record {
              distinct =
                  rw usernames-append (Distinct-append (usernames r.acl) u v.distinct unlisted);
              fits = omega (
                arith,
                grow_acl-le r m c g v.fits,
                length-append r.acl (entry u can_read can_write ∷ []),
              );
            })
    ]
  ]

  -- Where file_record_add_acl returns 0 for a user who is not the owner, with a name shorter than 127
  -- bytes, file_record_check_access answers a question about writing by the flag for writing, and
  -- one about reading by either flag.
  pub check_access-add_acl :
      (need_write : ℕ)
      → length u < 127
      → r.owner ≢ u
      → granted.1 ≡ ok
      → file_record_check_access granted.0 u need_write
        ≡ (if need_write == 0 then or_flags can_read can_write else can_write)
  unfolding file_record_check_access
  check_access-add_acl need_write short other h =
      ground (arith, find_acl-add_acl u short h, str_eq_refl u, str_eq_iff r.owner u)

module _ (r : FileRecord) (u : Bytes) where
  -- Where no user is listed twice, file_record_remove_acl makes file_record_find_acl find nothing for
  -- the user and what it found before for every other; no user is then listed twice. It returns 0
  -- exactly if the user was listed.
  pub find_acl-remove_acl :
      (q : Bytes)
      → AclValid r
      → (file_record_find_acl (file_record_remove_acl r u).0 q
          ≡ (if str_eq u q then none else file_record_find_acl r q))
        × AclValid (file_record_remove_acl r u).0
        × (((file_record_remove_acl r u).1 ≡ ok) ↔ (file_record_find_acl r u ≢ none))
  unfolding file_record_remove_acl file_record_find_acl
  find_acl-remove_acl q v = elim (Option-cases (remove_entry r.acl u)) [
    | inl n ↦
        rw (n, file_record_remove_acl)
          (
            ground (arith, remove_entry-none r.acl u n, str_eq_iff u q),
            v,
            (λ h. cc h, λ h. absurd (h (remove_entry-none r.acl u n))),
          )
    | inr (acl, e) ↦
        let (d, le) = Distinct-remove_entry r.acl acl u e v.distinct in
        rw (e, file_record_remove_acl)
          (
            find-remove_entry r.acl acl u q v.distinct e,
            record { distinct = d; fits = omega arith },
            (λ _ none'. absurd (remove_entry-listed r.acl acl u e none'), λ _. refl),
          )
  ]

  owner-remove_acl : (file_record_remove_acl r u).0.owner ≡ r.owner
  unfolding file_record_remove_acl
  owner-remove_acl = ground arith

  -- After file_record_remove_acl, a user who is not the owner has no access, if no user was listed
  -- twice.
  pub check_access-remove_acl :
      (need_write : ℕ)
      → AclValid r
      → r.owner ≢ u
      → file_record_check_access (file_record_remove_acl r u).0 u need_write ≡ 0
  unfolding file_record_check_access
  check_access-remove_acl need_write v other =
      ground
        (arith, (find_acl-remove_acl u v).0, owner-remove_acl, str_eq_refl u, str_eq_iff r.owner u)

  -- A user who may write may read.
  pub check_access_write_read :
      file_record_check_access r u 1 ≢ 0 → file_record_check_access r u 0 ≢ 0
  unfolding file_record_check_access
  check_access_write_read h = ground arith
