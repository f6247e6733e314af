-- ===== src/FileIndex/Acl/Entries.antt =====
-- The loops over the entries of an access list.
use network_file_storage.Prelude.{
  ℕ, ◌+◌, ◌≤◌, Bytes, Lacks, Distinct, ap, str_eq, str_eq_iff, if◌then◌else◌, List, [], ◌∷◌, ◌++◌,
  none, some, ◌≡◌, ◌≢◌, refl, arith, Memory, length, Option-cases, Bool-cases, ◌⊎◌, inl, inr,
}
use network_file_storage.FileIndex.{AclEntry, FileRecord}
use network_file_storage.FileIndex.Acl.{find_entry, set_entry, grow_acl, remove_entry}

abbrev pub usernames : List AclEntry → List Bytes
usernames [] = []
usernames (e ∷ acl) = e.username ∷ usernames acl

unfoldable pub entry : Bytes → ℕ → ℕ → AclEntry
entry u r w = record { username = u; can_read = r; can_write = w }

pub find_entry_unlisted :
    (acl : List AclEntry) (u : Bytes) → Lacks u (usernames acl) → find_entry acl u ≡ none
unfolding find_entry
find_entry_unlisted [] u h = refl
find_entry_unlisted (e ∷ acl) u h =
    ground (arith, h.0, str_eq_iff e.username u, find_entry_unlisted acl u h.1)

pub unlisted_of_find :
    (acl : List AclEntry) (u : Bytes) → find_entry acl u ≡ none → Lacks u (usernames acl)
unfolding find_entry
unlisted_of_find [] u h = tt
unlisted_of_find (e ∷ acl) u h = (
  ground (arith, str_eq_iff e.username u),
  unlisted_of_find acl u (ground (arith, str_eq_iff e.username u)),
)

module _ (u : Bytes) (r w : ℕ) where
  pub set_entry-none : (acl : List AclEntry) → set_entry acl u r w ≡ none → find_entry acl u ≡ none
  unfolding set_entry find_entry
  set_entry-none [] h = refl
  set_entry-none (e ∷ acl) h = ground (arith, set_entry-none acl)

  pub find-set_entry :
      (acl acl' : List AclEntry) (q : Bytes)
      → set_entry acl u r w ≡ some acl'
      → find_entry acl' q ≡ (if str_eq u q then some (entry u r w) else find_entry acl q)
  unfolding set_entry find_entry entry
  find-set_entry [] acl' q h = cc
  find-set_entry (e ∷ acl) acl' q h = elim (Option-cases (set_entry acl u r w)) [
    | inl n ↦ ground (arith, n, str_eq_iff e.username u, str_eq_iff e.username q, str_eq_iff u q)
    | inr (l, f) ↦ ground (
      arith,
      f,
      str_eq_iff e.username u,
      str_eq_iff e.username q,
      str_eq_iff u q,
      find-set_entry acl l q f,
    )
  ]

  pub find-append :
      (acl : List AclEntry) (q : Bytes)
      → find_entry acl u ≡ none
      → find_entry (acl ++ entry u r w ∷ []) q
        ≡ (if str_eq u q then some (entry u r w) else find_entry acl q)
  unfolding find_entry entry
  find-append [] q h = refl
  find-append (e ∷ acl) q h =
      ground
        (arith, str_eq_iff e.username u, str_eq_iff e.username q, str_eq_iff u q, find-append acl q)

  pub usernames-set_entry :
      (acl acl' : List AclEntry)
      → set_entry acl u r w ≡ some acl'
      → (usernames acl' ≡ usernames acl) × (length acl' ≡ length acl)
  unfolding set_entry
  usernames-set_entry [] acl' h = cc
  usernames-set_entry (e ∷ acl) acl' h = elim (Option-cases (set_entry acl u r w)) [
    | inl n ↦ ground (arith, n)
    | inr (l, f) ↦ ground (arith, f, usernames-set_entry acl l f)
  ]

pub find-remove_entry :
    (acl acl' : List AclEntry) (u q : Bytes)
    → Distinct (usernames acl)
    → remove_entry acl u ≡ some acl'
    → find_entry acl' q ≡ (if str_eq u q then none else find_entry acl q)
unfolding remove_entry find_entry
find-remove_entry [] acl' u q d h = cc
find-remove_entry (e ∷ acl) acl' u q d h = elim (Option-cases (remove_entry acl u)) [
  | inl n ↦ ground (
    arith,
    n,
    str_eq_iff e.username u,
    str_eq_iff e.username q,
    str_eq_iff u q,
    find_entry_unlisted acl e.username d.0,
  )
  | inr (l, f) ↦ ground (
    arith,
    f,
    str_eq_iff e.username u,
    str_eq_iff e.username q,
    str_eq_iff u q,
    find_entry_unlisted acl e.username d.0,
    find-remove_entry acl l u q d.1 f,
  )
]

pub remove_entry-none :
    (acl : List AclEntry) (u : Bytes) → remove_entry acl u ≡ none → find_entry acl u ≡ none
unfolding remove_entry find_entry
remove_entry-none [] u h = refl
remove_entry-none (e ∷ acl) u h = ground (arith, remove_entry-none acl u)

pub remove_entry-cons :
    (e : AclEntry) (acl acl' : List AclEntry) (u : Bytes)
    → remove_entry (e ∷ acl) u ≡ some acl'
    → (acl ≡ acl') ⊎ ((l : List AclEntry) × (remove_entry acl u ≡ some l) × (e ∷ l ≡ acl'))
unfolding remove_entry
remove_entry-cons e acl acl' u h = elim (Bool-cases (str_eq e.username u)) [
  | inl same ↦ inl (ground (arith, same))
  | inr other ↦ elim (Option-cases (remove_entry acl u)) [
    | inl n ↦ inl (ground (arith, other, n))
    | inr (l, f) ↦ inr (l, f, ground (arith, other, f))
  ]
]

pub Lacks-remove_entry :
    (acl acl' : List AclEntry) (u q : Bytes)
    → remove_entry acl u ≡ some acl'
    → Lacks q (usernames acl)
    → Lacks q (usernames acl')
unfolding remove_entry
Lacks-remove_entry [] acl' u q h l = cc
Lacks-remove_entry (e ∷ acl) acl' u q h l = elim (remove_entry-cons e acl acl' u h) [
  | inl p ↦ rw (← p) l.1
  | inr (l', f, p) ↦ rw (← p) (l.0, Lacks-remove_entry acl l' u q f l.1)
]

pub Distinct-remove_entry :
    (acl acl' : List AclEntry) (u : Bytes)
    → remove_entry acl u ≡ some acl'
    → Distinct (usernames acl)
    → Distinct (usernames acl') × (length acl' ≤ length acl)
unfolding remove_entry
Distinct-remove_entry [] acl' u h d = cc
Distinct-remove_entry (e ∷ acl) acl' u h d = elim (remove_entry-cons e acl acl' u h) [
  | inl p ↦ rw (← p) (d.1, omega arith)
  | inr (l', f, p) ↦
      let (d', le) = Distinct-remove_entry acl l' u f d.1 in
      rw (← p) ((Lacks-remove_entry acl l' u e.username f d.0, d'), omega arith)
]

pub find_entry-Lacks :
    (acl : List AclEntry) (u : Bytes) → find_entry acl u ≡ none → Lacks u (usernames acl)
unfolding find_entry
find_entry-Lacks [] u h = tt
find_entry-Lacks (e ∷ acl) u h = (
  ground (arith, str_eq_iff e.username u),
  find_entry-Lacks acl u (ground (arith, str_eq_iff e.username u)),
)

pub grow_acl-le :
    (r : FileRecord) (m : Memory) (n : ℕ)
    → (grow_acl r m).0 ≡ some n
    → length r.acl ≤ r.acl_capacity
    → length r.acl + 1 ≤ n
unfolding grow_acl
grow_acl-le r m n h f = ground arith

pub remove_entry-listed :
    (acl acl' : List AclEntry) (u : Bytes)
    → remove_entry acl u ≡ some acl'
    → find_entry acl u ≢ none
unfolding remove_entry find_entry
remove_entry-listed [] acl' u h = cc
remove_entry-listed (e ∷ acl) acl' u h = elim (Option-cases (remove_entry acl u)) [
  | inl n ↦ ground (arith, n)
  | inr (l, f) ↦ ground (arith, f, remove_entry-listed acl l u f)
]

pub usernames-append :
    (acl : List AclEntry) (e : AclEntry)
    → usernames (acl ++ e ∷ []) ≡ usernames acl ++ e.username ∷ []
usernames-append [] e = refl
usernames-append (x ∷ acl) e = ap (◌∷◌ x.username) (usernames-append acl e)
