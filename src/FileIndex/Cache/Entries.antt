-- ===== src/FileIndex/Cache/Entries.antt =====
-- The list of cache entries: what unlinking an entry and dropping the tail leave.
use network_file_storage.Prelude.{
  ◌+◌, ◌-◌, Bytes, Lacks, Distinct, All, str_eq, str_eq_iff, List, [], ◌∷◌, none, some, ◌≡◌, ◌≢◌,
  ◌⊎◌, arith, length, Option-cases, Bool-cases, inl, inr,
}
use mathlib.Core.Path.{subst}
use network_file_storage.FileIndex.Cache.{CacheEntry, unlink, drop_tail}

abbrev pub names : List CacheEntry → List Bytes
names [] = []
names (e ∷ entries) = e.filename ∷ names entries

-- The parts of a list around the entry that unlinking finds.
pub unlink_found :
    (l : List CacheEntry) (name : Bytes) (e : CacheEntry) (rest : List CacheEntry)
    → unlink l name ≡ some (e, rest)
    → (e.filename ≡ name) × (length rest + 1 ≡ length l)
unfolding unlink
unlink_found [] name e rest h = cc
unlink_found (x ∷ l) name e rest h = elim (Option-cases (unlink l name)) [
  | inl n ↦ ground (arith, n, str_eq_iff x.filename name)
  | inr ((e', rest'), f) ↦
      ground (arith, f, str_eq_iff x.filename name, unlink_found l name e' rest' f)
]

pub unlink-none-Lacks :
    (l : List CacheEntry) (name : Bytes) → unlink l name ≡ none → Lacks name (names l)
unfolding unlink
unlink-none-Lacks [] name h = tt
unlink-none-Lacks (x ∷ l) name h = (
  ground (arith, str_eq_iff x.filename name),
  unlink-none-Lacks l name (ground (arith, str_eq_iff x.filename name)),
)

unlink-cons :
    (x : CacheEntry) (l : List CacheEntry) (name : Bytes) (e : CacheEntry) (rest : List CacheEntry)
    → unlink (x ∷ l) name ≡ some (e, rest)
    → ((x ≡ e) × (l ≡ rest) × (x.filename ≡ name))
      ⊎ ((r : List CacheEntry) × (unlink l name ≡ some (e, r))
          × (x ∷ r ≡ rest)
          × (x.filename ≢ name))
unfolding unlink
unlink-cons x l name e rest h = elim (Bool-cases (str_eq x.filename name)) [
  | inl same ↦ inl (ground (arith, same), ground (arith, same), (str_eq_iff x.filename name).0 same)
  | inr other ↦ elim (Option-cases (unlink l name)) [
    | inl n ↦ absurd (ground (arith, other, n))
    | inr ((e', r), f) ↦ inr (
      r,
      ground (arith, other, f),
      ground (arith, other, f),
      ground (arith, other, str_eq_iff x.filename name),
    )
  ]
]

-- What holds of every entry holds of the one that is unlinked and of the others.
pub All-unlink {ℓ} :
    (P : CacheEntry → Type ℓ) (l : List CacheEntry) (name : Bytes) (e : CacheEntry)
    (rest : List CacheEntry)
    → unlink l name ≡ some (e, rest)
    → All P l
    → P e × All P rest
unfolding unlink
All-unlink P [] name e rest h a = cc
All-unlink P (x ∷ l) name e rest h a = elim (unlink-cons x l name e rest h) [
  | inl (p, q, _) ↦ (subst P p a.0, subst (All P) q a.1)
  | inr (r, f, q, _) ↦
      let (pe, pr) = All-unlink P l name e r f a.1 in (pe, subst (All P) q (a.0, pr))
]

pub Lacks-unlink :
    (l : List CacheEntry) (name other : Bytes) (e : CacheEntry) (rest : List CacheEntry)
    → unlink l name ≡ some (e, rest)
    → Lacks other (names l)
    → Lacks other (names rest)
unfolding unlink
Lacks-unlink [] name other e rest h a = cc
Lacks-unlink (x ∷ l) name other e rest h a = elim (unlink-cons x l name e rest h) [
  | inl (p, q, _) ↦ rw (← q) a.1
  | inr (r, f, q, _) ↦ rw (← q) (a.0, Lacks-unlink l name other e r f a.1)
]

-- Where no name stands twice, the unlinked name is gone from the rest.
pub Distinct-unlink :
    (l : List CacheEntry) (name : Bytes) (e : CacheEntry) (rest : List CacheEntry)
    → unlink l name ≡ some (e, rest)
    → Distinct (names l)
    → Distinct (names rest) × Lacks name (names rest)
unfolding unlink
Distinct-unlink [] name e rest h a = cc
Distinct-unlink (x ∷ l) name e rest h a = elim (unlink-cons x l name e rest h) [
  | inl (p, q, n) ↦ rw (← q) (a.1, rw (← n) a.0)
  | inr (r, f, q, n) ↦
      let (d, k) = Distinct-unlink l name e r f a.1 in
      rw (← q) ((Lacks-unlink l name x.filename e r f a.0, d), (n, k))
]

pub All-drop_tail {ℓ} :
    (P : CacheEntry → Type ℓ) (l : List CacheEntry) → All P l → All P (drop_tail l)
unfolding drop_tail
All-drop_tail P [] a = tt
All-drop_tail P (x ∷ []) a = tt
All-drop_tail P (x ∷ y ∷ l) a = (a.0, All-drop_tail P (y ∷ l) a.1)

pub Lacks-drop_tail :
    (l : List CacheEntry) (name : Bytes) → Lacks name (names l) → Lacks name (names (drop_tail l))
unfolding drop_tail
Lacks-drop_tail [] name a = tt
Lacks-drop_tail (x ∷ []) name a = tt
Lacks-drop_tail (x ∷ y ∷ l) name a = (a.0, Lacks-drop_tail (y ∷ l) name a.1)

pub Distinct-drop_tail : (l : List CacheEntry) → Distinct (names l) → Distinct (names (drop_tail l))
unfolding drop_tail
Distinct-drop_tail [] a = tt
Distinct-drop_tail (x ∷ []) a = tt
Distinct-drop_tail (x ∷ y ∷ l) a =
    (Lacks-drop_tail (y ∷ l) x.filename a.0, Distinct-drop_tail (y ∷ l) a.1)

pub length-drop_tail : (l : List CacheEntry) → length (drop_tail l) ≡ length l - 1
unfolding drop_tail
length-drop_tail [] = omega arith
length-drop_tail (x ∷ []) = omega arith
length-drop_tail (x ∷ y ∷ l) = omega (arith, length-drop_tail (y ∷ l))
