-- ===== src/FileIndex/Paths.antt =====
-- The walks of the trie: what a lookup reads after a path is created or a record pointer is set.
use network_file_storage.Prelude.{
  ℕ, Bytes, Bool, true, false, if◌then◌else◌, [], ◌∷◌, Option, none, some, ◌≡◌, refl, arith, Memory,
  alloc, str_eq, ◌⊎◌, inl, inr,
}
use network_file_storage.FileIndex.{
  Trie, null, node, trie_node_create, create_path, find_record, set_record,
}

pub find-null-node : (s : Bytes) → find_record (node none (λ _. null)) s ≡ none
unfolding find_record
find-null-node [] = refl
find-null-node (c ∷ s) = refl

pub Trie-cases : (t : Trie) → (t ≡ null) ⊎ ((r : Option ℕ) × (ch : ℕ → Trie) × (t ≡ node r ch))
Trie-cases null = inl refl
Trie-cases (node r ch) = inr (r, ch, refl)

-- Creating a path, whether the walk reaches its end or memory runs out, changes no lookup.
pub find-create_path :
    (t : Trie) (s : Bytes) (m : Memory) (q : Bytes)
    → find_record (create_path t s m).0 q ≡ find_record t q
unfolding create_path find_record
find-create_path null s m q = refl
find-create_path (node r ch) [] m q = refl
find-create_path (node r ch) (c ∷ s) m [] = ground arith
find-create_path (node r ch) (c ∷ s) m (d ∷ q) = elim (Trie-cases (ch c)) [
  | inl e ↦ ground (arith, e, find-create_path trie_node_create s (alloc m).1 q, find-null-node q)
  | inr (r', ch', e) ↦ ground (arith, e, find-create_path (node r' ch') s m q)
]

-- The walk along `s` meets no null child.
unfoldable pub has_path : Trie → Bytes → Bool
has_path null s = false
has_path (node r ch) [] = true
has_path (node r ch) (c ∷ s) = has_path (ch c) s

pub has_path-create_path :
    (t : Trie) (s : Bytes) (m : Memory)
    → (create_path t s m).1 ≡ true
    → has_path (create_path t s m).0 s ≡ true
unfolding create_path has_path
has_path-create_path null s m h = cc
has_path-create_path (node r ch) [] m h = refl
has_path-create_path (node r ch) (c ∷ s) m h = elim (Trie-cases (ch c)) [
  | inl e ↦ ground (arith, e, has_path-create_path trie_node_create s (alloc m).1)
  | inr (r', ch', e) ↦ ground (arith, e, has_path-create_path (node r' ch') s m)
]

pub has_path_of_find :
    (t : Trie) (s : Bytes) (p : ℕ) → find_record t s ≡ some p → has_path t s ≡ true
unfolding find_record has_path
has_path_of_find null s p h = cc
has_path_of_find (node r ch) [] p h = refl
has_path_of_find (node r ch) (c ∷ s) p h = has_path_of_find (ch c) s p h

-- At the end of a walk that meets no null child, the pointer that is set is what a lookup of that
-- name reads, and no lookup of another name changes.
pub find-set_record :
    (t : Trie) (s : Bytes) (r : Option ℕ) (q : Bytes)
    → has_path t s ≡ true
    → find_record (set_record t s r) q ≡ (if str_eq s q then r else find_record t q)
unfolding set_record find_record str_eq has_path
find-set_record null s r q h = cc
find-set_record (node r' ch) [] r [] h = refl
find-set_record (node r' ch) [] r (c ∷ q) h = refl
find-set_record (node r' ch) (a ∷ s) r [] h = refl
find-set_record (node r' ch) (a ∷ s) r (c ∷ q) h = ground (arith, find-set_record (ch a) s r q h)
