-- ===== src/FileIndex/Listing/Count.antt =====
-- `file_count` against the number of records in the trie.
use native.Mathlib.Decide.{ℕ_discrete}
use network_file_storage.Prelude.{
  ℕ, zero, suc, ◌+◌, ◌≤◌, ◌<◌, Bytes, IsByte, All, List, [], ◌∷◌, Option, none, some, ◌≡◌, ◌≢◌,
  refl, inl, inr, arith, length, length-append, Memory, alloc, Option-cases, true,
}
use network_file_storage.FileIndex.{
  Trie, null, node, trie_node_create, create_path, find_record, set_record, update, FileIndex,
  file_index_add, file_index_remove, add_at,
}
use network_file_storage.FileIndex.Paths.{
  Trie-cases, has_path, has_path-create_path, has_path_of_find,
}
use network_file_storage.FileIndex.Listing.{pointers, concat_range, listing}

-- The number of records below a node.
abbrev pub size : Trie → ℕ
size t = length (listing t)

abbrev count : Option ℕ → ℕ
count r = length (pointers r)

sum_range : ℕ → ℕ → (ℕ → ℕ) → ℕ
sum_range zero first g = 0
sum_range (suc rounds) first g = g first + sum_range rounds (first + 1) g

length-concat_range :
    (rounds first : ℕ) (f : ℕ → List ℕ)
    → length (concat_range rounds first f) ≡ sum_range rounds first (λ i. length (f i))
unfolding concat_range sum_range
length-concat_range zero first f = refl
length-concat_range (suc rounds) first f = omega (
  arith,
  length-append (f first) (concat_range rounds (first + 1) f),
  length-concat_range rounds (first + 1) f,
)

sum_range_same :
    (rounds first : ℕ) (g g' : ℕ → ℕ)
    → ((i : ℕ) → first ≤ i → g i ≡ g' i)
    → sum_range rounds first g ≡ sum_range rounds first g'
unfolding sum_range
sum_range_same zero first g g' h = refl
sum_range_same (suc rounds) first g g' h = omega (
  arith,
  h first (omega arith),
  sum_range_same rounds (first + 1) g g' (λ i le. h i (omega arith)),
)

-- Two sums that differ at one place of the range.
sum_range_differ :
    (rounds first c : ℕ) (g g' : ℕ → ℕ)
    → first ≤ c
    → c < first + rounds
    → ((i : ℕ) → i ≢ c → g i ≡ g' i)
    → sum_range rounds first g + g' c ≡ sum_range rounds first g' + g c
unfolding sum_range
sum_range_differ zero first c g g' lo hi h = absurd (omega arith)
sum_range_differ (suc rounds) first c g g' lo hi h = elim (ℕ_discrete first c) [
  | yes e ↦ rw e (omega (arith, sum_range_same rounds (c + 1) g g' (λ i le. h i (omega arith))))
  | no d ↦
      omega
        (arith, h first d, sum_range_differ rounds (first + 1) c g g' (omega arith) (omega arith) h)
]

size-node :
    (r : Option ℕ) (children : ℕ → Trie)
    → size (node r children) ≡ count r + sum_range 256 0 (λ i. size (children i))
unfolding listing
size-node r children = omega (
  arith,
  length-append (pointers r) (concat_range 256 0 (λ i. listing (children i))),
  length-concat_range 256 0 (λ i. listing (children i)),
)

-- Replacing one child changes the size by that child's change.
size-update :
    (r : Option ℕ) (children : ℕ → Trie) (c : ℕ) (t : Trie)
    → IsByte c
    → size (node r (update children c t)) + size (children c) ≡ size (node r children) + size t
size-update r children c t b = omega (
  arith,
  size-node r children,
  size-node r (update children c t),
  sum_range_differ 256 0 c (λ i. size (update children c t i)) (λ i. size (children i))
      (omega arith) (omega arith) (λ i d. ground (arith, d)),
  here,
)
  where
    here : size (update children c t c) ≡ size t
    here = ground arith

sum_range-zero : (rounds first : ℕ) → sum_range rounds first (λ _. 0) ≡ 0
unfolding sum_range
sum_range-zero zero first = refl
sum_range-zero (suc rounds) first = omega (arith, sum_range-zero rounds (first + 1))

size-null : size null ≡ 0
unfolding listing
size-null = refl

pub size_new : size trie_node_create ≡ 0
size_new = omega (
  arith,
  size-node none (λ _. null),
  sum_range-zero 256 0,
  sum_range_same 256 0 (λ _. size null) (λ _. 0) (λ _ _. size-null),
)

size-create_path :
    (t : Trie) (s : Bytes) (m : Memory) → All IsByte s → size (create_path t s m).0 ≡ size t
unfolding create_path
size-create_path null s m b = refl
size-create_path (node r ch) [] m b = refl
size-create_path (node r ch) (c ∷ s) m b = elim (Trie-cases (ch c)) [
  | inl e ↦ ground (
    arith,
    e,
    size-null,
    size_new,
    size-update r ch c (create_path trie_node_create s (alloc m).1).0 b.0,
    size-create_path trie_node_create s (alloc m).1 b.1,
  )
  | inr (r', ch', e) ↦ ground (
    arith,
    e,
    size-update r ch c (create_path (node r' ch') s m).0 b.0,
    size-create_path (node r' ch') s m b.1,
  )
]

size-set_record :
    (t : Trie) (s : Bytes) (r : Option ℕ)
    → All IsByte s
    → has_path t s ≡ true
    → size (set_record t s r) + count (find_record t s) ≡ size t + count r
unfolding set_record find_record has_path
size-set_record null s r b h = cc
size-set_record (node r' ch) [] r b h = omega (arith, size-node r' ch, size-node r ch)
size-set_record (node r' ch) (c ∷ s) r b h =
    omega (arith, size-update r' ch c (set_record (ch c) s r) b.0, size-set_record (ch c) s r b.1 h)

-- `file_count` is the number of records in the trie.
abbrev pub CountsFiles : FileIndex → Type 0
CountsFiles index = index.file_count ≡ size index.root

module _ (index : FileIndex) (name : Bytes) (bytes : All IsByte name)
    (counted : CountsFiles index) where
  pub CountsFiles-add :
      (owner ss_id : Bytes) (now : ℕ) (m : Memory)
      → CountsFiles (file_index_add index name owner ss_id now m).0
  unfolding file_index_add add_at
  CountsFiles-add owner ss_id now m = ground (
    arith,
    size-create_path index.root name m bytes,
    has_path-create_path index.root name m,
    size-set_record (create_path index.root name m).0 name (some index.next) bytes,
  )

  pub CountsFiles-remove : CountsFiles (file_index_remove index name).0
  unfolding file_index_remove
  CountsFiles-remove = elim (Option-cases (find_record index.root name)) [
    | inl e ↦ ground (arith, e)
    | inr (p, e) ↦
        ground (
          arith,
          e,
          has_path_of_find index.root name p e,
          size-set_record index.root name none bytes,
        )
  ]
