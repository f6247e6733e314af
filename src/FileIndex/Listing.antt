-- ===== src/FileIndex/Listing.antt =====
-- The walk of file_index_get_all over the whole trie, against a plain list of its pointers.
pub mod Members
pub mod Count
use network_file_storage.Prelude.{
  ℕ, zero, suc, ◌+◌, Bool, true, false, List, [], ◌∷◌, ◌++◌, append_assoc, append-nil, Option, none,
  some, ◌≡◌, refl, ◌∙◌, sym, ap, arith, Memory, Bool-cases, leb, length, inl, inr,
}
use network_file_storage.FileIndex.{
  Trie, null, node, Collected, for_range, grow, collect_files, FileIndex, file_index_get_all,
}

abbrev pub pointers : Option ℕ → List ℕ
pointers none = []
pointers (some p) = p ∷ []

-- f first ++ f (first + 1) ++ …, for as many indices as there are rounds.
pub concat_range : ℕ → ℕ → (ℕ → List ℕ) → List ℕ
concat_range zero first f = []
concat_range (suc rounds) first f = f first ++ concat_range rounds (first + 1) f

-- The record pointers of a trie, a node before its children and the children in the order of bytes.
pub listing : Trie → List ℕ
listing null = []
listing (node r children) = pointers r ++ concat_range 256 0 (λ i. listing (children i))

-- `s'` is what a walk over the pointers `l` makes of `s` while memory never runs out.
abbrev Walks : Collected → List ℕ → Collected → Type 0
Walks s l s' = (s'.records ≡ s.records ++ l) × (s'.memory ≡ [])

for_range-Walks :
    (body : ℕ → Collected → Collected) (f : ℕ → List ℕ)
    → ((i : ℕ) (s : Collected) → s.memory ≡ [] → Walks s (f i) (body i s))
    → (rounds first : ℕ) (s : Collected) → s.memory ≡ []
    → Walks s (concat_range rounds first f) (for_range rounds first body s)
unfolding for_range concat_range
for_range-Walks body f step zero first s e = (sym (append-nil s.records), e)
for_range-Walks body f step (suc rounds) first s e =
    let (one, e') = step first s e in
    let (rest, e'') = for_range-Walks body f step rounds (first + 1) (body first s) e' in
    (
      rest
          ∙ ap (λ l. l ++ concat_range rounds (first + 1) f) one
          ∙ append_assoc s.records (f first) (concat_range rounds (first + 1) f),
      e'',
    )

grow_lem :
    (s : Collected)
    → s.memory ≡ []
    → ((grow s).0 ≡ true) × ((grow s).1.records ≡ s.records) × ((grow s).1.memory ≡ [])
unfolding grow
grow_lem s e = ground (arith, e)

collect_files-Walks :
    (t : Trie) (s : Collected) → s.memory ≡ [] → Walks s (listing t) (collect_files t s)
unfolding collect_files listing
collect_files-Walks null s e = (sym (append-nil s.records), e)
collect_files-Walks (node none children) s e =
    for_range-Walks (λ i. collect_files (children i)) (λ i. listing (children i))
      (λ i. collect_files-Walks (children i)) 256 0 s e
collect_files-Walks (node (some p) children) s e =
    let (room, kept, e') = grow_lem s e in
    let pushed : Collected = record (grow s).1 { records = (grow s).1.records ++ p ∷ [] } in
    let (rest, e'') =
      for_range-Walks (λ i. collect_files (children i)) (λ i. listing (children i))
        (λ i. collect_files-Walks (children i)) 256 0 pushed e' in
    let below = concat_range 256 0 (λ i. listing (children i)) in
    rw room
      (rest ∙ append_assoc (grow s).1.records (p ∷ []) below ∙ ap (λ l. l ++ p ∷ below) kept, e'')

-- While memory does not run out, file_index_get_all returns every record pointer of the trie, a node
-- before its children and the children in the order of their bytes.
pub get_all-listing : (index : FileIndex) → file_index_get_all index [] ≡ listing index.root
unfolding file_index_get_all
get_all-listing index =
    (collect_files-Walks index.root (record { records = []; capacity = 0; memory = [] }) refl).0
