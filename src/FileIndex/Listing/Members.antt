-- ===== src/FileIndex/Listing/Members.antt =====
-- The pointers in the listing are those that a lookup finds.
use network_file_storage.Prelude.{
  ℕ, zero, suc, ◌+◌, ◌≤◌, ◌<◌, Bytes, IsByte, All, List, [], ◌∷◌, ◌++◌, Option, none, some, ◌≡◌,
  ◌⊎◌, inl, inr, arith, ◌↔◌, ap,
}
use native.Mathlib.Decide.{ℕ_discrete}
use network_file_storage.FileIndex.{
  Trie, null, node, find_record, FileIndex, file_index_get_all, file_index_lookup,
}
use network_file_storage.FileIndex.Listing.{pointers, concat_range, listing, get_all-listing}

abbrev pub Occurs : ℕ → List ℕ → Type 0
Occurs p [] = ⊥
Occurs p (x ∷ xs) = (x ≡ p) ⊎ Occurs p xs

Occurs-append_left : (p : ℕ) (xs ys : List ℕ) → Occurs p xs → Occurs p (xs ++ ys)
Occurs-append_left p [] ys h = elim h [ ]
Occurs-append_left p (x ∷ xs) ys (inl e) = inl e
Occurs-append_left p (x ∷ xs) ys (inr h) = inr (Occurs-append_left p xs ys h)

Occurs-append_right : (p : ℕ) (xs ys : List ℕ) → Occurs p ys → Occurs p (xs ++ ys)
Occurs-append_right p [] ys h = h
Occurs-append_right p (x ∷ xs) ys h = inr (Occurs-append_right p xs ys h)

Occurs-append_cases : (p : ℕ) (xs ys : List ℕ) → Occurs p (xs ++ ys) → Occurs p xs ⊎ Occurs p ys
Occurs-append_cases p [] ys h = inr h
Occurs-append_cases p (x ∷ xs) ys (inl e) = inl (inl e)
Occurs-append_cases p (x ∷ xs) ys (inr h) = elim (Occurs-append_cases p xs ys h) [
  | inl l ↦ inl (inr l)
  | inr r ↦ inr r
]

Occurs-concat_range :
    (p rounds first i : ℕ) (f : ℕ → List ℕ)
    → first ≤ i
    → i < first + rounds
    → Occurs p (f i)
    → Occurs p (concat_range rounds first f)
unfolding concat_range
Occurs-concat_range p zero first i f lo hi h = absurd (omega arith)
Occurs-concat_range p (suc rounds) first i f lo hi h = elim (ℕ_discrete first i) [
  | yes e ↦ Occurs-append_left p (f first) _ (rw e h)
  | no d ↦
      Occurs-append_right p (f first) _
        (Occurs-concat_range p rounds (first + 1) i f (omega arith) (omega arith) h)
]

concat_range-Occurs :
    (p rounds first : ℕ) (f : ℕ → List ℕ)
    → Occurs p (concat_range rounds first f)
    → (i : ℕ) × (i < first + rounds) × Occurs p (f i)
unfolding concat_range
concat_range-Occurs p zero first f h = elim h [ ]
concat_range-Occurs p (suc rounds) first f h =
    elim (Occurs-append_cases p (f first) (concat_range rounds (first + 1) f) h) [
      | inl l ↦ (first, omega arith, l)
      | inr r ↦ let (i, lt, o) = concat_range-Occurs p rounds (first + 1) f r in (i, omega arith, o)
    ]

Occurs-listing :
    (t : Trie) (name : Bytes) (p : ℕ)
    → All IsByte name
    → find_record t name ≡ some p
    → Occurs p (listing t)
unfolding listing find_record
Occurs-listing null name p b h = cc
Occurs-listing (node none children) [] p b h = cc
Occurs-listing (node (some q) children) [] p b h = inl (ground arith)
Occurs-listing (node r children) (c ∷ s) p b h = Occurs-append_right p (pointers r) _ (
    Occurs-concat_range p 256 0 c _ (omega arith) (omega arith)
      (Occurs-listing (children c) s p b.1 h))

listing-Occurs :
    (t : Trie) (p : ℕ)
    → Occurs p (listing t)
    → (name : Bytes) × All IsByte name × (find_record t name ≡ some p)
unfolding listing find_record
listing-Occurs null p h = elim h [ ]
listing-Occurs (node r children) p h = elim (Occurs-append_cases p (pointers r) _ h) [
  | inl l ↦ ([], tt, here r l)
  | inr o ↦
      let (i, lt, o') = concat_range-Occurs p 256 0 (λ i. listing (children i)) o in
      let (s, b, e) = listing-Occurs (children i) p o' in (i ∷ s, (omega arith, b), e)
]
  where
    here : (r : Option ℕ) → Occurs p (pointers r) → r ≡ some p
    here none l = elim l [ ]
    here (some q) (inl e) = ap some e
    here (some q) (inr l) = elim l [ ]

-- A pointer is in the result of file_index_get_all, while memory does not run out, exactly if
-- file_index_lookup returns it for some name.
pub found_iff_listed :
    (index : FileIndex) (p : ℕ)
    → Occurs p (file_index_get_all index [])
      ↔ ((name : Bytes) × All IsByte name × (file_index_lookup index name ≡ some p))
unfolding file_index_lookup
found_iff_listed index p =
    rw get_all-listing (listing-Occurs index.root p, λ h. Occurs-listing index.root h.0 p h.1 h.2)
