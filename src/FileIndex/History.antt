-- ===== src/FileIndex/History.antt =====
-- The index over any sequence of calls, against a function from names to records.
use mathlib.Core.Path.{fun_ext}
use network_file_storage.Prelude.{
  ℕ, Bytes, IsByte, All, List, [], ◌∷◌, Option, none, some, ◌≡◌, refl, arith, str_eq, if◌then◌else◌,
  true, length, ◌∙◌, sym, ap, inl, inr,
}
use network_file_storage.FileIndex.{
  Trie, null, node, trie_node_create, create_path, set_record, FileIndex, FileRecord, ok, add_at,
  file_index_init, file_index_add, file_index_lookup, file_index_remove, file_index_get_all,
}
use network_file_storage.FileIndex.Paths.{Trie-cases, find-null-node, has_path}
use network_file_storage.FileIndex.Records.{IsSound, view, added, view-add, IsSound-add}
use network_file_storage.FileIndex.Removal.{view-remove, IsSound-remove}
use network_file_storage.FileIndex.Listing.{get_all-listing}
use network_file_storage.FileIndex.Listing.Count.{
  size_new, CountsFiles, CountsFiles-add, CountsFiles-remove,
}

pub data Call : Type 0 where
  add : Bytes → Bytes → Bytes → ℕ → Call
  remove : Bytes → Call

abbrev pub name_of : Call → Bytes
name_of (add name owner ss_id now) = name
name_of (remove name) = name

-- The calls in turn, while memory does not run out.
unfoldable pub run : List Call → FileIndex → FileIndex
run [] index = index
run (add name owner ss_id now ∷ calls) index =
    run calls (file_index_add index name owner ss_id now []).0
run (remove name ∷ calls) index = run calls (file_index_remove index name).0

-- The same calls on a function.
abbrev pub View : Type 0
View = Bytes → Option FileRecord

pub replay : List Call → View → View
replay [] f = f
replay (add name owner ss_id now ∷ calls) f =
    replay calls (λ q. if str_eq name q then some (added (f name) name owner ss_id now) else f q)
replay (remove name ∷ calls) f = replay calls (λ q. if str_eq name q then none else f q)

-- The root is a node.
abbrev IsRooted : Trie → Type 0
IsRooted t = has_path t [] ≡ true

create_path_ok :
    (t : Trie) (s : Bytes)
    → IsRooted t
    → ((create_path t s []).1 ≡ true) × ((create_path t s []).2 ≡ [])
unfolding create_path has_path
create_path_ok null s h = cc
create_path_ok (node r ch) [] h = (refl, refl)
create_path_ok (node r ch) (c ∷ s) h = elim (Trie-cases (ch c)) [
  | inl e ↦ ground (arith, e, create_path_ok trie_node_create s refl)
  | inr (r', ch', e) ↦ ground (arith, e, create_path_ok (node r' ch') s refl)
]

IsRooted-create_path : (t : Trie) (s : Bytes) → IsRooted t → IsRooted (create_path t s []).0
unfolding create_path has_path
IsRooted-create_path null s h = h
IsRooted-create_path (node r ch) [] h = refl
IsRooted-create_path (node r ch) (c ∷ s) h = elim (Trie-cases (ch c)) [
  | inl e ↦ ground (arith, e)
  | inr (r', ch', e) ↦ ground (arith, e)
]

IsRooted-set_record :
    (t : Trie) (s : Bytes) (r : Option ℕ) → IsRooted t → IsRooted (set_record t s r)
unfolding set_record has_path
IsRooted-set_record null s r h = h
IsRooted-set_record (node r' ch) [] r h = refl
IsRooted-set_record (node r' ch) (c ∷ s) r h = refl

module _ (index : FileIndex) (name : Bytes) (rooted : IsRooted index.root) where
  -- While memory does not run out, file_index_add returns 0.
  pub add_ok :
      (owner ss_id : Bytes) (now : ℕ) → (file_index_add index name owner ss_id now []).1 ≡ ok
  unfolding file_index_add add_at
  add_ok owner ss_id now = ground (arith, create_path_ok index.root name rooted)

  IsRooted-add :
      (owner ss_id : Bytes) (now : ℕ)
      → IsRooted (file_index_add index name owner ss_id now []).0.root
  unfolding file_index_add add_at
  IsRooted-add owner ss_id now = ground (
    arith,
    create_path_ok index.root name rooted,
    IsRooted-create_path index.root name rooted,
    IsRooted-set_record (create_path index.root name []).0 name (some index.next),
  )

  IsRooted-remove : IsRooted (file_index_remove index name).0.root
  unfolding file_index_remove
  IsRooted-remove = ground (arith, IsRooted-set_record index.root name none rooted)

-- What holds of every index that calls can build.
pub record IsValid (index : FileIndex) : Type 0 where
  pub sound : IsSound index
  pub counted : CountsFiles index
  pub rooted : has_path index.root [] ≡ true

-- The names are strings of bytes.
abbrev pub ByteNames : List Call → Type 0
ByteNames = All (λ c. All IsByte (name_of c))

replay_cong :
    (calls : List Call) (f g : View)
    → ((q : Bytes) → f q ≡ g q)
    → (q : Bytes) → replay calls f q ≡ replay calls g q
replay_cong calls f g h q = ap (λ k. replay calls k q) (fun_ext h)

-- From a valid index, file_index_add and file_index_remove in any order lead to a valid index, whose
-- file_count is the number of the records that file_index_get_all returns, and in which every name
-- leads to the record that the same calls on a function from names to records give it.
pub run_refines :
    (calls : List Call) (index : FileIndex)
    → IsValid index
    → ByteNames calls
    → IsValid (run calls index)
      × ((run calls index).file_count ≡ length (file_index_get_all (run calls index) []))
      × ((q : Bytes) → view (run calls index) q ≡ replay calls (view index) q)
unfolding run replay
run_refines [] index v b = (v, v.counted ∙ ap length (sym (get_all-listing index)), λ q. refl)
run_refines (add name owner ss_id now ∷ calls) index v b =
    let result = (file_index_add index name owner ss_id now []).0 in
    let good = add_ok index name v.rooted owner ss_id now in
    let (v', c, e) =
      run_refines calls result
        (record {
          sound = IsSound-add index name owner ss_id now [] v.sound;
          counted = CountsFiles-add index name b.0 v.counted owner ss_id now [];
          rooted = IsRooted-add index name v.rooted owner ss_id now;
        })
        b.1 in
    (
      v',
      c,
      λ q.
          e q
          ∙ replay_cong calls _ _ (λ q'. view-add index name owner ss_id now [] q' v.sound good) q,
    )
run_refines (remove name ∷ calls) index v b =
    let (v', c, e) =
      run_refines calls (file_index_remove index name).0
        (record {
          sound = IsSound-remove index name v.sound;
          counted = CountsFiles-remove index name b.0 v.counted;
          rooted = IsRooted-remove index name v.rooted;
        })
        b.1 in
    (v', c, λ q. e q ∙ replay_cong calls _ _ (λ q'. (view-remove index name q' v.sound).0) q)

abbrev pub initial : FileIndex
initial = record { root = trie_node_create; file_count = 0; heap = λ _. none; next = 0 }

init_lem : file_index_init [] ≡ (some initial, [])
unfolding file_index_init
init_lem = refl

pub initial-IsValid : IsValid initial
unfolding has_path
initial-IsValid = record {
  sound = record {
    live = λ name p h. cc (find-null-node name);
    fresh = λ name p h. cc (find-null-node name);
    unshared = λ name other p h h'. cc (find-null-node name);
  };
  counted = sym size_new;
  rooted = refl;
}

view-initial : (q : Bytes) → view initial q ≡ none
unfolding file_index_lookup
view-initial q = rw find-null-node

-- The index that file_index_init makes, after any file_index_add and file_index_remove, leads every
-- name to the record that the same calls on the empty function from names to records give it, and
-- file_count is the number of the records that file_index_get_all returns. Memory does not run out.
pub run-initial_refines :
    (calls : List Call)
    → ByteNames calls
    → (file_index_init [] ≡ (some initial, []))
      × ((run calls initial).file_count ≡ length (file_index_get_all (run calls initial) []))
      × ((q : Bytes) → view (run calls initial) q ≡ replay calls (λ _. none) q)
run-initial_refines calls b =
    let (_, c, e) = run_refines calls initial initial-IsValid b in
    (init_lem, c, λ q. e q ∙ replay_cong calls _ _ view-initial q)
