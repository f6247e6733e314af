-- ===== src/Disk/Nodes.antt =====
-- What is read from the disk after a node is written or removed, and that making directories changes
-- no file.
use network_file_storage.Prelude.{
  ℕ, zero, suc, Bytes, str_eq, str_eq_iff, if◌then◌else◌, [], ◌∷◌, Option, none, some, ◌≡◌, refl,
  arith, Option-cases, inl, inr, take, length, ◌+◌,
}
use network_file_storage.Disk.{
  Node, dir, file, Nodes, lookup, insert, remove, Disk, attempt, at, parent, mkdir, ensure_dir_fuel,
  ensure_dir, ensure_parent_dir,
}

pub lookup-insert :
    (p q : Bytes) (n : Node) (nodes : Nodes)
    → lookup q (insert p n nodes) ≡ (if str_eq p q then some n else lookup q nodes)
unfolding lookup insert
lookup-insert p q n [] = refl
lookup-insert p q n ((r, k) ∷ nodes) =
    ground (arith, str_eq_iff p q, str_eq_iff r p, str_eq_iff r q, lookup-insert p q n nodes)

pub lookup-remove :
    (p q : Bytes) (nodes : Nodes)
    → lookup q (remove p nodes) ≡ (if str_eq p q then none else lookup q nodes)
unfolding lookup remove
lookup-remove p q [] = ground arith
lookup-remove p q ((r, k) ∷ nodes) =
    ground (arith, str_eq_iff p q, str_eq_iff r p, str_eq_iff r q, lookup-remove p q nodes)

pub nodes-attempt : (d : Disk) → ((attempt d).1.nodes ≡ d.nodes) × ((attempt d).1.suffix ≡ d.suffix)
unfolding attempt
nodes-attempt d = ground arith

abbrev pub bytes_of : Option Node → Option Bytes
bytes_of (some (file b)) = some b
bytes_of _ = none

-- The bytes of the file at a path.
abbrev pub contents : Disk → Bytes → Option Bytes
contents d path = bytes_of (at d path)

contents-mkdir : (d : Disk) (path q : Bytes) → contents (mkdir d path).1 q ≡ contents d q
unfolding mkdir
contents-mkdir d path q =
    ground (arith, nodes-attempt d, lookup-insert path q dir d.nodes, str_eq_iff path q)

contents-ensure_dir_fuel :
    (fuel : ℕ) (d : Disk) (path q : Bytes)
    → contents (ensure_dir_fuel fuel d path).1 q ≡ contents d q
unfolding ensure_dir_fuel
contents-ensure_dir_fuel zero d path q = refl
contents-ensure_dir_fuel (suc fuel) d path q = elim (Option-cases (parent (take 4095 path))) [
  | inl e ↦ ground (arith, e, contents-mkdir d path q)
  | inr ([], e) ↦ ground (arith, e, contents-mkdir d path q)
  | inr (c ∷ s, e) ↦
      let d1 = (mkdir d path).1 in
      let d2 = (ensure_dir_fuel fuel d1 (c ∷ s)).1 in
      ground (
        arith,
        e,
        contents-mkdir d path q,
        contents-ensure_dir_fuel fuel d1 (c ∷ s) q,
        contents-mkdir d2 path q,
      )
]

pub contents-ensure_dir :
    (d : Disk) (path q : Bytes) → contents (ensure_dir d path).1 q ≡ contents d q
unfolding ensure_dir
contents-ensure_dir d path q = contents-ensure_dir_fuel (length path + 1) d path q

pub contents-ensure_parent_dir :
    (d : Disk) (path q : Bytes) → contents (ensure_parent_dir d path).1 q ≡ contents d q
unfolding ensure_parent_dir
contents-ensure_parent_dir d path q = elim (Option-cases (parent (take 4095 path))) [
  | inl e ↦ ground (arith, e)
  | inr ([], e) ↦ ground (arith, e)
  | inr (c ∷ s, e) ↦ ground (arith, e, contents-ensure_dir d (c ∷ s) q)
]
