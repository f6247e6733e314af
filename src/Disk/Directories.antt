-- ===== src/Disk/Directories.antt =====
-- The fuel of ensure_dir is enough: more of it gives the same result.
use network_file_storage.Prelude.{
  ℕ, zero, suc, ◌+◌, ◌<◌, Bytes, [], ◌∷◌, some, ◌≡◌, arith, Option-cases, inl, inr, take, length,
  length-take,
}
use network_file_storage.Disk.{Disk, parent, mkdir, ensure_dir_fuel, ensure_dir}

parent-shorter : (s p : Bytes) → parent s ≡ some p → length p < length s
unfolding parent
parent-shorter [] p h = absurd (cc h)
parent-shorter (c ∷ s) p h = elim (Option-cases (parent s)) [
  | inl n ↦ ground (arith, n, h)
  | inr (q, e) ↦ ground (arith, e, h, parent-shorter s q e)
]

fuel_enough :
    (n m : ℕ) (d : Disk) (path : Bytes)
    → length path < n
    → length path < m
    → ensure_dir_fuel n d path ≡ ensure_dir_fuel m d path
unfolding ensure_dir_fuel
fuel_enough zero m d path h k = absurd (omega (arith, h))
fuel_enough (suc n) zero d path h k = absurd (omega (arith, k))
fuel_enough (suc n) (suc m) d path h k = elim (Option-cases (parent (take 4095 path))) [
  | inl e ↦ ground (arith, e)
  | inr ([], e) ↦ ground (arith, e)
  | inr (c ∷ s, e) ↦
      let shorter : length (c ∷ s) < length path =
        omega (arith, parent-shorter (take 4095 path) (c ∷ s) e, length-take 4095 path) in
      ground (
        arith,
        e,
        fuel_enough n m (mkdir d path).1 (c ∷ s) (omega (arith, shorter, h))
            (omega (arith, shorter, k)),
      )
]

-- ensure_dir has enough fuel: with any more of it the result is the same.
pub ensure_dir_fuel-ensure_dir :
    (more : ℕ) (d : Disk) (path : Bytes)
    → ensure_dir_fuel (length path + 1 + more) d path ≡ ensure_dir d path
unfolding ensure_dir
ensure_dir_fuel-ensure_dir more d path =
    fuel_enough (length path + 1 + more) (length path + 1) d path (omega arith) (omega arith)
