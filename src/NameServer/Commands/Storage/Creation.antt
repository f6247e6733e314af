-- ===== src/NameServer/Commands/Storage/Creation.antt =====
-- The round robin of CREATE.
use native.Mathlib.Nat.{mod-add-mod, mod-eq_of_lt, mod_self, mod-lt}
use network_file_storage.Prelude.{
  ltb→lt, ℕ, zero, suc, ◌+◌, ◌%◌, ◌^◌, ◌≤◌, ◌<◌, List, [], ◌∷◌, some, ◌≡◌, ◌≢◌, refl, sym, ap, ◌∙◌,
  arith, length, get_elem?, Bool-cases, inl, inr, ltb,
}
use network_file_storage.NameServer.{StorageServerInfo, is_alive}
use network_file_storage.NameServer.Commands.Storage.{active_servers, pick_servers}

-- A number and the next one have different remainders.
remainders_apart : (n m : ℕ) → 2 ≤ m → n % m ≢ (n + 1) % m
remainders_apart n m h e =
    let q = n % m in
    let next : (q + 1) % m ≡ q = mod-add-mod n m 1 ∙ sym e in
    elim (Bool-cases (ltb (q + 1) m)) [
      | inl f ↦ omega (arith, mod-eq_of_lt (ltb→lt (q + 1) m f), next)
      | inr f ↦
          let bound : q < m = mod-lt n (omega (arith, h)) in
          let all : q + 1 ≡ m = ground (arith, f, bound) in
          let none_left : (q + 1) % m ≡ 0 = rw all (mod_self m) in
          omega (arith, h, next, all, none_left)
    ]

-- A place of a list that is not beyond its end.
get_within :
    (active : List StorageServerInfo) (i : ℕ)
    → i < length active
    → (x : StorageServerInfo) × (get_elem? active i ≡ some x)
get_within [] i h = absurd (omega (arith, h))
get_within (x ∷ active) zero h = (x, refl)
get_within (x ∷ active) (suc i) h = get_within active i (omega (arith, h))

apart :
    (next : ℕ) (active : List StorageServerInfo)
    → 2 ≤ length active
    → next + 2 < 2 ^ 32
    → (i : ℕ) × (j : ℕ) × (primary : StorageServerInfo) × (replica : StorageServerInfo) × (i ≢ j)
      × (get_elem? active i ≡ some primary)
      × (get_elem? active j ≡ some replica)
      × (pick_servers next active ≡ (some primary, some replica, next + 2))
unfolding pick_servers
apart next [] h b = absurd (omega (arith, h))
apart next (info ∷ []) h b = absurd (omega (arith, h))
apart next (info ∷ second ∷ rest) h b =
    let n = length (info ∷ second ∷ rest) in
    let next' = (next + 1) % 2 ^ 32 in
    let same : next' ≡ next + 1 = omega (arith, b) in
    let same2 : (next' + 1) % 2 ^ 32 ≡ next + 2 = omega (arith, b) in
    let (primary, p) = get_within (info ∷ second ∷ rest) (next % n) (mod-lt next (omega arith)) in
    let (replica, r) = get_within (info ∷ second ∷ rest) (next' % n) (mod-lt next' (omega arith)) in
    (
      next % n,
      next' % n,
      primary,
      replica,
      λ e. remainders_apart next n h (e ∙ ap (λ (k : ℕ). k % n) same),
      p,
      r,
      λ k. (p k, r k, same2 k),
    )

active-le :
    (room now : ℕ) (servers : List StorageServerInfo)
    → length (active_servers room now servers) ≤ room
unfolding active_servers
active-le zero now servers = omega arith
active-le (suc room) now [] = omega arith
active-le (suc room) now (info ∷ servers) =
    let taken = active-le room now servers in
    let skipped = active-le (suc room) now servers in
    elim (Bool-cases (is_alive now info)) [
      | inl e ↦ ground (arith, e, taken)
      | inr e ↦ ground (arith, e, skipped)
    ]

-- Where two servers or more are alive, CREATE picks a primary and a replica at different places of the
-- list of those alive, of which it looks at 16 at most, and the counter goes up by two; the counter
-- has 32 bits and is two or more below its end.
pub pick_servers-apart :
    (next now : ℕ) (servers : List StorageServerInfo)
    → 2 ≤ length (active_servers 16 now servers)
    → next + 2 < 2 ^ 32
    → (length (active_servers 16 now servers) ≤ 16)
      × ((i : ℕ) × (j : ℕ) × (primary : StorageServerInfo) × (replica : StorageServerInfo) × (i ≢ j)
          × (get_elem? (active_servers 16 now servers) i ≡ some primary)
          × (get_elem? (active_servers 16 now servers) j ≡ some replica)
          × (pick_servers next (active_servers 16 now servers)
              ≡ (some primary, some replica, next + 2)))
pick_servers-apart next now servers h b =
    (active-le 16 now servers, apart next (active_servers 16 now servers) h b)
