-- ===== src/NameServer/Selection/Least.antt =====
-- The server that the loop of handle_lookup_file chooses is one of the least loaded that are alive.
use network_file_storage.Prelude.{
  ℕ, suc, ◌+◌, ◌-◌, ◌^◌, ◌≤◌, Bytes, true, false, List, [], ◌∷◌, some, ◌≡◌, refl, get_elem?,
  Option-cases, Bool-cases, inl, inr, arith, ltb,
}
use network_file_storage.NameServer.{StorageServerInfo, find_storage_server, is_alive, load_of}
use network_file_storage.NameServer.Selection.{Choice, choose, weigh, no_choice}

-- The server under an identifier is alive.
abbrev pub Alive : List StorageServerInfo → ℕ → Bytes → StorageServerInfo → Type 0
Alive servers now id info =
    (find_storage_server servers id ≡ some info) × (is_alive now info ≡ true)

-- No server that is alive among those of the list has a smaller load.
abbrev pub NoneBelow : List StorageServerInfo → ℕ → ℕ → List Bytes → Type 0
NoneBelow servers now load [] = Unit
NoneBelow servers now load (id ∷ ids) =
    ((info : StorageServerInfo) → Alive servers now id info → load ≤ load_of info)
    × NoneBelow servers now load ids

choose-le :
    (servers : List StorageServerInfo) (now i : ℕ) (ids : List Bytes) (c : Choice)
    → (choose servers now i ids c).min_load ≤ c.min_load
unfolding choose weigh
choose-le servers now i [] c = omega arith
choose-le servers now i (id ∷ ids) c =
    let rest = choose-le servers now (i + 1) ids (weigh now i (find_storage_server servers id) c) in
    elim (Option-cases (find_storage_server servers id)) [
      | inl e ↦ ground (arith, e, rest)
      | inr (info, e) ↦ ground (arith, e, rest)
    ]

choose-NoneBelow :
    (servers : List StorageServerInfo) (now i : ℕ) (ids : List Bytes) (c : Choice)
    → NoneBelow servers now (choose servers now i ids c).min_load ids
unfolding choose weigh
choose-NoneBelow servers now i [] c = tt
choose-NoneBelow servers now i (id ∷ ids) c = (
  λ info alive. ground (
    arith,
    alive.0,
    alive.1,
    choose-le servers now (i + 1) ids (weigh now i (find_storage_server servers id) c),
  ),
  choose-NoneBelow servers now (i + 1) ids (weigh now i (find_storage_server servers id) c),
)

-- A server at a place of the list, which is alive and has a load.
abbrev pub Stands : List StorageServerInfo → ℕ → List Bytes → ℕ → ℕ → Type 0
Stands servers now ids i load =
    (id : Bytes) × (info : StorageServerInfo) × (get_elem? ids i ≡ some id)
    × Alive servers now id info
    × (load_of info ≡ load)

-- What the loop knows of its choice.
abbrev Chosen : List StorageServerInfo → ℕ → List Bytes → Choice → Type 0
Chosen servers now all c = c.found_active ≡ true → Stands servers now all c.best_idx c.min_load

weigh-Chosen :
    (servers : List StorageServerInfo) (now i : ℕ) (id : Bytes) (all : List Bytes) (c : Choice)
    → get_elem? all i ≡ some id
    → Chosen servers now all c
    → Chosen servers now all (weigh now i (find_storage_server servers id) c)
unfolding weigh
weigh-Chosen servers now i id all c place h = elim (Option-cases (find_storage_server servers id)) [
  | inl e ↦ rw (e) h
  | inr (info, e) ↦ elim (Bool-cases (is_alive now info)) [
    | inr f ↦ rw (e, f) h
    | inl f ↦ elim (Bool-cases (ltb (load_of info) c.min_load)) [
      | inr g ↦ rw (e, f, g) h
      | inl g ↦ rw (e, f, g) (λ found. (id, info, place, (e, f), refl))
    ]
  ]
]

choose-Chosen :
    (servers : List StorageServerInfo) (now i : ℕ) (ids all : List Bytes) (c : Choice)
    → ((k : ℕ) (id : Bytes) → get_elem? ids k ≡ some id → get_elem? all (i + k) ≡ some id)
    → Chosen servers now all c
    → Chosen servers now all (choose servers now i ids c)
unfolding choose
choose-Chosen servers now i [] all c place h = h
choose-Chosen servers now i (id ∷ ids) all c place h =
    choose-Chosen servers now (i + 1) ids all (weigh now i (find_storage_server servers id) c)
      (λ k x e. let same : i + 1 + k ≡ i + suc k = omega arith in rw same (place (suc k) x e))
      (weigh-Chosen servers now i id all c
        (let same : i ≡ i + 0 = omega arith in rw same (place 0 id refl)) h)

choose_unfound :
    (servers : List StorageServerInfo) (now i : ℕ) (ids : List Bytes) (c : Choice)
    → (choose servers now i ids c).found_active ≡ false
    → (c.found_active ≡ false) × ((choose servers now i ids c).min_load ≡ c.min_load)
unfolding choose weigh
choose_unfound servers now i [] c h = (h, refl)
choose_unfound servers now i (id ∷ ids) c h =
    let (unfound, same) =
      choose_unfound servers now (i + 1) ids (weigh now i (find_storage_server servers id) c) h in
    elim (Option-cases (find_storage_server servers id)) [
      | inl e ↦ ground (arith, e, unfound, same)
      | inr (info, e) ↦ ground (arith, e, unfound, same)
    ]

-- When the loop of handle_lookup_file finds a server, the one it chooses is alive, stands among those
-- of the file, and none of these that is alive has a smaller load.
pub choose-least :
    (servers : List StorageServerInfo) (now : ℕ) (ids : List Bytes)
    → (choose servers now 0 ids no_choice).found_active ≡ true
    → Stands servers now ids
        (choose servers now 0 ids no_choice).best_idx
        (choose servers now 0 ids no_choice).min_load
      × NoneBelow servers now (choose servers now 0 ids no_choice).min_load ids
choose-least servers now ids h = (
  choose-Chosen servers now 0 ids ids no_choice
      (λ k id e. let same : 0 + k ≡ k = omega arith in rw same e) (λ found. cc found) h,
  choose-NoneBelow servers now 0 ids no_choice,
)

-- When it finds none, each server of the file that is alive has the greatest load of 32 bits.
pub choose_none :
    (servers : List StorageServerInfo) (now : ℕ) (ids : List Bytes)
    → (choose servers now 0 ids no_choice).found_active ≡ false
    → NoneBelow servers now (2 ^ 32 - 1) ids
choose_none servers now ids h =
    rw⁻¹ ((choose_unfound servers now 0 ids no_choice h).1)
      (choose-NoneBelow servers now 0 ids no_choice)
