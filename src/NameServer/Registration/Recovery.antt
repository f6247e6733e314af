-- ===== src/NameServer/Registration/Recovery.antt =====
-- The requests to copy that a storage server gets when it registers.
use mathlib.Core.Path.{subst}
use network_file_storage.Prelude.{
  str_eq_refl, sym, ℕ, Bytes, true, List, [], ◌∷◌, some, ◌≡◌, ◌≢◌, refl, ap, ◌∙◌, arith, All,
  str_eq, str_eq_iff, Bool-cases, Option-cases, inl, inr,
}
use network_file_storage.Protocol.{replicate_file}
use network_file_storage.FileIndex.{FileRecord, record_at, has_ss}
use network_file_storage.NameServer.{
  NmState, Reply, sent, StorageServerInfo, find_storage_server, is_alive,
}
use network_file_storage.NameServer.Registration.{find_source, recovery, replicate_text}

-- A server among those of a file, other than one, which is alive.
abbrev pub Source : NmState → ℕ → Bytes → List Bytes → StorageServerInfo → Type 0
Source state now ss_id ids source =
    (id : Bytes) × (has_ss ids id ≡ true)
    × (id ≢ ss_id)
    × (find_storage_server state.servers id ≡ some source)
    × (is_alive now source ≡ true)

-- A request to copy a file that the server holds from another one that holds it and is alive.
abbrev pub Copy : NmState → ℕ → Bytes → Reply → Type 0
Copy state now ss_id reply =
    (p : ℕ) × (r : FileRecord) × (source : StorageServerInfo) × (reply
      ≡ sent replicate_file (replicate_text r source))
    × (record_at state.file_index (some p) ≡ some r)
    × (has_ss r.ss_ids ss_id ≡ true)
    × Source state now ss_id r.ss_ids source

has_ss-cons : (x id : Bytes) (ids : List Bytes) → has_ss ids id ≡ true → has_ss (x ∷ ids) id ≡ true
unfolding has_ss
has_ss-cons x id ids h = ground (arith, h)

has_ss-head : (id : Bytes) (ids : List Bytes) → has_ss (id ∷ ids) id ≡ true
unfolding has_ss
has_ss-head id ids = ground (arith, str_eq_refl id)

later-Source :
    (state : NmState) (now : ℕ) (ss_id x : Bytes) (ids : List Bytes) (source : StorageServerInfo)
    → Source state now ss_id ids source
    → Source state now ss_id (x ∷ ids) source
later-Source state now ss_id x ids source (id, held, other, found, alive) =
    (id, has_ss-cons x id ids held, other, found, alive)

find-Source :
    (state : NmState) (now : ℕ) (ss_id : Bytes) (ids : List Bytes) (source : StorageServerInfo)
    → find_source state.servers now ss_id ids ≡ some source
    → Source state now ss_id ids source
unfolding find_source
find-Source state now ss_id [] source h = absurd (cc h)
find-Source state now ss_id (id ∷ ids) source h = elim (Bool-cases (str_eq id ss_id)) [
  | inl e ↦
      later-Source state now ss_id id ids source
        (find-Source state now ss_id ids source (ground (arith, e, h)))
  | inr e ↦ elim (Option-cases (find_storage_server state.servers id)) [
    | inl f ↦
        later-Source state now ss_id id ids source
          (find-Source state now ss_id ids source (ground (arith, e, f, h)))
    | inr (info, f) ↦ elim (Bool-cases (is_alive now info)) [
      | inr g ↦
          later-Source state now ss_id id ids source
            (find-Source state now ss_id ids source (ground (arith, e, f, g, h)))
      | inl g ↦
          let same : info ≡ source = ground (arith, e, f, g, h) in
          (
            id,
            has_ss-head id ids,
            λ z. ground (arith, e, z, str_eq_iff id ss_id),
            f ∙ ap (λ (x : StorageServerInfo). some x) same,
            ap (is_alive now) (sym same) ∙ g,
          )
    ]
  ]
]

-- Each request that handle_register_ss sends behind its acknowledgement is one to copy a file which
-- the index says that the new server holds, from another server that the index says holds it, that is
-- registered and alive.
pub recovery-Copy :
    (state : NmState) (now : ℕ) (ss_id : Bytes) (records : List ℕ)
    → All (Copy state now ss_id) (recovery state now ss_id records)
unfolding recovery
recovery-Copy state now ss_id [] = tt
recovery-Copy state now ss_id (p ∷ records) =
    let rest = recovery-Copy state now ss_id records in
    let skip : recovery state now ss_id (p ∷ records) ≡ recovery state now ss_id records
        → All (Copy state now ss_id) (recovery state now ss_id (p ∷ records)) =
      λ same. subst (All (Copy state now ss_id)) (sym same) rest in
    elim (Option-cases (record_at state.file_index (some p))) [
      | inl e ↦ skip (rw (e, recovery) refl)
      | inr (r, e) ↦ elim (Bool-cases (has_ss r.ss_ids ss_id)) [
        | inr f ↦ skip (rw (e, f, recovery) refl)
        | inl f ↦ elim (Option-cases (find_source state.servers now ss_id r.ss_ids)) [
          | inl g ↦ skip (rw (e, f, g, recovery) refl)
          | inr (source, g) ↦
              let same : recovery state now ss_id (p ∷ records)
                  ≡ sent replicate_file (replicate_text r source)
                    ∷ recovery state now ss_id records =
                rw (e, f, g, recovery) refl in
              subst (All (Copy state now ss_id)) (sym same)
                ((p, r, source, refl, e, f, find-Source state now ss_id r.ss_ids source g), rest)
        ]
      ]
    ]
