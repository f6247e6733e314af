-- ===== src/Storage/Validity/Arrays.antt =====
-- The arrays of files and of locks, and that what is persisted leaves the files in memory alone.
use mathlib.Core.Path.{subst}
use network_file_storage.Prelude.{
  ℕ, zero, suc, ◌<◌, Bytes, List, [], ◌∷◌, ◌++◌, some, ◌≡◌, refl, ap, ◌∙◌, arith, length, get_elem?,
  All, All-append, Option-cases, Bool-cases, inl, inr, str_eq,
}
use network_file_storage.Storage.{
  SentenceLock, StorageFile, StorageEngine, find_file_locked, store_at,
}
use network_file_storage.Storage.Loading.{
  build_paths, persist_content, persist_metadata, persist_undo,
}
use network_file_storage.Storage.Writing.{persist_all, set_lock}
use network_file_storage.Storage.Handlers.{remove_at}
use network_file_storage.Storage.Validity.{IsOwnerless}

module _ {κ} (P : StorageFile → Type κ) where
  pub All-store_at :
      (i : ℕ) (f : StorageFile) (files : List StorageFile)
      → All P files
      → P f
      → All P (store_at i f files)
  unfolding store_at
  All-store_at i f [] h p = tt
  All-store_at zero f (g ∷ files) h p = (p, h.1)
  All-store_at (suc i) f (g ∷ files) h p = (h.0, All-store_at i f files h.1 p)

  pub All-remove_at : (i : ℕ) (files : List StorageFile) → All P files → All P (remove_at i files)
  unfolding remove_at
  All-remove_at i [] h = tt
  All-remove_at zero (g ∷ files) h = h.1
  All-remove_at (suc i) (g ∷ files) h = (h.0, All-remove_at i files h.1)

  pub All-find_file :
      (filename : Bytes) (files : List StorageFile) (i : ℕ) (f : StorageFile)
      → All P files
      → find_file_locked filename files ≡ some (i, f)
      → P f
  unfolding find_file_locked
  All-find_file filename [] i f h e = absurd (cc e)
  All-find_file filename (g ∷ files) i f h e = elim (Bool-cases (str_eq g.filename filename)) [
    | inl s ↦ let same : g ≡ f = ground (arith, s, e) in subst P same h.0
    | inr n ↦ elim (Option-cases (find_file_locked filename files)) [
      | inl m ↦ absurd (ground (arith, n, m, e))
      | inr ((j, k), m) ↦
          let same : k ≡ f = ground (arith, n, m, e) in
          subst P same (All-find_file filename files j k h.1 m)
    ]
  ]

pub All-set_lock :
    (i : ℕ) (l : SentenceLock) (locks : List SentenceLock)
    → All IsOwnerless locks
    → IsOwnerless l
    → All IsOwnerless (set_lock i l locks)
unfolding set_lock
All-set_lock i l [] h p = tt
All-set_lock zero l (k ∷ locks) h p = (p, h.1)
All-set_lock (suc i) l (k ∷ locks) h p = (h.0, All-set_lock i l locks h.1 p)

-- A lock that was held and is given back.
pub All-set_again :
    (i : ℕ) (l k : SentenceLock) (locks more : List SentenceLock)
    → All IsOwnerless locks
    → All IsOwnerless more
    → IsOwnerless l
    → i < length locks
    → All IsOwnerless (set_lock i l (set_lock i k locks ++ more))
unfolding set_lock
All-set_again i l k [] more h m p lt = absurd (omega (arith, lt))
All-set_again zero l k (x ∷ locks) more h m p lt = (p, All-append IsOwnerless locks more h.1 m)
All-set_again (suc i) l k (x ∷ locks) more h m p lt =
    (h.0, All-set_again i l k locks more h.1 m p (omega (arith, lt)))

pub length-set_lock :
    (i : ℕ) (l : SentenceLock) (locks : List SentenceLock)
    → length (set_lock i l locks) ≡ length locks
unfolding set_lock
length-set_lock i l [] = refl
length-set_lock zero l (k ∷ locks) = refl
length-set_lock (suc i) l (k ∷ locks) = ap suc (length-set_lock i l locks)

pub get-lock :
    (i : ℕ) (locks : List SentenceLock)
    → i < length locks
    → All IsOwnerless locks
    → (l : SentenceLock) × (get_elem? locks i ≡ some l) × IsOwnerless l
get-lock i [] lt h = absurd (omega (arith, lt))
get-lock zero (l ∷ locks) lt h = (l, refl, h.0)
get-lock (suc i) (l ∷ locks) lt h = get-lock i locks (omega (arith, lt)) h.1

pub files-persist_content :
    (e : StorageEngine) (f : StorageFile) → (persist_content e f).1.files ≡ e.files
unfolding persist_content
files-persist_content e f = elim (Option-cases (build_paths e.root_path e.ss_id f.filename)) [
  | inl n ↦ ground (arith, n)
  | inr (p, s) ↦ ground (arith, s)
]

pub files-persist_metadata :
    (e : StorageEngine) (f : StorageFile) → (persist_metadata e f).1.files ≡ e.files
unfolding persist_metadata
files-persist_metadata e f = elim (Option-cases (build_paths e.root_path e.ss_id f.filename)) [
  | inl n ↦ ground (arith, n)
  | inr (p, s) ↦ ground (arith, s)
]

pub files-persist_undo :
    (e : StorageEngine) (f : StorageFile) → (persist_undo e f).1.files ≡ e.files
unfolding persist_undo
files-persist_undo e f = elim (Option-cases (build_paths e.root_path e.ss_id f.filename)) [
  | inl n ↦ ground (arith, n)
  | inr (p, s) ↦ elim (Option-cases f.undo_snapshot) [
    | inl n ↦ ground (arith, s, n)
    | inr (b, n) ↦ ground (arith, s, n)
  ]
]

pub files-persist_all : (e : StorageEngine) (f : StorageFile) → (persist_all e f).files ≡ e.files
unfolding persist_all
files-persist_all e f =
    let e1 = (persist_content e f).1 in
    let e2 = (persist_metadata e1 f).1 in
    files-persist_undo e2 f ∙ files-persist_metadata e1 f ∙ files-persist_content e f
