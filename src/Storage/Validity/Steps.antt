-- ===== src/Storage/Validity/Steps.antt =====
-- The operations as the steps of an engine, from storage_engine_init on, and what holds after any
-- sequence of them.
use mathlib.Core.Path.{subst}
use network_file_storage.Prelude.{
  refl, ◌⊎◌, Bool, ℕ, ◌-◌, Bytes, List, [], Option, none, some, ◌≡◌, ◌≢◌, sym, arith, All,
  Bool-cases, inl, inr, take,
}
use network_file_storage.Text.{WordUpdate}
use network_file_storage.Disk.{Disk, path_max}
use network_file_storage.Storage.{
  StorageResult, storage_ok, err_not_found, err_invalid, err_locked, err_io, err_exists,
  out_of_bounds, use_after_free, StorageEngine,
}
use network_file_storage.Storage.Loading.{storage_engine_init, ensure_engine_dirs}
use network_file_storage.Storage.Writing.{storage_engine_write}
use network_file_storage.Storage.Handlers.{
  storage_engine_create_file, storage_engine_delete_file, storage_engine_read,
  storage_engine_unlock_sentence, storage_engine_undo, storage_engine_info,
  storage_engine_mark_access,
}
use network_file_storage.Storage.Checkpoints.{
  storage_engine_checkpoint, storage_engine_view_checkpoint, storage_engine_revert_checkpoint,
  storage_engine_import,
}
use network_file_storage.Storage.Validity.{FileValid, EngineValid}
use network_file_storage.Storage.Validity.Handlers.{
  create-Valid, delete-Valid, read-Valid, unlock-Valid, undo-Valid, info-Valid, mark_access-Valid,
}
use network_file_storage.Storage.Validity.Checkpoints.{
  checkpoint-Valid, view_checkpoint-Valid, revert-Valid, import-Valid,
}
use network_file_storage.Storage.Validity.Writing.{LeftHeld, write-Valid}

pub data Command : Type 0 where
  create_file : Option Bytes → Option Bytes → Command
  delete_file : Option Bytes → Command
  read : Option Bytes → Command
  write : Option Bytes → ℕ → List WordUpdate → Command
  unlock_sentence : Option Bytes → ℕ → Command
  undo : Option Bytes → Command
  info : Option Bytes → Command
  mark_access : Option Bytes → Option Bytes → Command
  checkpoint : Option Bytes → Option Bytes → Command
  view_checkpoint : Option Bytes → Option Bytes → Command
  revert_checkpoint : Option Bytes → Option Bytes → Command
  import_content : Option Bytes → Option Bytes → Command

-- The engine after an operation at the time `now`.
unfoldable pub run : Command → StorageEngine → ℕ → StorageEngine
run (create_file filename owner) e now = (storage_engine_create_file e filename owner now).1
run (delete_file filename) e now = (storage_engine_delete_file e filename).1
run (read filename) e now = (storage_engine_read e filename now).2
run (write filename index updates) e now = (storage_engine_write e filename index updates now).1
run (unlock_sentence filename index) e now = (storage_engine_unlock_sentence e filename index now).1
run (undo filename) e now = (storage_engine_undo e filename now).1
run (info filename) e now = (storage_engine_info e filename now).2
run (mark_access filename username) e now = (storage_engine_mark_access e filename username now).1
run (checkpoint filename tag) e now = (storage_engine_checkpoint e filename tag now).1
run (view_checkpoint filename tag) e now = (storage_engine_view_checkpoint e filename tag).2
run (revert_checkpoint filename tag) e now = (storage_engine_revert_checkpoint e filename tag now).1
run (import_content filename content) e now = (storage_engine_import e filename content now).1

-- The program does not use memory that it has given back, which only a write can do.
abbrev pub Defined : Command → StorageEngine → ℕ → Type 0
Defined (write filename index updates) e now =
    (storage_engine_write e filename index updates now).0 ≢ use_after_free
Defined _ e now = Unit

-- The engines that operations lead to from storage_engine_init. Nothing is said of a program that has
-- used memory that it had given back.
pub data Reachable : StorageEngine → Type 0 where
  started :
      {e : StorageEngine} (moves : ℕ → Bool) (d d' : Disk) (base_dir ss_id : Option Bytes)
      → storage_engine_init moves d base_dir ss_id ≡ (some e, d')
      → Reachable e
  stepped :
      {e e' : StorageEngine} (c : Command) (now : ℕ)
      → Reachable e
      → Defined c e now
      → run c e now ≡ e'
      → Reachable e'

run-Valid : (c : Command) (e : StorageEngine) (now : ℕ) → EngineValid e → EngineValid (run c e now)
unfolding run
run-Valid (create_file filename owner) e now h = create-Valid e filename owner now h
run-Valid (delete_file filename) e now h = delete-Valid e filename h
run-Valid (read filename) e now h = read-Valid e filename now h
run-Valid (write filename index updates) e now h = (write-Valid e filename index updates now h).0
run-Valid (unlock_sentence filename index) e now h = unlock-Valid e filename index now h
run-Valid (undo filename) e now h = undo-Valid e filename now h
run-Valid (info filename) e now h = info-Valid e filename now h
run-Valid (mark_access filename username) e now h = mark_access-Valid e filename username now h
run-Valid (checkpoint filename tag) e now h = checkpoint-Valid e filename tag now h
run-Valid (view_checkpoint filename tag) e now h = view_checkpoint-Valid e filename tag h
run-Valid (revert_checkpoint filename tag) e now h = revert-Valid e filename tag now h
run-Valid (import_content filename content) e now h = import-Valid e filename content now h

init-Valid :
    (moves : ℕ → Bool) (d d' : Disk) (base_dir ss_id : Option Bytes) (e : StorageEngine)
    → storage_engine_init moves d base_dir ss_id ≡ (some e, d')
    → EngineValid e
unfolding storage_engine_init
init-Valid moves d d' none ss_id e h = absurd (cc h)
init-Valid moves d d' (some base) none e h = absurd (cc h)
init-Valid moves d d' (some base) (some id) e h =
    elim (Bool-cases (ensure_engine_dirs d (take (path_max - 1) base) (take 127 id)).0) [
      | inr n ↦ absurd (ground (arith, n, h))
      | inl n ↦
          let empty : e.files ≡ [] = ground (arith, n, h) in subst (All FileValid) (sym empty) tt
    ]

-- After any sequence of operations on an engine that storage_engine_init has made, in which no write
-- used memory that was given back, the word, character and sentence counts of every file in memory are
-- those of its content, the file has a lock for each of its sentences, and a lock is held only if
-- realloc moved the array while a write held this lock.
pub Reachable-EngineValid : {e : StorageEngine} → Reachable e → EngineValid e
Reachable-EngineValid (started {e = e} moves d d' base_dir ss_id h) =
    init-Valid moves d d' base_dir ss_id e h
Reachable-EngineValid (stepped {e = e} c now r defined same) =
    subst EngineValid same (run-Valid c e now (Reachable-EngineValid r))

err_locked-cases : (r : StorageResult) → (r ≡ err_locked) ⊎ (r ≢ err_locked)
err_locked-cases err_locked = inl refl
err_locked-cases storage_ok = inr (λ e. cc e)
err_locked-cases err_not_found = inr (λ e. cc e)
err_locked-cases err_invalid = inr (λ e. cc e)
err_locked-cases err_io = inr (λ e. cc e)
err_locked-cases err_exists = inr (λ e. cc e)
err_locked-cases out_of_bounds = inr (λ e. cc e)
err_locked-cases use_after_free = inr (λ e. cc e)

-- After any sequence of operations on an engine that storage_engine_init has made, in which no write
-- used memory that was given back, storage_engine_write finds the lock of the sentence inside of the
-- array of locks, and returns STORAGE_ERR_LOCKED only if realloc moved the array while an earlier write
-- held this lock, which was then left held.
pub write-lock_free :
    {e : StorageEngine} (filename : Option Bytes) (sentence_index : ℕ) (updates : List WordUpdate)
    (now : ℕ)
    → Reachable e
    → (((storage_engine_write e filename sentence_index updates now).0 ≢ err_locked)
        ⊎ LeftHeld e filename sentence_index now)
      × ((storage_engine_write e filename sentence_index updates now).0 ≢ out_of_bounds)
write-lock_free {e = e} filename sentence_index updates now r =
    let (kept, held, inside) =
      write-Valid e filename sentence_index updates now (Reachable-EngineValid r) in
    (
      elim (err_locked-cases (storage_engine_write e filename sentence_index updates now).0) [
        | inl locked ↦ inr (held locked)
        | inr free ↦ inl free
      ],
      inside,
    )
