-- ===== src/Storage/Validity.antt =====
-- What holds of every file in memory: its counters are those of its content, there is a lock for
-- each sentence, and between two operations only such locks are held as realloc copied while they
-- were.
pub mod Arrays
pub mod Loading
pub mod Spans
pub mod Locks
pub mod Writing
pub mod Handlers
pub mod Checkpoints
pub mod Steps
use network_file_storage.Prelude.{
  ℕ, zero, suc, ◌+◌, ◌*◌, ◌-◌, ◌≤◌, ◌<◌, Bytes, Bool, true, false, if◌then◌else◌, List, [], ◌∷◌,
  ◌++◌, Option, none, some, ◌≡◌, refl, sym, ap, arith, ◌==◌, leb, ltb, length, length-append, All,
  All-append, Option-cases, Bool-cases, inl, inr,
}
use network_file_storage.Text.{count_words, compute_spans}
use network_file_storage.Storage.{
  SentenceLock, free_lock, StorageFile, StorageEngine, doubled, free_locks,
  ensure_sentence_capacity, update_metadata_from_content,
}

-- No thread has the lock: it is free, or was left held where realloc copied it.
abbrev pub IsOwnerless : SentenceLock → Type 0
IsOwnerless l = l.held ≡ l.copied

-- The counters of a file are those of its content, every sentence has a lock, and a lock is held only
-- if realloc copied it while it was.
pub record FileValid (f : StorageFile) : Type 0 where
  pub words : f.word_count ≡ count_words f.content
  pub chars : f.char_count ≡ length f.content
  pub sentences : f.sentence_count ≡ length (compute_spans f.content)
  pub room : f.sentence_count ≤ length f.locks
  pub free : All IsOwnerless f.locks

abbrev pub EngineValid : StorageEngine → Type 0
EngineValid e = All FileValid e.files

doubled-le :
    (fuel capacity desired : ℕ)
    → 1 ≤ capacity
    → desired ≤ capacity + fuel
    → desired ≤ doubled fuel capacity desired
unfolding doubled
doubled-le zero capacity desired h k = omega (arith, k)
doubled-le (suc fuel) capacity desired h k =
    ground
      (arith, h, k, doubled-le fuel (capacity * 2) desired (omega (arith, h)) (omega (arith, h, k)))

length-free_locks : (n : ℕ) → length (free_locks n) ≡ n
unfolding free_locks
length-free_locks zero = refl
length-free_locks (suc n) = ap suc (length-free_locks n)

pub free_locks-IsOwnerless : (n : ℕ) → All IsOwnerless (free_locks n)
unfolding free_locks
free_locks-IsOwnerless zero = tt
free_locks-IsOwnerless (suc n) = (refl, free_locks-IsOwnerless n)

-- There are enough locks afterwards.
pub capacity-le :
    (locks : List SentenceLock) (desired : ℕ)
    → desired ≤ length (ensure_sentence_capacity locks desired)
unfolding ensure_sentence_capacity
capacity-le locks desired =
    let start = if length locks == 0 then 4 else length locks in
    let grown = doubled desired start desired in
    ground (
      arith,
      length-append locks (free_locks (grown - length locks)),
      length-free_locks (grown - length locks),
      doubled-le desired start desired (ground arith) (ground arith),
    )

pub capacity-IsOwnerless :
    (locks : List SentenceLock) (desired : ℕ)
    → All IsOwnerless locks
    → All IsOwnerless (ensure_sentence_capacity locks desired)
unfolding ensure_sentence_capacity
capacity-IsOwnerless locks desired h = elim (Bool-cases (leb desired (length locks))) [
  | inl e ↦ rw e h
  | inr n ↦ rw n (All-append IsOwnerless locks _ h (free_locks-IsOwnerless _))
]

pub capacity-grows :
    (locks : List SentenceLock) (desired : ℕ)
    → length locks ≤ length (ensure_sentence_capacity locks desired)
unfolding ensure_sentence_capacity
capacity-grows locks desired =
    let start = if length locks == 0 then 4 else length locks in
    let grown = doubled desired start desired in
    ground (arith, length-append locks (free_locks (grown - length locks)))

pub update-FileValid :
    (f : StorageFile) → All IsOwnerless f.locks → FileValid (update_metadata_from_content f)
unfolding update_metadata_from_content
update-FileValid f h = record {
  words = refl;
  chars = refl;
  sentences = refl;
  room = capacity-le f.locks (length (compute_spans f.content));
  free = capacity-IsOwnerless f.locks (length (compute_spans f.content)) h;
}

-- Other locks, as many or more, of which no thread has any.
pub relock-FileValid :
    (f : StorageFile) (locks : List SentenceLock)
    → FileValid f
    → length f.locks ≤ length locks
    → All IsOwnerless locks
    → FileValid (record f { locks = locks })
relock-FileValid f locks h more free = record {
  words = h.words;
  chars = h.chars;
  sentences = h.sentences;
  room = omega (arith, h.room, more);
  free = free;
}
