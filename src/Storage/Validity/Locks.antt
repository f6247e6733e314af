-- ===== src/Storage/Validity/Locks.antt =====
-- The locks behind a write: none is held but those that realloc copied while they were.
use mathlib.Core.Path.{subst}
use network_file_storage.Prelude.{
  ℕ, zero, suc, ◌<◌, Bool, true, false, List, [], ◌∷◌, ◌++◌, some, ◌≡◌, refl, arith, leb, length,
  get_elem?, All, Bool-cases, inl, inr, append-nil,
}
use network_file_storage.Storage.{SentenceLock, ensure_sentence_capacity, free_locks}
use network_file_storage.Storage.Writing.{set_lock, left_lock}
use network_file_storage.Storage.Validity.{IsOwnerless, free_locks-IsOwnerless}
use network_file_storage.Storage.Validity.Arrays.{All-set_again}

-- Taking a lock, growing the array and giving the lock back leaves all locks free.
pub capacity-set_again :
    (i count : ℕ) (l k : SentenceLock) (locks : List SentenceLock)
    → All IsOwnerless locks
    → IsOwnerless l
    → i < length locks
    → All IsOwnerless (set_lock i l (ensure_sentence_capacity (set_lock i k locks) count))
unfolding ensure_sentence_capacity
capacity-set_again i count l k locks h p lt =
    let taken = set_lock i k locks in
    elim (Bool-cases (leb count (length taken))) [
      | inl e ↦ rw e (
          subst (λ (m : List SentenceLock). All IsOwnerless (set_lock i l m)) (append-nil taken)
            (All-set_again i l k locks [] h tt p lt))
      | inr n ↦ rw n (All-set_again i l k locks (free_locks _) h (free_locks-IsOwnerless _) p lt)
    ]

pub left_lock-IsOwnerless : (moved : Bool) → IsOwnerless (left_lock moved)
left_lock-IsOwnerless true = refl
left_lock-IsOwnerless false = refl

-- The lock at a place of an array, which realloc copied while it was held.
abbrev pub CopiedLock : List SentenceLock → ℕ → Type 0
CopiedLock locks i = (l : SentenceLock) × (get_elem? locks i ≡ some l) × (l.copied ≡ true)

free_locks-CopiedLock : (n i : ℕ) → ¬ CopiedLock (free_locks n) i
unfolding free_locks
free_locks-CopiedLock zero i c = cc c.1
free_locks-CopiedLock (suc n) zero (l, e, h) = ground (arith, e, h)
free_locks-CopiedLock (suc n) (suc i) c = free_locks-CopiedLock n i c

append-CopiedLock :
    (locks : List SentenceLock) (n i : ℕ)
    → CopiedLock (locks ++ free_locks n) i
    → CopiedLock locks i
append-CopiedLock [] n i c = absurd (free_locks-CopiedLock n i c)
append-CopiedLock (l ∷ locks) n zero c = c
append-CopiedLock (l ∷ locks) n (suc i) c = append-CopiedLock locks n i c

-- The locks that are new in a grown array are none of these.
pub capacity-CopiedLock :
    (locks : List SentenceLock) (desired i : ℕ)
    → CopiedLock (ensure_sentence_capacity locks desired) i
    → CopiedLock locks i
unfolding ensure_sentence_capacity
capacity-CopiedLock locks desired i c = elim (Bool-cases (leb desired (length locks))) [
  | inl e ↦ rw (e) at c
  | inr n ↦ append-CopiedLock locks _ i (rw (n) at c)
]
