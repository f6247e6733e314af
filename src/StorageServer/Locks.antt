-- ===== src/StorageServer/Locks.antt =====
-- The list of locked sentences, entry by entry.
use network_file_storage.Prelude.{
  suc, ℕ, zero, suc, Bytes, true, false, List, [], ◌∷◌, ◌++◌, map, some, ◌≡◌, ◌≢◌, refl, sym, ap,
  ◌∙◌, arith, str_eq_iff, Lacks, Distinct, get_elem?,
}
use network_file_storage.StorageServer.{
  LockedSentence, is_lock, is_sentence_locked, remove_sentence_lock, get_locked_sentence_version,
}

-- What a lock is found by.
abbrev pub key : LockedSentence → Bytes × ℕ
key l = (l.filename, l.sentence_idx)

abbrev pub keys : List LockedSentence → List (Bytes × ℕ)
keys locks = map key locks

is_lock-key : (l : LockedSentence) → is_lock l.filename l.sentence_idx l ≡ true
is_lock-key l = ground (arith, str_eq_iff l.filename l.filename)

is_lock_ne : (l k : LockedSentence) → key l ≢ key k → is_lock k.filename k.sentence_idx l ≡ false
is_lock_ne l k h = ground (arith, str_eq_iff l.filename k.filename, h)

-- Where the search finds no lock, no key of the list is the one that was searched.
pub unlocked-Lacks :
    (filename : Bytes) (sentence_idx : ℕ) (locks : List LockedSentence)
    → is_sentence_locked locks filename sentence_idx ≡ false
    → Lacks (filename, sentence_idx) (keys locks)
unfolding is_sentence_locked
unlocked-Lacks filename sentence_idx [] h = tt
unlocked-Lacks filename sentence_idx (l ∷ locks) h = (
  λ e. ground (arith, h, str_eq_iff l.filename filename, e),
  unlocked-Lacks filename sentence_idx locks (ground (arith, h)),
)

pub Lacks-middle :
    (a : Bytes × ℕ) (before after : List LockedSentence) (l : LockedSentence)
    → Lacks a (keys (before ++ l ∷ after))
    → (key l ≢ a) × Lacks a (keys (before ++ after))
Lacks-middle a [] after l h = h
Lacks-middle a (k ∷ before) after l h =
    let (apart, rest) = Lacks-middle a before after l h.1 in (apart, (h.0, rest))

pub Distinct-middle :
    (before after : List LockedSentence) (l : LockedSentence)
    → Distinct (keys (before ++ l ∷ after))
    → Distinct (keys (before ++ after))
Distinct-middle [] after l h = h.1
Distinct-middle (k ∷ before) after l h =
    ((Lacks-middle (key k) before after l h.0).1, Distinct-middle before after l h.1)

-- The lock of a key that stands once is removed at its place, and found with its version.
pub remove_at_key :
    (before after : List LockedSentence) (l : LockedSentence)
    → Distinct (keys (before ++ l ∷ after))
    → (remove_sentence_lock (before ++ l ∷ after) l.filename l.sentence_idx ≡ before ++ after)
      × (get_locked_sentence_version (before ++ l ∷ after) l.filename l.sentence_idx
          ≡ some l.file_version)
unfolding remove_sentence_lock get_locked_sentence_version
remove_at_key [] after l h =
    let same = is_lock-key l in
    (rw (same, remove_sentence_lock) refl, rw (same, get_locked_sentence_version) refl)
remove_at_key (k ∷ before) after l h =
    let (removed, found) = remove_at_key before after l h.1 in
    let apart : key k ≢ key l = λ e. (Lacks-middle (key k) before after l h.0).0 (sym e) in
    let other = is_lock_ne k l apart in
    (
      rw (other, remove_sentence_lock) (ap (◌∷◌ k) removed),
      rw (other, get_locked_sentence_version) found,
    )

Lacks-get :
    (a : Bytes × ℕ) (locks : List LockedSentence) (i : ℕ) (l : LockedSentence)
    → Lacks a (keys locks)
    → get_elem? locks i ≡ some l
    → key l ≢ a
Lacks-get a [] i l h p e = cc p
Lacks-get a (x ∷ locks) zero l h p e = let same : x ≡ l = cc p in h.0 (ap key same ∙ e)
Lacks-get a (x ∷ locks) (suc i) l h p e = Lacks-get a locks i l h.1 p e

-- Two places with one key are one place.
pub key_place :
    (locks : List LockedSentence) (i j : ℕ) (l k : LockedSentence)
    → Distinct (keys locks)
    → get_elem? locks i ≡ some l
    → get_elem? locks j ≡ some k
    → key l ≡ key k
    → i ≡ j
key_place [] i j l k h p q e = absurd (cc p)
key_place (x ∷ locks) zero zero l k h p q e = refl
key_place (x ∷ locks) zero (suc j) l k h p q e =
    let same : l ≡ x = cc p in absurd (Lacks-get (key x) locks j k h.0 q (sym e ∙ ap key same))
key_place (x ∷ locks) (suc i) zero l k h p q e =
    let same : k ≡ x = cc q in absurd (Lacks-get (key x) locks i l h.0 p (e ∙ ap key same))
key_place (x ∷ locks) (suc i) (suc j) l k h p q e = ap suc (key_place locks i j l k h.1 p q e)
