-- ===== src/StorageServer/Release.antt =====
-- What a whole write request leaves behind when no other thread is at work.
use network_file_storage.Prelude.{
  ◌^◌, ◌≢◌, str_eq_iff, Bool, Bool-cases, Option-cases, inl, inr, take_of_length-le, ◌≤◌, Bytes,
  ◌<◌, Option, arith, ℕ, refl, ◌∙◌, ◌≡◌, List, none, some, length, [], ◌∷◌,
}
use network_file_storage.Storage.{use_after_free}
use network_file_storage.Storage.Writing.{storage_engine_write}
use network_file_storage.StorageServer.Sessions.Exclusion.{
  check-Named, check-locks, Named, receive-entry, announce-locks,
}
use network_file_storage.StorageServer.{
  is_sentence_locked, count_up, count_down, LockedSentence, add_sentence_lock, remove_sentence_lock,
  ServerState,
}
use network_file_storage.StorageServer.WriteRequest.{
  acquire_write, check_write, handle_write_request, release_write, announce_write, check_commit,
  collecting, committing, leaving, WriteSession, Incoming, write_loop, receive_write, apply_commit,
}

-- What the loop leaves alone.
abbrev Kept : ServerState → WriteSession → WriteSession → ServerState → Type 0
Kept s w w' s' =
    (s'.locked_sentences ≡ s.locked_sentences)
    × (s'.active_writers ≡ s.active_writers)
    × (w'.filename ≡ w.filename)
    × (w'.sentence_idx ≡ w.sentence_idx)

receive-Kept :
    (s : ServerState) (w : WriteSession) (m : Option Incoming)
    → Kept s w (receive_write s w m).1 (receive_write s w m).3
unfolding receive_write check_commit
receive-Kept s w none = (refl, refl, refl, refl)
receive-Kept s w (some m) =
    let (file, sentence, version) = receive-entry s w (some m) in
    (ground (arith), ground (arith), file, sentence)

apply-Kept : (s : ServerState) (w : WriteSession) (now : ℕ) → Kept s w w (apply_commit s w now).1
unfolding apply_commit
apply-Kept s w now = ground arith

loop-Kept :
    (s : ServerState) (w : WriteSession) (messages : List Incoming)
    → Kept s w (write_loop s w messages).1 (write_loop s w messages).2
unfolding write_loop
loop-Kept s w [] = (refl, refl, refl, refl)
loop-Kept s w (m ∷ messages) =
    let r = receive_write s w (some m) in
    let rest = loop-Kept r.3 r.1 messages in
    ground (arith, receive-Kept s w (some m), apply-Kept r.3 r.1 m.now, rest)

-- A counter that goes up and down again.
down-up : (n : ℕ) → n < 2 ^ 32 → count_down (count_up n) ≡ n
down-up n h = omega arith

remove-added :
    (locks : List LockedSentence) (filename : Bytes) (sentence_idx version : ℕ)
    → length filename ≤ 255
    → remove_sentence_lock
        (add_sentence_lock locks filename sentence_idx version)
        filename
        sentence_idx
      ≡ locks
unfolding remove_sentence_lock add_sentence_lock
remove-added locks filename sentence_idx version h =
    ground (arith, take_of_length-le 255 filename h, str_eq_iff filename filename)

announce-writers :
    (s : ServerState) (w : WriteSession) (now : ℕ)
    → (announce_write s w now).1.active_writers ≡ s.active_writers
unfolding announce_write
announce-writers s w now = refl

check-writers :
    (s : ServerState) (payload : Bytes) (now : ℕ)
    → (check_write s payload now).2.active_writers ≡ s.active_writers
unfolding check_write
check-writers s payload now = ground arith

session-Kept :
    (s : ServerState) (w : WriteSession) (now : ℕ) (messages : List Incoming)
    → Kept s w
        (write_loop (announce_write s w now).1 w messages).1
        (write_loop (announce_write s w now).1 w messages).2
session-Kept s w now messages =
    let (locks, writers, file, sentence) = loop-Kept (announce_write s w now).1 w messages in
    (locks ∙ announce-locks s w now, writers ∙ announce-writers s w now, file, sentence)

-- The release of a session that has just gone through its loop.
release-acquired :
    (s : ServerState) (w w' : WriteSession) (s' : ServerState) (later : ℕ)
    → Named w
    → s.active_writers < 2 ^ 32
    → Kept
        (record s {
          locked_sentences =
              add_sentence_lock s.locked_sentences w.filename w.sentence_idx w.file_version;
          active_writers = count_up s.active_writers;
        })
        w
        w'
        s'
    → ((release_write s' w' later).locked_sentences ≡ s.locked_sentences)
      × ((release_write s' w' later).active_writers ≡ s.active_writers)
unfolding release_write
release-acquired s w w' s' later n h k = (
  rw (k.0, k.2, k.3) (remove-added s.locked_sentences w.filename w.sentence_idx w.file_version n),
  rw (k.1) (down-up s.active_writers h),
)

-- No commit that the loop reaches makes the storage engine use memory that it has given back.
unfoldable pub Sound : ServerState → WriteSession → List Incoming → Type 0
unfolding receive_write
Sound s w [] = Unit
Sound s w (m ∷ messages) =
    let (stage, w', answers, s') = receive_write s w (some m) in
    let rest = Sound s' w' messages in
    elim stage [
      | leaving ↦ Unit
      | committing ↦
          (storage_engine_write s'.engine (some w'.filename) w'.sentence_idx w'.updates m.now).0
          ≢ use_after_free
      | collecting ↦ rest
    ]

unfoldable pub SoundRequest : ServerState → Bytes → ℕ → Bool → List Incoming → Type 0
unfolding check_write acquire_write announce_write Sound
SoundRequest s payload now memory messages =
    let (admitted, refused, s1) = check_write s payload now in
    elim admitted [
      | none ↦ Unit
      | some w ↦ Sound (announce_write (acquire_write s1 w memory).2 w now).1 w messages
    ]

-- Handled with no other thread at work, a write request leaves the list of locked sentences as it was,
-- and the number of active writers too, when that was below 2 ^ 32: whatever its payload is, whether
-- memory is short, and whichever messages with a payload follow before the connection ends, unless its
-- commit makes the storage engine use memory that it has given back.
pub write_request-releases :
    (s : ServerState) (payload : Bytes) (now : ℕ) (memory : Bool) (messages : List Incoming)
    (later : ℕ)
    → s.active_writers < 2 ^ 32
    → SoundRequest s payload now memory messages
    → ((handle_write_request s payload now memory messages later).1.locked_sentences
        ≡ s.locked_sentences)
      × ((handle_write_request s payload now memory messages later).1.active_writers
          ≡ s.active_writers)
unfolding handle_write_request acquire_write
write_request-releases s payload now memory messages later h sound =
    let s1 = (check_write s payload now).2 in
    let locks = check-locks s payload now in
    let writers = check-writers s payload now in
    elim (Option-cases (check_write s payload now).0) [
      | inl e ↦ ground (arith, e, locks, writers)
      | inr (w, e) ↦
          let named = check-Named s payload now w e in
          elim (Bool-cases (is_sentence_locked s1.locked_sentences w.filename w.sentence_idx)) [
            | inl f ↦ ground (arith, e, f, locks, writers)
            | inr f ↦ elim (Bool-cases memory) [
              | inr g ↦ ground (arith, e, f, g, locks, writers)
              | inl g ↦
                  let s2 : ServerState = record s1 {
                    locked_sentences =
                        add_sentence_lock s1.locked_sentences w.filename w.sentence_idx
                          w.file_version;
                    active_writers = count_up s1.active_writers;
                  } in
                  let done = write_loop (announce_write s2 w now).1 w messages in
                  let released =
                    release-acquired s1 w done.1 done.2 later named (rw (writers) h)
                      (session-Kept s2 w now messages) in
                  ground (arith, e, f, g, locks, writers, released)
            ]
          ]
    ]
