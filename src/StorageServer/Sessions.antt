-- ===== src/StorageServer/Sessions.antt =====
-- Write sessions of many clients, one thread each, over one storage server. A step is what a thread
-- does between two points where others can come between.
pub mod Exclusion
pub mod Safety
use network_file_storage.Prelude.{
  ℕ, ◌+◌, ◌≤◌, Bytes, codes, Bool, true, false, if◌then◌else◌, List, [], ◌∷◌, ◌++◌, map, Option,
  none, some, ◌≡◌, refl, length, take,
}
use network_file_storage.Storage.{StorageEngine}
use network_file_storage.StorageServer.{LockedSentence, ServerState, Answer}
use network_file_storage.StorageServer.WriteRequest.{
  Incoming, WriteSession, Stage, collecting, committing, leaving, check_write, acquire_write,
  announce_write, receive_write, apply_commit, release_write,
}

-- A session that has its lock.
pub record Holder : Type 0 where
  pub session : WriteSession
  pub stage : Stage

-- The server, the sessions whose sentence was checked and the sessions that have their lock.
pub record World : Type 0 where
  pub server : ServerState
  pub admitted : List WriteSession
  pub holding : List Holder

-- The entry of the list of locked sentences that a session makes.
abbrev pub entry_of : Holder → LockedSentence
entry_of h = record {
  filename = take 255 h.session.filename;
  sentence_idx = h.session.sentence_idx;
  file_version = h.session.file_version;
}

-- A message arrives, or none does; a commit that was checked is applied.
unfoldable pub advance : ServerState → Holder → Option Incoming → ℕ → Holder × ServerState
unfolding receive_write apply_commit
advance s h m now = elim h.stage [
  | collecting ↦
      let (stage, w, answers, s') = receive_write s h.session m in
      (record { session = w; stage = stage }, s')
  | committing ↦ (record h { stage = leaving }, (apply_commit s h.session now).1)
  | leaving ↦ (h, s)
]

-- A session that was admitted takes its lock or gives up.
unfoldable pub acquire : World → List WriteSession → WriteSession → Bool → World
unfolding acquire_write
acquire w rest x memory =
    let (locked, answers, s) = acquire_write w.server x memory in
    if locked
    then record {
      server = s;
      admitted = rest;
      holding = record { session = x; stage = collecting } ∷ w.holding;
    }
    else record w { server = s; admitted = rest }

pub data Step : World → World → Type 0 where
  -- A write request is checked.
  admit :
      {w v : World} (payload : Bytes) (now : ℕ) (x : WriteSession)
      → (check_write w.server payload now).0 ≡ some x
      → v ≡ record w { server = (check_write w.server payload now).2; admitted = x ∷ w.admitted }
      → Step w v
  refuse :
      {w v : World} (payload : Bytes) (now : ℕ)
      → (check_write w.server payload now).0 ≡ none
      → v ≡ record w { server = (check_write w.server payload now).2 }
      → Step w v
  -- A sentence is locked, or found locked.
  lock :
      {w v : World} (before after : List WriteSession) (x : WriteSession) (memory : Bool)
      → w.admitted ≡ before ++ x ∷ after
      → v ≡ acquire w (before ++ after) x memory
      → Step w v
  -- The client is told the number of words.
  announce :
      {w v : World} (before after : List Holder) (h : Holder) (now : ℕ)
      → w.holding ≡ before ++ h ∷ after
      → v ≡ record w { server = (announce_write w.server h.session now).1 }
      → Step w v
  -- A session goes on.
  proceed :
      {w v : World} (before after : List Holder) (h : Holder) (m : Option Incoming) (now : ℕ)
      → w.holding ≡ before ++ h ∷ after
      → v ≡ record w {
        server = (advance w.server h m now).1;
        holding = before ++ (advance w.server h m now).0 ∷ after;
      }
      → Step w v
  -- A session that is over gives its lock back.
  release :
      {w v : World} (before after : List Holder) (h : Holder) (now : ℕ)
      → w.holding ≡ before ++ h ∷ after
      → h.stage ≡ leaving
      → v ≡ record w { server = release_write w.server h.session now; holding = before ++ after }
      → Step w v
  -- Any other request: it leaves the list of locked sentences alone.
  other :
      {w v : World} (e : StorageEngine) (readers writers : ℕ)
      → v ≡ record w {
        server = record w.server { engine = e; active_readers = readers; active_writers = writers };
      }
      → Step w v

-- The worlds that steps lead to from a server without locks.
pub data Reachable : World → Type 0 where
  started :
      {w : World} (e : StorageEngine)
      → w ≡ record {
        server = record {
          engine = e;
          active_readers = 0;
          active_writers = 0;
          locked_sentences = [];
        };
        admitted = [];
        holding = [];
      }
      → Reachable w
  stepped : {w v : World} → Reachable w → Step w v → Reachable v
