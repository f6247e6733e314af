-- ===== src/NameServer/Lookup/Access.antt =====
-- What a response to a lookup means, and when there is one.
use network_file_storage.Prelude.{
  zero, suc, ◌<◌, ◌-◌, ◌^◌, ◌≤◌, ℕ, ◌==◌, Bytes, codes, true, false, List, [], ◌∷◌, Option, some,
  ◌≡◌, ◌≢◌, refl, sym, ap, ◌∙◌, get_elem?, Option-cases, Bool-cases, inl, inr, arith, Memory,
}
use network_file_storage.Protocol.{lookup_resp}
use network_file_storage.Json.{json_get_string}
use network_file_storage.FileIndex.{FileRecord, record_at, file_index_lookup}
use network_file_storage.FileIndex.Acl.{file_record_check_access}
use network_file_storage.FileIndex.Cache.Laws.{CacheValid, get-lookup}
use network_file_storage.NameServer.{
  send_error, NmState, Reply, respond, StorageServerInfo, load_of,
}
use network_file_storage.NameServer.Selection.{choose, no_choice}
use network_file_storage.NameServer.Selection.Least.{Alive, NoneBelow, choose-least, choose_none}
use network_file_storage.NameServer.Lookup.{
  replica_entries, lookup_text, lru_cache_get, storage_down, field_or, need_write, answer_choice,
  answer_lookup, handle_lookup_file,
}

-- The user of a lookup may use the record in the way that is asked for, and the text that is answered
-- has the address of a server that holds the file and is alive, none of the others that are alive having
-- a smaller load.
pub record Granted (state : NmState) (r : FileRecord) (filename username text : Bytes)
    (write now : ℕ) : Type 0 where
  pub allowed : file_record_check_access r username write ≢ 0
  pub place : ℕ
  pub id : Bytes
  pub chosen : StorageServerInfo
  pub holds : get_elem? r.ss_ids place ≡ some id
  pub alive : Alive state.servers now id chosen
  pub least : NoneBelow state.servers now (load_of chosen) r.ss_ids
  pub replicas : Bytes
  pub answered : text ≡ lookup_text filename chosen r.owner replicas

choice-Stands :
    (state : NmState) (r : FileRecord) (filename text : Bytes) (now : ℕ)
    → answer_choice state r filename now (choose state.servers now 0 r.ss_ids no_choice)
      ≡ respond lookup_resp text
    → (choose state.servers now 0 r.ss_ids no_choice).found_active ≡ true
unfolding answer_choice
choice-Stands state r filename text now h =
    elim (Bool-cases (choose state.servers now 0 r.ss_ids no_choice).found_active) [
      | inl e ↦ e
      | inr e ↦ absurd (ground (arith, e, h))
    ]

-- With the right and with a server, the answer is that of the choice.
answer-choice :
    (state : NmState) (r : FileRecord) (filename username : Bytes) (write now : ℕ)
    (ids : List Bytes)
    → r.ss_ids ≡ ids
    → (file_record_check_access r username write == 0) ≡ false
    → answer_lookup state r filename username write now ≡ elim ids as (λ _. List Reply) [
      | [] ↦ send_error storage_down (codes "No storage servers available")
      | id ∷ rest ↦ answer_choice state r filename now (choose state.servers now 0 ids no_choice)
    ]
unfolding answer_lookup
answer-choice state r filename username write now [] e allowed = ground (arith, e, allowed)
answer-choice state r filename username write now (id ∷ ids) e allowed = ground (arith, e, allowed)

denied_lem :
    (state : NmState) (r : FileRecord) (filename username text : Bytes) (write now : ℕ)
    → (file_record_check_access r username write == 0) ≡ true
    → answer_lookup state r filename username write now ≢ respond lookup_resp text
unfolding answer_lookup
denied_lem state r filename username text write now e h = ground (arith, e, h)

-- The text of the answer, when the loop has found a server.
choice-text :
    (state : NmState) (r : FileRecord) (filename : Bytes) (now : ℕ)
    (found : (choose state.servers now 0 r.ss_ids no_choice).found_active ≡ true)
    → answer_choice state r filename now (choose state.servers now 0 r.ss_ids no_choice)
      ≡ respond lookup_resp (
          lookup_text filename (choose-least state.servers now r.ss_ids found).0.1 r.owner (
            replica_entries state.servers now
              (choose state.servers now 0 r.ss_ids no_choice).best_idx
              0
              true
              r.ss_ids))
unfolding answer_choice
choice-text state r filename now found =
    let (id, info, place, alive, load) = (choose-least state.servers now r.ss_ids found).0 in
    ground (arith, found, place, alive.0)

allowed-Granted :
    (state : NmState) (r : FileRecord) (filename username text : Bytes) (write now : ℕ)
    (ids : List Bytes)
    → r.ss_ids ≡ ids
    → (file_record_check_access r username write == 0) ≡ false
    → answer_lookup state r filename username write now ≡ respond lookup_resp text
    → Granted state r filename username text write now
allowed-Granted state r filename username text write now [] e allowed h =
    absurd (ground (arith, h, answer-choice state r filename username write now [] e allowed))
allowed-Granted state r filename username text write now (id ∷ ids) e allowed h =
    let chosen : answer_choice state r filename now (choose state.servers now 0 r.ss_ids no_choice)
        ≡ respond lookup_resp text =
      simp e (sym (answer-choice state r filename username write now (id ∷ ids) e allowed) ∙ h) in
    let found = choice-Stands state r filename text now chosen in
    let (stands, least) = choose-least state.servers now r.ss_ids found in
    let (id, info, holds, alive, load) = stands in
    let c = choose state.servers now 0 r.ss_ids no_choice in
    record {
      allowed = λ z. ground (arith, allowed, z);
      place = c.best_idx;
      id = id;
      chosen = info;
      holds = holds;
      alive = alive;
      least = rw (load) least;
      replicas = replica_entries state.servers now c.best_idx 0 true r.ss_ids;
      answered = cc (chosen, choice-text state r filename now found);
    }

answer-Granted :
    (state : NmState) (r : FileRecord) (filename username text : Bytes) (write now : ℕ)
    → answer_lookup state r filename username write now ≡ respond lookup_resp text
    → Granted state r filename username text write now
answer-Granted state r filename username text write now h =
    elim (Bool-cases (file_record_check_access r username write == 0)) [
      | inl denied ↦ absurd (denied_lem state r filename username text write now denied h)
      | inr allowed ↦
          allowed-Granted state r filename username text write now r.ss_ids refl allowed h
    ]

-- When a lookup is answered with a server, the file that its payload names is in the index, the user
-- may use it in the way that is asked for, and the address in the answer is that of a server that holds
-- the file and is alive, with a load that none of those alive has less of. The cache agrees with the
-- index.
pub lookup-Granted :
    (state : NmState) (payload : Option Bytes) (now : ℕ) (memory : Memory) (text : Bytes)
    → CacheValid state.cache state.file_index
    → (handle_lookup_file state payload now memory).0 ≡ respond lookup_resp text
    → (filename : Bytes) × (r : FileRecord) × (json_get_string payload (codes "filename") 256
        ≡ some filename)
      × (record_at state.file_index (file_index_lookup state.file_index filename) ≡ some r)
      × Granted state r filename
          (field_or payload (codes "username") 128 (codes "anonymous"))
          text
          (need_write payload)
          now
unfolding handle_lookup_file
lookup-Granted state payload now memory text v h =
    elim (Option-cases (json_get_string payload (codes "filename") 256)) [
      | inl n ↦ absurd (ground (arith, n, h))
      | inr (filename, n) ↦
          let found = get-lookup state.cache state.file_index filename now memory v in
          let cached = lru_cache_get state.cache state.file_index filename now memory in
          elim (Option-cases (record_at state.file_index cached.1)) [
            | inl m ↦ absurd (ground (arith, n, m, h))
            | inr (r, m) ↦
                let username = field_or payload (codes "username") 128 (codes "anonymous") in
                let answered : answer_lookup (record state { cache = cached.0 }) r filename username
                      (need_write payload) now
                    ≡ respond lookup_resp text =
                  ground (arith, n, m, h) in
                let g =
                  answer-Granted (record state { cache = cached.0 }) r filename username text
                    (need_write payload) now answered in
                (
                  filename,
                  r,
                  n,
                  ap (record_at state.file_index) (sym found) ∙ m,
                  record {
                    allowed = g.allowed;
                    place = g.place;
                    id = g.id;
                    chosen = g.chosen;
                    holds = g.holds;
                    alive = g.alive;
                    least = g.least;
                    replicas = g.replicas;
                    answered = g.answered;
                  },
                )
          ]
    ]

NoneBelow-get :
    (servers : List StorageServerInfo) (now load k : ℕ) (ids : List Bytes) (id : Bytes)
    (info : StorageServerInfo)
    → NoneBelow servers now load ids
    → get_elem? ids k ≡ some id
    → Alive servers now id info
    → load ≤ load_of info
NoneBelow-get servers now load k [] id info h e alive = absurd (cc e)
NoneBelow-get servers now load zero (x ∷ ids) id info h e alive =
    let same : x ≡ id = cc e in h.0 info (rw same alive)
NoneBelow-get servers now load (suc k) (x ∷ ids) id info h e alive =
    NoneBelow-get servers now load k ids id info h.1 e alive

choice-answers :
    (state : NmState) (r : FileRecord) (filename : Bytes) (now : ℕ)
    → (choose state.servers now 0 r.ss_ids no_choice).found_active ≡ true
    → (text : Bytes) × (answer_choice state r filename now
          (choose state.servers now 0 r.ss_ids no_choice)
        ≡ respond lookup_resp text)
choice-answers state r filename now found = (_, choice-text state r filename now found)

some_ids :
    (state : NmState) (r : FileRecord) (filename username text : Bytes) (write now k : ℕ)
    (id : Bytes) (ids : List Bytes)
    → r.ss_ids ≡ ids
    → (file_record_check_access r username write == 0) ≡ false
    → get_elem? ids k ≡ some id
    → answer_choice state r filename now (choose state.servers now 0 r.ss_ids no_choice)
      ≡ respond lookup_resp text
    → answer_lookup state r filename username write now ≡ respond lookup_resp text
some_ids state r filename username text write now k id [] e allowed place h = absurd (cc place)
some_ids state r filename username text write now k id (x ∷ ids) e allowed place h =
    answer-choice state r filename username write now (x ∷ ids) e allowed ∙ rw⁻¹ e h

-- A user who may use a file as asked is answered with a server when one that holds the file is alive
-- and its load is not the greatest of 32 bits.
pub lookup-answers :
    (state : NmState) (r : FileRecord) (filename username : Bytes) (write now k : ℕ) (id : Bytes)
    (info : StorageServerInfo)
    → file_record_check_access r username write ≢ 0
    → get_elem? r.ss_ids k ≡ some id
    → Alive state.servers now id info
    → load_of info < 2 ^ 32 - 1
    → (text : Bytes) × (answer_lookup state r filename username write now
        ≡ respond lookup_resp text)
lookup-answers state r filename username write now k id info allowed place alive small =
    elim (Bool-cases (choose state.servers now 0 r.ss_ids no_choice).found_active) [
      | inr e ↦ absurd (
          omega (
            arith,
            small,
            NoneBelow-get state.servers now (2 ^ 32 - 1) k r.ss_ids id info
                (choose_none state.servers now r.ss_ids e) place alive,
          ))
      | inl e ↦
          let (text, answered) = choice-answers state r filename now e in
          (
            text,
            some_ids state r filename username text write now k id r.ss_ids refl
                (ground (arith, allowed)) place answered,
          )
    ]
