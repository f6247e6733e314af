-- ===== src/StorageServer/Sessions/Exclusion.antt =====
-- What a step of a session does to the list of locked sentences.
use mathlib.Core.Path.{subst}
use network_file_storage.Prelude.{
  drop, before_byte, strstr, ℕ, ◌≤◌, Bytes, codes, Bool, true, false, List, [], ◌∷◌, ◌++◌, map,
  Option, none, some, ◌≡◌, refl, sym, ap, ◌∙◌, arith, length, length-take, take_of_length-le, All,
  Distinct, Option-cases, Bool-cases, inl, inr, ltb, ◌==◌,
}
use network_file_storage.Protocol.{opcode_value, write_commit, write_update}
use network_file_storage.Json.Plain.{string_key, json_get_string, json_get_ulong, string_or}
use network_file_storage.Storage.Handlers.{storage_engine_info}
use network_file_storage.StorageServer.{
  LockedSentence, ServerState, is_sentence_locked, add_sentence_lock, remove_sentence_lock,
}
use network_file_storage.StorageServer.Locks.{keys, unlocked-Lacks, Distinct-middle, remove_at_key}
use network_file_storage.StorageServer.WriteRequest.{
  Incoming, WriteSession, Stage, collecting, committing, leaving, check_write, acquire_write,
  announce_write, receive_write, update_write, check_commit, apply_commit, release_write,
}
use network_file_storage.StorageServer.Sessions.{Holder, World, entry_of, advance, acquire}

-- A filename that fits into its field.
abbrev pub Named : WriteSession → Type 0
Named w = length w.filename ≤ 255

pub record WorldValid (w : World) : Type 0 where
  pub tracked : w.server.locked_sentences ≡ map entry_of w.holding
  pub distinct : Distinct (keys w.server.locked_sentences)
  pub admitted : All Named w.admitted
  pub holding : All (λ (h : Holder). Named h.session) w.holding

pub string_or-le : (json name : Bytes) → length (string_or json name 256 []) ≤ 255
unfolding json_get_string
string_or-le json name = elim (Option-cases (strstr json (string_key name))) [
  | inl e ↦ ground (arith, e)
  | inr (p, e) ↦ elim (Option-cases (before_byte b'"' (drop (length (string_key name)) p))) [
    | inl f ↦ ground (arith, e, f)
    | inr (u, f) ↦ ground (arith, e, f, length-take 255 u)
  ]
]

-- A message leaves alone what the session is found by.
pub receive-entry :
    (s : ServerState) (w : WriteSession) (m : Option Incoming)
    → ((receive_write s w m).1.filename ≡ w.filename)
      × ((receive_write s w m).1.sentence_idx ≡ w.sentence_idx)
      × ((receive_write s w m).1.file_version ≡ w.file_version)
unfolding receive_write update_write
receive-entry s w none = (refl, refl, refl)
receive-entry s w (some m) = elim (Bool-cases (m.opcode == opcode_value write_commit)) [
  | inl e ↦ (rw (e) refl, rw (e) refl, rw (e) refl)
  | inr e ↦ elim (Bool-cases (m.opcode == opcode_value write_update)) [
    | inl f ↦ elim (Bool-cases (ltb (length w.updates) 256)) [
      | inl g ↦ (rw (e, f, g) refl, rw (e, f, g) refl, rw (e, f, g) refl)
      | inr g ↦ (rw (e, f, g) refl, rw (e, f, g) refl, rw (e, f, g) refl)
    ]
    | inr f ↦ (rw (e, f) refl, rw (e, f) refl, rw (e, f) refl)
  ]
]

abbrev Same : Holder → Holder → Type 0
Same h k =
    (h.session.filename ≡ k.session.filename)
    × (h.session.sentence_idx ≡ k.session.sentence_idx)
    × (h.session.file_version ≡ k.session.file_version)

advance-session :
    (s : ServerState) (w : WriteSession) (g : Stage) (m : Option Incoming) (now : ℕ)
    → Same
        (advance s (record { session = w; stage = g }) m now).0
        (record { session = w; stage = g })
unfolding advance
advance-session s w collecting m now = receive-entry s w m
advance-session s w committing m now = (refl, refl, refl)
advance-session s w leaving m now = (refl, refl, refl)

pub advance-locks :
    (s : ServerState) (h : Holder) (m : Option Incoming) (now : ℕ)
    → (advance s h m now).1.locked_sentences ≡ s.locked_sentences
unfolding advance receive_write check_commit apply_commit
advance-locks s h m now = ground arith

pub check-locks :
    (s : ServerState) (payload : Bytes) (now : ℕ)
    → (check_write s payload now).2.locked_sentences ≡ s.locked_sentences
unfolding check_write
check-locks s payload now = ground arith

pub announce-locks :
    (s : ServerState) (w : WriteSession) (now : ℕ)
    → (announce_write s w now).1.locked_sentences ≡ s.locked_sentences
unfolding announce_write
announce-locks s w now = refl

pub check-Named :
    (s : ServerState) (payload : Bytes) (now : ℕ) (x : WriteSession)
    → (check_write s payload now).0 ≡ some x
    → Named x
unfolding check_write
check-Named s payload now x e =
    elim (Option-cases
      (storage_engine_info s.engine (some (string_or payload (codes "filename") 256 [])) now).1) [
        | inl f ↦ ground (arith, e, f)
        | inr (i, f) ↦
            elim (Bool-cases (ltb i.sentence_count (json_get_ulong payload (codes "sentence")))) [
              | inl g ↦ ground (arith, e, f, g)
              | inr g ↦ ground (arith, e, f, g, string_or-le payload (codes "filename"))
            ]
      ]

pub All-middle :
    {A : Type 0} (P : A → Type 0) (before after : List A) (x : A)
    → All P (before ++ x ∷ after)
    → P x × All P (before ++ after)
All-middle P [] after x h = h
All-middle P (y ∷ before) after x h = let (a, r) = All-middle P before after x h.1 in (a, (h.0, r))

All-replace :
    {A : Type 0} (P : A → Type 0) (before after : List A) (x y : A)
    → P y
    → All P (before ++ x ∷ after)
    → All P (before ++ y ∷ after)
All-replace P [] after x y p h = (p, h.1)
All-replace P (z ∷ before) after x y p h = (h.0, All-replace P before after x y p h.1)

pub entries-middle :
    (before after : List Holder) (h : Holder)
    → map entry_of (before ++ h ∷ after) ≡ map entry_of before ++ entry_of h ∷ map entry_of after
entries-middle [] after h = refl
entries-middle (x ∷ before) after h = ap (◌∷◌ (entry_of x)) (entries-middle before after h)

pub entries-append :
    (before after : List Holder)
    → map entry_of (before ++ after) ≡ map entry_of before ++ map entry_of after
entries-append [] after = refl
entries-append (x ∷ before) after = ap (◌∷◌ (entry_of x)) (entries-append before after)

-- Whether the list after acquire_write is that of the new holder and the others.
pub acquire-WorldValid :
    (w : World) (rest : List WriteSession) (x : WriteSession) (memory : Bool)
    → WorldValid w
    → Named x
    → All Named rest
    → WorldValid (acquire w rest x memory)
unfolding acquire acquire_write add_sentence_lock
acquire-WorldValid w rest x memory v n r =
    elim (Bool-cases (is_sentence_locked w.server.locked_sentences x.filename x.sentence_idx)) [
      | inl e ↦
          rw (e) (record {
            tracked = v.tracked;
            distinct = v.distinct;
            admitted = r;
            holding = v.holding;
          })
      | inr e ↦ elim memory as (λ (b : Bool). WorldValid (acquire w rest x b)) [
        | false ↦ rw (e) (record {
          tracked = v.tracked;
          distinct = v.distinct;
          admitted = r;
          holding = v.holding;
        })
        | true ↦ rw (e) (record {
          tracked = ap (◌∷◌ (entry_of (record { session = x; stage = collecting }))) v.tracked;
          distinct = (
            rw (take_of_length-le 255 x.filename n)
                (unlocked-Lacks x.filename x.sentence_idx w.server.locked_sentences e),
            v.distinct,
          );
          admitted = r;
          holding = (n, v.holding);
        })
      ]
    ]

pub proceed-WorldValid :
    (w : World) (before after : List Holder) (h : Holder) (m : Option Incoming) (now : ℕ)
    → WorldValid w
    → w.holding ≡ before ++ h ∷ after
    → WorldValid (record w {
      server = (advance w.server h m now).1;
      holding = before ++ (advance w.server h m now).0 ∷ after;
    })
proceed-WorldValid w before after h m now v e =
    let same = advance-session w.server h.session h.stage m now in
    let entry : entry_of (advance w.server h m now).0 ≡ entry_of h =
      rw (same.0, same.1, same.2) refl in
    let locks = advance-locks w.server h m now in
    let named = subst (All (λ (k : Holder). Named k.session)) e v.holding in
    record {
      tracked =
          locks
          ∙ v.tracked
          ∙ ap (map entry_of) e
          ∙ entries-middle before after h
          ∙ sym (rw (entries-middle before after (advance w.server h m now).0, entry) refl);
      distinct = rw (locks) v.distinct;
      admitted = v.admitted;
      holding =
          All-replace (λ (k : Holder). Named k.session) before after h (advance w.server h m now).0
            (rw (same.0) (All-middle (λ (k : Holder). Named k.session) before after h named).0)
            named;
    }

-- A release takes away the entry of its own session.
pub release-WorldValid :
    (w : World) (before after : List Holder) (h : Holder) (now : ℕ)
    → WorldValid w
    → w.holding ≡ before ++ h ∷ after
    → WorldValid
        (record w { server = release_write w.server h.session now; holding = before ++ after })
unfolding release_write
release-WorldValid w before after h now v e =
    let tracked = v.tracked ∙ ap (map entry_of) e ∙ entries-middle before after h in
    let named =
      All-middle (λ (k : Holder). Named k.session) before after h
        (subst (All (λ (k : Holder). Named k.session)) e v.holding) in
    let distinct = subst (λ (l : List LockedSentence). Distinct (keys l)) tracked v.distinct in
    let removed =
      (remove_at_key (map entry_of before) (map entry_of after) (entry_of h) distinct).0 in
    let list : remove_sentence_lock w.server.locked_sentences h.session.filename
          h.session.sentence_idx
        ≡ map entry_of before ++ map entry_of after =
      rw (tracked) (
        subst
          (λ (f : Bytes).
            remove_sentence_lock (map entry_of before ++ entry_of h ∷ map entry_of after) f
              h.session.sentence_idx
            ≡ map entry_of before ++ map entry_of after)
          (take_of_length-le 255 h.session.filename named.0) removed) in
    record {
      tracked = list ∙ sym (entries-append before after);
      distinct =
          rw (list)
            (Distinct-middle (map entry_of before) (map entry_of after) (entry_of h) distinct);
      admitted = v.admitted;
      holding = named.1;
    }
