-- ===== src/NameServer/Commands/Ownership.antt =====
-- Who can change the access to a file: its owner.
use network_file_storage.Prelude.{
  ℕ, Bytes, codes, str_eq, str_eq_iff, List, Option, none, some, ◌≡◌, ◌≢◌, refl, arith,
  Option-cases, Bool-cases, inl, inr, Memory,
}
use network_file_storage.FileIndex.{FileRecord}
use network_file_storage.NameServer.{[], NmState}
use network_file_storage.NameServer.Commands.{
  no_request, execution_fail, fail, mode_of, is_null, AccessRequest, add_access, remove_access,
  approve_request, deny_request, found_record, Outcome, with_owned, with_request, with_target,
}
use network_file_storage.Json.{json_get_string}
use network_file_storage.NameServer.Requests.{
  AccessRequest, load_access_requests, find_request_index,
}
use network_file_storage.NameServer.Commands.Storage.{delete_file, delete_requests}

-- The user does not own a file of the name.
abbrev pub NotOwner : NmState → Bytes → Bytes → Type 0
NotOwner state username filename =
    (p : ℕ) (r : FileRecord) → found_record state filename ≡ some (p, r) → r.owner ≢ username

with_owned-refused :
    (state : NmState) (username filename message : Bytes) (act : ℕ → FileRecord → Outcome)
    → NotOwner state username filename
    → (with_owned state username filename message act).1 ≡ state
with_owned-refused state username filename message act h =
    elim (Option-cases (found_record state filename)) [
      | inl e ↦ rw (e, with_owned) refl
      | inr ((p, r), e) ↦ elim (Bool-cases (str_eq r.owner username)) [
        | inl f ↦ absurd (h p r e (ground (arith, f, str_eq_iff r.owner username)))
        | inr f ↦ rw (e, f, with_owned) refl
      ]
    ]

with_request-refused :
    (state : NmState) (username filename message : Bytes) (payload : Option Bytes)
    (act : ℕ → FileRecord → List AccessRequest → ℕ → Bytes → ℕ → Outcome)
    → NotOwner state username filename
    → (with_request state username filename payload message act).1 ≡ state
unfolding with_request
with_request-refused state username filename message payload act h =
    elim (Bool-cases (is_null filename)) [
      | inl e ↦ rw (e) refl
      | inr e ↦ elim (Option-cases (json_get_string payload (codes "target_user") 128)) [
        | inl f ↦ rw (e, f, with_target) refl
        | inr (target_user, f) ↦ elim (Option-cases (mode_of payload)) [
          | inl g ↦ rw (e, f, with_target, g) refl
          | inr (can_write, g) ↦
              rw (e, f, with_target, g)
                (with_owned-refused state username filename message
                  (λ p r. elim (load_access_requests state filename) [
                    | none ↦ fail execution_fail (codes "Failed to load requests") state
                    | some requests ↦ elim (find_request_index requests target_user can_write) [
                      | none ↦ fail no_request (codes "No matching request found") state
                      | some i ↦ act p r requests i target_user can_write
                    ]
                  ])
                  h)
        ]
      ]
    ]

requests_refused :
    (state : NmState) (username filename : Bytes)
    → NotOwner state username filename
    → delete_requests state username filename ≡ []
unfolding delete_requests
requests_refused state username filename h = elim (Option-cases (found_record state filename)) [
  | inl e ↦ rw (e, delete_requests) refl
  | inr ((p, r), e) ↦ elim (Bool-cases (str_eq r.owner username)) [
    | inl f ↦ absurd (h p r e (ground (arith, f, str_eq_iff r.owner username)))
    | inr f ↦ rw (e, f, delete_requests) refl
  ]
]

-- A user who does not own a file can neither delete it nor give, take, approve or deny an access to
-- it: each of these commands leaves the whole state of the name server as it was, and no storage
-- server is asked to delete the file.
pub owner_only :
    (state : NmState) (username filename : Bytes) (payload : Option Bytes) (beyond : Bytes)
    (memory : Memory)
    → NotOwner state username filename
    → (delete_requests state username filename ≡ [])
      × ((delete_file state username filename).1 ≡ state)
      × ((add_access state username filename payload beyond memory).1 ≡ state)
      × ((remove_access state username filename payload).1 ≡ state)
      × ((approve_request state username filename payload beyond memory).1 ≡ state)
      × ((deny_request state username filename payload).1 ≡ state)
unfolding delete_file add_access remove_access approve_request deny_request
owner_only state username filename payload beyond memory h = (
  requests_refused state username filename h,
  with_owned-refused state username filename (codes "Only owner can delete") _ h,
  with_owned-refused state username filename (codes "Only owner can modify access") _ h,
  with_owned-refused state username filename (codes "Only owner can modify access") _ h,
  with_request-refused state username filename (codes "Only the owner can approve requests") payload
      _ h,
  with_request-refused state username filename (codes "Only the owner can deny requests") payload _
      h,
)
