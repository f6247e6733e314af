-- ===== src/NameServer/Requests.antt =====
-- The requests for access to a file, kept as lines of a text file: parse_access_mode,
-- find_request_index, find_request_by_user, remove_request_at, load_access_requests and
-- save_access_requests. Memory does not run out here, and is zero behind what is written.
pub mod Lines
pub mod RoundTrip
use network_file_storage.Prelude.{
  ℕ, zero, suc, ◌+◌, ◌-◌, ◌^◌, Bytes, codes, Bool, true, false, ◌&&◌, ◌||◌, not, if◌then◌else◌,
  List, [], ◌∷◌, ◌++◌, Option, none, some, ◌>>=◌, ◌==◌, leb, ltb, length, take, drop, str_eq,
  skip_space, read_sign, is_digit,
}
use network_file_storage.Disk.{Disk, Node, dir, file, at, path_max}
use network_file_storage.Json.{has_digit}
use network_file_storage.Persistence.{ns_requests_path}
use network_file_storage.Storage.Metadata.{lld, strtoll}
use network_file_storage.NameServer.{NmState}
use network_file_storage.NameServer.Files.{ensure_parent_dirs, write_file}

-- access_request_t. A time is the 64 bits of a time_t.
pub record AccessRequest : Type 0 where
  pub username : Bytes
  pub can_write : ℕ
  pub requested_at : ℕ

-- tolower, in the C locale.
abbrev pub lowered : ℕ → ℕ
lowered c = if leb 65 c && leb c 90 then c + 32 else c

unfoldable pub lowercase : Bytes → Bytes
lowercase [] = []
lowercase (c ∷ s) = lowered c ∷ lowercase s

-- parse_access_mode; none is the result -1.
unfoldable pub parse_access_mode : Bytes → Option ℕ
unfolding lowercase str_eq
parse_access_mode [] = some 0
parse_access_mode (c ∷ s) =
    let lower = lowercase (take 15 (c ∷ s)) in
    if str_eq lower (codes "read")
    then some 0
    else if str_eq lower (codes "write")
    then some 1
    else none

-- find_request_index; none is the result -1.
unfoldable pub find_request_index : List AccessRequest → Bytes → ℕ → Option ℕ
find_request_index [] username can_write = none
find_request_index (r ∷ requests) username can_write =
    if str_eq r.username username && r.can_write == can_write
    then some 0
    else (find_request_index requests username can_write >>= λ i. some (suc i))

-- find_request_by_user
unfoldable pub find_request_by_user : List AccessRequest → Bytes → Option ℕ
find_request_by_user [] username = none
find_request_by_user (r ∷ requests) username =
    if str_eq r.username username
    then some 0
    else (find_request_by_user requests username >>= λ i. some (suc i))

-- remove_request_at
unfoldable pub remove_request_at : List AccessRequest → ℕ → List AccessRequest
remove_request_at [] i = []
remove_request_at (r ∷ requests) zero = requests
remove_request_at (r ∷ requests) (suc i) = r ∷ remove_request_at requests i

-- requests[idx] = entry, or a new one behind the last.
unfoldable pub put_request : List AccessRequest → Option ℕ → AccessRequest → List AccessRequest
put_request requests none entry = requests ++ entry ∷ []
put_request [] (some i) entry = []
put_request (r ∷ requests) (some zero) entry = entry ∷ requests
put_request (r ∷ requests) (some (suc i)) entry = r ∷ put_request requests (some i) entry

abbrev pub mode_text : ℕ → Bytes
mode_text can_write = if can_write == 0 then codes "read" else codes "write"

-- The line that fprintf makes of a request.
abbrev pub request_line : AccessRequest → Bytes
unfolding lld
request_line r =
    r.username
    ++ (codes "|" ++ (mode_text r.can_write ++ (codes "|" ++ (lld r.requested_at ++ codes "\n"))))

unfoldable pub requests_text : List AccessRequest → Bytes
unfolding lld
requests_text [] = []
requests_text (r ∷ requests) = request_line r ++ requests_text requests

-- fgets: the bytes up to a newline, `room` at most, and the rest.
unfoldable pub read_line : ℕ → Bytes → Bytes × Bytes
read_line zero s = ([], s)
read_line (suc room) [] = ([], [])
read_line (suc room) (c ∷ s) =
    let (line, rest) = read_line room s in if c == 10 then (c ∷ [], s) else (c ∷ line, rest)

-- %<room>[^|]: the bytes before a bar, `room` at most, and the rest.
unfoldable pub scan_field : ℕ → Bytes → Bytes × Bytes
scan_field zero s = ([], s)
scan_field (suc room) [] = ([], [])
scan_field (suc room) (c ∷ s) =
    let (word, rest) = scan_field room s in if c == b'|' then ([], c ∷ s) else (c ∷ word, rest)

-- A field that is not empty, and the bar behind it.
abbrev pub barred : Bytes → Bytes → Option (Bytes × Bytes)
barred [] rest = none
barred (c ∷ word) [] = none
barred (c ∷ word) (b ∷ rest) = if b == b'|' then some (c ∷ word, rest) else none

abbrev pub field : ℕ → Bytes → Option (Bytes × Bytes)
unfolding scan_field
field room s = let (word, rest) = scan_field room s in barred word rest

-- %lld; none where there is no digit.
abbrev pub number : Bytes → Option ℕ
unfolding skip_space strtoll
number s = if has_digit (read_sign (skip_space s)).1 then some (strtoll s) else none

-- sscanf(line, "%127[^|]|%15[^|]|%lld", user, mode, &ts): none where its result is not 3.
unfoldable pub parse_request : Bytes → Option AccessRequest
unfolding scan_field skip_space strtoll
parse_request line = field 127 line >>= λ user. field 15 user.1 >>= λ mode. number mode.1 >>= λ ts.
    some (record {
      username = user.0;
      can_write = if str_eq mode.0 (codes "write") then 1 else 0;
      requested_at = ts;
    })

abbrev pub add_parsed : Option AccessRequest → List AccessRequest → List AccessRequest
add_parsed none requests = requests
add_parsed (some r) requests = r ∷ requests

-- The loop over the lines, in a buffer of 256 bytes. The first argument bounds its rounds.
unfoldable pub parse_requests : ℕ → Bytes → List AccessRequest
unfolding read_line parse_request
parse_requests zero text = []
parse_requests (suc fuel) [] = []
parse_requests (suc fuel) (c ∷ s) =
    let (line, rest) = read_line 255 (c ∷ s) in
    add_parsed (parse_request line) (parse_requests fuel rest)

-- load_access_requests; none is the result -1. A directory can be opened, and has no lines.
unfoldable pub load_access_requests : NmState → Bytes → Option (List AccessRequest)
unfolding parse_requests ns_requests_path
load_access_requests state filename =
    ns_requests_path path_max (some state.data_dir) (some filename) >>= λ path.
    elim (at state.disk path) [
      | none ↦ some []
      | some dir ↦ some []
      | some (file text) ↦ some (parse_requests (length text + 1) text)
    ]

-- save_access_requests: whether its result is 0.
unfoldable pub save_access_requests : NmState → Bytes → List AccessRequest → Bool × NmState
unfolding requests_text ns_requests_path ensure_parent_dirs write_file
save_access_requests state filename requests =
    elim (ns_requests_path path_max (some state.data_dir) (some filename)) [
      | none ↦ (false, state)
      | some path ↦
          let (opened, d) =
            write_file (ensure_parent_dirs state.disk path) path (requests_text requests) in
          (opened, record state { disk = d })
    ]
