-- ===== src/FileIndex/Tests.antt =====
-- The index and the cache run on a few names, and the theorems at such inputs.
use network_file_storage.Prelude.{
  ◌≤◌, Bytes, IsByte, All, Lacks, codes, str_eq, if◌then◌else◌, List, [], ◌∷◌, none, some, ◌==◌,
  ◌≡◌, ◌≢◌, ◌↔◌, refl, arith, length, false,
}
use network_file_storage.FileIndex.{
  FileIndex, FileRecord, ok, error, enospc, enomem, max_ss_per_file, new_record, add_replica,
  add_ss, create_path, set_record, file_index_init, file_index_add, file_index_lookup,
  file_index_remove, file_index_get_all, add_at,
}
use network_file_storage.FileIndex.Records.{IsSound, view, view-add_failed, IsSound-add}
use network_file_storage.FileIndex.Removal.{add_replica-enospc_iff}
use network_file_storage.FileIndex.Listing.Members.{Occurs, found_iff_listed}
use network_file_storage.FileIndex.History.{
  Call, add, remove, run, replay, initial, initial-IsValid, run-initial_refines,
}
use network_file_storage.FileIndex.Acl.{
  file_record_add_acl, file_record_remove_acl, file_record_check_access, or_flags,
}
use network_file_storage.FileIndex.Acl.Laws.{
  AclValid, AclValid-add_acl, check_access-add_acl, check_access-remove_acl,
}
use network_file_storage.FileIndex.Cache.{LruCache, lru_cache_get, lru_cache_invalidate}
use network_file_storage.FileIndex.Cache.Entries.{names}
use network_file_storage.FileIndex.Cache.Laws.{CacheValid, get-lookup, get-CacheValid}
use network_file_storage.FileIndex.Cache.Coherence.{invalidate-remove, CacheValid-add}

abbrev a_txt : Bytes
a_txt = codes "a"

abbrev b_txt : Bytes
b_txt = codes "b"

abbrev bob : Bytes
bob = codes "bob"

abbrev ss1 : Bytes
ss1 = codes "ss1"

-- One file, "a", at address 0.
one : FileIndex
one = (file_index_add initial a_txt bob ss1 7 []).0

abbrev a_record : FileRecord
a_record = record (new_record a_txt bob 7) { ss_ids = ss1 ∷ [] }

one_runs :
    ((file_index_add initial a_txt bob ss1 7 []).1 ≡ ok)
    × (view one a_txt ≡ some a_record)
    × (view one b_txt ≡ none)
    × (file_index_lookup one a_txt ≡ some 0)
unfolding one file_index_add file_index_lookup create_path set_record add_at add_ss str_eq
one_runs = (refl, refl, refl, refl)

no_memory : (file_index_add initial a_txt bob ss1 7 (false ∷ [])).1 ≡ error enomem
unfolding file_index_add create_path
no_memory = refl

view-add_failed_example :
    view (file_index_add initial a_txt bob ss1 7 (false ∷ [])).0 a_txt ≡ view initial a_txt
view-add_failed_example =
    view-add_failed initial a_txt bob ss1 7 (false ∷ []) a_txt (λ h. cc no_memory)

one-IsSound : IsSound one
unfolding one
one-IsSound = IsSound-add initial a_txt bob ss1 7 [] initial-IsValid.sound

add_replica-enospc_iff_example :
    ((add_replica a_record ss1).1 ≡ error enospc) ↔ (max_ss_per_file ≤ length a_record.ss_ids)
add_replica-enospc_iff_example = add_replica-enospc_iff a_record ss1

replica_runs : (add_replica a_record b_txt).1 ≡ ok
unfolding add_replica str_eq
replica_runs = refl

found_iff_listed_example :
    Occurs 0 (file_index_get_all one [])
    ↔ ((name : Bytes) × All IsByte name × (file_index_lookup one name ≡ some 0))
found_iff_listed_example = found_iff_listed one 0

abbrev calls : List Call
calls = add a_txt bob ss1 7 ∷ add b_txt bob ss1 8 ∷ remove a_txt ∷ []

run-initial_refines_example :
    (file_index_init [] ≡ (some initial, []))
    × ((run calls initial).file_count ≡ length (file_index_get_all (run calls initial) []))
    × ((q : Bytes) → view (run calls initial) q ≡ replay calls (λ _. none) q)
run-initial_refines_example = run-initial_refines calls (omega arith)

abbrev alice : Bytes
alice = codes "alice"

add_acl_runs : (file_record_add_acl a_record alice 1 0 [] []).1 ≡ ok
unfolding file_record_add_acl
add_acl_runs = refl

a_record-AclValid : AclValid a_record
a_record-AclValid = record { distinct = tt; fits = omega arith }

shared : FileRecord
shared = (file_record_add_acl a_record alice 1 0 [] []).0

shared-AclValid : AclValid shared
unfolding shared
shared-AclValid = AclValid-add_acl a_record alice 1 0 [] [] (omega arith) a_record-AclValid

check_access-add_acl_example :
    file_record_check_access (file_record_add_acl a_record alice 1 0 [] []).0 alice 0
    ≡ (if ◌==◌ 0 0 then or_flags 1 0 else 0)
check_access-add_acl_example =
    check_access-add_acl a_record alice 1 0 [] [] 0 (omega arith) (λ e. cc e) add_acl_runs

shared_owner : shared.owner ≢ alice
unfolding shared file_record_add_acl
shared_owner e = cc e

check_access-remove_acl_example :
    file_record_check_access (file_record_remove_acl shared alice).0 alice 1 ≡ 0
check_access-remove_acl_example =
    check_access-remove_acl shared alice 1 shared-AclValid shared_owner

abbrev cache : LruCache
cache = record {
  entries = record { filename = a_txt; pointer = 0; last_access = 7 } ∷ [];
  capacity = 1;
  size = 1;
}

cache-CacheValid : CacheValid cache one
cache-CacheValid = record {
  counted = refl;
  fits = omega arith;
  positive = omega arith;
  distinct = (tt, tt);
  agree = (one_runs.3, tt);
}

get-lookup_example : (lru_cache_get cache one a_txt 9 []).1 ≡ file_index_lookup one a_txt
get-lookup_example = get-lookup cache one a_txt 9 [] cache-CacheValid

get-CacheValid_example : CacheValid (lru_cache_get cache one a_txt 9 []).0 one
get-CacheValid_example = get-CacheValid cache one cache-CacheValid a_txt 9 [] (omega arith)

invalidate-remove_example :
    CacheValid (lru_cache_invalidate cache a_txt) (file_index_remove one a_txt).0
    × Lacks a_txt (names (lru_cache_invalidate cache a_txt).entries)
invalidate-remove_example = invalidate-remove cache one a_txt cache-CacheValid

CacheValid-add_example : CacheValid cache (file_index_add one b_txt bob ss1 8 []).0
CacheValid-add_example = CacheValid-add cache one b_txt cache-CacheValid bob ss1 8 []
