-- ===== src/StorageServer/Sessions/Safety.antt =====
-- In every reachable world the list of locked sentences is that of the sessions at work, and no two of
-- them are at work on one sentence.
use mathlib.Core.Path.{ap, sym, subst}
use network_file_storage.Prelude.{
  take_of_length-le, Bytes, All, Distinct, get_elem?, ℕ, zero, suc, refl, sym, ap, ◌∙◌, ◌≡◌, List,
  map, some, [], ◌++◌, ◌∷◌,
}
use network_file_storage.StorageServer.{ServerState, LockedSentence, get_locked_sentence_version}
use network_file_storage.StorageServer.Locks.{remove_at_key, key_place, keys}
use network_file_storage.StorageServer.Sessions.{
  WriteSession, check_write, other, release, proceed, announce, lock, refuse, admit, announce_write,
  Holder, World, entry_of, Step, Reachable, started, stepped,
}
use network_file_storage.StorageServer.Sessions.Exclusion.{
  release-WorldValid, proceed-WorldValid, announce-locks, acquire-WorldValid, All-middle,
  entries-middle, check-Named, check-locks, Named, WorldValid,
}

-- A server with the same list of locked sentences, and admitted sessions whose names fit.
served :
    (w : World) (s : ServerState) (admitted : List WriteSession)
    → s.locked_sentences ≡ w.server.locked_sentences
    → All Named admitted
    → WorldValid w
    → WorldValid (record w { server = s; admitted = admitted })
served w s admitted e n h = record {
  tracked = e ∙ h.tracked;
  distinct = rw (e) h.distinct;
  admitted = n;
  holding = h.holding;
}

step-WorldValid : (w v : World) → WorldValid w → Step w v → WorldValid v
step-WorldValid w v h (admit payload now x e f) = subst WorldValid (sym f) (
    served w (check_write w.server payload now).2 (x ∷ w.admitted)
      (check-locks w.server payload now) (check-Named w.server payload now x e, h.admitted) h)
step-WorldValid w v h (refuse payload now e f) = subst WorldValid (sym f) (
    served w (check_write w.server payload now).2 w.admitted (check-locks w.server payload now)
      h.admitted h)
step-WorldValid w v h (lock before after x memory e f) =
    let named = All-middle Named before after x (subst (All Named) e h.admitted) in
    subst WorldValid (sym f) (acquire-WorldValid w (before ++ after) x memory h named.0 named.1)
step-WorldValid w v h (announce before after k now e f) = subst WorldValid (sym f) (
    served w (announce_write w.server k.session now).1 w.admitted
      (announce-locks w.server k.session now) h.admitted h)
step-WorldValid w v h (proceed before after k m now e f) =
    subst WorldValid (sym f) (proceed-WorldValid w before after k m now h e)
step-WorldValid w v h (release before after k now e over f) =
    subst WorldValid (sym f) (release-WorldValid w before after k now h e)
step-WorldValid w v h (other e readers writers f) = subst WorldValid (sym f) (
    served w (record w.server { engine = e; active_readers = readers; active_writers = writers })
      w.admitted refl h.admitted h)

-- In every reachable world the list of locked sentences is the list of the entries that the sessions
-- at work made, newest first; no key stands twice in it, and every filename fits into its field.
pub Reachable-WorldValid : (w : World) → Reachable w → WorldValid w
Reachable-WorldValid w (started e f) =
    subst WorldValid (sym f) (record { tracked = refl; distinct = tt; admitted = tt; holding = tt })
Reachable-WorldValid w (stepped {w = v} r s) = step-WorldValid v w (Reachable-WorldValid v r) s

get-map :
    (l : List Holder) (i : ℕ) (h : Holder)
    → get_elem? l i ≡ some h
    → get_elem? (map entry_of l) i ≡ some (entry_of h)
get-map [] i h e = cc e
get-map (x ∷ l) zero h e = let same : x ≡ h = cc e in ap (λ (k : Holder). some (entry_of k)) same
get-map (x ∷ l) (suc i) h e = get-map l i h e

get-All :
    {A : Type 0} (P : A → Type 0) (l : List A) (i : ℕ) (x : A)
    → get_elem? l i ≡ some x
    → All P l
    → P x
get-All P [] i x e h = absurd (cc e)
get-All P (y ∷ l) zero x e h = let same : y ≡ x = cc e in subst P same h.0
get-All P (y ∷ l) (suc i) x e h = get-All P l i x e h.1

-- In every reachable world, two sessions that have their lock on the same sentence of the same file
-- are one session.
pub mutual_exclusion :
    (w : World) (i j : ℕ) (h k : Holder)
    → Reachable w
    → get_elem? w.holding i ≡ some h
    → get_elem? w.holding j ≡ some k
    → h.session.filename ≡ k.session.filename
    → h.session.sentence_idx ≡ k.session.sentence_idx
    → i ≡ j
mutual_exclusion w i j h k r p q same_file same_sentence =
    let v = Reachable-WorldValid w r in
    key_place (map entry_of w.holding) i j (entry_of h) (entry_of k)
      (subst (λ (l : List LockedSentence). Distinct (keys l)) v.tracked v.distinct)
      (get-map w.holding i h p) (get-map w.holding j k q) (rw (same_file, same_sentence) refl)

get-split :
    {A : Type 0} (l : List A) (i : ℕ) (x : A)
    → get_elem? l i ≡ some x
    → (before : List A) × (after : List A) × (l ≡ before ++ x ∷ after)
get-split [] i x e = absurd (cc e)
get-split (y ∷ l) zero x e = let same : y ≡ x = cc e in ([], l, ap (λ z. z ∷ l) same)
get-split (y ∷ l) (suc i) x e =
    let (before, after, f) = get-split l i x e in (y ∷ before, after, ap (◌∷◌ y) f)

-- In every reachable world, the commit of a session that has its lock finds the version that this
-- session read when its sentence was checked.
pub holder-own_version :
    (w : World) (i : ℕ) (h : Holder)
    → Reachable w
    → get_elem? w.holding i ≡ some h
    → get_locked_sentence_version w.server.locked_sentences h.session.filename
        h.session.sentence_idx
      ≡ some h.session.file_version
holder-own_version w i h r e =
    let v = Reachable-WorldValid w r in
    let (before, after, f) = get-split w.holding i h e in
    let tracked = v.tracked ∙ ap (map entry_of) f ∙ entries-middle before after h in
    let named = get-All (λ (k : Holder). Named k.session) w.holding i h e v.holding in
    let distinct = subst (λ (l : List LockedSentence). Distinct (keys l)) tracked v.distinct in
    rw (tracked) (
      subst
        (λ (name : Bytes).
          get_locked_sentence_version (map entry_of before ++ entry_of h ∷ map entry_of after) name
            h.session.sentence_idx
          ≡ some h.session.file_version)
        (take_of_length-le 255 h.session.filename named)
        (remove_at_key (map entry_of before) (map entry_of after) (entry_of h) distinct).1)
