-- ===== src/Persistence/Places.antt =====
-- The directories of a storage server: no two files of it share a path.
use mathlib.Core.List.{append_cancel_left, append_cancel_right}
use network_file_storage.Prelude.{
  Bool-cases, All-append, ℕ, Bytes, codes, true, Option, some, Option-cases, inl, inr, ◌≡◌, ◌≢◌,
  refl, sym, ap, arith, [], ◌∷◌, ◌++◌, All,
}
use network_file_storage.Persistence.{
  ss_file_path, ss_metadata_path, ss_undo_path, ss_root_path, ss_checkpoint_dir, ss_checkpoint_path,
  root_size,
}
use network_file_storage.Text.{is_valid_checkpoint_tag, all_tag_bytes, is_tag_byte}

-- The three files that the storage engine keeps for a file.
pub data Place : Type 0 where
  content metadata undo : Place

abbrev pub place_path : Place → ℕ → Option Bytes → Option Bytes → Bytes → Option Bytes
place_path content = ss_file_path
place_path metadata = ss_metadata_path
place_path undo = ss_undo_path

-- What a path function writes is the root, the directory and the name.
abbrev within : Place → Bytes → Bytes
within content name = codes "/files/" ++ name
within metadata name = codes "/metadata/" ++ (name ++ codes ".meta.json")
within undo name = codes "/undo/" ++ (name ++ codes ".undo.json")

place_path-within :
    (k : Place) (len : ℕ) (base id : Option Bytes) (name p : Bytes)
    → place_path k len base id name ≡ some p
    → (root : Bytes) × (ss_root_path root_size base id ≡ some root) × (p ≡ root ++ within k name)
unfolding ss_file_path ss_metadata_path ss_undo_path
place_path-within content len base id name p e =
    elim (Option-cases (ss_root_path root_size base id)) [
      | inl n ↦ ground (arith, e, n)
      | inr (root, r) ↦ (root, r, ground (arith, e, r))
    ]
place_path-within metadata len base id name p e =
    elim (Option-cases (ss_root_path root_size base id)) [
      | inl n ↦ ground (arith, e, n)
      | inr (root, r) ↦ (root, r, ground (arith, e, r))
    ]
place_path-within undo len base id name p e = elim (Option-cases (ss_root_path root_size base id)) [
  | inl n ↦ ground (arith, e, n)
  | inr (root, r) ↦ (root, r, ground (arith, e, r))
]

-- The byte behind the slash.
abbrev second : Bytes → ℕ
second (c ∷ b ∷ s) = b
second _ = 0

within-injective : (k j : Place) (f g : Bytes) → within k f ≡ within j g → (k ≡ j) × (f ≡ g)
within-injective content content f g e = (refl, append_cancel_left (codes "/files/") f g e)
within-injective content metadata f g e = absurd (omega (arith, ap second e))
within-injective content undo f g e = absurd (omega (arith, ap second e))
within-injective metadata content f g e = absurd (omega (arith, ap second e))
within-injective metadata metadata f g e = (
  refl,
  append_cancel_right f g (codes ".meta.json") (
      append_cancel_left (codes "/metadata/") (f ++ codes ".meta.json") (g ++ codes ".meta.json")
        e),
)
within-injective metadata undo f g e = absurd (omega (arith, ap second e))
within-injective undo content f g e = absurd (omega (arith, ap second e))
within-injective undo metadata f g e = absurd (omega (arith, ap second e))
within-injective undo undo f g e = (
  refl,
  append_cancel_right f g (codes ".undo.json")
      (append_cancel_left (codes "/undo/") (f ++ codes ".undo.json") (g ++ codes ".undo.json") e),
)

-- The content, metadata and undo paths of a storage server are all different, for one filename and
-- for two: where two path functions write the same path, they are the same function and the
-- filenames are equal.
pub place_path-injective :
    (k j : Place) (len room : ℕ) (base id : Option Bytes) (f g p : Bytes)
    → place_path k len base id f ≡ some p
    → place_path j room base id g ≡ some p
    → (k ≡ j) × (f ≡ g)
place_path-injective k j len room base id f g p d e =
    let (root, r, x) = place_path-within k len base id f p d in
    let (root', r', y) = place_path-within j room base id g p e in
    within-injective k j f g (append_cancel_left root (within k f) (within j g) (cc (x, y, r, r')))

-- A tag has no slash.
tag-NoSlash : (t : Bytes) → all_tag_bytes t ≡ true → All (λ c. c ≢ b'/') t
unfolding all_tag_bytes
tag-NoSlash [] h = tt
tag-NoSlash (c ∷ t) h = elim (Bool-cases (is_tag_byte c)) [
  | inl e ↦ (λ s. ground (arith, e, s), tag-NoSlash t (ground (arith, e, h)))
  | inr n ↦ absurd (ground (arith, n, h))
]

slash_inside : (g u t : Bytes) → All (λ c. c ≢ b'/') t → t ≢ g ++ b'/' ∷ u
slash_inside [] u [] h e = cc e
slash_inside (x ∷ g) u [] h e = cc e
slash_inside [] u (c ∷ t) h e = h.0 (cc e)
slash_inside (x ∷ g) u (c ∷ t) h e = slash_inside g u t h.1 (cc e)

-- The last slash of two equal paths is at the same place.
last_slash :
    (f g t u : Bytes)
    → All (λ c. c ≢ b'/') t
    → All (λ c. c ≢ b'/') u
    → f ++ b'/' ∷ t ≡ g ++ b'/' ∷ u
    → (f ≡ g) × (t ≡ u)
last_slash [] [] t u h k e = (refl, cc e)
last_slash [] (c ∷ g) t u h k e = absurd (slash_inside g u t h (cc e))
last_slash (c ∷ f) [] t u h k e = absurd (slash_inside f t u k (cc (sym e)))
last_slash (c ∷ f) (b ∷ g) t u h k e = let (p, q) = last_slash f g t u h k (cc e) in (cc (e, p), q)

checkpoint_path-within :
    (len : ℕ) (base id : Option Bytes) (name t p : Bytes)
    → ss_checkpoint_path len base id (some name) (some t) ≡ some p
    → (root : Bytes) × (ss_root_path root_size base id ≡ some root)
      × (p ≡ (root ++ (codes "/checkpoints/" ++ name)) ++ b'/' ∷ (t ++ codes ".chk"))
unfolding ss_checkpoint_path ss_checkpoint_dir
checkpoint_path-within len base id name t p e =
    elim (Option-cases (ss_root_path root_size base id)) [
      | inl n ↦ ground (arith, e, n)
      | inr (root, r) ↦ (root, r, ground (arith, e, r))
    ]

tag-NoSlash_ext :
    (t : Bytes) → is_valid_checkpoint_tag t ≡ true → All (λ c. c ≢ b'/') (t ++ codes ".chk")
unfolding is_valid_checkpoint_tag
tag-NoSlash_ext t h =
    All-append (λ c. c ≢ b'/') t (codes ".chk") (tag-NoSlash t (ground (arith, h)))
      (
        λ e. omega (arith, e),
        (λ e. omega (arith, e), (λ e. omega (arith, e), (λ e. omega (arith, e), tt))),
      )

-- The checkpoints of a storage server are told apart by their paths: if two valid tags have the same
-- checkpoint path, for one filename or for two, both filenames and both tags are equal.
pub checkpoint_path-injective :
    (len room : ℕ) (base id : Option Bytes) (f g t u p : Bytes)
    → is_valid_checkpoint_tag t ≡ true
    → is_valid_checkpoint_tag u ≡ true
    → ss_checkpoint_path len base id (some f) (some t) ≡ some p
    → ss_checkpoint_path room base id (some g) (some u) ≡ some p
    → (f ≡ g) × (t ≡ u)
checkpoint_path-injective len room base id f g t u p h k d e =
    let (root, r, x) = checkpoint_path-within len base id f t p d in
    let (root', r', y) = checkpoint_path-within room base id g u p e in
    let (dirs, exts) =
      last_slash (root ++ (codes "/checkpoints/" ++ f)) (root ++ (codes "/checkpoints/" ++ g))
        (t ++ codes ".chk") (u ++ codes ".chk") (tag-NoSlash_ext t h) (tag-NoSlash_ext u k)
        (cc (x, y, r, r')) in
    (
      append_cancel_left (codes "/checkpoints/") f g
          (append_cancel_left root (codes "/checkpoints/" ++ f) (codes "/checkpoints/" ++ g) dirs),
      append_cancel_right t u (codes ".chk") exts,
    )
