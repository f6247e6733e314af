-- ===== src/Text/Names.antt =====
-- normalize_relative_path against the components of a path.
use network_file_storage.Prelude.{
  ℕ, zero, suc, ◌-◌, ◌≤◌, ◌<◌, Bytes, Bool, true, false, ◌&&◌, if◌then◌else◌, List, [], ◌∷◌, ◌++◌,
  append_assoc, append-nil, ◌≡◌, refl, sym, ap, ◌∙◌, arith, length, All, Bool-cases, inl, inr, ◌==◌,
  none, some, take_of_length-le,
}
use network_file_storage.Text.{
  is_empty, split_from, skip_slashes, squeeze, trim_slashes, any_dots, normalize_relative_path,
  path_max,
}

-- The components of a path: the longest runs without a slash.
abbrev pub components : Bytes → List Bytes
components path = split_from b'/' [] path

-- The components with one slash between two of them.
unfoldable pub path_of : List Bytes → Bytes
path_of [] = []
path_of (p ∷ []) = p
path_of (p ∷ q ∷ ps) = p ++ b'/' ∷ path_of (q ∷ ps)

abbrev normal : ℕ → Bytes → Bytes
normal room s = trim_slashes (squeeze false room (skip_slashes s))

split-skip : (s : Bytes) → split_from b'/' [] (skip_slashes s) ≡ split_from b'/' [] s
unfolding skip_slashes split_from
split-skip [] = refl
split-skip (c ∷ s) = ground (arith, split-skip s)

split-trim : (s w : Bytes) → split_from b'/' w (trim_slashes s) ≡ split_from b'/' w s
unfolding trim_slashes split_from
split-trim [] w = refl
split-trim (c ∷ s) w = elim (Bool-cases (c == b'/')) [
  | inr n ↦ ground (arith, n, split-trim s (w ++ c ∷ []))
  | inl e ↦ elim (Bool-cases (is_empty (trim_slashes s))) [
    | inr n ↦ ground (arith, e, n, split-trim s [])
    | inl n ↦ ground (arith, e, n, split-trim s [])
  ]
]

split-squeeze :
    (after : Bool) (room : ℕ) (s w : Bytes)
    → length s ≤ room
    → (after ≡ true → w ≡ [])
    → split_from b'/' w (squeeze after room s) ≡ split_from b'/' w s
unfolding squeeze split_from
split-squeeze after room [] w fits h = refl
split-squeeze after zero (c ∷ s) w fits h = absurd (omega (arith, fits))
split-squeeze true (suc room) (c ∷ s) w fits h = ground (
  arith,
  h,
  split-squeeze true (suc room) s [] (omega (arith, fits)),
  split-squeeze false room s (w ++ c ∷ []) (omega (arith, fits)),
)
split-squeeze false (suc room) (c ∷ s) w fits h = ground (
  arith,
  split-squeeze true room s [] (omega (arith, fits)),
  split-squeeze false room s (w ++ c ∷ []) (omega (arith, fits)),
)

length-skip : (s : Bytes) → length (skip_slashes s) ≤ length s
unfolding skip_slashes
length-skip [] = omega arith
length-skip (c ∷ s) = ground (arith, length-skip s)

length-trim : (s : Bytes) → length (trim_slashes s) ≤ length s
unfolding trim_slashes
length-trim [] = omega arith
length-trim (c ∷ s) = ground (arith, length-trim s)

length-squeeze : (after : Bool) (room : ℕ) (s : Bytes) → length (squeeze after room s) ≤ length s
unfolding squeeze
length-squeeze after room [] = omega arith
length-squeeze after zero (c ∷ s) = omega arith
length-squeeze after (suc room) (c ∷ s) =
    ground (arith, length-squeeze (c == b'/') room s, length-squeeze (c == b'/') (suc room) s)

abbrev Filled : Bytes → Type 0
Filled w = is_empty w ≡ false

is_empty-append : (s t : Bytes) → is_empty (s ++ t) ≡ (is_empty s && is_empty t)
is_empty-append [] t = refl
is_empty-append (c ∷ s) t = refl

split-Filled : (s w : Bytes) → All Filled (split_from b'/' w s)
unfolding split_from
split-Filled [] w = elim (Bool-cases (is_empty w)) [ inl e ↦ rw e tt | inr n ↦ rw n (n, tt) ]
split-Filled (c ∷ s) w = elim (Bool-cases (c == b'/')) [
  | inr n ↦ rw (n, split_from) (split-Filled s (w ++ c ∷ []))
  | inl e ↦ elim (Bool-cases (is_empty w)) [
    | inl x ↦ rw (e, x, split_from) (split-Filled s [])
    | inr x ↦ rw (e, x, split_from) (x, split-Filled s [])
  ]
]

path_of-Filled : (w : Bytes) (ps : List Bytes) → Filled w → Filled (path_of (w ∷ ps))
unfolding path_of
path_of-Filled w [] h = h
path_of-Filled (c ∷ w) (p ∷ ps) h = refl
path_of-Filled [] (p ∷ ps) h = absurd (cc h)

-- What stands behind the first component.
abbrev behind : Bytes → Bytes
behind path = if is_empty path then [] else b'/' ∷ path

path_of-cons :
    (w : Bytes) (ps : List Bytes) → All Filled ps → path_of (w ∷ ps) ≡ w ++ behind (path_of ps)
unfolding path_of
path_of-cons w [] h = sym (append-nil w)
path_of-cons w (p ∷ ps) h = rw (path_of-Filled p ps h.0) refl

trim_slash : (s : Bytes) → trim_slashes (b'/' ∷ s) ≡ behind (trim_slashes s)
unfolding trim_slashes
trim_slash s = ground arith

-- After a slash, or at the start, nothing of a component is read yet: `w` is empty.
trim-squeeze :
    (after : Bool) (room : ℕ) (s w : Bytes)
    → length s ≤ room
    → is_empty w ≡ after
    → path_of (split_from b'/' w s) ≡ w ++ trim_slashes (squeeze after room s)
unfolding squeeze split_from trim_slashes path_of
trim-squeeze after room [] [] fits h = refl
trim-squeeze after room [] (x ∷ w) fits h = sym (append-nil (x ∷ w))
trim-squeeze after zero (c ∷ s) w fits h = absurd (omega (arith, fits))
trim-squeeze true (suc room) (c ∷ s) (x ∷ w) fits h = absurd (cc h)
trim-squeeze false (suc room) (c ∷ s) [] fits h = absurd (cc h)
trim-squeeze true (suc room) (c ∷ s) [] fits h = elim (Bool-cases (c == b'/')) [
  | inl e ↦
      rw (e, split_from, squeeze) (trim-squeeze true (suc room) s [] (omega (arith, fits)) refl)
  | inr n ↦ ground (arith, n, trim-squeeze false room s (c ∷ []) (omega (arith, fits)) refl)
]
trim-squeeze false (suc room) (c ∷ s) (x ∷ w) fits h = elim (Bool-cases (c == b'/')) [
  | inl e ↦ ground (
    arith,
    e,
    path_of-cons (x ∷ w) (split_from b'/' [] s) (split-Filled s []),
    trim-squeeze true room s [] (omega (arith, fits)) refl,
  )
  | inr n ↦ ground (
    arith,
    n,
    append_assoc (x ∷ w) (c ∷ []) (trim_slashes (squeeze false room s)),
    trim-squeeze false room s ((x ∷ w) ++ c ∷ []) (omega (arith, fits)) refl,
  )
]

-- The leading slashes are skipped as a run behind a slash would be.
squeeze-skip :
    (room : ℕ) (s : Bytes)
    → length s ≤ room
    → squeeze false room (skip_slashes s) ≡ squeeze true room s
unfolding squeeze skip_slashes
squeeze-skip room [] fits = refl
squeeze-skip zero (c ∷ s) fits = absurd (omega (arith, fits))
squeeze-skip (suc room) (c ∷ s) fits = ground (arith, squeeze-skip (suc room) s)

normal-path_of : (room : ℕ) (s : Bytes) → length s ≤ room → normal room s ≡ path_of (components s)
normal-path_of room s fits =
    ap trim_slashes (squeeze-skip room s fits) ∙ sym (trim-squeeze true room s [] fits refl)

components-normal :
    (room : ℕ) (s : Bytes) → length s ≤ room → components (normal room s) ≡ components s
components-normal room s fits =
    split-trim (squeeze false room (skip_slashes s)) []
    ∙ split-squeeze false room (skip_slashes s) [] (omega (arith, length-skip s, fits)) (λ e. refl)
    ∙ split-skip s

length-normal : (room : ℕ) (s : Bytes) → length (normal room s) ≤ length s
length-normal room s = omega (
  arith,
  length-trim (squeeze false room (skip_slashes s)),
  length-squeeze false room (skip_slashes s),
  length-skip s,
)

-- A path of less than 4096 bytes, and of less than the size of the buffer, is written back as its
-- components with one slash between two of them; the function fails exactly if a component is
-- "." or "..".
pub normalize-components :
    (s : Bytes) (len : ℕ)
    → length s < path_max
    → length s < len
    → normalize_relative_path (some s) len
      ≡ (if any_dots (components s) then none else some (path_of (components s)))
unfolding normalize_relative_path
normalize-components s len short fits =
    let room = path_max - 1 in
    ground (
      arith,
      fits,
      components-normal room s (omega (arith, short)),
      normal-path_of room s (omega (arith, short)),
      take_of_length-le (len - 1) (normal room s) (omega (arith, length-normal room s, fits)),
    )
