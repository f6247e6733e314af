-- ===== src/Prelude/CString.antt =====
-- Text as its bytes. A C string is the list of the bytes before its NUL; a counted buffer may hold
-- a NUL, and what the string functions see of it is `c_str`.
use Prim.Native.Nat.{ℕ, ◌<◌}
use Prim.Native.Char.{code}
use Prim.Native.String.{String}
use mathlib.Core.Path.{◌≡◌, refl}
use mathlib.Core.Logic.{◌≢◌, ◌↔◌}
use mathlib.Core.Bool.{Bool, true, false, ◌&&◌}
use mathlib.Core.List.{List, [], ◌∷◌}
use native.Mathlib.Omega.{arith}
use network_file_storage.Prelude.Tests.{◌==◌, if◌then◌else◌}
use network_file_storage.Prelude.Lists.{All}

abbrev pub Bytes : Type 0
Bytes = List ℕ

abbrev pub IsByte : ℕ → Type 0
IsByte b = b < 256

-- The code points of a literal, which are its bytes: every literal here is ASCII.
abbrev pub codes : String → Bytes
codes String.[] = []
codes (String.◌∷◌ c s) = code c ∷ codes s

-- strcmp(s, t) == 0
unfoldable pub str_eq : Bytes → Bytes → Bool
str_eq [] [] = true
str_eq [] (b ∷ t) = false
str_eq (a ∷ s) [] = false
str_eq (a ∷ s) (b ∷ t) = (a == b) && str_eq s t

pub str_eq_sound : (s t : Bytes) → str_eq s t ≡ true → s ≡ t
unfolding str_eq
str_eq_sound [] [] h = refl
str_eq_sound [] (b ∷ t) h = ground arith
str_eq_sound (a ∷ s) [] h = ground arith
str_eq_sound (a ∷ s) (b ∷ t) h = ground (arith, str_eq_sound s t)

pub str_eq_refl : (s : Bytes) → str_eq s s ≡ true
unfolding str_eq
str_eq_refl [] = refl
str_eq_refl (a ∷ s) = ground (arith, str_eq_refl s)

pub str_eq_iff : (s t : Bytes) → (str_eq s t ≡ true) ↔ (s ≡ t)
str_eq_iff s t = (str_eq_sound s t, λ e. rw e (str_eq_refl t))

-- What the string functions read of a buffer that the allocator has terminated by a NUL.
unfoldable pub c_str : Bytes → Bytes
c_str [] = []
c_str (c ∷ s) = if c == 0 then [] else c ∷ c_str s

abbrev pub LacksNul : Bytes → Type 0
LacksNul = All (λ c. c ≢ 0)

pub c_str-LacksNul : (s : Bytes) → LacksNul (c_str s)
unfolding c_str
c_str-LacksNul [] = tt
c_str-LacksNul (c ∷ s) = ground (arith, c_str-LacksNul s)

pub c_str_of_LacksNul : (s : Bytes) → LacksNul s → c_str s ≡ s
unfolding c_str
c_str_of_LacksNul [] h = refl
c_str_of_LacksNul (c ∷ s) h = ground (arith, h.0, c_str_of_LacksNul s h.1)
