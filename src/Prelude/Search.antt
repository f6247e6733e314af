-- ===== src/Prelude/Search.antt =====
-- Searching and reading text: strstr, strchr and strtoull.
use Prim.Native.Nat.{ℕ, ◌-◌, ◌%◌, ◌^◌}
use mathlib.Core.Bool.{Bool, true, false, ◌&&◌, ◌||◌}
use mathlib.Core.Option.{Option, none, some}
use mathlib.Core.List.{[], ◌∷◌}
use network_file_storage.Prelude.Tests.{◌==◌, leb, if◌then◌else◌}
use network_file_storage.Prelude.CString.{Bytes}
use network_file_storage.Prelude.Decimal.{read_digits}

-- A text begins with another one.
unfoldable pub starts_with : Bytes → Bytes → Bool
starts_with [] s = true
starts_with (p ∷ ps) [] = false
starts_with (p ∷ ps) (c ∷ s) = (p == c) && starts_with ps s

-- strstr: the text from the first place where the pattern stands.
unfoldable pub strstr : Bytes → Bytes → Option Bytes
unfolding starts_with
strstr [] pattern = if starts_with pattern [] then some [] else none
strstr (c ∷ s) pattern =
    let rest = strstr s pattern in if starts_with pattern (c ∷ s) then some (c ∷ s) else rest

-- strchr, and one byte on.
unfoldable pub after_byte : ℕ → Bytes → Option Bytes
after_byte b [] = none
after_byte b (c ∷ s) = let rest = after_byte b s in if c == b then some s else rest

-- strchr: the bytes before the first place of a byte.
unfoldable pub before_byte : ℕ → Bytes → Option Bytes
before_byte b [] = none
before_byte b (c ∷ s) = elim (before_byte b s) [
  | none ↦ if c == b then some [] else none
  | some t ↦ if c == b then some [] else some (c ∷ t)
]

-- isspace
abbrev pub is_space : ℕ → Bool
is_space c = c == 32 || (leb 9 c && leb c 13)

unfoldable pub skip_space : Bytes → Bytes
skip_space [] = []
skip_space (c ∷ s) = if is_space c then skip_space s else c ∷ s

-- The sign before a number, whether it is a minus, and the rest.
abbrev pub read_sign : Bytes → Bool × Bytes
read_sign [] = (false, [])
read_sign (c ∷ s) =
    if c == b'-' then (true, s) else if c == b'+' then (false, s) else (false, c ∷ s)

-- strtoull(s, NULL, 10)
unfoldable pub strtoull : Bytes → ℕ
unfolding skip_space
strtoull s =
    let (negative, t) = read_sign (skip_space s) in
    let n = read_digits 0 t in
    if leb (2 ^ 64) n then 2 ^ 64 - 1 else if negative then (2 ^ 64 - n) % 2 ^ 64 else n
