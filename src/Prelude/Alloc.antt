-- ===== src/Prelude/Alloc.antt =====
-- The allocator: one answer for each call that asks it for memory, in order. When the answers are
-- used up, every further call succeeds.
use mathlib.Core.Bool.{Bool, true}
use mathlib.Core.List.{List, [], ◌∷◌}

abbrev pub Memory : Type 0
Memory = List Bool

-- malloc, calloc, realloc or strdup: whether the call succeeds, and the answers that are left.
abbrev pub alloc : Memory → Bool × Memory
alloc [] = (true, [])
alloc (b ∷ m) = (b, m)
