-- ===== src/Text/Tests.antt =====
-- The text routines at work.
use network_file_storage.Prelude.{
  Bytes, str_eq, if◌then◌else◌, codes, none, some, ◌≡◌, ◌↔◌, refl, List, [], ◌∷◌, length, arith,
  c_str,
}
use network_file_storage.Text.{
  scan_spans, compute_spans, count_words, tokenize_words, split_from, normalise_inline_whitespace,
  join_words, WordUpdate, apply_update, apply_updates, update_loop, updated,
  normalize_relative_path, skip_slashes, squeeze, trim_slashes, any_dots,
}
use network_file_storage.Text.Spans.{Tiles, compute_spans-Tiles}
use network_file_storage.Text.Counting.{count-length-tokenize}
use mathlib.Core.List.{Sublist}
use network_file_storage.Text.Names.{components, path_of, normalize-components}
use network_file_storage.Text.Updates.{
  AllFit, apply_updates_iff, apply_updates-Sublist, tokenize-join-updates,
}

abbrev two : Bytes
two = codes "One two.  Three!"

spans_run :
    compute_spans two ≡ record { start = 0; length = 8 } ∷ record { start = 10; length = 6 } ∷ []
unfolding compute_spans scan_spans
spans_run = refl

compute_spans-Tiles_example : Tiles 0 two (compute_spans two)
compute_spans-Tiles_example = compute_spans-Tiles two

tokens_run : tokenize_words two ≡ codes "One" ∷ codes "two." ∷ codes "Three!" ∷ []
unfolding tokenize_words split_from normalise_inline_whitespace c_str
tokens_run = refl

count-length-tokenize_example : count_words two ≡ length (tokenize_words two)
count-length-tokenize_example = count-length-tokenize two

abbrev edits : List WordUpdate
edits =
    record { index = 1; text = some (codes "and a") }
    ∷ record { index = 5; text = some (codes "half") }
    ∷ []

edits_run :
    apply_updates (tokenize_words two) edits
    ≡ updated
        (codes "One" ∷ codes "and" ∷ codes "a" ∷ codes "two." ∷ codes "Three!" ∷ codes "half" ∷ [])
unfolding apply_updates update_loop apply_update tokenize_words split_from
    normalise_inline_whitespace c_str
edits_run = refl

apply_updates_iff_example :
    ((words' : List Bytes) × (apply_updates (tokenize_words two) edits ≡ updated words'))
    ↔ AllFit (length (tokenize_words two)) edits
apply_updates_iff_example = apply_updates_iff (tokenize_words two) edits

abbrev edited : List Bytes
edited = codes "One" ∷ codes "and" ∷ codes "a" ∷ codes "two." ∷ codes "Three!" ∷ codes "half" ∷ []

apply_updates-Sublist_example : Sublist (tokenize_words two) edited
apply_updates-Sublist_example = apply_updates-Sublist (tokenize_words two) edited edits edits_run

tokenize-join-updates_example : tokenize_words (join_words edited) ≡ edited
tokenize-join-updates_example = tokenize-join-updates two edited edits edits_run

normalize_runs : normalize_relative_path (some (codes "//a///b/")) 4096 ≡ some (codes "a/b")
unfolding normalize_relative_path skip_slashes squeeze trim_slashes any_dots split_from str_eq
normalize_runs = refl

dots_run : normalize_relative_path (some (codes "a/../b")) 4096 ≡ none
unfolding normalize_relative_path skip_slashes squeeze trim_slashes any_dots split_from str_eq
dots_run = refl

abbrev a_path : Bytes
a_path = codes "//a///b/"

normalize-components_example :
    normalize_relative_path (some a_path) 4096
    ≡ (if any_dots (components a_path) then none else some (path_of (components a_path)))
normalize-components_example = normalize-components a_path 4096 (omega arith) (omega arith)
