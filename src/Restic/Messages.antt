-- ===== src/Restic/Messages.antt =====
-- foundation/restic/backup.go: parseBackup and mergeErrors. A line of restic's output arrives decoded:
-- what json.Unmarshal makes of it is an argument.
pub mod Counts
use sion_backup.Prelude.{
  ℕ, suc, ◌+◌, Bool, true, false, Option, none, some, List, [], ◌∷◌, ◌++◌, ltb, leb, length,
  if◌then◌else◌,
}
use sion_backup.Prelude.Text.{Text}
use sion_backup.Restic.{Summary, no_summary}

-- A line that is empty or is no JSON, a status, an error with its item and sentence, a summary, a
-- summary that does not decode, or a message of another type.
pub data Line : Type 0 where
  unreadable status other_message bad_summary : Line
  error_line : Text → Text → Line
  summary_line : Summary → Line

abbrev pub max_errors_kept : ℕ
max_errors_kept = 100

abbrev pub keep_error : Text → Text → Summary → Summary
keep_error item sentence s =
    if ltb (length s.errors) max_errors_kept
    then record s { errors = s.errors ++ (item, sentence) ∷ [] }
    else s

-- The loop; `errors` counts the error lines so far. `broken`: the scanner gives up after the lines.
-- The result is false where parseBackup returns an error, and its count is then not filled in.
unfoldable pub parse_from : List Line → Bool → ℕ → Summary → Summary × Bool
parse_from [] broken errors s =
    if broken then (s, false) else (record s { error_count = errors }, true)
parse_from (error_line item sentence ∷ ls) broken errors s =
    parse_from ls broken (suc errors) (keep_error item sentence s)
parse_from (summary_line got ∷ ls) broken errors s =
    parse_from ls broken errors (record got { errors = s.errors; error_count = 0 })
parse_from (bad_summary ∷ ls) broken errors s = (s, false)
parse_from (unreadable ∷ ls) broken errors s = parse_from ls broken errors s
parse_from (status ∷ ls) broken errors s = parse_from ls broken errors s
parse_from (other_message ∷ ls) broken errors s = parse_from ls broken errors s

unfoldable pub parse_backup : List Line → Bool → Summary × Bool
unfolding parse_from
parse_backup ls broken = parse_from ls broken 0 no_summary

-- The errors of the second stream that fit under the bound.
unfoldable pub with_errors : List (Text × Text) → List (Text × Text) → List (Text × Text)
with_errors kept [] = kept
with_errors kept (e ∷ es) =
    let more = with_errors (kept ++ e ∷ []) es in
    if leb max_errors_kept (length kept) then kept else more

unfoldable pub merge_errors : Summary → Summary → Summary
unfolding with_errors
merge_errors s other = record s {
  error_count = s.error_count + other.error_count;
  errors = with_errors s.errors other.errors;
}

abbrev pub merged : Summary → Summary × Bool → Summary
merged s (other, true) = merge_errors s other
merged s (other, false) = s

-- What backupOnce makes of the two streams: the summary, and whether the first was read to its end.
unfoldable pub both_streams : List Line → Bool → List Line → Bool → Summary × Bool
unfolding parse_backup
both_streams out out_broken err err_broken =
    let (s, read) = parse_backup out out_broken in (merged s (parse_backup err err_broken), read)
