-- ===== src/SelfUpdate/Refused.antt =====
-- foundation/selfupdate/probation.go: the list of versions this machine gave up on, as the lines of
-- a file: Refused, refuses, refuse and Forget.
pub mod Parsing
pub mod Cleaning
pub mod Bounds
use sion_backup.Prelude.{
  ℕ, Bool, true, false, Option, none, some, List, [], ◌∷◌, ◌++◌, length, drop, map, if◌then◌else◌,
  ltb, ◌-◌, take,
}
use sion_backup.Prelude.Text.{Text, is_empty, lines, trim_space, join, text_eq}
use sion_backup.SelfUpdate.Disk.{Disk, Faults, Write, done, denied, torn}

abbrev pub max_refused : ℕ
max_refused = 10

-- The lines that are not empty once trimmed.
abbrev pub keep_texts : List Text → List Text
keep_texts [] = []
keep_texts (l ∷ ls) =
    if is_empty (trim_space l) then keep_texts ls else trim_space l ∷ keep_texts ls

unfoldable pub refused_lines : Option Text → List Text
refused_lines none = []
refused_lines (some blob) = keep_texts (lines blob)

unfoldable pub member : Text → List Text → Bool
member v [] = false
member v (r ∷ rs) = if text_eq r v then true else member v rs

unfoldable pub refuses : Disk → Text → Bool
unfolding refused_lines member
refuses d v = member v (refused_lines d.refused_file)

-- The newest `max_refused` of the list.
unfoldable pub capped : List Text → List Text
capped rs = if ltb max_refused (length rs) then drop (length rs - max_refused) rs else rs

-- os.WriteFile of a text: what the file holds afterwards.
abbrev pub written : Write → Text → Option Text → Option Text
written done t was = some t
written denied t was = was
written (torn n) t was = some (take n t)

unfoldable pub refuse : Faults → Text → Disk → Disk
unfolding refused_lines member capped
refuse f v d =
    let rs = refused_lines d.refused_file in
    if member v rs then d else record d {
      refused_file =
          written f.write_refused (join 10 (capped (rs ++ v ∷ [])) ++ 10 ∷ []) d.refused_file;
    }

abbrev pub forget_file : Option Text → Bool → Disk → Disk × Bool
forget_file none b d = (d, true)
forget_file (some t) true d = (d, false)
forget_file (some t) false d = (record d { refused_file = none }, true)

-- Forget: true unless the file is there and cannot be removed.
unfoldable pub forget : Faults → Disk → Disk × Bool
forget f d = forget_file d.refused_file f.remove_refused d
