-- ===== src/Survey/Folders.antt =====
-- business/domain/survey/surveybus: the folders that are offered (folders.go, and StyleOf of surveybus.go), and
-- the check of the folders that somebody wrote (roots.go). The disk is an argument.
use sion_backup.Prelude.{
  ℕ, Bool, true, false, Option, none, some, List, [], ◌∷◌, not, ◌||◌, ◌==◌, if◌then◌else◌, length,
}
use sion_backup.Prelude.Text.{
  Text, codes, text_eq, is_empty, has_prefix, trim_space, trim_left, trim_right, cut,
}
use sion_backup.Survey.{Style, personal, home, custom, Choice}
use sion_backup.Survey.Junk.{Paths, Goos, linux}

-- How os.Stat ends, and what is there.
pub data Stat : Type 0 where
  not_there barred : Stat
  not_looked_at : Text → Stat
  folder regular other : Stat

pub record Disk : Type 0 where
  pub stat : Text → Stat
  pub opens : Text → Bool
  pub lists : Text → Bool

pub data Why : Type 0 where
  not_full not_on_computer unreachable unreadable unlistable not_a_folder : Why
  cannot_be_looked_at : Text → Why

pub record Trouble : Type 0 where
  pub path : Text
  pub why : Why

-- What follows $HOME/.
abbrev pub after_home : Text → Text
after_home (_ ∷ _ ∷ _ ∷ _ ∷ _ ∷ _ ∷ s) = s
after_home s = []

module _ (paths : Paths) (disk : Disk) where
  abbrev pub why_by_stat : Text → Stat → Option Why
  why_by_stat p not_there = some not_on_computer
  why_by_stat p barred = some unreachable
  why_by_stat p (not_looked_at e) = some (cannot_be_looked_at e)
  why_by_stat p folder =
      if not (disk.opens p)
      then some unreadable
      else if not (disk.lists p)
      then some unlistable
      else none
  why_by_stat p regular = if not (disk.opens p) then some unreadable else none
  why_by_stat p other = some not_a_folder

  unfoldable pub check_root : Text → Option Why
  check_root p = if not (paths.is_abs p) then some not_full else why_by_stat p (disk.stat p)

  abbrev pub with_trouble : Text → Option Why → List Trouble → List Trouble
  with_trouble p none ts = ts
  with_trouble p (some w) ts = record { path = p; why = w } ∷ ts

  unfoldable pub check_roots : List Text → List Trouble
  unfolding check_root
  check_roots [] = []
  check_roots (r ∷ rs) =
      let p = trim_space r in
      let rest = check_roots rs in if is_empty p then rest else with_trouble p (check_root p) rest

  abbrev pub is_folder : Stat → Bool
  is_folder folder = true
  is_folder _ = false

  unfoldable pub existing : List Text → List Text
  existing [] = []
  existing (p ∷ ps) = let rest = existing ps in if is_folder (disk.stat p) then p ∷ rest else rest

  -- user-dirs.dirs: what a line assigns to a name, if it counts.
  abbrev pub is_quote : ℕ → Bool
  is_quote c = c == 34

  abbrev pub trim_quotes : Text → Text
  trim_quotes s = trim_right is_quote (trim_left is_quote s)

  abbrev pub dir_value : Text → Text → Option Text
  dir_value home_dir v =
      if text_eq v (codes "$HOME") || text_eq v (codes "$HOME/")
      then none
      else if has_prefix v (codes "$HOME/")
      then some (paths.join (home_dir ∷ after_home v ∷ []))
      else if not (paths.is_abs v)
      then none
      else some v

  abbrev pub assigned : Text → Text → Option (Text × Text) → Option (Text × Text)
  assigned home_dir line none = none
  assigned home_dir line (some (key, value)) =
      elim (dir_value home_dir (trim_quotes (trim_space value))) [
        | none ↦ none
        | some v ↦ some (trim_space key, v)
      ]

  unfoldable pub user_dir : Text → Text → Option (Text × Text)
  user_dir home_dir raw =
      let line = trim_space raw in
      if has_prefix line (codes "#") then none else assigned home_dir line (cut b'=' line)

  -- The last assignment to a name; empty if there is none.
  unfoldable pub found_dir : Text → Text → List Text → Text → Text
  unfolding user_dir
  found_dir home_dir key [] v = v
  found_dir home_dir key (l ∷ ls) v =
      found_dir home_dir key ls
        (elim (user_dir home_dir l) [ none ↦ v | some (k, d) ↦ if text_eq k key then d else v ])

  unfoldable pub wanted_dirs : Text → List Text → List Text → List Text
  unfolding found_dir
  wanted_dirs home_dir file [] = []
  wanted_dirs home_dir file (k ∷ ks) =
      let rest = wanted_dirs home_dir file ks in
      let d = found_dir home_dir k file [] in if is_empty d then rest else d ∷ rest

  abbrev pub xdg_names : List Text
  xdg_names =
      codes "XDG_DOCUMENTS_DIR"
      ∷ codes "XDG_DESKTOP_DIR"
      ∷ codes "XDG_PICTURES_DIR"
      ∷ codes "XDG_MUSIC_DIR"
      ∷ codes "XDG_VIDEOS_DIR"
      ∷ []

  -- The lines of the file, if it can be opened.
  unfoldable pub xdg_user_dirs : Text → Option (List Text) → List Text
  unfolding wanted_dirs
  xdg_user_dirs home_dir none = []
  xdg_user_dirs home_dir (some file) = wanted_dirs home_dir file xdg_names

  unfoldable pub in_home : Text → List Text → List Text
  in_home h [] = []
  in_home h (n ∷ ns) = paths.join (h ∷ n ∷ []) ∷ in_home h ns

  abbrev pub english_names : List Text
  english_names =
      codes "Documents" ∷ codes "Desktop" ∷ codes "Pictures" ∷ codes "Music" ∷ codes "Videos" ∷ []

  abbrev pub localised : Goos → Text → Option (List Text) → List Text
  localised linux h file = xdg_user_dirs h file
  localised _ h file = []

  abbrev pub or_english : Text → List Text → List Text
  or_english h [] = in_home h english_names
  or_english h (d ∷ ds) = d ∷ ds

  unfoldable pub personal_folders : Goos → Text → Option (List Text) → List Text
  unfolding in_home
  personal_folders goos h file = or_english h (localised goos h file)

  abbrev pub choice_of : Style → List Text → Choice
  choice_of s roots = record { style = s; roots = roots }

  abbrev pub with_personal : List Text → List Choice → List Choice
  with_personal [] cs = cs
  with_personal (r ∷ rs) cs = choice_of personal (r ∷ rs) ∷ cs

  unfoldable pub choices : Goos → Text → Option (List Text) → List Choice
  unfolding personal_folders existing
  choices goos home_dir file =
      if is_empty home_dir
      then []
      else with_personal (existing (personal_folders goos home_dir file))
          (choice_of home (home_dir ∷ []) ∷ [])

  abbrev pub put_back : Text → Option (List Text) → Option (List Text)
  put_back x none = none
  put_back x (some xs) = some (x ∷ xs)

  -- How often each cleaned path stands in a list, less what was taken.
  unfoldable pub take_root : Text → List Text → Option (List Text)
  take_root k [] = none
  take_root k (x ∷ xs) =
      let rest = put_back x (take_root k xs) in if text_eq x k then some xs else rest

  unfoldable pub clean_all : List Text → List Text
  clean_all [] = []
  clean_all (x ∷ xs) = paths.clean x ∷ clean_all xs

  unfoldable pub all_taken : List Text → List Text → Bool
  unfolding take_root
  all_taken have [] = true
  all_taken have (s ∷ ss) = elim (take_root (paths.clean s) have) [
    | none ↦ false
    | some rest ↦ all_taken rest ss
  ]

  unfoldable pub same_roots : List Text → List Text → Bool
  unfolding all_taken clean_all
  same_roots a b = if not (length a == length b) then false else all_taken (clean_all a) b

  unfoldable pub style_among : List Text → List Choice → Style
  unfolding same_roots
  style_among targets [] = custom
  style_among targets (c ∷ cs) =
      let rest = style_among targets cs in if same_roots c.roots targets then c.style else rest

  -- No style for an empty list.
  unfoldable pub style_of : List Choice → List Text → Option Style
  unfolding style_among
  style_of cs [] = none
  style_of cs (t ∷ ts) = some (style_among (t ∷ ts) cs)
