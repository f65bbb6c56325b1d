-- ===== src/Survey/Junk.antt =====
-- business/domain/survey/surveybus: the usual junk and the box that adds it (junk.go), and the patterns that
-- could match inside the chosen folders (ExcludesFor in roots.go). Package filepath is an argument.
use sion_backup.Prelude.{
  ℕ, Bool, true, false, Option, none, some, List, [], ◌∷◌, ◌++◌, not, ◌&&◌, ◌||◌, ◌==◌,
  if◌then◌else◌,
}
use sion_backup.Prelude.Text.{Text, codes, text_eq, is_empty, has_prefix}

-- Package filepath, on the platform the program runs on.
pub record Paths : Type 0 where
  pub join : List Text → Text
  pub clean : Text → Text
  pub is_abs : Text → Bool
  pub rel : Text → Text → Option Text
  pub separator : ℕ

pub data Goos : Type 0 where
  windows darwin linux : Goos

-- A Go map from texts to true, of the texts of a list.
unfoldable pub holds : List Text → Text → Bool
holds [] s = false
holds (x ∷ xs) s = text_eq x s || holds xs s

module _ (paths : Paths) where
  unfoldable pub under : Text → List Text → Text
  under home_dir parts = if is_empty home_dir then [] else paths.join (home_dir ∷ parts)

  -- The patterns that are the same everywhere.
  abbrev pub junk_files : List Text
  junk_files =
      codes "*.iso"
      ∷ codes "*.vmdk"
      ∷ codes "*.vdi"
      ∷ codes "*.vhd"
      ∷ codes "*.vhdx"
      ∷ codes "*.qcow2"
      ∷ codes "node_modules"
      ∷ codes "__pycache__"
      ∷ codes ".Trash"
      ∷ codes "Trash"
      ∷ []

  unfoldable pub junk_of : Goos → Text → List Text
  unfolding under
  junk_of windows h =
      codes "$RECYCLE.BIN"
      ∷ codes "pagefile.sys"
      ∷ codes "hiberfil.sys"
      ∷ codes "swapfile.sys"
      ∷ under h (codes "AppData" ∷ codes "Local" ∷ codes "Temp" ∷ [])
      ∷ under h (
          codes "AppData"
          ∷ codes "Local"
          ∷ codes "Microsoft"
          ∷ codes "Windows"
          ∷ codes "INetCache"
          ∷ [])
      ∷ under h (
          codes "AppData"
          ∷ codes "Local"
          ∷ codes "Microsoft"
          ∷ codes "Windows"
          ∷ codes "Explorer"
          ∷ [])
      ∷ under h (codes "AppData" ∷ codes "Local" ∷ codes "Packages" ∷ [])
      ∷ under h (codes "Downloads" ∷ [])
      ∷ []
  junk_of darwin h =
      under h (codes "Library" ∷ codes "Caches" ∷ [])
      ∷ under h (codes "Library" ∷ codes "Application Support" ∷ codes "Steam" ∷ [])
      ∷ under h (codes "Library" ∷ codes "Developer" ∷ codes "Xcode" ∷ codes "DerivedData" ∷ [])
      ∷ under h (codes "Downloads" ∷ [])
      ∷ []
  junk_of linux h =
      under h (codes ".cache" ∷ [])
      ∷ under h (codes ".local" ∷ codes "share" ∷ codes "Trash" ∷ [])
      ∷ under h (codes ".local" ∷ codes "share" ∷ codes "Steam" ∷ [])
      ∷ under h (codes ".var" ∷ codes "app" ∷ [])
      ∷ under h (codes "snap" ∷ [])
      ∷ under h (codes "Downloads" ∷ [])
      ∷ []

  unfoldable pub compact : List Text → List Text
  compact [] = []
  compact (s ∷ xs) = let rest = compact xs in if is_empty s then rest else s ∷ rest

  -- `home_dir` is empty where it is not known.
  unfoldable pub junk_excludes : Goos → Text → List Text
  unfolding compact junk_of
  junk_excludes goos home_dir = compact (junk_files ++ junk_of goos home_dir)

  -- A path below a root or the root itself.
  unfoldable pub inside : Text → Text → Bool
  inside root path = elim (paths.rel (paths.clean root) (paths.clean path)) [
    | none ↦ false
    | some r ↦
        not (text_eq r (codes "..")) && not (has_prefix r (b'.' ∷ b'.' ∷ paths.separator ∷ []))
  ]

  unfoldable pub has_separator : Text → Bool
  has_separator [] = false
  has_separator (c ∷ s) = c == b'/' || c == 92 || has_separator s

  unfoldable pub inside_some : List Text → Text → Bool
  unfolding inside
  inside_some [] p = false
  inside_some (r ∷ rs) p = inside r p || inside_some rs p

  unfoldable pub excludes_for : List Text → List Text → List Text
  unfolding inside_some has_separator
  excludes_for roots [] = []
  excludes_for roots (p ∷ ps) =
      let rest = excludes_for roots ps in
      if not (has_separator p) || not (paths.is_abs p)
      then p ∷ rest
      else if inside_some roots p
      then p ∷ rest
      else rest

-- The list of junk as an argument: what the box on the setup page puts in and takes out.
unfoldable pub without_junk : List Text → List Text → List Text
unfolding holds
without_junk junk [] = []
without_junk junk (e ∷ es) =
    let rest = without_junk junk es in if holds junk e then rest else e ∷ rest

unfoldable pub all_held : List Text → List Text → Bool
unfolding holds
all_held have [] = true
all_held have (j ∷ js) = holds have j && all_held have js

unfoldable pub has_junk : List Text → List Text → Bool
unfolding all_held
has_junk [] excludes = false
has_junk (j ∷ js) excludes = all_held excludes (j ∷ js)
