-- ===== src/Restic/Command.antt =====
-- foundation/restic: the repository, the environment of one restic process (restic.go) and the
-- command line of a backup (backup.go).
pub mod Environment
use sion_backup.Prelude.{
  ℕ, Bool, true, false, Option, none, some, List, [], ◌∷◌, ◌++◌, ℤ, pos, negsuc, ltb, ltb_ℤ, not,
  ◌&&◌, ◌||◌, if◌then◌else◌,
}
use sion_backup.Prelude.Text.{Text, codes, cut, has_prefix, is_empty, itoa}

pub record Repository : Type 0 where
  pub url : Text
  pub password : Text
  pub access_key_id : Text
  pub secret_access_key : Text
  pub pack_size_mib : ℤ
  pub read_concurrency : ℤ

pub data RepositoryError : Type 0 where
  no_url no_password no_keys : RepositoryError

unfoldable pub validate : Repository → Option RepositoryError
validate r =
    if is_empty r.url
    then some no_url
    else if is_empty r.password
    then some no_password
    else if is_empty r.access_key_id || is_empty r.secret_access_key
    then some no_keys
    else none

-- The variables that no restic process inherits.
abbrev pub is_ours : Text → Bool
is_ours name = has_prefix name (codes "RESTIC_") || has_prefix name (codes "AWS_")

abbrev pub kept_if : Option (Text × Text) → Text → List Text → List Text
kept_if none kv rest = rest
kept_if (some (name, value)) kv rest = if is_ours name then rest else kv ∷ rest

-- The variables that are passed on, out of those of the program.
unfoldable pub inherited : List Text → List Text
inherited [] = []
inherited (kv ∷ env) = kept_if (cut b'=' kv) kv (inherited env)

abbrev pub if_positive : ℤ → Text → List Text
if_positive n name = if ltb_ℤ (pos 0) n then (name ++ itoa n) ∷ [] else []

-- The variables that the program sets.
abbrev pub settings : Repository → List Text
settings r =
    (codes "RESTIC_REPOSITORY=" ++ r.url)
    ∷ (codes "RESTIC_PASSWORD=" ++ r.password)
    ∷ (codes "AWS_ACCESS_KEY_ID=" ++ r.access_key_id)
    ∷ (codes "AWS_SECRET_ACCESS_KEY=" ++ r.secret_access_key)
    ∷ (if_positive r.pack_size_mib (codes "RESTIC_PACK_SIZE=")
        ++ if_positive r.read_concurrency (codes "RESTIC_READ_CONCURRENCY="))

unfoldable pub env : List Text → Repository → List Text
env environ r = inherited environ ++ settings r

-- BackupOptions, as the command line uses them.
pub record BackupOptions : Type 0 where
  pub targets : List Text
  pub exclude_file : Text
  pub excludes : List Text
  pub tags : List Text
  pub host : Text
  pub use_fs_snapshot : Bool
  pub one_file_system : Bool
  pub exclude_larger_than : ℤ

abbrev pub flag : Bool → Text → List Text
flag on name = if on then name ∷ [] else []

abbrev pub valued : Text → Text → List Text
valued name value = if is_empty value then [] else name ∷ value ∷ []

abbrev pub each : Text → List Text → List Text
each name [] = []
each name (v ∷ vs) = name ∷ v ∷ each name vs

abbrev pub larger_than : ℤ → List Text
larger_than n =
    if ltb_ℤ (pos 0) n then codes "--exclude-larger-than" ∷ (itoa n ++ codes "B") ∷ [] else []

-- The options before the bare "--".
abbrev pub backup_flags : Bool → BackupOptions → List Text
backup_flags windows o =
    codes "backup"
    ∷ codes "--json"
    ∷ (flag o.use_fs_snapshot (codes "--use-fs-snapshot")
        ++ flag (o.one_file_system && not windows) (codes "--one-file-system")
        ++ valued (codes "--host") o.host
        ++ each (codes "--tag") o.tags
        ++ valued (codes "--exclude-file") o.exclude_file
        ++ each (codes "--exclude") o.excludes
        ++ larger_than o.exclude_larger_than)

unfoldable pub backup_args : Bool → BackupOptions → List Text
backup_args windows o = backup_flags windows o ++ codes "--" ∷ o.targets
