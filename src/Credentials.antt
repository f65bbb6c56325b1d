-- ===== src/Credentials.antt =====
-- business/domain/credential/credentialbus/credentialbus.go: the credentials of one run. That they are
-- overwritten after use is not modelled.
pub mod ForRun
use sion_backup.Prelude.{ℕ, Bool, true, false, Option, none, some, not, ◌&&◌, ℤ, if◌then◌else◌}
use sion_backup.Prelude.Text.{Text, is_empty}
use sion_backup.Prelude.Result.{Result, ok, err}
use sion_backup.Restic.Command.{Repository}

pub record Credentials : Type 0 where
  pub access_key_id : Text
  pub secret_access_key : Text
  pub restic_password : Text

unfoldable pub complete : Credentials → Bool
complete c =
    not (is_empty c.access_key_id)
    && not (is_empty c.secret_access_key)
    && not (is_empty c.restic_password)

unfoldable pub repository : Credentials → Text → ℤ → ℤ → Repository
repository c url pack_size_mib read_concurrency = record {
  url = url;
  password = c.restic_password;
  access_key_id = c.access_key_id;
  secret_access_key = c.secret_access_key;
  pack_size_mib = pack_size_mib;
  read_concurrency = read_concurrency;
}

-- The key pair on the owner's card.
pub record RestoreKey : Type 0 where
  pub access_key_id : Text
  pub secret_access_key : Text

unfoldable pub complete_pair : RestoreKey → Bool
complete_pair r = not (is_empty r.access_key_id) && not (is_empty r.secret_access_key)

pub record Set : Type 0 where
  pub repository_url : Text
  pub version : ℕ
  pub credentials : Credentials
  pub repository_state : Text
  pub expect_empty : Bool
  pub restore : RestoreKey

pub data CredentialError : Type 0 where
  not_enrolled source_failed incomplete no_url : CredentialError

abbrev pub fetched : Option Set → Result CredentialError Set
fetched none = err source_failed
fetched (some s) =
    if not (complete s.credentials)
    then err incomplete
    else if is_empty s.repository_url
    then err no_url
    else ok s

-- ForRun, from what Fetch returns; none where it fails.
unfoldable pub for_run : Bool → Option Set → Result CredentialError Set
for_run enrolled answer = if enrolled then fetched answer else err not_enrolled
