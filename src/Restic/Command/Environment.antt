-- ===== src/Restic/Command/Environment.antt =====
-- foundation/restic/restic.go: what a restic process finds in its environment.
use sion_backup.Prelude.{
  true, false, Option, none, some, List, [], ◌∷◌, ◌++◌, ◌≡◌, refl, sym, ◌∙◌, All, All-append, inl,
  inr, Bool-cases, if◌then◌else◌, ℤ, pos, ltb_ℤ,
}
use sion_backup.Prelude.Text.{Text, codes, cut, itoa, text_eq, text_eq_iff, has_prefix}
use sion_backup.Restic.Command.{Repository, is_ours, kept_if, inherited, if_positive, settings, env}

abbrev pub value_of : Text → Option (Text × Text) → Option Text
value_of name none = none
value_of name (some (n, v)) = if text_eq n name then some v else none

abbrev pub or_this : Option Text → Option Text → Option Text
or_this (some v) o = some v
or_this none o = o

-- A variable as os/exec passes it on: the last of the entries with its name.
unfoldable pub variable : Text → List Text → Option Text
variable name [] = none
variable name (kv ∷ es) = or_this (variable name es) (value_of name (cut b'=' kv))

or_this-none : (o : Option Text) → or_this o none ≡ o
or_this-none none = refl
or_this-none (some v) = refl

other_name :
    (n name v : Text) → is_ours n ≡ false → is_ours name ≡ true → value_of name (some (n, v)) ≡ none
other_name n name v h k = elim (Bool-cases (text_eq n name)) [
  | inl e ↦ absurd (differ ((text_eq_iff n name).0 e))
  | inr e ↦ rw e refl
]
  where
    differ : n ≡ name → ⊥
    differ p = cc

other_name' :
    (n name v : Text) → is_ours n ≡ true → is_ours name ≡ false → value_of name (some (n, v)) ≡ none
other_name' n name v h k = elim (Bool-cases (text_eq n name)) [
  | inl e ↦ absurd (differ ((text_eq_iff n name).0 e))
  | inr e ↦ rw e refl
]
  where
    differ : n ≡ name → ⊥
    differ p = cc

kept_if-ours :
    (name : Text) (o : Option (Text × Text)) (kv : Text) (rest s : List Text)
    → cut b'=' kv ≡ o
    → is_ours name ≡ true
    → variable name (kept_if o kv rest ++ s) ≡ variable name (rest ++ s)
unfolding variable
kept_if-ours name none kv rest s c h = refl
kept_if-ours name (some (n, v)) kv rest s c h = elim (Bool-cases (is_ours n)) [
  | inl t ↦ rw t refl
  | inr t ↦ rw (t, c) (rw (other_name n name v t h) (or_this-none (variable name (rest ++ s))))
]

inherited-ours :
    (name : Text) (es s : List Text)
    → is_ours name ≡ true
    → variable name (inherited es ++ s) ≡ variable name s
unfolding inherited
inherited-ours name [] s h = refl
inherited-ours name (kv ∷ es) s h =
    kept_if-ours name (cut b'=' kv) kv (inherited es) s refl h ∙ inherited-ours name es s h

kept_if-others :
    (name : Text) (o : Option (Text × Text)) (kv : Text) (rest s es : List Text)
    → cut b'=' kv ≡ o
    → is_ours name ≡ false
    → variable name (rest ++ s) ≡ variable name es
    → variable name (kept_if o kv rest ++ s) ≡ or_this (variable name es) (value_of name o)
unfolding variable
kept_if-others name none kv rest s es c h e = e ∙ sym (or_this-none (variable name es))
kept_if-others name (some (n, v)) kv rest s es c h e = elim (Bool-cases (is_ours n)) [
  | inl t ↦ rw t (rw (other_name' n name v t h) (e ∙ sym (or_this-none (variable name es))))
  | inr t ↦ rw (t, c, e) refl
]

inherited-others :
    (name : Text) (es s : List Text)
    → is_ours name ≡ false
    → variable name s ≡ none
    → variable name (inherited es ++ s) ≡ variable name es
unfolding inherited variable
inherited-others name [] s h n = n
inherited-others name (kv ∷ es) s h n =
    kept_if-others name (cut b'=' kv) kv (inherited es) s es refl h (inherited-others name es s h n)

-- An entry that sets a RESTIC_ or AWS_ variable.
abbrev IsSetting : Text → Type 0
IsSetting kv = (n : Text) × (v : Text) × (cut b'=' kv ≡ some (n, v)) × (is_ours n ≡ true)

variable-settings :
    (name : Text) (es : List Text)
    → is_ours name ≡ false
    → All IsSetting es
    → variable name es ≡ none
unfolding variable
variable-settings name [] h a = refl
variable-settings name (kv ∷ es) h ((n, v, c, k), a) =
    rw (c, variable-settings name es h a, other_name' n name v k h) refl

if_positive-IsSetting :
    (n : ℤ) (name : Text) → IsSetting (name ++ itoa n) → All IsSetting (if_positive n name)
if_positive-IsSetting n name h = elim (Bool-cases (ltb_ℤ (pos 0) n)) [
  | inl e ↦ rw e (h, tt)
  | inr e ↦ rw e tt
]

settings-IsSetting : (r : Repository) → All IsSetting (settings r)
unfolding cut has_prefix
settings-IsSetting r = (
  (codes "RESTIC_REPOSITORY", r.url, refl, refl),
  (
    (codes "RESTIC_PASSWORD", r.password, refl, refl),
    (
      (codes "AWS_ACCESS_KEY_ID", r.access_key_id, refl, refl),
      (
        (codes "AWS_SECRET_ACCESS_KEY", r.secret_access_key, refl, refl),
        All-append IsSetting (if_positive r.pack_size_mib (codes "RESTIC_PACK_SIZE="))
            (if_positive r.read_concurrency (codes "RESTIC_READ_CONCURRENCY="))
            (if_positive-IsSetting r.pack_size_mib (codes "RESTIC_PACK_SIZE=")
              (codes "RESTIC_PACK_SIZE", itoa r.pack_size_mib, refl, refl))
            (if_positive-IsSetting r.read_concurrency (codes "RESTIC_READ_CONCURRENCY=")
              (codes "RESTIC_READ_CONCURRENCY", itoa r.read_concurrency, refl, refl)),
      ),
    ),
  ),
)

-- Whatever the environment of the program holds: a restic process finds each variable whose name begins
-- with RESTIC_ or AWS_ as the repository's settings have it, and none that they do not set; and every
-- other variable as the program has it.
pub env_settles :
    (name : Text) (environ : List Text) (r : Repository)
    → variable name (env environ r)
      ≡ (if is_ours name then variable name (settings r) else variable name environ)
unfolding env
env_settles name environ r = elim (Bool-cases (is_ours name)) [
  | inl h ↦ rw h (inherited-ours name environ (settings r) h)
  | inr h ↦ rw h (
      inherited-others name environ (settings r) h
        (variable-settings name (settings r) h (settings-IsSetting r)))
]
