-- ===== src/Token.antt =====
-- foundation/token/token.go: the file that holds the machine's token. Of the temporary file only
-- whether one is left is kept, since nothing reads it.
use sion_backup.Prelude.{
  ℕ, Bool, true, false, Option, none, some, [], ◌∷◌, ◌++◌, ◌||◌, ◌==◌, not, if◌then◌else◌, ◌≡◌, inl,
  inr, refl, ap, arith, Bool-cases,
}
use sion_backup.Prelude.Text.{Text, is_empty, trim_right, keep_before}
use sion_backup.Prelude.Result.{Result, ok, err}

pub record TokenDir : Type 0 where
  pub token : Option Text
  pub leftover : Bool

-- The calls of package os that fail; `chmod` not for want of support.
pub record TokenFaults : Type 0 where
  pub read : Bool
  pub mkdir : Bool
  pub create : Bool
  pub chmod : Bool
  pub write : Bool
  pub sync : Bool
  pub close : Bool
  pub remove : Bool
  pub rename : Bool
  pub clean : Bool

pub data LoadError : Type 0 where
  not_enrolled unreadable : LoadError

pub data SaveError : Type 0 where
  empty_token not_written not_replaced not_installed : SaveError

abbrev pub is_line_end : ℕ → Bool
is_line_end c = c == 13 || c == 10

abbrev pub value_of : Text → Result LoadError Text
value_of [] = err not_enrolled
value_of (c ∷ s) = ok (c ∷ s)

unfoldable pub load : TokenFaults → TokenDir → Result LoadError Text
load f d = elim d.token [
  | none ↦ err not_enrolled
  | some raw ↦ if f.read then err unreadable else value_of (trim_right is_line_end raw)
]

-- The deferred removal of the temporary file.
abbrev pub cleaned : TokenFaults → TokenDir → TokenDir
cleaned f d = record d { leftover = d.leftover || f.clean }

unfoldable pub save : TokenFaults → Text → TokenDir → TokenDir × Option SaveError
save f value d =
    if is_empty value
    then (d, some empty_token)
    else if f.mkdir || f.create
    then (d, some not_written)
    else if f.chmod || f.write || f.sync || f.close
    then (cleaned f d, some not_written)
    else if f.remove
    then (cleaned f d, some not_replaced)
    else if f.rename
    then (cleaned f (record d { token = none }), some not_installed)
    else (record d { token = some (value ++ 10 ∷ []) }, none)

unfoldable pub delete : TokenFaults → TokenDir → TokenDir × Bool
delete f d = if f.remove then (d, false) else (record d { token = none }, true)

-- The token does not end in a line end.
unfoldable pub is_plain : Text → Bool
is_plain [] = false
is_plain (c ∷ []) = not (is_line_end c)
is_plain (c ∷ d ∷ s) = is_plain (d ∷ s)

trim-line_end : (s : Text) → is_plain s ≡ true → trim_right is_line_end (s ++ 10 ∷ []) ≡ s
unfolding trim_right is_plain
trim-line_end [] h = cc
trim-line_end (c ∷ []) h = ground arith
trim-line_end (c ∷ d ∷ s) h = ap (keep_before is_line_end c) (trim-line_end (d ∷ s) h)

value-plain : (s : Text) → is_plain s ≡ true → value_of s ≡ ok s
unfolding is_plain
value-plain [] h = cc
value-plain (c ∷ s) h = refl

load-saved :
    (f : TokenFaults) (value : Text) (l : Bool)
    → f.read ≡ false
    → is_plain value ≡ true
    → load f (record { token = some (value ++ 10 ∷ []); leftover = l }) ≡ ok value
unfolding load
load-saved f value l r h = rw (r, load, trim-line_end value h) (value-plain value h)

-- What becomes of a token that is saved.
abbrev pub SaveLeaves : TokenDir → Text → TokenDir × Option SaveError → Type 0
SaveLeaves d value (t, none) = (f : TokenFaults) → f.read ≡ false → load f t ≡ ok value
SaveLeaves d value (t, some not_installed) = t.token ≡ none
SaveLeaves d value (t, some e) = t.token ≡ d.token

-- A token that is not empty and ends in no line end: Save without an error leaves a file that Load, where
-- it can read it, gives the token back from; on an error the file from before is unchanged, unless the
-- last rename failed, and then there is none.
pub save-SaveLeaves :
    (f : TokenFaults) (value : Text) (d : TokenDir)
    → is_plain value ≡ true
    → SaveLeaves d value (save f value d)
unfolding save
save-SaveLeaves f value d h = elim (Bool-cases (is_empty value)) [
  | inl e ↦ rw e refl
  | inr e ↦ rw e (elim (Bool-cases (f.mkdir || f.create)) [
    | inl a ↦ rw a refl
    | inr a ↦ rw a (elim (Bool-cases (f.chmod || f.write || f.sync || f.close)) [
      | inl b ↦ rw b refl
      | inr b ↦ rw b (elim (Bool-cases f.remove) [
        | inl c ↦ simp c refl
        | inr c ↦ simp c (elim (Bool-cases f.rename) [
          | inl g ↦ simp g refl
          | inr g ↦ simp g (λ t r. load-saved t value d.leftover r h)
        ])
      ])
    ])
  ])
]
