-- ===== src/Loopback.antt =====
-- app/sdk/loopback/loopback.go: the guard in front of the status page, which answers only to this
-- computer and changes nothing without the token of its own forms. What url.Parse makes of the Origin
-- header, and ParseForm of the body, is part of the request.
pub mod Hosts
pub mod Guarding
use sion_backup.Prelude.{
  ℕ, Bool, true, false, Option, none, some, List, [], ◌∷◌, ◌++◌, map, ◌==◌, not, ◌&&◌, ◌||◌,
  if◌then◌else◌,
}
use sion_backup.Prelude.Text.{Text, codes, text_eq, is_empty, cut, to_lower}

-- The text before and after the last separator.
abbrev pub with_last : ℕ → ℕ → Text → Option (Text × Text) → Option (Text × Text)
with_last sep c s (some (a, b)) = some (c ∷ a, b)
with_last sep c s none = if c == sep then some ([], s) else none

unfoldable pub last_cut : ℕ → Text → Option (Text × Text)
last_cut sep [] = none
last_cut sep (c ∷ s) = with_last sep c s (last_cut sep s)

unfoldable pub has_char : ℕ → Text → Bool
has_char c [] = false
has_char c (d ∷ s) = let rest = has_char c s in if d == c then true else rest

abbrev pub has_bracket : Text → Bool
has_bracket s = has_char b'[' s || has_char b']' s

-- A host before the last colon.
abbrev pub bare : Option (Text × Text) → Option (Text × Text)
bare none = none
bare (some (h, p)) =
    if has_char b':' h then none else if has_bracket h || has_bracket p then none else some (h, p)

-- A host in brackets: its text, and what stands after the bracket.
abbrev pub bracketed : Option (Text × Text) → Option (Text × Text)
bracketed none = none
bracketed (some (h, [])) = none
bracketed (some (h, c ∷ p)) =
    if not (c == b':')
    then none
    else if has_char b':' p
    then none
    else if has_char b'[' h || has_bracket p
    then none
    else some (h, p)

-- net.SplitHostPort, none for its errors.
unfoldable pub split_host_port : Text → Option (Text × Text)
split_host_port [] = none
split_host_port (c ∷ s) = if c == b'[' then bracketed (cut b']' s) else bare (last_cut b':' (c ∷ s))

pub record Guard : Type 0 where
  pub port : Text
  pub token : Text

-- `origin_host`: the host of the parsed Origin, none where it does not parse; `form_token`: the field
-- of the form, none where the form could not be read.
pub record Request : Type 0 where
  pub host : Text
  pub method : Text
  pub site : Text
  pub origin : Text
  pub origin_host : Option Text
  pub form_token : Option Text

unfoldable pub safe : Text → Bool
safe m = text_eq m (codes "GET") || text_eq m (codes "HEAD") || text_eq m (codes "OPTIONS")

unfoldable pub is_loopback : Text → Bool
is_loopback name =
    text_eq name (codes "localhost")
    || text_eq name (codes "127.0.0.1")
    || text_eq name (codes "::1")
    || text_eq name (codes "[::1]")

-- A host without a port stands for itself.
abbrev pub or_whole : Text → Option (Text × Text) → Text × Text
or_whole host (some x) = x
or_whole host none = (host, [])

abbrev pub here : Text → Text × Text → Bool
here wanted (name, port) =
    if not (is_empty wanted) && not (text_eq port wanted)
    then false
    else is_loopback (map to_lower name)

unfoldable pub host_allowed : Guard → Text → Bool
host_allowed g host = here g.port (or_whole host (split_host_port host))

pub data Refusal : Type 0 where
  other_site unsaid_origin other_origin unread_form old_form : Refusal

abbrev pub checked_token : Guard → Option Text → Option Refusal
checked_token g none = some unread_form
checked_token g (some t) = if text_eq t g.token then none else some old_form

abbrev pub origin_allowed : Guard → Option Text → Bool
origin_allowed g none = false
origin_allowed g (some h) = host_allowed g h

abbrev pub checked_origin : Guard → Request → Option Refusal
checked_origin g r =
    if is_empty r.origin
    then checked_token g r.form_token
    else if text_eq r.origin (codes "null")
    then (if not (text_eq r.site (codes "same-origin")) && not (text_eq r.site (codes "none"))
        then some unsaid_origin
        else checked_token g r.form_token)
    else if origin_allowed g r.origin_host
    then checked_token g r.form_token
    else some other_origin

-- checkUnsafe
unfoldable pub check_unsafe : Guard → Request → Option Refusal
check_unsafe g r =
    if is_empty r.site || text_eq r.site (codes "none") || text_eq r.site (codes "same-origin")
    then checked_origin g r
    else some other_site

pub data Answer : Type 0 where
  misdirected served : Answer
  forbidden : Refusal → Answer

abbrev pub unless_refused : Option Refusal → Answer
unless_refused none = served
unless_refused (some e) = forbidden e

-- Wrap: whether the handler behind the guard is called.
unfoldable pub wrap : Guard → Request → Answer
wrap g r =
    if not (host_allowed g r.host)
    then misdirected
    else if safe r.method
    then served
    else unless_refused (check_unsafe g r)
