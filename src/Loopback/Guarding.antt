-- ===== src/Loopback/Guarding.antt =====
-- app/sdk/loopback/loopback.go: what the guard of the status page lets through.
use sion_backup.Prelude.{
  ℕ, Bool, true, false, Option, none, some, List, [], ◌∷◌, ◌++◌, map, not, ◌&&◌, if◌then◌else◌, ◌≡◌,
  ◌⊎◌, inl, inr, refl, sym, subst, arith, Bool-cases, Any,
}
use sion_backup.Prelude.Text.{Text, codes, text_eq, text_eq_iff, text_eq_refl, is_empty, to_lower}
use sion_backup.Loopback.{
  Guard, Request, Refusal, served, is_loopback, or_whole, here, host_allowed, split_host_port, safe,
  checked_token, origin_allowed, checked_origin, check_unsafe, unless_refused, wrap, last_cut,
  has_char, has_bracket,
}
use sion_backup.Loopback.Hosts.{Joined, split_host_port-Joined}

abbrev pub loopback_names : List Text
loopback_names = codes "localhost" ∷ codes "127.0.0.1" ∷ codes "::1" ∷ codes "[::1]" ∷ []

-- A name of this computer, in any case.
abbrev pub IsHere : Text → Type 0
IsHere name = Any (λ n. map to_lower name ≡ n) loopback_names

-- A name of this computer with the port of the page.
abbrev pub NamesPage : Guard → Text → Type 0
NamesPage g host = (name : Text) × IsHere name × Joined host name g.port

is_loopback-IsHere : (name : Text) → is_loopback (map to_lower name) ≡ true → IsHere name
unfolding is_loopback
is_loopback-IsHere name h = elim (Bool-cases (text_eq (map to_lower name) (codes "localhost"))) [
  | inl e ↦ inl ((text_eq_iff (map to_lower name) (codes "localhost")).0 e)
  | inr e ↦ elim (Bool-cases (text_eq (map to_lower name) (codes "127.0.0.1"))) [
    | inl f ↦ inr (inl ((text_eq_iff (map to_lower name) (codes "127.0.0.1")).0 f))
    | inr f ↦ elim (Bool-cases (text_eq (map to_lower name) (codes "::1"))) [
      | inl k ↦ inr (inr (inl ((text_eq_iff (map to_lower name) (codes "::1")).0 k)))
      | inr k ↦
          inr (inr (inr (inl ((text_eq_iff (map to_lower name) (codes "[::1]")).0 (ground arith)))))
    ]
  ]
]

empty_differs : (t : Text) → is_empty t ≡ false → text_eq [] t ≡ false
unfolding text_eq
empty_differs [] h = cc
empty_differs (c ∷ t) h = refl

here-NamesPage :
    (g : Guard) (host : Text) (o : Option (Text × Text))
    → split_host_port host ≡ o
    → is_empty g.port ≡ false
    → here g.port (or_whole host o) ≡ true
    → NamesPage g host
here-NamesPage g host (some (name, port)) e p h = elim (Bool-cases (text_eq port g.port)) [
  | inl t ↦
      let q = (text_eq_iff port g.port).0 t in
      (
        name,
        is_loopback-IsHere name (ground arith),
        subst (Joined host name) q (split_host_port-Joined host name port e),
      )
  | inr t ↦ absurd (ground arith)
]
here-NamesPage g host none e p h = absurd (ground (arith, empty_differs g.port p))

host_allowed-NamesPage :
    (g : Guard) (host : Text)
    → is_empty g.port ≡ false
    → host_allowed g host ≡ true
    → NamesPage g host
unfolding host_allowed
host_allowed-NamesPage g host p h = here-NamesPage g host (split_host_port host) refl p h

-- An Origin that does not speak against the page: none, one that is withheld by a page of this
-- computer or by an address that was typed in, or one that names the page.
abbrev pub IsOwnOrigin : Guard → Request → Type 0
IsOwnOrigin g r =
    (r.origin ≡ [])
    ⊎ ((r.origin ≡ codes "null") × ((r.site ≡ codes "same-origin") ⊎ (r.site ≡ codes "none")))
    ⊎ ((host : Text) × (r.origin_host ≡ some host) × NamesPage g host)

abbrev pub IsOwnSite : Text → Type 0
IsOwnSite site = (site ≡ []) ⊎ (site ≡ codes "none") ⊎ (site ≡ codes "same-origin")

empty_text : (s : Text) → is_empty s ≡ true → s ≡ []
empty_text [] h = refl
empty_text (c ∷ s) h = cc

checked_token-some : (g : Guard) (o : Option Text) → checked_token g o ≡ none → o ≡ some g.token
checked_token-some g none h = cc
checked_token-some g (some t) h = ground (arith, text_eq_iff t g.token)

origin_allowed-NamesPage :
    (g : Guard) (o : Option Text)
    → is_empty g.port ≡ false
    → origin_allowed g o ≡ true
    → (host : Text) × (o ≡ some host) × NamesPage g host
origin_allowed-NamesPage g none p h = cc
origin_allowed-NamesPage g (some x) p h = (x, refl, host_allowed-NamesPage g x p h)

checked_origin-Own :
    (g : Guard) (r : Request)
    → is_empty g.port ≡ false
    → checked_origin g r ≡ none
    → IsOwnOrigin g r × (r.form_token ≡ some g.token)
checked_origin-Own g r p h = elim (Bool-cases (is_empty r.origin)) [
  | inl e ↦ (inl (empty_text r.origin e), checked_token-some g r.form_token (ground arith))
  | inr e ↦ elim (Bool-cases (text_eq r.origin (codes "null"))) [
    | inl n ↦ elim (Bool-cases (text_eq r.site (codes "same-origin"))) [
      | inl s ↦ (
        inr (
            inl (
              (text_eq_iff r.origin (codes "null")).0 n,
              inl ((text_eq_iff r.site (codes "same-origin")).0 s),
            )),
        checked_token-some g r.form_token (ground arith),
      )
      | inr s ↦ (
        inr (
            inl (
              (text_eq_iff r.origin (codes "null")).0 n,
              inr ((text_eq_iff r.site (codes "none")).0 (ground arith)),
            )),
        checked_token-some g r.form_token (ground arith),
      )
    ]
    | inr n ↦ (
      inr (inr (origin_allowed-NamesPage g r.origin_host p (ground arith))),
      checked_token-some g r.form_token (ground arith),
    )
  ]
]

check_unsafe-Own :
    (g : Guard) (r : Request)
    → is_empty g.port ≡ false
    → check_unsafe g r ≡ none
    → IsOwnSite r.site × IsOwnOrigin g r × (r.form_token ≡ some g.token)
unfolding check_unsafe
check_unsafe-Own g r p h = elim (Bool-cases (is_empty r.site)) [
  | inl e ↦
      let (o, k) = checked_origin-Own g r p (ground arith) in (inl (empty_text r.site e), o, k)
  | inr e ↦ elim (Bool-cases (text_eq r.site (codes "none"))) [
    | inl n ↦
        let (o, k) = checked_origin-Own g r p (ground arith) in
        (inr (inl ((text_eq_iff r.site (codes "none")).0 n)), o, k)
    | inr n ↦
        let (o, k) = checked_origin-Own g r p (ground arith) in
        (inr (inr ((text_eq_iff r.site (codes "same-origin")).0 (ground arith))), o, k)
  ]
]

unless_refused-served : (o : Option Refusal) → unless_refused o ≡ served → o ≡ none
unless_refused-served none h = refl
unless_refused-served (some e) h = cc

-- With a guard that knows its port: a request reaches the handlers only if its Host names this computer
-- with that port; and one of a method other than GET, HEAD and OPTIONS only if it also carries the
-- guard's token, no other site made it, and its Origin, if it states one, names the page too.
pub wrap_admits :
    (g : Guard) (r : Request)
    → is_empty g.port ≡ false
    → wrap g r ≡ served
    → NamesPage g r.host
      × (safe r.method ≡ false → IsOwnSite r.site × IsOwnOrigin g r × (r.form_token ≡ some g.token))
unfolding wrap
wrap_admits g r p h = elim (Bool-cases (host_allowed g r.host)) [
  | inl a ↦ (
    host_allowed-NamesPage g r.host p a,
    λ s. check_unsafe-Own g r p (unless_refused-served (check_unsafe g r) (ground arith)),
  )
  | inr a ↦ absurd (ground arith)
]

last_cut-none : (c : ℕ) (s : Text) → has_char c s ≡ false → last_cut c s ≡ none
unfolding last_cut has_char
last_cut-none c [] h = refl
last_cut-none c (d ∷ s) h = ground (arith, last_cut-none c s)

either_true : (x : Bool) → (if x && false then false else true) ≡ true
either_true true = refl
either_true false = refl

address_allowed :
    (g : Guard)
    → has_char b':' g.port ≡ false
    → has_bracket g.port ≡ false
    → host_allowed g (codes "127.0.0.1:" ++ g.port) ≡ true
unfolding host_allowed split_host_port last_cut has_char is_loopback text_eq
address_allowed g c b =
    simp (last_cut-none b':' g.port c, b, text_eq_refl g.port) (either_true (not (is_empty g.port)))

token_accepted : (g : Guard) (o : Option Text) → o ≡ some g.token → checked_token g o ≡ none
token_accepted g o e = simp (e, text_eq_refl g.token) refl

own_origin_accepted :
    (g : Guard) (r : Request)
    → host_allowed g r.host ≡ true
    → text_eq r.site (codes "same-origin") ≡ true
    → (r.origin ≡ []) ⊎ (r.origin ≡ codes "null") ⊎ (r.origin_host ≡ some r.host)
    → checked_token g r.form_token ≡ none
    → checked_origin g r ≡ none
unfolding text_eq
own_origin_accepted g r a s (inl o) t = simp (o, t) refl
own_origin_accepted g r a s (inr (inl o)) t = simp (o, s, t) refl
own_origin_accepted g r a s (inr (inr o)) t = simp (o, a, s, t) (ground arith)

-- What a page of this guard sends: a request that changes nothing, with whatever it carries; or a form of
-- the page with the guard's token.
abbrev pub IsOwnForm : Guard → Request → Type 0
IsOwnForm g r =
    (r.site ≡ codes "same-origin")
    × ((r.origin ≡ []) ⊎ (r.origin ≡ codes "null") ⊎ (r.origin_host ≡ some r.host))
    × (r.form_token ≡ some g.token)

-- The other way round: with a port of plain characters, every GET, HEAD and OPTIONS for the page at
-- 127.0.0.1 is served, whatever else it carries, so also where the address was typed in; and what the
-- page's own forms send with the guard's token is let through, also where the browser keeps the
-- Origin of the page to itself.
pub own_forms_served :
    (g : Guard) (r : Request)
    → has_char b':' g.port ≡ false
    → has_bracket g.port ≡ false
    → r.host ≡ codes "127.0.0.1:" ++ g.port
    → (text_eq r.method (codes "GET") ≡ true)
      ⊎ (text_eq r.method (codes "HEAD") ≡ true)
      ⊎ (text_eq r.method (codes "OPTIONS") ≡ true)
      ⊎ IsOwnForm g r
    → wrap g r ≡ served
unfolding wrap check_unsafe safe text_eq
own_forms_served g r c b h k =
    let a = subst (λ x. host_allowed g x ≡ true) (sym h) (address_allowed g c b) in
    elim k [
      | inl m ↦ ground arith
      | inr (inl m) ↦ ground arith
      | inr (inr (inl m)) ↦ ground arith
      | inr (inr (inr (s, o, t))) ↦
          let m = (text_eq_iff r.site (codes "same-origin")).1 s in
          ground (arith, own_origin_accepted g r a m o (token_accepted g r.form_token t))
    ]
