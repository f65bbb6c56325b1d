-- ===== src/Tests/Page.antt =====
-- app/sdk/loopback/loopback.go at concrete inputs: the page's own form, and one of another site.
use sion_backup.Prelude.{◌≡◌, ◌⊎◌, inl, inr, refl, ap, true, false, none, some, [], ◌∷◌}
use sion_backup.Prelude.Text.{codes, text_eq}
use sion_backup.Loopback.{
  Guard, Request, wrap, served, misdirected, safe, has_char, host_allowed, split_host_port,
  last_cut, is_loopback,
}
use sion_backup.Loopback.Guarding.{NamesPage, IsOwnSite, IsOwnOrigin, wrap_admits, own_forms_served}

abbrev page : Guard
page = record { port = codes "8470"; token = codes "t0k" }

abbrev form : Request
form = record {
  host = codes "127.0.0.1:8470";
  method = codes "POST";
  site = codes "same-origin";
  origin = codes "null";
  origin_host = some [];
  form_token = some (codes "t0k");
}

no_colon : has_char b':' (codes "8470") ≡ false
unfolding has_char
no_colon = refl

own_forms_served_example : wrap page form ≡ served
own_forms_served_example =
    own_forms_served page form no_colon (unfold has_char in refl) refl
      (inr (inr (inr (refl, inr (inl refl), refl))))

wrap_admits_example :
    NamesPage page (codes "127.0.0.1:8470")
    × (safe (codes "POST") ≡ false
        → IsOwnSite (codes "same-origin")
          × IsOwnOrigin page form
          × (some (codes "t0k") ≡ some page.token))
wrap_admits_example = wrap_admits page form refl own_forms_served_example

rebound : wrap page (record form { host = codes "evil.example:8470" }) ≡ misdirected
unfolding wrap host_allowed split_host_port last_cut has_char is_loopback text_eq
rebound = refl

bracketed_host : host_allowed page (codes "[::1]:8470") ≡ true
unfolding host_allowed split_host_port has_char is_loopback text_eq
bracketed_host = unfold sion_backup.Prelude.Text.cut in refl
