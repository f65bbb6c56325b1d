-- ===== src/Loopback/Hosts.antt =====
-- app/sdk/loopback/loopback.go: which Host headers are let through.
use sion_backup.Prelude.{
  ℕ, Option, none, some, [], ◌∷◌, ◌++◌, ◌==◌, ◌≡◌, ◌⊎◌, inl, inr, refl, arith, Bool-cases,
}
use sion_backup.Prelude.Text.{Text, cut, cons_left}
use sion_backup.Loopback.{last_cut, with_last, bare, bracketed, split_host_port}

with_last-joins :
    (sep c : ℕ) (s a b : Text) (o : Option (Text × Text))
    → ((x y : Text) → o ≡ some (x, y) → s ≡ x ++ sep ∷ y)
    → with_last sep c s o ≡ some (a, b)
    → c ∷ s ≡ a ++ sep ∷ b
with_last-joins sep c s a b (some (x, y)) h k = ground (arith, h x y refl)
with_last-joins sep c s a b none h k = ground arith

last_cut-joins : (sep : ℕ) (s a b : Text) → last_cut sep s ≡ some (a, b) → s ≡ a ++ sep ∷ b
unfolding last_cut
last_cut-joins sep [] a b h = cc
last_cut-joins sep (c ∷ s) a b h =
    with_last-joins sep c s a b (last_cut sep s) (λ x y e. last_cut-joins sep s x y e) h

cons_left-joins :
    (sep c : ℕ) (s a b : Text) (o : Option (Text × Text))
    → ((x y : Text) → o ≡ some (x, y) → s ≡ x ++ sep ∷ y)
    → cons_left c o ≡ some (a, b)
    → c ∷ s ≡ a ++ sep ∷ b
cons_left-joins sep c s a b (some (x, y)) h k = ground (arith, h x y refl)
cons_left-joins sep c s a b none h k = cc

cut-joins : (sep : ℕ) (s a b : Text) → cut sep s ≡ some (a, b) → s ≡ a ++ sep ∷ b
unfolding cut
cut-joins sep [] a b h = cc
cut-joins sep (c ∷ s) a b h = elim (Bool-cases (c == sep)) [
  | inl e ↦ ground arith
  | inr e ↦ cons_left-joins sep c s a b (cut sep s) (λ x y k. cut-joins sep s x y k) (ground arith)
]

-- A host and its port are in the text, with brackets around the host or without.
abbrev pub Joined : Text → Text → Text → Type 0
Joined host name port = (host ≡ name ++ b':' ∷ port) ⊎ (host ≡ b'[' ∷ name ++ b']' ∷ b':' ∷ port)

bare-joins :
    (host name port : Text) (o : Option (Text × Text))
    → ((x y : Text) → o ≡ some (x, y) → host ≡ x ++ b':' ∷ y)
    → bare o ≡ some (name, port)
    → host ≡ name ++ b':' ∷ port
bare-joins host name port (some (x, y)) h k = ground (arith, h x y refl)
bare-joins host name port none h k = cc

bracketed-joins :
    (s name port : Text) (o : Option (Text × Text))
    → ((x y : Text) → o ≡ some (x, y) → s ≡ x ++ b']' ∷ y)
    → bracketed o ≡ some (name, port)
    → s ≡ name ++ b']' ∷ b':' ∷ port
bracketed-joins s name port (some (x, c ∷ y)) h k = ground (arith, h x (c ∷ y) refl)
bracketed-joins s name port (some (x, [])) h k = cc
bracketed-joins s name port none h k = cc

pub split_host_port-Joined :
    (host name port : Text) → split_host_port host ≡ some (name, port) → Joined host name port
unfolding split_host_port
split_host_port-Joined [] name port h = cc
split_host_port-Joined (c ∷ s) name port h = elim (Bool-cases (c == b'[')) [
  | inl e ↦ inr (ground (arith, bracketed-joins s name port (cut b']' s) (cut-joins b']' s)))
  | inr e ↦ inl (
      bare-joins (c ∷ s) name port (last_cut b':' (c ∷ s)) (last_cut-joins b':' (c ∷ s))
        (ground arith))
]
