-- ===== src/Restic/Managed/Pinned.antt =====
-- foundation/restic/manage.go: which restic a machine has after EnsurePinned.
use sion_backup.Prelude.{
  Bool, true, false, Option, none, some, [], ◌∷◌, ◌≡◌, ◌⊎◌, inl, inr, refl, sym, subst, Bool-cases,
}
use sion_backup.Prelude.Text.{Text, text_eq, text_eq_iff, is_empty, trim_space}
use sion_backup.Prelude.Result.{Result, ok, err}
use sion_backup.SelfUpdate.Disk.{Binary}
use sion_backup.Restic.Managed.{
  Files, Faults, Pin, Download, not_downloaded, downloaded, InstallError, not_put_back,
  installed_version, smoke_test, cleared, put_back, moved_in, swap_from, extracted, fetched,
  install, Outcome, override, already, installed, replaced, reported, installed_as, after_install,
  ensure_pinned, version_number,
}

-- The binary from before is in place, or set aside where it could not be put back; where there was
-- none, one that was still set aside may have taken the place.
abbrev pub KeepsBinary : Files → InstallError → Files → Type 0
KeepsBinary was e s =
    (s.bin ≡ was.bin)
    ⊎ ((s.old ≡ was.bin) × (e ≡ not_put_back))
    ⊎ ((was.bin ≡ none) × (s.bin ≡ was.old))

-- The binary in place came from an archive with the hash of the pin and says that it is its version.
abbrev pub IsPinned : Pin → Download → Files → Type 0
IsPinned p x s =
    (b : Binary) × (s.bin ≡ some b)
    × (x ≡ downloaded p.sha256 (some b))
    × (smoke_test b p.version ≡ true)

abbrev pub InstallEnds : Pin → Download → Files → Files × Option InstallError → Type 0
InstallEnds p x was (s, none) = IsPinned p x s
InstallEnds p x was (s, some e) = KeepsBinary was e s

-- What is left where the new binary could not be moved in.
put_back-first :
    (p : Pin) (x : Download) (f : Faults) (was : Files) (o : Option Binary)
    → was.bin ≡ none
    → (o ≡ none) ⊎ (o ≡ was.old)
    → InstallEnds p x was (put_back f none o)
put_back-first p x f was none b h = (inl (sym b))
put_back-first p x f was (some o) b (inl h) = cc
put_back-first p x f was (some o) b (inr h) = elim (Bool-cases f.back) [
  | inl e ↦ rw e (inl (sym b))
  | inr e ↦ rw e (inr (inr (b, h)))
]

put_back-again :
    (p : Pin) (x : Download) (f : Faults) (was : Files) (b : Binary)
    → was.bin ≡ some b
    → InstallEnds p x was (put_back f none (some b))
put_back-again p x f was b h = elim (Bool-cases f.back) [
  | inl e ↦ rw e (inr (inl (sym h, refl)))
  | inr e ↦ rw e (inl (sym h))
]

moved_in-InstallEnds :
    (p : Pin) (f : Faults) (was : Files) (b : Binary) (o : Option Binary)
    → smoke_test b p.version ≡ true
    → InstallEnds p (downloaded p.sha256 (some b)) was (put_back f none o)
    → InstallEnds p (downloaded p.sha256 (some b)) was (moved_in f b none o)
moved_in-InstallEnds p f was b o h k = elim (Bool-cases f.into_place) [
  | inl e ↦ rw e k
  | inr e ↦ rw e (b, refl, refl, h)
]

swap_from-InstallEnds :
    (p : Pin) (f : Faults) (was : Files) (b : Binary) (c o : Option Binary)
    → smoke_test b p.version ≡ true
    → was.bin ≡ c
    → (o ≡ none) ⊎ (o ≡ was.old)
    → InstallEnds p (downloaded p.sha256 (some b)) was (swap_from f b c o)
swap_from-InstallEnds p f was b none o h k l =
    moved_in-InstallEnds p f was b o h (put_back-first p (downloaded p.sha256 (some b)) f was o k l)
swap_from-InstallEnds p f was b (some c) o h k l = elim (Bool-cases f.aside) [
  | inl e ↦ rw e (inl (sym k))
  | inr e ↦ rw e (
      moved_in-InstallEnds p f was b (some c) h
        (put_back-again p (downloaded p.sha256 (some b)) f was c k))
]

cleared_from : (r : Bool) (o : Option Binary) → (cleared r o ≡ none) ⊎ (cleared r o ≡ o)
cleared_from true o = inr refl
cleared_from false o = inl refl

extracted-InstallEnds :
    (p : Pin) (f : Faults) (was : Files) (o : Option Binary)
    → InstallEnds p (downloaded p.sha256 o) was (extracted f p was o)
extracted-InstallEnds p f was none = (inl refl)
extracted-InstallEnds p f was (some b) = elim (Bool-cases (smoke_test b p.version)) [
  | inl e ↦ rw e (
      swap_from-InstallEnds p f was b was.bin (cleared f.remove_old was.old) e refl
        (cleared_from f.remove_old was.old))
  | inr e ↦ rw e (inl refl)
]

fetched-InstallEnds :
    (p : Pin) (f : Faults) (was : Files) (x : Download) → InstallEnds p x was (fetched f p was x)
fetched-InstallEnds p f was not_downloaded = (inl refl)
fetched-InstallEnds p f was (downloaded sum b) = elim (Bool-cases (text_eq sum p.sha256)) [
  | inl e ↦ rw e (
      subst (λ h. InstallEnds p (downloaded h b) was (extracted f p was b))
        (sym ((text_eq_iff sum p.sha256).0 e)) (extracted-InstallEnds p f was b))
  | inr e ↦ rw e (inl refl)
]

install-InstallEnds :
    (p : Pin) (f : Faults) (was : Files) (x : Download) → InstallEnds p x was (install f p x was)
unfolding install
install-InstallEnds p f was x = elim (Bool-cases f.make) [
  | inl e ↦ rw e (inl refl)
  | inr e ↦ rw e (fetched-InstallEnds p f was x)
]

-- What holds when EnsurePinned returns; `first` and `again`: the runs of the binary in place before and
-- after an installation. An error is one of install, or one of the second run.
abbrev pub EnsureEnds :
    Pin
    → Download
    → Option Text
    → Option Text
    → Files
    → Files × Result InstallError Outcome
    → Type 0
EnsureEnds p x first again was (s, ok override) = s ≡ was
EnsureEnds p x first again was (s, ok (already v)) =
    (s ≡ was) × (v ≡ p.version) × (installed_version first ≡ p.version)
EnsureEnds p x first again was (s, ok (installed to)) =
    (was.bin ≡ none) × (to ≡ installed_version again) × IsPinned p x s
EnsureEnds p x first again was (s, ok (replaced from to)) =
    (from ≡ installed_version first) × (to ≡ installed_version again) × IsPinned p x s
EnsureEnds p x first again was (s, err e) =
    KeepsBinary was e s ⊎ ((again ≡ none) ⊎ (installed_version again ≡ [])) × IsPinned p x s

empty_text : (t : Text) → is_empty t ≡ true → t ≡ []
empty_text [] h = refl
empty_text (c ∷ t) h = cc

reported-EnsureEnds :
    (p : Pin) (x : Download) (first again : Option Text) (was s : Files) (o : Option Binary)
    → was.bin ≡ o
    → IsPinned p x s
    → EnsureEnds p x first again was (s, reported o (installed_version first) again)
reported-EnsureEnds p x first none was s o h k = inr (inl refl, k)
reported-EnsureEnds p x first (some line) was s o h k =
    elim (Bool-cases (is_empty (version_number (trim_space line)))) [
      | inl e ↦ rw e (inr (inr (empty_text (version_number (trim_space line)) e), k))
      | inr e ↦ rw e (named o h)
    ]
  where
    named :
        (c : Option Binary)
        → was.bin ≡ c
        → EnsureEnds p x first
            (some line)
            was
            (s, ok (installed_as c (installed_version first) (version_number (trim_space line))))
    named none g = elim (Bool-cases (is_empty (installed_version first))) [
      | inl e ↦ rw e (g, refl, k)
      | inr e ↦ rw e (refl, refl, k)
    ]
    named (some b) g = elim (Bool-cases (is_empty (installed_version first))) [
      | inl e ↦ rw e (refl, refl, k)
      | inr e ↦ rw e (refl, refl, k)
    ]

after_install-EnsureEnds :
    (p : Pin) (x : Download) (first again : Option Text) (was : Files)
    (y : Files × Option InstallError)
    → InstallEnds p x was y
    → EnsureEnds p x first again was (after_install was.bin (installed_version first) again y)
after_install-EnsureEnds p x first again was (s, none) h =
    reported-EnsureEnds p x first again was s was.bin refl h
after_install-EnsureEnds p x first again was (s, some e) h = inl h

-- EnsurePinned of a managed restic succeeds only with a binary in place that named the pin's version: the
-- one that was there and named it, with nothing changed, or one out of an archive with the hash of the
-- pin that ran and named it before it was moved in; what it reports then is what that binary says
-- when it is run again. Where it fails, either the binary from before is still in place, or set aside
-- because it could not be put back, or there was none; or the pinned binary is in place and did not
-- run again or named no version. A restic that an operator named is left alone.
pub ensure_pinned-EnsureEnds :
    (managed : Bool) (f : Faults) (p : Pin) (x : Download) (first again : Option Text) (was : Files)
    → EnsureEnds p x first again was (ensure_pinned managed f p x first again was)
unfolding ensure_pinned
ensure_pinned-EnsureEnds false f p x first again was = refl
ensure_pinned-EnsureEnds true f p x first again was =
    elim (Bool-cases (text_eq (installed_version first) p.version)) [
      | inl e ↦ simp e (refl, refl, (text_eq_iff (installed_version first) p.version).0 e)
      | inr e ↦ simp e (
          after_install-EnsureEnds p x first again was (install f p x was)
            (install-InstallEnds p f was x))
    ]
