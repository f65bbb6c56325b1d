-- ===== src/Survey/Steps.antt =====
-- business/domain/survey/surveybus/surveybus.go: the page, the worker and the probe in any order, and
-- what a figure on the page stands for.
use sion_backup.Prelude.{
  ℕ, zero, suc, get_elem?, Bool, true, false, Option, arith, none, some, List, [], ◌∷◌, not, ◌||◌,
  if◌then◌else◌, ◌≡◌, inl, inr, refl, Bool-cases,
}
use sion_backup.Prelude.Text.{Text}
use sion_backup.Survey.{
  Style, style_eq, Choice, Size, State, measuring, measured, Sizing, Settings, shape_of, Work,
  Survey, put_size, order, wanting, mark_measuring, started, measure, shown, shown_by, progressed,
  kept, kept_by, walked, returned_by, returned, ended_of, set_work, drop_work, remeasure, probe,
  probed, probe_once, fresh, upload_of, is_unmeasured,
}

-- The flag is up exactly while one worker is there, and there is never another.
abbrev pub IsGuarded : Bool → List Work → Type 0
IsGuarded true (w ∷ []) = Unit
IsGuarded true _ = ⊥
IsGuarded false [] = Unit
IsGuarded false (w ∷ ws) = ⊥

guarded_none : (b : Bool) (ws : List Work) → b ≡ false → IsGuarded b ws → ws ≡ []
guarded_none b [] e h = refl
guarded_none true (w ∷ ws) e h = cc
guarded_none false (w ∷ ws) e h = absurd h

IsGuarded-set :
    (b : Bool) (i : ℕ) (w : Work) (ws : List Work) → IsGuarded b ws → IsGuarded b (set_work i w ws)
IsGuarded-set b i w [] h = h
IsGuarded-set true zero w (x ∷ []) h = tt
IsGuarded-set true (suc i) w (x ∷ []) h = tt
IsGuarded-set true i w (x ∷ y ∷ ws) h = absurd h
IsGuarded-set false i w (x ∷ ws) h = absurd h

IsGuarded-drop :
    (b : Bool) (i : ℕ) (w : Work) (ws : List Work)
    → get_elem? ws i ≡ some w
    → IsGuarded b ws
    → IsGuarded false (drop_work i ws)
IsGuarded-drop b i w [] e h = tt
IsGuarded-drop true zero w (x ∷ []) e h = tt
IsGuarded-drop true (suc i) w (x ∷ []) e h = cc
IsGuarded-drop true i w (x ∷ y ∷ ws) e h = absurd h
IsGuarded-drop false i w (x ∷ ws) e h = absurd h

-- The page shows a probe as running exactly while one runs, the flag is up then, and there is never another.
abbrev pub IsProbed : Bool → ℕ → State → Type 0
IsProbed true (suc zero) x = x ≡ measuring
IsProbed true _ x = ⊥
IsProbed false zero measuring = ⊥
IsProbed false zero x = Unit
IsProbed false (suc n) x = ⊥

probed_none : (b : Bool) (n : ℕ) (x : State) → b ≡ false → IsProbed b n x → n ≡ 0
probed_none true n x e h = cc
probed_none false zero x e h = refl
probed_none false (suc n) x e h = absurd h

-- `IsWalk roots z r`: a walk of the roots under the settings can end with the figure `r`.
module _ (IsWalk : List Text → Settings → Size → Type 0) where
  abbrev pub IsFirst : Settings → List Choice → Size → Type 0
  IsFirst z [] r = Unit
  IsFirst z (c ∷ cs) r = IsWalk c.roots z r

  -- The figure is one of the walk that the worker is on.
  abbrev pub IsNext : Option Work → Size → Type 0
  IsNext none r = Unit
  IsNext (some w) r = IsFirst w.settings w.todo r

  -- A measured figure is the end of a walk under the settings that its key stands for.
  abbrev pub IsBacked : Sizing → Type 0
  IsBacked g =
      g.state ≡ measured
      → (roots : List Text) × (z : Settings) × (r : Size) × (g.shape ≡ shape_of roots z)
        × (g.result ≡ some r)
        × IsWalk roots z r

  abbrev pub IsEntry : Option Sizing → Type 0
  IsEntry none = Unit
  IsEntry (some g) = IsBacked g

  put_size-IsEntry :
      (t : Style) (g : Sizing) (m : Style → Option Sizing)
      → IsBacked g
      → ((u : Style) → IsEntry (m u))
      → (u : Style) → IsEntry (put_size t g m u)
  put_size-IsEntry t g m b h u = elim (Bool-cases (style_eq t u)) [
    | inl e ↦ rw e b
    | inr e ↦ rw e (h u)
  ]

  mark_measuring-IsEntry :
      (z : Settings) (cs : List Choice) (m : Style → Option Sizing)
      → ((u : Style) → IsEntry (m u))
      → (u : Style) → IsEntry (mark_measuring z cs m u)
  unfolding mark_measuring
  mark_measuring-IsEntry z [] m h = h
  mark_measuring-IsEntry z (c ∷ cs) m h =
      let g : Sizing = record { state = measuring; result = none; shape = shape_of c.roots z } in
      mark_measuring-IsEntry z cs (put_size c.style g m) (put_size-IsEntry c.style g m (λ e. cc) h)

module _ {U : Type 0} (IsWalk : List Text → Settings → Size → Type 0) where
  -- One section under the mutex, of whoever comes next; a worker is named by its place.
  pub data Step : Survey U → Survey U → Type 0 where
    measure_step :
        (s : Survey U) (choices : List Choice) (roots : List Text) (z : Settings)
        → Step s (measure choices roots z s)
    progress_step : (s : Survey U) (i : ℕ) (r : Size) → Step s (progressed i r s)
    walk_step :
        (s : Survey U) (i : ℕ) (r : Size)
        → IsNext IsWalk (get_elem? s.workers i) r
        → Step s (walked i r s)
    return_step : (s : Survey U) (i : ℕ) → Step s (returned i s)
    remeasure_step : (s : Survey U) → Step s (remeasure s)
    probe_step : (s : Survey U) (able : Bool) → Step s (probe able s)
    probe_once_step : (s : Survey U) (able : Bool) → Step s (probe_once able s)
    probed_step : (s : Survey U) (o : Option U) → Step s (probed o s)

  pub data Reach : Survey U → Type 0 where
    begun : Reach (fresh U)
    after : {s t : Survey U} → Reach s → Step s t → Reach t

  abbrev pub IsSound : Survey U → Type 0
  IsSound s =
      ((t : Style) → IsEntry IsWalk (s.sizes t))
      × IsGuarded s.sizing s.workers
      × IsProbed s.probing s.probes s.upload.state

  started-IsSound :
      (z : Settings) (cs : List Choice) (s : Survey U)
      → s.sizing ≡ false
      → IsSound s
      → IsSound (started z cs s)
  started-IsSound z [] s n h = h
  started-IsSound z (c ∷ cs) s n (e, g, p) = (
    mark_measuring-IsEntry IsWalk z (c ∷ cs) s.sizes e,
    rw (guarded_none s.sizing s.workers n g) tt,
    p,
  )

  shown-IsSound :
      (z : Settings) (cs : List Choice) (r : Size) (s : Survey U)
      → IsSound s
      → IsSound (shown z cs r s)
  shown-IsSound z [] r s h = h
  shown-IsSound z (c ∷ cs) r s (e, g, p) = (
    put_size-IsEntry IsWalk c.style
        (record { state = measuring; result = some r; shape = shape_of c.roots z }) s.sizes
        (λ e. cc) e,
    g,
    p,
  )

  shown_by-IsSound :
      (w : Option Work) (r : Size) (s : Survey U) → IsSound s → IsSound (shown_by w r s)
  shown_by-IsSound none r s h = h
  shown_by-IsSound (some w) r s h = shown-IsSound w.settings w.todo r s h

  kept-IsSound :
      (i : ℕ) (z : Settings) (cs : List Choice) (r : Size) (s : Survey U)
      → IsFirst IsWalk z cs r
      → IsSound s
      → IsSound (kept i z cs r s)
  kept-IsSound i z [] r s n h = h
  kept-IsSound i z (c ∷ cs) r s n (e, g, p) = (
    put_size-IsEntry IsWalk c.style
        (record { state = measured; result = some r; shape = shape_of c.roots z }) s.sizes
        (λ x. (c.roots, z, r, refl, refl, n)) e,
    IsGuarded-set s.sizing i (record { todo = cs; settings = z }) s.workers g,
    p,
  )

  kept_by-IsSound :
      (i : ℕ) (w : Option Work) (r : Size) (s : Survey U)
      → IsNext IsWalk w r
      → IsSound s
      → IsSound (kept_by i w r s)
  kept_by-IsSound i none r s n h = h
  kept_by-IsSound i (some w) r s n h = kept-IsSound i w.settings w.todo r s n h

  returned_by-IsSound :
      (i : ℕ) (w : Option Work) (s : Survey U)
      → get_elem? s.workers i ≡ w
      → IsSound s
      → IsSound (returned_by i w s)
  returned_by-IsSound i none s k h = h
  returned_by-IsSound i (some w) s k (e, g, p) = (e, IsGuarded-drop s.sizing i w s.workers k g, p)

  if-IsSound : (b : Bool) (x y : Survey U) → IsSound x → IsSound y → IsSound (if b then x else y)
  if-IsSound true x y h k = h
  if-IsSound false x y h k = k

  unless-IsSound :
      (b : Bool) (x y : Survey U)
      → IsSound x
      → (b ≡ false → IsSound y)
      → IsSound (if b then x else y)
  unless-IsSound true x y h k = h
  unless-IsSound false x y h k = k refl

  probe-IsSound : (able : Bool) (s : Survey U) → IsSound s → IsSound (probe able s)
  unfolding probe
  probe-IsSound able s (e, g, p) = elim (Bool-cases (s.probing || not able)) [
    | inl c ↦ rw c (e, g, p)
    | inr c ↦
        let none_runs : s.probes ≡ 0 =
          probed_none s.probing s.probes s.upload.state (ground arith) p in
        rw c (e, g, rw none_runs refl)
  ]

  ended-IsProbed : (o : Option U) → IsProbed false 0 (upload_of o).state
  ended-IsProbed none = tt
  ended-IsProbed (some u) = tt

  ended_of-IsSound :
      (n : ℕ) (o : Option U) (s : Survey U)
      → IsProbed s.probing n s.upload.state
      → IsSound s
      → IsSound (ended_of n o s)
  ended_of-IsSound zero o s q h = h
  ended_of-IsSound (suc n) o s q (e, g, p) = (e, g, rw (last n s.probing q) (ended-IsProbed o))
    where
      last : (k : ℕ) (b : Bool) → IsProbed b (suc k) s.upload.state → k ≡ 0
      last zero b x = refl
      last (suc k) true x = absurd x
      last (suc k) false x = absurd x

  Step-IsSound : {s t : Survey U} → Step s t → IsSound s → IsSound t
  unfolding measure progressed walked returned remeasure probe_once probed
  Step-IsSound (measure_step s choices roots z) h =
      let todo = wanting s.sizes z (order choices roots) in
      unless-IsSound s.sizing s (started z todo s) h (λ e. started-IsSound z todo s e h)
  Step-IsSound (progress_step s i r) h = shown_by-IsSound (get_elem? s.workers i) r s h
  Step-IsSound (walk_step s i r n) h = kept_by-IsSound i (get_elem? s.workers i) r s n h
  Step-IsSound (return_step s i) h = returned_by-IsSound i (get_elem? s.workers i) s refl h
  Step-IsSound (remeasure_step s) (e, g, p) =
      if-IsSound s.sizing s (record s { sizes = λ _. none }) (e, g, p) ((λ t. tt), g, p)
  Step-IsSound (probe_step s able) h = probe-IsSound able s h
  Step-IsSound (probe_once_step s able) h =
      if-IsSound (is_unmeasured s.upload.state) (probe able s) s (probe-IsSound able s h) h
  Step-IsSound (probed_step s o) (e, g, p) = ended_of-IsSound s.probes o s p (e, g, p)

  -- Whatever the page, the workers and the probes do and in whatever order: a size shown as measured is
  -- one with which a walk of the disk can have ended under the settings that its key stands for; there
  -- is never a second worker, and the flag that keeps it out is up exactly while one is there; and
  -- there is never a second probe, and the upload speed is shown as being measured exactly while one
  -- runs, with its flag up.
  pub Reach-IsSound : {s : Survey U} → Reach s → IsSound s
  Reach-IsSound begun = ((λ t. tt), tt, tt)
  Reach-IsSound (after r x) = Step-IsSound x (Reach-IsSound r)
