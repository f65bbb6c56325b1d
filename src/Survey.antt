-- ===== src/Survey.antt =====
-- business/domain/survey/surveybus/surveybus.go: the sizes of the offered folders and the upload
-- speed, as the setup page asks for them while workers measure in the background. The mutex makes
-- each of its sections one step; a walk of the disk and a probe are arguments.
pub mod Junk
pub mod Folders
pub mod Steps
pub mod Shapes
use sion_backup.Prelude.{
  ℕ, zero, suc, get_elem?, Bool, true, false, Option, none, some, List, [], ◌∷◌, ◌++◌, ℤ, not, ◌||◌,
  if◌then◌else◌,
}
use sion_backup.Prelude.Text.{Text, text_eq, itoa}
use sion_backup.Prelude.Time.{Duration}
use sion_backup.Plan.Schedule.{is_nil}

pub data Style : Type 0 where
  personal home custom : Style

unfoldable pub style_eq : Style → Style → Bool
style_eq personal personal = true
style_eq home home = true
style_eq custom custom = true
style_eq _ _ = false

-- Choice, without its sentences.
pub record Choice : Type 0 where
  pub style : Style
  pub roots : List Text

-- dirsize.Result
pub record Size : Type 0 where
  pub bytes : ℕ
  pub files : ℕ
  pub excluded : ℕ
  pub unreadable : ℕ
  pub took : Duration
  pub partial : Bool

pub data State : Type 0 where
  unmeasured measuring measured failed : State

abbrev pub is_failed : State → Bool
is_failed failed = true
is_failed _ = false

abbrev pub is_unmeasured : State → Bool
is_unmeasured unmeasured = true
is_unmeasured _ = false

pub record Sizing : Type 0 where
  pub state : State
  pub result : Option Size
  pub shape : Text

-- What a walk leaves out.
pub record Settings : Type 0 where
  pub excludes : List Text
  pub larger_than_gb : ℤ

-- One list of shapeOf: a NUL after each item, and a bar after the list.
unfoldable pub shape_list : List Text → Text → Text
shape_list [] rest = b'|' ∷ rest
shape_list (x ∷ xs) rest = x ++ 0 ∷ shape_list xs rest

unfoldable pub shape_of : List Text → Settings → Text
unfolding shape_list
shape_of roots z = shape_list roots (shape_list z.excludes (itoa z.larger_than_gb))

-- Upload; the result of a probe is of any type.
pub record Upload (U : Type 0) : Type 0 where
  pub state : State
  pub result : Option U

-- What the worker has left to do.
pub record Work : Type 0 where
  pub todo : List Choice
  pub settings : Settings

-- Business: the map of sizes and the flag of the workers, the upload and the flag of the probes. With them
-- the goroutines that were started and have not ended: the workers, each by what it has left, and how
-- many probes. The flags are what keeps them to one each.
pub record Survey (U : Type 0) : Type 0 where
  pub sizes : Style → Option Sizing
  pub sizing : Bool
  pub workers : List Work
  pub upload : Upload U
  pub probing : Bool
  pub probes : ℕ

abbrev pub put_size : Style → Sizing → (Style → Option Sizing) → Style → Option Sizing
put_size t g m u = if style_eq t u then some g else m u

unfoldable pub order : List Choice → List Text → List Choice
order choices custom_roots =
    if is_nil custom_roots
    then choices
    else record { style = custom; roots = custom_roots } ∷ choices

abbrev pub outdated : Option Sizing → Text → Bool
outdated none shape = true
outdated (some g) shape = not (text_eq g.shape shape) || is_failed g.state

unfoldable pub wanting : (Style → Option Sizing) → Settings → List Choice → List Choice
wanting m z [] = []
wanting m z (c ∷ cs) =
    let rest = wanting m z cs in
    if outdated (m c.style) (shape_of c.roots z) then c ∷ rest else rest

unfoldable pub mark_measuring :
    Settings → List Choice → (Style → Option Sizing) → Style → Option Sizing
mark_measuring z [] m = m
mark_measuring z (c ∷ cs) m =
    mark_measuring z cs
      (put_size c.style (record { state = measuring; result = none; shape = shape_of c.roots z }) m)

abbrev pub set_work : ℕ → Work → List Work → List Work
set_work i w [] = []
set_work zero w (x ∷ xs) = w ∷ xs
set_work (suc i) w (x ∷ xs) = x ∷ set_work i w xs

abbrev pub drop_work : ℕ → List Work → List Work
drop_work i [] = []
drop_work zero (x ∷ xs) = xs
drop_work (suc i) (x ∷ xs) = x ∷ drop_work i xs

module _ {U : Type 0} where
  abbrev pub started : Settings → List Choice → Survey U → Survey U
  started z [] s = s
  started z (c ∷ cs) s = record s {
    sizes = mark_measuring z (c ∷ cs) s.sizes;
    sizing = true;
    workers = s.workers ++ (record { todo = c ∷ cs; settings = z }) ∷ [];
  }

  unfoldable pub measure : List Choice → List Text → Settings → Survey U → Survey U
  measure choices custom_roots z s =
      if s.sizing then s else started z (wanting s.sizes z (order choices custom_roots)) s

  -- The callback of a walk: the figure so far.
  abbrev pub shown : Settings → List Choice → Size → Survey U → Survey U
  shown z [] r s = s
  shown z (c ∷ cs) r s = record s {
    sizes =
        put_size c.style (record { state = measuring; result = some r; shape = shape_of c.roots z })
          s.sizes;
  }

  abbrev pub shown_by : Option Work → Size → Survey U → Survey U
  shown_by none r s = s
  shown_by (some w) r s = shown w.settings w.todo r s

  unfoldable pub progressed : ℕ → Size → Survey U → Survey U
  progressed i r s = shown_by (get_elem? s.workers i) r s

  -- The walk of one choice by worker `i` has ended.
  abbrev pub kept : ℕ → Settings → List Choice → Size → Survey U → Survey U
  kept i z [] r s = s
  kept i z (c ∷ cs) r s = record s {
    sizes =
        put_size c.style (record { state = measured; result = some r; shape = shape_of c.roots z })
          s.sizes;
    workers = set_work i (record { todo = cs; settings = z }) s.workers;
  }

  abbrev pub kept_by : ℕ → Option Work → Size → Survey U → Survey U
  kept_by i none r s = s
  kept_by i (some w) r s = kept i w.settings w.todo r s

  unfoldable pub walked : ℕ → Size → Survey U → Survey U
  walked i r s = kept_by i (get_elem? s.workers i) r s

  abbrev pub returned_by : ℕ → Option Work → Survey U → Survey U
  returned_by i none s = s
  returned_by i (some w) s = record s { sizing = false; workers = drop_work i s.workers }

  -- Worker `i` returns, with nothing left or with its context cancelled.
  unfoldable pub returned : ℕ → Survey U → Survey U
  returned i s = returned_by i (get_elem? s.workers i) s

  unfoldable pub remeasure : Survey U → Survey U
  remeasure s = if s.sizing then s else record s { sizes = λ _. none }

  -- Probe; `able`: there is a prober.
  unfoldable pub probe : Bool → Survey U → Survey U
  probe able s = if s.probing || not able then s else record s {
    upload = record { state = measuring; result = none };
    probing = true;
    probes = suc s.probes;
  }

  abbrev pub upload_of : Option U → Upload U
  upload_of none = record { state = failed; result = none }
  upload_of (some u) = record { state = measured; result = some u }

  abbrev pub ended_of : ℕ → Option U → Survey U → Survey U
  ended_of zero o s = s
  ended_of (suc n) o s = record s { upload = upload_of o; probing = false; probes = n }

  -- A probe has ended, with a result or an error.
  unfoldable pub probed : Option U → Survey U → Survey U
  probed o s = ended_of s.probes o s

  unfoldable pub probe_once : Bool → Survey U → Survey U
  unfolding probe
  probe_once able s = if is_unmeasured s.upload.state then probe able s else s

-- NewBusiness
abbrev pub fresh : (U : Type 0) → Survey U
fresh U = record {
  sizes = λ _. none;
  sizing = false;
  workers = [];
  upload = record { state = unmeasured; result = none };
  probing = false;
  probes = 0;
}
