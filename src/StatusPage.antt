-- ===== src/StatusPage.antt =====
-- app/domain/statusapp: what the status page's forms do (setup.go, statusapp.go), the sentence at
-- its top, and its numbers (funcs.go). The pages' texts and their HTML are left out.
pub mod Boxes
pub mod Saving
pub mod Verdict
pub mod Green
pub mod Words
use sion_backup.Prelude.{
  ℕ, Bool, true, false, Option, none, some, List, [], ◌∷◌, ◌++◌, not, ◌&&◌, ◌||◌, ◌==◌, ℤ, pos,
  if◌then◌else◌, leb_ℤ, ltb_ℤ,
}
use sion_backup.Prelude.Text.{Text, codes, text_eq, is_empty, trim_space, split, atoi}
use sion_backup.Prelude.Result.{Result, ok, err}
use sion_backup.Prelude.Time.{Time}
use sion_backup.Plan.Schedule.{Schedule, is_nil}
use sion_backup.Plan.Schedule.Presets.{default_schedule, hourly, thrice_daily, daily_at}
use sion_backup.Plan.Record.{Plan}
use sion_backup.Plan.Store.{Store, StoreFaults}
use sion_backup.Plan.Business.{PlanFault, no_plan, get, put, confirm}
use sion_backup.Survey.{Style, personal, home, custom, Choice}
use sion_backup.Survey.Junk.{has_junk, without_junk}
use sion_backup.Survey.Folders.{Trouble}
use sion_backup.Enrolling.{zero_plan}

-- The lines of a text box, trimmed, without the empty ones.
unfoldable pub trimmed_lines : List Text → List Text
trimmed_lines [] = []
trimmed_lines (l ∷ ls) =
    let rest = trimmed_lines ls in if is_empty (trim_space l) then rest else trim_space l ∷ rest

unfoldable pub lines_of : Text → List Text
unfolding trimmed_lines
lines_of s = trimmed_lines (split 10 s)

abbrev pub separates_times : ℕ → Bool
separates_times c = c == b',' || c == 10 || c == 32 || c == 9 || c == 13

-- strings.FieldsFunc; `word` holds the field so far.
unfoldable pub times_from : Text → Text → List Text
times_from word [] = if is_empty word then [] else word ∷ []
times_from word (c ∷ s) =
    let in_word = times_from (word ++ c ∷ []) s in
    let between = times_from [] s in
    if separates_times c then (if is_empty word then between else word ∷ between) else in_word

unfoldable pub split_times : Text → List Text
unfolding times_from
split_times s = times_from [] s

-- The junk that the program knows, and what the box makes of a plan's patterns.
unfoldable pub effective_excludes : List Text → List Text → Bool → List Text
effective_excludes junk excludes true =
    if has_junk junk excludes then excludes else without_junk junk excludes ++ junk
effective_excludes junk excludes false =
    if has_junk junk excludes then without_junk junk excludes else excludes

-- The fields of the set-up form.
pub record SetupForm : Type 0 where
  pub action : Text
  pub style : Text
  pub targets : Text
  pub junk : Text
  pub skip_on_metered : Text
  pub skip_larger_than_gb : Text
  pub schedule : Text
  pub daily_time : Text
  pub times : Text

pub data Problem : Type 0 where
  no_folders no_such_choice bad_limit no_daily_time no_times : Problem
  unusable_folders : List Trouble → Problem
  not_stored : PlanFault → Problem

abbrev pub style_text : Style → Text
style_text personal = codes "personal"
style_text home = codes "home"
style_text custom = codes "custom"

abbrev pub is_on : Text → Bool
is_on t = text_eq t (codes "on")

-- The roots of the last choice of that style.
unfoldable pub roots_of : Text → List Choice → Option (List Text)
roots_of style [] = none
roots_of style (c ∷ cs) = elim (roots_of style cs) [
  | some r ↦ some r
  | none ↦ if text_eq (style_text c.style) style then some c.roots else none
]

-- The plan, and the problem if there is one; the plan is then the one the page shows.
abbrev pub Applied : Type 0
Applied = Plan × Option Problem

abbrev pub problem_of : List Trouble → Option Problem
problem_of [] = none
problem_of (t ∷ ts) = some (unusable_folders (t ∷ ts))

abbrev pub custom_targets : (List Text → List Trouble) → List Text → Plan → Applied
custom_targets check [] p = (record p { targets = [] }, some no_folders)
custom_targets check (t ∷ ts) p = (record p { targets = t ∷ ts }, problem_of (check (t ∷ ts)))

abbrev pub chosen_targets : Option (List Text) → Plan → Applied
chosen_targets none p = (p, some no_such_choice)
chosen_targets (some roots) p = (record p { targets = roots }, none)

abbrev pub limit_of : Text → Result Problem ℤ
limit_of raw = if is_empty raw then ok (pos 0) else elim (atoi (trim_space raw)) [
  | none ↦ err bad_limit
  | some n ↦ if ltb_ℤ n (pos 0) then err bad_limit else ok n
]

abbrev pub own_times : Schedule → List Text → Result Problem Schedule
own_times current [] = err no_times
own_times current (t ∷ ts) =
    if leb_ℤ current.jitter_minutes (pos 0)
      && leb_ℤ (pos 0) current.jitter_minutes
      && leb_ℤ current.min_interval (pos 0)
      && leb_ℤ (pos 0) current.min_interval
    then ok (record default_schedule { times = t ∷ ts })
    else ok (record current { times = t ∷ ts })

unfoldable pub schedule_of : Schedule → SetupForm → Result Problem Schedule
unfolding split_times
schedule_of current f =
    if text_eq f.schedule (codes "hourly")
    then ok hourly
    else if text_eq f.schedule (codes "thrice-daily")
    then ok thrice_daily
    else if text_eq f.schedule (codes "daily")
    then (if is_empty (trim_space f.daily_time)
        then err no_daily_time
        else ok (daily_at (trim_space f.daily_time)))
    else own_times current (split_times f.times)

abbrev pub with_schedule : Plan → Result Problem Schedule → Applied
with_schedule p (err e) = (p, some e)
with_schedule p (ok s) = (record p { schedule = s }, none)

abbrev pub with_limit : SetupForm → Plan → Result Problem ℤ → Applied
with_limit f p (err e) = (p, some e)
with_limit f p (ok n) =
    let q = record p { skip_larger_than_gb = n } in with_schedule q (schedule_of q.schedule f)

abbrev pub with_targets : List Text → SetupForm → Applied → Applied
with_targets junk f (p, some e) = (p, some e)
with_targets junk f (p, none) =
    with_limit f
      (record p {
        style = f.style;
        excludes = effective_excludes junk p.excludes (is_on f.junk);
        skip_on_metered = is_on f.skip_on_metered;
      })
      (limit_of f.skip_larger_than_gb)

abbrev pub is_custom : SetupForm → Bool
is_custom f = text_eq f.style (codes "custom")

-- What the browser gets: another page, the form again with a problem, or an error page.
pub data Page : Type 0 where
  redirect : Text → Page
  shown : Plan → Problem → Page
  enrol_first error_page : Page

-- The choices, the check of the folders and the junk are the survey's.
module _ (choices : List Choice) (check : List Text → List Trouble) (junk : List Text) where
  unfoldable pub apply_setup : Plan → SetupForm → Applied
  unfolding roots_of lines_of effective_excludes schedule_of
  apply_setup p f =
      if is_custom f
      then with_targets junk f (custom_targets check (lines_of f.targets) p)
      else with_targets junk f (chosen_targets (roots_of f.style choices) p)

abbrev pub confirms : SetupForm → Bool
confirms form = text_eq form.action (codes "confirm")

-- The run that a confirmation starts: the state of the program's runner.
module _ {W : Type 0} (start_run : W → W) where
  abbrev pub confirmed_then : W → Store × Option PlanFault → Store × W × Option Problem
  confirmed_then w (s, some e) = (s, w, some (not_stored e))
  confirmed_then w (s, none) = (s, start_run w, none)

  abbrev pub put_then :
      StoreFaults → Bool → Time → W → Store × Option PlanFault → Store × W × Option Problem
  put_then g confirms now w (s, some e) = (s, w, some (not_stored e))
  put_then g confirms now w (s, none) =
      if confirms then confirmed_then w (confirm g now s) else (s, w, none)

  -- Server.store; `f` and `g` are what fails of the two calls.
  unfoldable pub store_plan :
      StoreFaults → StoreFaults → Plan → Bool → Time → Store → W → Store × W × Option Problem
  store_plan f g p confirms now s w = put_then g confirms now w (put f p now s)

  abbrev pub answered : Plan → Bool → Store × W × Option Problem → Store × W × Page
  answered p confirms (s, w, some e) = (s, w, shown p e)
  answered p confirms (s, w, none) =
      (s, w, redirect (if confirms then codes "/" else codes "/setup?saved"))

  abbrev pub stored_then :
      StoreFaults → StoreFaults → Bool → Time → Store → W → Applied → Store × W × Page
  stored_then f g confirms now s w (p, some e) = (s, w, shown p e)
  stored_then f g confirms now s w (p, none) =
      answered p confirms (store_plan f g p confirms now s w)

module _ {W : Type 0} (choices : List Choice) (check : List Text → List Trouble) (junk : List Text)
    (start_run : W → W) where
  -- Where the plan cannot be read, the page that is shown asks again; here it gets the same answer.
  abbrev pub with_plan :
      StoreFaults
      → StoreFaults
      → SetupForm
      → Time
      → Store
      → W
      → Result PlanFault Plan
      → Store × W × Page
  with_plan f g form now s w (err no_plan) = (s, w, enrol_first)
  with_plan f g form now s w (err e) = (s, w, error_page)
  with_plan f g form now s w (ok p) =
      stored_then start_run f g (confirms form) now s w (apply_setup choices check junk p form)

  unfoldable pub save_setup :
      StoreFaults → StoreFaults → SetupForm → Time → Store → W → Store × W × Page
  unfolding apply_setup store_plan
  save_setup f g form now s w = with_plan f g form now s w (get f s)

-- The fields of the settings form.
pub record SettingsForm : Type 0 where
  pub targets : Text
  pub excludes : Text
  pub times : Text
  pub paused : Text
  pub skip_on_metered : Text
  pub skip_larger_than_gb : Text
  pub read_concurrency : Text
  pub pack_size_mib : Text

abbrev pub if_number : Option ℤ → ℤ → ℤ
if_number none old = old
if_number (some n) old = n

abbrev pub if_limit : Option ℤ → ℤ → ℤ
if_limit none old = old
if_limit (some n) old = if leb_ℤ (pos 0) n then n else old

unfoldable pub edited : SettingsForm → Plan → Plan
unfolding lines_of split_times
edited f p =
    let raw = trim_space f.skip_larger_than_gb in
    record p {
      targets = lines_of f.targets;
      excludes = lines_of f.excludes;
      schedule = record p.schedule { times = split_times f.times };
      paused = is_on f.paused;
      skip_on_metered = is_on f.skip_on_metered;
      skip_larger_than_gb =
          if is_empty raw then pos 0 else if_limit (atoi raw) p.skip_larger_than_gb;
      read_concurrency = if_number (atoi f.read_concurrency) p.read_concurrency;
      pack_size_mib = if_number (atoi f.pack_size_mib) p.pack_size_mib;
    }

-- What the browser gets after the settings were sent.
pub data Saved : Type 0 where
  saved : Saved
  again : Plan → Problem → Saved
  failed : Saved

module _ (check : List Text → List Trouble) where
  abbrev pub put_settings : Plan → Store × Option PlanFault → Store × Saved
  put_settings p (s, none) = (s, saved)
  put_settings p (s, some e) = (s, again p (not_stored e))

  abbrev pub checked_settings : StoreFaults → Plan → Time → Store → Option Problem → Store × Saved
  checked_settings f p now s (some e) = (s, again p e)
  checked_settings f p now s none = put_settings p (put f p now s)

  abbrev pub settings_over : StoreFaults → SettingsForm → Time → Store → Plan → Store × Saved
  settings_over f form now s p =
      checked_settings f (edited form p) now s (problem_of (check (edited form p).targets))

  abbrev pub settings_from :
      StoreFaults → SettingsForm → Time → Store → Result PlanFault Plan → Store × Saved
  settings_from f form now s (ok p) = settings_over f form now s p
  settings_from f form now s (err no_plan) = settings_over f form now s zero_plan
  settings_from f form now s (err e) = (s, failed)

  unfoldable pub save_settings : StoreFaults → SettingsForm → Time → Store → Store × Saved
  unfolding edited
  save_settings f form now s = settings_from f form now s (get f s)
