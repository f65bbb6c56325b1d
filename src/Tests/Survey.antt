-- ===== src/Tests/Survey.antt =====
-- business/domain/survey/surveybus/surveybus.go at concrete inputs: one visit of the page, the walk of
-- both styles, and a second visit.
use sion_backup.Prelude.{ℕ, ◌≡◌, refl, true, false, some, List, [], ◌∷◌, pos}
use sion_backup.Prelude.Text.{Text, codes}
use sion_backup.Survey.{
  personal, home, Choice, Size, Settings, Survey, measure, walked, fresh, wanting, order,
  mark_measuring, style_eq, measured, shape_of, probe_once,
}
use sion_backup.Survey.Steps.{
  Reach, begun, after, measure_step, walk_step, probe_once_step, IsSound, Reach-IsSound,
}

abbrev choices : List Choice
choices =
    record { style = personal; roots = codes "/home/a/Documents" ∷ [] }
    ∷ record { style = home; roots = codes "/home/a" ∷ [] }
    ∷ []

abbrev junk_left_out : Settings
junk_left_out = record { excludes = codes "*.iso" ∷ []; larger_than_gb = pos 4 }

abbrev figure : Size
figure = record {
  bytes = 900;
  files = 3;
  excluded = 1;
  unreadable = 0;
  took = pos 5;
  partial = false;
}

-- Every walk can end with every figure.
abbrev AnyWalk : List Text → Settings → Size → Type 0
AnyWalk roots z r = Unit

abbrev visited : Survey ℕ
visited = walked 0 figure (measure choices [] junk_left_out (fresh ℕ))

first_figure :
    visited.sizes personal
    ≡ some (record {
      state = measured;
      result = some figure;
      shape = shape_of (codes "/home/a/Documents" ∷ []) junk_left_out;
    })
unfolding walked measure wanting order mark_measuring style_eq
first_figure = refl

visited-Reach : Reach AnyWalk (probe_once true visited)
visited-Reach =
    after
      (after (after begun (measure_step (fresh ℕ) choices [] junk_left_out)) (
        walk_step (measure choices [] junk_left_out (fresh ℕ)) 0 figure
          (unfold measure wanting order in tt)))
      (probe_once_step visited true)

Reach-IsSound_example : IsSound AnyWalk (probe_once true visited)
Reach-IsSound_example = Reach-IsSound AnyWalk visited-Reach
