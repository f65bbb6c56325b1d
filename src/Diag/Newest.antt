-- ===== src/Diag/Newest.antt =====
-- diagfile.go: Put keeps the newest twenty reports.
use sion_backup.Prelude.{
  ℕ, zero, suc, ◌-◌, ◌≤◌, true, none, List, [], ◌∷◌, ◌++◌, ◌/◌, ◌<◌, leb, ◌≡◌, refl, inl, inr, ap,
  ◌∙◌, arith, Bool-cases, length, take, drop, length-drop,
}
use sion_backup.Prelude.Text.{Text, codes, text_eq, has_prefix}
use sion_backup.Prelude.Time.{Time}
use sion_backup.Diag.{Report, record_report, stamped}
use sion_backup.Diag.Files.{
  Dir, report, DirFaults, listed, keep, write_entry, drop_entry, has_suffix_json, is_report_name,
  report_names, names, remove_file, remove_files, trim, file, name_of, put, files, text_lt,
}
use sion_backup.Diag.Stamp.{Date, stamp}
use sion_backup.Diag.Stamped.{IsCalendar, IsDated, name_of_earlier, name_of_visible}
use sion_backup.Diag.Order.{
  IsOrdered, write_entry-IsOrdered, drop_entry-IsOrdered, sort_names-report_names, with_name,
  report_names-write_entry, IsNoReport, report_names-write_hidden, report_names-drop_hidden,
  report_names-drop_first,
}

-- The last twenty names.
abbrev pub newest : List Text → List Text
newest ns = drop (length ns - keep) ns

length-newest : (ns : List Text) → length (newest ns) ≤ keep
length-newest ns = omega (arith, length-drop (length ns - keep) ns)

-- The directory takes every call.
pub record IsWilling (f : DirFaults) : Type 0 where
  pub lists : f.listing ≡ listed
  pub removes : (n : Text) → f.removing n ≡ none
  pub encodes : f.encoding ≡ none
  pub writes : f.writing ≡ none
  pub renames : f.renaming ≡ none

removed :
    (f : DirFaults) (n : Text) (d : Dir) → IsWilling f → (remove_file f n d).0 ≡ drop_entry n d
unfolding remove_file
removed f n d w = rw (w.removes n, remove_file) refl

remove_files-IsOrdered :
    (f : DirFaults) (ns : List Text) (d : Dir)
    → IsWilling f
    → IsOrdered d
    → IsOrdered (remove_files f ns d)
unfolding remove_files
remove_files-IsOrdered f [] d w o = o
remove_files-IsOrdered f (n ∷ ns) d w o =
    rw (removed f n d w, remove_files)
      (remove_files-IsOrdered f ns (drop_entry n d) w (drop_entry-IsOrdered n d o))

report_names-remove_files :
    (f : DirFaults) (k : ℕ) (ns : List Text) (d : Dir)
    → IsWilling f
    → IsOrdered d
    → report_names d ≡ ns
    → report_names (remove_files f (take k ns) d) ≡ drop k ns
unfolding remove_files
report_names-remove_files f zero ns d w o e = e
report_names-remove_files f (suc k) [] d w o e = e
report_names-remove_files f (suc k) (n ∷ ns) d w o e =
    rw (removed f n d w, remove_files)
      (report_names-remove_files f k ns (drop_entry n d) w (drop_entry-IsOrdered n d o)
        (report_names-drop_first n ns d o e))

trim-newest :
    (f : DirFaults) (d : Dir)
    → IsWilling f
    → IsOrdered d
    → (report_names (trim f d) ≡ newest (report_names d)) × IsOrdered (trim f d)
unfolding trim names
trim-newest f d w o =
    let ns = report_names d in
    rw (w.lists, sort_names-report_names d o)
      (elim (Bool-cases (leb (length ns) keep)) [
        | inl e ↦ let few : length ns - keep ≡ 0 = ground arith in rw e (rw few (refl, o))
        | inr e ↦ rw e (
          report_names-remove_files f (length ns - keep) ns d w o refl,
          remove_files-IsOrdered f (take (length ns - keep) ns) d w o,
        )
      ])

has_suffix-append : (s : Text) → has_suffix_json (s ++ codes ".json") ≡ true
unfolding has_suffix_json
has_suffix-append [] = unfold text_eq in refl
has_suffix-append (c ∷ s) = ground (arith, has_suffix-append s)

-- A name that begins with a dot is none of a report.
hidden-IsNoReport : (n : Text) → IsNoReport (b'.' ∷ n)
unfolding is_report_name
hidden-IsNoReport n e h = rw h (unfold has_prefix in ground arith)

module _ (base : Text → Text) (date : ℕ → Date) (tag : Text) (now : Time) (f : DirFaults) where
  abbrev named : Report → Text
  named = name_of date tag

  named-IsReport : (r : Report) → is_report_name (file (named r) (report r)) ≡ true
  unfolding is_report_name name_of
  named-IsReport r =
      rw (name_of_visible date tag r, has_suffix-append (stamp date r.occurred_at ++ b'-' ∷ tag))
        refl

  put_works :
      (r : Report) (d : Dir)
      → IsWilling f
      → put base date tag now f r d ≡ (
        trim f (
            write_entry
              (file (named r) (report r))
              (drop_entry (b'.' ∷ named r) (write_entry (file (b'.' ∷ named r) (report r)) d))),
        none,
      )
  unfolding put
  put_works r d w = rw (w.encodes, put) (rw w.writes (rw w.renames refl))

  put-newest :
      (r : Report) (d : Dir)
      → IsWilling f
      → IsOrdered d
      → ((put base date tag now f r d).1 ≡ none)
        × (report_names (put base date tag now f r d).0
            ≡ newest (with_name (named r) (report_names d)))
        × IsOrdered (put base date tag now f r d).0
  put-newest r d w o =
      let tmp = b'.' ∷ named r in
      let e = file (named r) (report r) in
      let d1 = write_entry (file tmp (report r)) d in
      let d2 = drop_entry tmp d1 in
      let o1 = write_entry-IsOrdered (file tmp (report r)) d o in
      let o2 = drop_entry-IsOrdered tmp d1 o1 in
      let o3 = write_entry-IsOrdered e d2 o2 in
      let (n, k) = trim-newest f (write_entry e d2) w o3 in
      let hidden = hidden-IsNoReport (named r) in
      let same : report_names d2 ≡ report_names d =
        report_names-drop_hidden tmp d1 hidden
        ∙ report_names-write_hidden (file tmp (report r)) d hidden in
      rw (put_works r d w) (
        refl,
        n
            ∙ ap newest (
                report_names-write_entry e d2 (named-IsReport r) o2
                ∙ ap (with_name (named r)) same),
        k,
      )

-- Record keeps the newest twenty reports: where the directory takes every call and holds each name once, in
-- order, a report is stored under a name of its time in UTC, and of the names with it the last twenty are
-- left, so never more, each once and in order. The order of two names of reports is that of their times,
-- whatever follows the time in them: of two instants that differ by the millisecond the earlier comes first,
-- up to the end of the year 9999, where the dates of later days are later.
pub record_report-newest :
    (base : Text → Text) (date : ℕ → Date) (tag agent os : Text) (now : Time) (f : DirFaults)
    (r x y : Report) (d : Dir) (v w : Text)
    → IsWilling f
    → IsCalendar date
    → IsOrdered d
    → IsDated x.occurred_at
    → IsDated y.occurred_at
    → x.occurred_at / 1000000 < y.occurred_at / 1000000
    → let s = stamped agent os now r in
      let end = record_report (files base date tag now f) true agent os now r d in
      let all = with_name (name_of date tag s) (report_names d) in
      (end.1 ≡ none)
      × (report_names end.0 ≡ newest all)
      × (length (report_names end.0) ≤ 20)
      × IsOrdered end.0
      × (text_lt (name_of date v x) (name_of date w y) ≡ true)
unfolding record_report
record_report-newest base date tag agent os now f r x y d v w will c o h k l =
    let s = stamped agent os now r in
    let (e, n, m) = put-newest base date tag now f s d will o in
    (
      e,
      n,
      rw n (length-newest (with_name (name_of date tag s) (report_names d))),
      m,
      name_of_earlier date v w x y c h k l,
    )
