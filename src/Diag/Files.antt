-- ===== src/Diag/Files.antt =====
-- business/domain/diag/stores/diagfile/diagfile.go: the queue as a directory of files. A directory is the
-- list of its entries in the order of their names, each name once, as os.ReadDir gives them.
use sion_backup.Prelude.{
  ℕ, ◌-◌, Bool, true, false, Option, none, some, List, [], ◌∷◌, ◌++◌, not, ◌&&◌, ◌||◌, ◌==◌,
  if◌then◌else◌, ltb, ltb_ℤ, leb, length, take, pos,
}
use sion_backup.Prelude.Text.{Text, codes, text_eq, has_prefix}
use sion_backup.Prelude.Result.{Result, ok, err}
use sion_backup.Prelude.Time.{Time, is_zero, sub_time}
use sion_backup.Diag.{Report, Queued, Queue}
use sion_backup.Diag.Stamp.{Date, stamp}

-- A file holds a report, or something that is none.
pub data Content : Type 0 where
  report : Report → Content
  garbage : Content

pub record Entry : Type 0 where
  pub name : Text
  pub is_dir : Bool
  pub content : Content

abbrev pub Dir : Type 0
Dir = List Entry

-- The order of texts as < of Go compares them.
unfoldable pub text_lt : Text → Text → Bool
text_lt s [] = false
text_lt [] (b ∷ t) = true
text_lt (a ∷ s) (b ∷ t) = ltb a b || (a == b && text_lt s t)

-- Writes a file, in its place or over the one of its name.
unfoldable pub write_entry : Entry → Dir → Dir
unfolding text_lt
write_entry e [] = e ∷ []
write_entry e (x ∷ d) =
    let rest = write_entry e d in
    if text_lt e.name x.name then e ∷ x ∷ d else if text_lt x.name e.name then x ∷ rest else e ∷ d

-- Takes the file of a name away, if there is one.
unfoldable pub drop_entry : Text → Dir → Dir
drop_entry n [] = []
drop_entry n (x ∷ d) = let rest = drop_entry n d in if text_eq x.name n then d else x ∷ rest

unfoldable pub content_of : Text → Dir → Option Content
content_of n [] = none
content_of n (x ∷ d) =
    let rest = content_of n d in if text_eq x.name n then some x.content else rest

-- How os.ReadDir and os.ReadFile end.
pub data Listing : Type 0 where
  listed missing : Listing
  unlisted : Text → Listing

pub data Reading : Type 0 where
  readable gone : Reading
  unreadable : Text → Reading

-- What the disk refuses: which calls fail, and with what. `writing` fails with or without a part written.
pub record DirFaults : Type 0 where
  pub listing : Listing
  pub reading : Text → Reading
  pub removing : Text → Option Text
  pub encoding : Option Text
  pub writing : Option (Bool × Text)
  pub renaming : Option Text

abbrev pub keep : ℕ
keep = 20

-- A month, in nanoseconds.
abbrev pub max_age : ℕ
max_age = 2592000000000000

unfoldable pub has_suffix_json : Text → Bool
has_suffix_json [] = false
has_suffix_json (c ∷ s) = text_eq (c ∷ s) (codes ".json") || has_suffix_json s

unfoldable pub is_report_name : Entry → Bool
unfolding has_suffix_json has_prefix
is_report_name e = not (e.is_dir || has_prefix e.name (codes ".") || not (has_suffix_json e.name))

unfoldable pub report_names : Dir → List Text
report_names [] = []
report_names (e ∷ d) = let rest = report_names d in if is_report_name e then e.name ∷ rest else rest

-- sort.Strings
abbrev pub sorted_in : Text → List Text → List Text
sorted_in n [] = n ∷ []
sorted_in n (m ∷ ms) = let rest = sorted_in n ms in if text_lt m n then m ∷ rest else n ∷ m ∷ ms

unfoldable pub sort_names : List Text → List Text
unfolding text_lt
sort_names [] = []
sort_names (n ∷ ns) = sorted_in n (sort_names ns)

unfoldable pub names : Listing → Dir → Result Text (List Text)
unfolding report_names sort_names
names listed d = ok (sort_names (report_names d))
names missing d = ok []
names (unlisted e) d = err e

-- os.Remove of a name in the directory: the error, unless it is that there is no such file.
unfoldable pub remove_file : DirFaults → Text → Dir → Dir × Option Text
unfolding drop_entry
remove_file f n d = elim (f.removing n) [ none ↦ (drop_entry n d, none) | some e ↦ (d, some e) ]

unfoldable pub remove_files : DirFaults → List Text → Dir → Dir
unfolding remove_file
remove_files f [] d = d
remove_files f (n ∷ ns) d = remove_files f ns (remove_file f n d).0

abbrev pub trim_to : DirFaults → Result Text (List Text) → Dir → Dir
trim_to f (err e) d = d
trim_to f (ok ns) d =
    if leb (length ns) keep then d else remove_files f (take (length ns - keep) ns) d

unfoldable pub trim : DirFaults → Dir → Dir
unfolding remove_files names
trim f d = trim_to f (names f.listing d) d

abbrev pub file : Text → Content → Entry
file n c = record { name = n; is_dir = false; content = c }

abbrev pub renamed : DirFaults → Text → Text → Content → Dir → Dir × Option Text
renamed f tmp n c d = elim f.renaming [
  | some e ↦ (d, some e)
  | none ↦ (trim f (write_entry (file n c) (drop_entry tmp d)), none)
]

abbrev pub written : DirFaults → Text → Text → Content → Dir → Dir × Option Text
written f tmp n c d = elim f.writing [
  | some (part, e) ↦ (if part then write_entry (file tmp garbage) d else d, some e)
  | none ↦ renamed f tmp n c (write_entry (file tmp c) d)
]

-- The name of a report: its time in UTC and the start of a new UUID.
unfoldable pub name_of : (ℕ → Date) → Text → Report → Text
unfolding stamp
name_of date tag r = stamp date r.occurred_at ++ b'-' ∷ tag ++ codes ".json"

module _ (base : Text → Text) (date : ℕ → Date) (tag : Text) (now : Time) (f : DirFaults) where
  unfoldable pub put : Report → Dir → Dir × Option Text
  unfolding write_entry drop_entry trim
  put r d = elim f.encoding [
    | some e ↦ (d, some e)
    | none ↦ written f (b'.' ∷ name_of date tag r) (name_of date tag r) (report r) d
  ]

  abbrev pub too_old : Report → Bool
  too_old r = not (is_zero r.occurred_at) && ltb_ℤ (pos max_age) (sub_time now r.occurred_at)

  abbrev pub queued_before :
      Queued → Dir × Result Text (List Queued) → Dir × Result Text (List Queued)
  queued_before q (d, ok qs) = (d, ok (q ∷ qs))
  queued_before q (d, err e) = (d, err e)

  -- A file that was read; `rest` goes on with the directory.
  abbrev pub decoded :
      (Dir → Dir × Result Text (List Queued))
      → Text
      → Dir
      → Option Content
      → Dir × Result Text (List Queued)
  decoded rest n d none = rest d
  decoded rest n d (some garbage) = rest (remove_file f n d).0
  decoded rest n d (some (report r)) =
      let gone_on = rest (remove_file f n d).0 in
      let kept = queued_before (record { id = n; report = r }) (rest d) in
      if too_old r then gone_on else kept

  abbrev pub read_then :
      (Dir → Dir × Result Text (List Queued))
      → Text
      → Dir
      → Reading
      → Dir × Result Text (List Queued)
  read_then rest n d (unreadable e) = (d, err e)
  read_then rest n d gone = rest d
  read_then rest n d readable = decoded rest n d (content_of n d)

  unfoldable pub read_all : List Text → Dir → Dir × Result Text (List Queued)
  unfolding content_of remove_file
  read_all [] d = (d, ok [])
  read_all (n ∷ ns) d = read_then (read_all ns) n d (f.reading n)

  abbrev pub read_names : Dir → Result Text (List Text) → Dir × Result Text (List Queued)
  read_names d (err e) = (d, err e)
  read_names d (ok ns) = read_all ns d

  unfoldable pub list : Dir → Dir × Result Text (List Queued)
  unfolding names read_all
  list d = read_names d (names f.listing d)

  unfoldable pub remove : Text → Dir → Dir × Option Text
  unfolding remove_file
  remove id d =
      if not (text_eq id (base id))
      then (d, some (codes "is not a report in this directory"))
      else remove_file f id d

  abbrev pub files : Queue Dir
  files = record { put = put; list = list; remove = remove }
