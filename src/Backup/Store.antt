-- ===== src/Backup/Store.antt =====
-- business/domain/backup/stores/backupdb/backupdb.go: the run table, as the list of its rows in the
-- order of `ORDER BY id DESC`. AUTOINCREMENT never gives an id out again.
pub mod Kept
use sion_backup.Prelude.{
  ℕ, suc, Bool, true, false, Option, none, some, List, [], ◌∷◌, map, take, ℤ, pos, negsuc, leb_ℤ,
  not, ◌==◌, ◌&&◌, if◌then◌else◌,
}
use mathlib.Core.List.{reverse}
use sion_backup.Prelude.Text.{Text, text_eq, is_empty}
use sion_backup.Prelude.Time.{Time}
use sion_backup.Plan.Store.{rfc3339}
use sion_backup.Backup.Run.{Run}

-- A row; `closed`: its finished_at is not null.
pub record Row : Type 0 where
  pub run : Run
  pub closed : Bool

pub record History : Type 0 where
  pub rows : List Row
  pub next_id : ℕ

-- What the INSERT of Create writes, with the table's defaults.
abbrev pub opened : ℕ → Run → Row
opened id r = record {
  run = record r {
    id = id;
    started_at = rfc3339 r.started_at;
    finished_at = 0;
    snapshot_id = [];
    files_new = 0;
    files_changed = 0;
    total_files_processed = 0;
    total_bytes_processed = 0;
    data_added = 0;
    unreadable_files = [];
    verified = false;
    vss_fell_back = false;
    reported_at = none;
  };
  closed = false;
}

-- Create: the new id, or none where the database fails.
abbrev pub create : Bool → Run → History → History × Option ℕ
create true r h = (h, none)
create false r h =
    (record h { rows = opened h.next_id r ∷ h.rows; next_id = suc h.next_id }, some h.next_id)

-- What the UPDATE of Finish makes of a row.
abbrev pub closed_by : Run → Row → Row
closed_by r row = record {
  run = record row.run {
    finished_at = rfc3339 r.finished_at;
    outcome = r.outcome;
    message = r.message;
    snapshot_id = r.snapshot_id;
    files_new = r.files_new;
    files_changed = r.files_changed;
    total_files_processed = r.total_files_processed;
    total_bytes_processed = r.total_bytes_processed;
    data_added = r.data_added;
    unreadable_files = r.unreadable_files;
    verified = r.verified;
    vss_fell_back = r.vss_fell_back;
  };
  closed = true;
}

-- UPDATE run SET ... WHERE id = ?
unfoldable pub update : ℕ → (Row → Row) → List Row → List Row
update id change [] = []
update id change (x ∷ xs) =
    let rest = update id change xs in (if x.run.id == id then change x else x) ∷ rest

unfoldable pub holds : ℕ → List Row → Bool
holds id [] = false
holds id (x ∷ xs) = if x.run.id == id then true else holds id xs

-- Finish: false where the database fails or no row was updated.
unfoldable pub finish : Bool → Run → History → History × Bool
finish fails r h =
    if fails
    then (h, false)
    else (record h { rows = update r.id (closed_by r) h.rows }, holds r.id h.rows)

abbrev pub told_at : Time → Row → Row
told_at at row = record row { run = record row.run { reported_at = some (rfc3339 at) } }

-- MarkReported: a missing row is no error.
unfoldable pub mark_reported : Bool → ℕ → Time → History → History × Bool
mark_reported fails id at h =
    if fails then (h, false) else (record h { rows = update id (told_at at) h.rows }, true)

-- The limit of a query, or its default.
abbrev pub limit_or : ℕ → ℤ → ℕ
limit_or n (pos k) = if leb_ℤ (pos k) (pos 0) then n else k
limit_or n (negsuc k) = n

unfoldable pub recent : ℤ → History → List Run
recent limit h = map (λ row. row.run) (take (limit_or 30 limit) h.rows)

abbrev pub first_run : List Run → Option Run
first_run [] = none
first_run (r ∷ rs) = some r

-- Last; none for ErrNoRuns.
unfoldable pub last : History → Option Run
unfolding recent
last h = first_run (recent (pos 1) h)

unfoldable pub newest_closed : List Row → Option Run
newest_closed [] = none
newest_closed (x ∷ xs) = if x.closed then some x.run else newest_closed xs

unfoldable pub last_finished : History → Option Run
unfolding newest_closed
last_finished h = newest_closed h.rows

abbrev pub is_none {ℓ} : {A : Type ℓ} → Option A → Bool
is_none none = true
is_none (some _) = false

-- The finished rows that nobody was told of, the newest first.
unfoldable pub untold : List Row → List Run
untold [] = []
untold (x ∷ xs) =
    let rest = untold xs in if is_none x.run.reported_at && x.closed then x.run ∷ rest else rest

unfoldable pub unreported : ℤ → History → List Run
unfolding untold
unreported limit h = take (limit_or 50 limit) (reverse (untold h.rows))

unfoldable pub seen_in : Text → List Row → Bool
seen_in url [] = false
seen_in url (x ∷ xs) =
    if text_eq x.run.repository url && not (is_empty x.run.snapshot_id)
    then true
    else seen_in url xs

unfoldable pub seen_repository : Text → History → Bool
unfolding seen_in
seen_repository url h = seen_in url h.rows

-- Prune: false where it refuses or the database fails.
unfoldable pub prune : Bool → ℤ → History → History × Bool
prune fails keep h =
    if leb_ℤ keep (pos 0)
    then (h, false)
    else if fails
    then (h, false)
    else (record h { rows = take (limit_or 0 keep) h.rows }, true)
