-- ===== src/Fleet/Telling.antt =====
-- business/domain/fleet/fleetbus/fleetbus.go: which runs a round of Flush has marked when it ends.
use sion_backup.Prelude.{
  ℕ, suc, ◌+◌, ◌<◌, ◌++◌, Bool, true, false, none, some, List, [], ◌∷◌, take, length, get_elem?,
  ◌≡◌, ◌≢◌, ◌≤◌, ◌⊎◌, All,
}
use sion_backup.Prelude.Time.{Time}
use mathlib.Core.List.{reverse}
use sion_backup.Backup.Run.{Run}
use sion_backup.Backup.Store.{History, mark_reported, untold}
use sion_backup.Fleet.{
  Reply, landed, unreachable, not_reported, not_marked, Flushed, Event, flush_from,
}

abbrev pub tell_all : Time → List ℕ → History → History
tell_all now [] h = h
tell_all now (id ∷ ids) h = tell_all now ids (mark_reported false id now h).0

abbrev pub landed_in : List Reply → ℕ
landed_in [] = 0
landed_in (landed ∷ rs) = suc (landed_in rs)
landed_in (_ ∷ rs) = landed_in rs

-- How a flush of runs with these ids ends, where the server would reply so to all of them.
abbrev pub FlushEnds :
    {S : Type 0}
    → (ℕ → Bool)
    → Time
    → List ℕ
    → List Reply
    → ℕ
    → History
    → Flushed S History
    → Type 0
FlushEnds fails now ids replies sent h r =
    (k : ℕ) × (k ≤ length ids)
    × (r.store ≡ tell_all now (take k ids) h)
    × All (λ a. a ≢ unreachable) (take k replies)
    × (r.sent ≡ sent + landed_in (take k replies))
    × ((r.error ≡ none) × (k ≡ length ids)
        ⊎ (r.error ≡ some not_reported) × (get_elem? replies k ≡ some unreachable)
        ⊎ (r.error ≡ some not_marked)
          × ((id : ℕ) × (get_elem? ids k ≡ some id) × (fails id ≡ true)))

-- The runs stand in ascending order of their ids.
abbrev pub IsAscending : List Run → Type 0
IsAscending [] = Unit
IsAscending (r ∷ rs) = All (λ s. r.id < s.id) rs × IsAscending rs

-- The runs are the first fifty of those that have finished and that nobody was told of, by their ids, or all.
abbrev pub IsOldest : History → List Run → Type 0
IsOldest h rs =
    (rest : List Run) × (rs ++ rest ≡ reverse (untold h.rows))
    × IsAscending (rs ++ rest)
    × ((rest ≡ []) ⊎ (length rs ≡ 50))

module _ {S : Type 0} (send : S → Event → S × Reply) (fails : ℕ → Bool) (now : Time) where
  abbrev pub mark : History → ℕ → History × Bool
  mark m id = mark_reported (fails id) id now m

  abbrev pub reply_then : (S → List Reply) → S × Reply → List Reply
  reply_then rest (s, a) = a ∷ rest s

  -- The replies to all the events, one after the other.
  abbrev pub replies : List (ℕ × Event) → S → List Reply
  replies [] s = []
  replies ((id, e) ∷ ps) s = reply_then (replies ps) (send s e)

  abbrev pub ids_of : List (ℕ × Event) → List ℕ
  ids_of [] = []
  ids_of ((id, e) ∷ ps) = id ∷ ids_of ps

  abbrev pub Ends : List (ℕ × Event) → ℕ → S → History → Type 0
  Ends ps sent s h =
      FlushEnds fails now (ids_of ps) (replies ps s) sent h (flush_from send mark ps sent s h)
