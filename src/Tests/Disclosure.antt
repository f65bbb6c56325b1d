-- ===== src/Tests/Disclosure.antt =====
-- The disclosure log at concrete inputs: a chain of two entries, then of three.
use sion_backup.Prelude.{◌*◌, ◌≡◌, refl, arith, inl, true, false, List, [], ◌∷◌, All}
use sion_backup.Prelude.Text.{codes, text_eq}
use sion_backup.Prelude.Time.{Time, second}
use sion_backup.Disclosure.{
  Entry, Witness, enrolled, fetched, revealed, Keep, Log, agrees, check, check_kept, entry_at,
  unlinked, is_zero_witness, wrong,
}
use sion_backup.Disclosure.Heads.{heads, keep_first_all, remember_all, From, remember_refines}
use sion_backup.Disclosure.Honest.{Visit, AllHonest, IsQuiet, visit_all, honest_visits-IsQuiet}
use sion_backup.Disclosure.Tamper.{tampering_shows}
use sion_backup.Disclosure.Agreed.{SameAsFar, from_seq, agreement_proves}

abbrev first : Entry
first = record {
  seq = 1;
  at = second;
  kind = enrolled;
  actor = [];
  from_ip = [];
  credentials_version = 1;
  by_machine = true;
  describe = [];
  detail = [];
  prev_hash = [];
  hash = codes "a";
}

abbrev second_entry : Entry
second_entry = record first { seq = 2; kind = fetched; prev_hash = codes "a"; hash = codes "aa" }

abbrev third : Entry
third = record first {
  seq = 3;
  kind = revealed;
  by_machine = false;
  prev_hash = codes "aa";
  hash = codes "aaa";
}

abbrev visits : List Visit
visits =
    record { added = second_entry ∷ first ∷ []; limit = 1; now = 3 * second }
    ∷ record { added = third ∷ []; limit = 2; now = 9 * second }
    ∷ []

visits-AllHonest : AllHonest [] visits
visits-AllHonest = (
  (refl, refl, (refl, tt, tt)),
  omega arith,
  ((refl, refl, (refl, refl, (refl, tt, tt))), omega arith, tt),
)

honest_visits-IsQuiet_example : All IsQuiet (visit_all [] visits [])
honest_visits-IsQuiet_example = honest_visits-IsQuiet visits visits-AllHonest

-- Two heads, and another one with the count of the first.
abbrev sights : List (Witness × Time)
sights =
    (record { count = 2; hash = codes "aa"; at = second }, 3 * second)
    ∷ (record { count = 3; hash = codes "aaa"; at = second }, 9 * second)
    ∷ (record { count = 2; hash = codes "b"; at = second }, 12 * second)
    ∷ []

remember_refines_example :
    From 0 (remember_all sights [])
    × (heads (remember_all sights []) ≡ keep_first_all sights (heads []))
remember_refines_example = remember_refines sights [] tt

-- The head after the second entry.
abbrev kept_head : Keep
kept_head = record {
  witness = record { count = 2; hash = codes "aa"; at = second };
  seen = 3 * second;
}

abbrev cut_off : Log
cut_off = record { count = 1; head = codes "a"; entries = first ∷ []; chained_since = 0 }

tampering_shows_example : wrong (check cut_off (kept_head ∷ [])).0 ≡ true
unfolding is_zero_witness
tampering_shows_example = tampering_shows cut_off (kept_head ∷ []) (inl (refl, inl (omega arith)))

abbrev before : Log
before = record {
  count = 2;
  head = codes "aa";
  entries = second_entry ∷ first ∷ [];
  chained_since = 0;
}

abbrev after : Log
after = record {
  count = 3;
  head = codes "aaa";
  entries = third ∷ second_entry ∷ first ∷ [];
  chained_since = 0;
}

after_agrees : check after (kept_head ∷ []) ≡ (agrees, kept_head)
unfolding check check_kept entry_at unlinked text_eq is_zero_witness
after_agrees = refl

agreement_proves_example : SameAsFar (from_seq after.entries 2) before.entries
unfolding text_eq unlinked
agreement_proves_example =
    agreement_proves after before (kept_head ∷ []) kept_head second_entry (first ∷ []) after_agrees
      (refl, (refl, tt)) refl (refl, tt)
      (
        (λ e. absurd cc, (λ e. absurd cc, tt)),
        (
          ((λ e. (refl, refl)), (λ e. absurd cc, tt)),
          ((λ e. absurd cc, ((λ e. (refl, refl)), tt)), tt),
        ),
      )
      refl refl refl
