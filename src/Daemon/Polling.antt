-- ===== src/Daemon/Polling.antt =====
-- cmd/sion-backup/rotate.go: pollState, which asks the server about this machine every six hours.
use sion_backup.Prelude.{
  Bool, true, List, [], ◌∷◌, not, ◌&&◌, if◌then◌else◌, ◌≡◌, refl, inl, inr, ap, ◌∙◌, arith,
  Bool-cases,
}
use sion_backup.Prelude.Text.{Text}
use sion_backup.Prelude.Result.{Result, ok, err}
use sion_backup.Prelude.Time.{Time}
use sion_backup.Plan.Machine.{MachineState}
use sion_backup.Plan.Store.{Store, StoreFaults}
use sion_backup.Plan.Business.{record_machine_state, record_state_failure}
use sion_backup.Server.{State, ServerError, state, usable}

unfoldable pub machine_state_from : State → Time → MachineState
machine_state_from s now = record {
  asked_at = now;
  node_id = s.node_id;
  owner_name = s.owner_name;
  owner_email = s.owner_email;
  bucket = record {
    url = s.repository_url;
    created_at = s.repository_created_at;
    state = s.repository_state;
    adopted = s.repository_adopted;
  };
  offer = s.offer;
  card = s.card;
  failure = [];
}

-- `sentence`: the text of an error.
abbrev pub heard :
    StoreFaults → (ServerError → Text) → Time → Store → Result ServerError State → Store
heard f sentence now s (err e) = (record_state_failure f (sentence e) s).0
heard f sentence now s (ok x) = (record_machine_state f (machine_state_from x now) s).0

unfoldable pub poll_state :
    StoreFaults → (ServerError → Text) → Bool → Result Text State → Time → Store → Store
poll_state f sentence available answer now s =
    if available then heard f sentence now s (state available answer) else s

-- One round: how the store's calls end, whether there is a source, what it answers, and when.
pub record Round : Type 0 where
  pub faults : StoreFaults
  pub available : Bool
  pub answer : Result Text State
  pub now : Time

unfoldable pub poll_all : (ServerError → Text) → List Round → Store → Store
poll_all sentence [] s = s
poll_all sentence (r ∷ rs) s =
    poll_all sentence rs (poll_state r.faults sentence r.available r.answer r.now s)

-- What the server said, without the note of a failure since.
abbrev pub facts : MachineState → MachineState
facts m = record m { failure = [] }

abbrev pub usable_answer : Result Text State → Time → MachineState → MachineState
usable_answer (err e) now m = m
usable_answer (ok x) now m = if usable x then machine_state_from x now else m

-- The facts after a round: those of a usable answer that could be stored, or the ones from before.
abbrev pub facts_after : Round → MachineState → MachineState
facts_after r m =
    if r.available && not r.faults.put_machine_state then usable_answer r.answer r.now m else m

unfoldable pub latest : List Round → MachineState → MachineState
latest [] m = m
latest (r ∷ rs) m = latest rs (facts_after r m)

-- The rest of the store is as it was.
abbrev pub SameRest : Store → Store → Type 0
SameRest s t =
    (t.plan ≡ s.plan)
    × (t.seeded ≡ s.seeded)
    × (t.measurement ≡ s.measurement)
    × (t.integrity ≡ s.integrity)

heard-facts :
    (f : StoreFaults) (sentence : ServerError → Text) (r : Result Text State) (now : Time)
    (s : Store)
    → facts (heard f sentence now s (state true r)).machine_state ≡ (
        if not f.put_machine_state
        then usable_answer r now (facts s.machine_state)
        else facts s.machine_state)
unfolding state record_state_failure record_machine_state machine_state_from
heard-facts f sentence (err e) now s = elim (Bool-cases f.put_machine_state) [
  | inl e ↦ ground arith
  | inr e ↦ ground arith
]
heard-facts f sentence (ok x) now s = elim (Bool-cases (usable x)) [
  | inl e ↦ ground arith
  | inr e ↦ ground arith
]

heard-SameRest :
    (f : StoreFaults) (sentence : ServerError → Text) (r : Result ServerError State) (now : Time)
    (s : Store)
    → SameRest s (heard f sentence now s r)
unfolding record_state_failure record_machine_state
heard-SameRest f sentence (err e) now s = ground arith
heard-SameRest f sentence (ok x) now s = ground arith

poll_state-facts :
    (sentence : ServerError → Text) (r : Round) (s : Store)
    → facts (poll_state r.faults sentence r.available r.answer r.now s).machine_state
      ≡ facts_after r (facts s.machine_state)
unfolding poll_state
poll_state-facts sentence r s = elim (Bool-cases r.available) [
  | inl e ↦ simp e (heard-facts r.faults sentence r.answer r.now s)
  | inr e ↦ simp e refl
]

poll_state-SameRest :
    (sentence : ServerError → Text) (r : Round) (s : Store)
    → SameRest s (poll_state r.faults sentence r.available r.answer r.now s)
unfolding poll_state
poll_state-SameRest sentence r s = elim (Bool-cases r.available) [
  | inl e ↦ simp e (heard-SameRest r.faults sentence (state true r.answer) r.now s)
  | inr e ↦ simp e (refl, refl, refl, refl)
]

SameRest-trans : (a b c : Store) → SameRest a b → SameRest b c → SameRest a c
SameRest-trans a b c (p, q, r, s) (p', q', r', s') = (p' ∙ p, q' ∙ q, r' ∙ r, s' ∙ s)

-- Whatever rounds of asking the server there have been: what the store holds of this machine is what the
-- server said last in an answer that named a node and a repository and could be stored, and else what
-- was known before, so that a server that cannot be reached makes the machine forget nothing; and the
-- plan, its seeding, the measurement and the last check are as they were.
pub poll_all-latest :
    (sentence : ServerError → Text) (rs : List Round) (s : Store)
    → (facts (poll_all sentence rs s).machine_state ≡ latest rs (facts s.machine_state))
      × SameRest s (poll_all sentence rs s)
unfolding poll_all latest
poll_all-latest sentence [] s = (refl, (refl, refl, refl, refl))
poll_all-latest sentence (r ∷ rs) s =
    let t = poll_state r.faults sentence r.available r.answer r.now s in
    let (e, k) = poll_all-latest sentence rs t in
    (
      e ∙ ap (latest rs) (poll_state-facts sentence r s),
      SameRest-trans s t (poll_all sentence rs t) (poll_state-SameRest sentence r s) k,
    )
