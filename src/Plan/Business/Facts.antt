-- ===== src/Plan/Business/Facts.antt =====
-- business/domain/plan/planbus/planbus.go: facts about another repository are never passed on.
use sion_backup.Prelude.{◌≡◌, true, ◌⊎◌, inl, inr, refl, Bool-cases, subst, sym}
use sion_backup.Prelude.Text.{Text, text_eq, text_eq_iff}
use sion_backup.Prelude.Result.{Result, ok}
use sion_backup.Prelude.Time.{Time}
use sion_backup.Plan.Measurement.{Measurement}
use sion_backup.Plan.Integrity.{Integrity, failed}
use sion_backup.Plan.Store.{Store, StoreFaults}
use sion_backup.Plan.Business.{measurement, integrity, fresh_measurement, no_integrity, PlanFault}

measurement_describes :
    (f : StoreFaults) (url : Text) (now : Time) (s : Store) (m : Measurement)
    → measurement f url now s ≡ ok m
    → (m.repository_url ≡ url) × ((m ≡ s.measurement) ⊎ (m.measured_at ≡ 0) × (m.since ≡ now))
unfolding measurement
measurement_describes f url now s m h = elim (Bool-cases f.get_measurement) [
  | inl e ↦ cc (simp e at h)
  | inr e ↦ elim (Bool-cases (text_eq s.measurement.repository_url url)) [
    | inl g ↦
        let same : ◌≡◌ {A = Result PlanFault Measurement} (ok s.measurement) (ok m) =
          simp (e, g) at h in
        let found : s.measurement ≡ m = cc in
        subst
          (λ x.
            (x.repository_url ≡ url)
            × ((x ≡ s.measurement) ⊎ (x.measured_at ≡ 0) × (x.since ≡ now)))
          found ((text_eq_iff s.measurement.repository_url url).0 g, inl refl)
    | inr g ↦
        let same : ◌≡◌ {A = Result PlanFault Measurement} (ok (fresh_measurement url now)) (ok m) =
          simp (e, g) at h in
        let found : fresh_measurement url now ≡ m = cc in
        subst
          (λ x.
            (x.repository_url ≡ url)
            × ((x ≡ s.measurement) ⊎ (x.measured_at ≡ 0) × (x.since ≡ now)))
          found (refl, inr (refl, refl))
  ]
]

integrity_describes :
    (f : StoreFaults) (url : Text) (s : Store) (i : Integrity)
    → integrity f url s ≡ ok i
    → failed i ≡ true
    → (i ≡ s.integrity) × (i.repository_url ≡ url)
unfolding integrity
integrity_describes f url s i h broken = elim (Bool-cases f.get_integrity) [
  | inl e ↦ cc (simp e at h)
  | inr e ↦ elim (Bool-cases (text_eq s.integrity.repository_url url)) [
    | inl g ↦
        let same : ◌≡◌ {A = Result PlanFault Integrity} (ok s.integrity) (ok i) =
          simp (e, g) at h in
        let found : s.integrity ≡ i = cc in
        subst (λ x. (x ≡ s.integrity) × (x.repository_url ≡ url)) found
          (refl, (text_eq_iff s.integrity.repository_url url).0 g)
    | inr g ↦
        let same : ◌≡◌ {A = Result PlanFault Integrity} (ok no_integrity) (ok i) =
          simp (e, g) at h in
        let found : no_integrity ≡ i = cc in
        absurd (never (subst (λ x. failed x ≡ true) (sym found) broken))
  ]
]
  where
    never : failed no_integrity ≡ true → ⊥
    never e = unfold failed in cc

-- The figures that Measurement returns for a repository are about it; they are the stored ones,
-- or none taken yet with a history that starts now. A check that Integrity returns as failed is
-- the stored one, and a check of that repository.
pub facts_describe :
    (f : StoreFaults) (url : Text) (now : Time) (s : Store) (m : Measurement) (i : Integrity)
    → measurement f url now s ≡ ok m
    → integrity f url s ≡ ok i
    → (m.repository_url ≡ url)
      × ((m ≡ s.measurement) ⊎ (m.measured_at ≡ 0) × (m.since ≡ now))
      × (failed i ≡ true → (i ≡ s.integrity) × (i.repository_url ≡ url))
facts_describe f url now s m i hm hi =
    let (named, kept) = measurement_describes f url now s m hm in
    (named, kept, integrity_describes f url s i hi)
