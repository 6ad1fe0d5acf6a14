-- ===== src/Components/Manager/Health.antt =====
-- When the manager is healthy.
use rusi.Prelude.{
  ◌≡◌, refl, ◌≢◌, ◌↔◌, inl, inr, true, false, Option, none, some, [], ◌∷◌, arith, if◌then◌else◌,
  Option-cases, is_empty, All,
}
use rusi.Prelude.Dict.{Dict}
use rusi.Messaging.{HealthResult, HealthStatus, unhealthy, degraded, healthy, healthy_result}
use rusi.Components.Manager.{PubSubs, Manager, is_healthy_status, first_unhealthy, is_healthy}

module _ {P : Type 0} (pub_subs : PubSubs P) where
  -- a pub-sub that is no health checker counts as healthy
  abbrev pub IsWell : P → Type 0
  IsWell ps = elim (pub_subs.is_healthy ps) [ none ↦ Unit {0} | some r ↦ r.status ≡ healthy ]

  status_iff : (s : HealthStatus) → (is_healthy_status s ≡ true) ↔ (s ≡ healthy)
  status_iff unhealthy = ground arith
  status_iff degraded = ground arith
  status_iff healthy = ground arith

  first_unhealthy-eq-none_iff :
      (instances : Dict P)
      → (first_unhealthy pub_subs instances ≡ none) ↔ All (λ entry. IsWell entry.1) instances
  unfolding first_unhealthy
  first_unhealthy-eq-none_iff [] = ground arith
  first_unhealthy-eq-none_iff ((name, ps) ∷ rest) =
      let ih = first_unhealthy-eq-none_iff rest in
      elim (Option-cases (pub_subs.is_healthy ps)) [
        | inl unchecked ↦ ground (arith, unchecked, ih)
        | inr (r, checked) ↦ ground (arith, checked, ih, status_iff r.status)
      ]

  first_unhealthy_lem :
      (instances : Dict P) (r : HealthResult)
      → first_unhealthy pub_subs instances ≡ some r
      → is_healthy_status r.status ≡ false
  unfolding first_unhealthy
  first_unhealthy_lem [] r found = ground arith
  first_unhealthy_lem ((name, ps) ∷ rest) r found =
      let ih = first_unhealthy_lem rest r in
      elim (Option-cases (pub_subs.is_healthy ps)) [
        | inl unchecked ↦ ground (arith, unchecked, ih, found)
        | inr (s, checked) ↦ ground (arith, checked, ih, found)
      ]

  abbrev report : Option HealthResult → Dict P → HealthResult
  report (some r) instances = r
  report none [] = record { status = unhealthy; description = "no pubsub instance created yet" }
  report none (_ ∷ _) = healthy_result

  report_iff :
      (o : Option HealthResult) (instances : Dict P)
      → ((r : HealthResult) → o ≡ some r → is_healthy_status r.status ≡ false)
      → ((report o instances).status ≡ healthy) ↔ ((instances ≢ []) × (o ≡ none))
  report_iff none [] h = ground arith
  report_iff none (x ∷ xs) h = ground arith
  report_iff (some r) xs h = ground (arith, h r refl, status_iff r.status)

module _ {P M : Type 0} (pub_subs : PubSubs P) where
  is_healthy-eq-report :
      (m : Manager P M)
      → is_healthy pub_subs m
        ≡ report pub_subs (first_unhealthy pub_subs m.pub_sub_instances) m.pub_sub_instances
  unfolding is_healthy
  is_healthy-eq-report m = go (first_unhealthy pub_subs m.pub_sub_instances) m.pub_sub_instances
    where
      go :
          (o : Option HealthResult) (instances : Dict P)
          → elim o as (λ _. HealthResult) [
            | some r ↦ r
            | none ↦
                if is_empty instances
                then record { status = unhealthy; description = "no pubsub instance created yet" }
                else healthy_result
          ]
            ≡ report pub_subs o instances
      go (some r) instances = refl
      go none [] = refl
      go none (_ ∷ _) = refl

  -- The manager is healthy exactly when it has a pub-sub and all its pub-subs that check their health are
  -- healthy.
  is_healthy_iff :
      (m : Manager P M)
      → ((is_healthy pub_subs m).status ≡ healthy)
        ↔ ((m.pub_sub_instances ≢ []) × All (λ entry. IsWell pub_subs entry.1) m.pub_sub_instances)
  is_healthy_iff m =
      let instances = m.pub_sub_instances in
      let checked = first_unhealthy pub_subs instances in
      let reported =
        report_iff pub_subs checked instances (first_unhealthy_lem pub_subs instances) in
      let wells = first_unhealthy-eq-none_iff pub_subs instances in
      rw (is_healthy-eq-report m)
        (λ h. ((reported.0 h).0, wells.0 (reported.0 h).1), λ h. reported.1 (h.0, wells.1 h.1))
