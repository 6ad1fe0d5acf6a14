-- ===== src/Runtime/Updates/Laws.antt =====
-- When the runtime refreshes the subscriptions.
use rusi.Prelude.{
  ℕ, zero, suc, ◌≡◌, refl, sym, subst, inl, inr, Bool, true, Option, List, [], ◌∷◌, if◌then◌else◌,
  Bool-cases, Error,
}
use rusi.Components.{ChangeNotification}
use rusi.Runtime.Updates.{watch_configuration_updates, watch_components_updates, is_update}

-- the number of configurations that differ from the one before
abbrev pub changes : {S : Type 0} → (S → S → Bool) → List S → S → ℕ
changes same [] config = 0
changes same (new ∷ rest) config =
    let more = changes same rest new in if same config new then more else suc more

abbrev pub last : {S : Type 0} → List S → S → S
last [] config = config
last (new ∷ rest) config = last rest new

abbrev pub updates : List ChangeNotification → ℕ
updates [] = 0
updates (change ∷ rest) =
    let more = updates rest in if is_update change.operation then suc more else more

module _ {W : Type 0} (refresh : W → W × Option Error) where
  abbrev pub refreshed : ℕ → W → W
  refreshed zero w = w
  refreshed (suc n) w = refreshed n (refresh w).0

  -- The subscriptions are refreshed once for each component that is updated, and not for one that is
  -- new.
  pub watch_components_updates_lem :
      (notifications : List ChangeNotification) (w : W)
      → watch_components_updates refresh notifications w ≡ refreshed (updates notifications) w
  unfolding watch_components_updates
  watch_components_updates_lem [] w = refl
  watch_components_updates_lem (change ∷ rest) w = elim (Bool-cases (is_update change.operation)) [
    | inl updated ↦ rw updated (watch_components_updates_lem rest (refresh w).0)
    | inr other ↦ rw other (watch_components_updates_lem rest w)
  ]

  module _ {S : Type 0} (same : S → S → Bool) where
    -- Where `same` holds of equal configurations only, the runtime has in the end the last configuration,
    -- and has refreshed the subscriptions once for each configuration that differs from the one before.
    watch_configuration_updates_lem :
        (all : List S) (config : S) (w : W)
        → ((a b : S) → same a b ≡ true → a ≡ b)
        → watch_configuration_updates same refresh all config w
          ≡ (last all config, refreshed (changes same all config) w)
    unfolding watch_configuration_updates
    watch_configuration_updates_lem [] config w h = refl
    watch_configuration_updates_lem (new ∷ rest) config w h = elim (Bool-cases (same config new)) [
      | inl equal ↦
          let e : config ≡ new = h config new equal in
          rw equal (
            subst
              (λ c.
                watch_configuration_updates same refresh rest c w
                ≡ (last rest new, refreshed (changes same rest new) w))
              (sym e) (watch_configuration_updates_lem rest new w h))
      | inr differ ↦ rw differ (watch_configuration_updates_lem rest new (refresh w).0 h)
    ]
