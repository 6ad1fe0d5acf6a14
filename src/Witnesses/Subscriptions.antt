-- ===== src/Witnesses/Subscriptions.antt =====
-- A call of Subscribe that is refreshed.
use rusi.Prelude.{ℕ, ◌≡◌, refl, true, none, some, [], ◌∷◌, arith}
use rusi.Grpc.Subscriptions.{
  Server, start, step, Reach, here, next, received, subscription_request, subscribed, got_chan,
  set_phase, subscribing, awaiting_chan, selecting, receiving, member, refresh_started, is_order,
  remove, is_selecting,
}
use rusi.Grpc.Subscriptions.Sound.{IsSound, Reach-IsSound}
use rusi.Grpc.Subscriptions.Stuck.{IsStuck, IsFrozen, refresh_deadlock}
use rusi.Grpc.Subscriptions.Refreshed.{run, rest_of_refresh, IsRefreshed, refresh-IsRefreshed}

abbrev subscribes : Server
subscribes = record start { calls = set_phase 0 subscribing (λ _. receiving) }

abbrev awaits : Server
awaits = record start {
  calls = set_phase 0 awaiting_chan (set_phase 0 subscribing (λ _. receiving));
  open_subscriptions = 0 ∷ [];
}

abbrev selects : Server
selects = record awaits {
  calls =
      set_phase 0 selecting (set_phase 0 awaiting_chan (set_phase 0 subscribing (λ _. receiving)));
  refresh_channels = 0 ∷ [];
}

selects-Reach : Reach start selects
unfolding step set_phase member
selects-Reach =
    next {t = awaits} (got_chan 0)
      (next {t = subscribes} (subscribed 0 none) (next (received 0 subscription_request) here refl)
        refl)
      refl

Reach-IsSound_example : IsSound 0 selects
Reach-IsSound_example = Reach-IsSound 0 selects selects-Reach

refresh_deadlock_example :
    (s : Server) × Reach start s × ((t : Server) → Reach s t → IsStuck 0 t × IsFrozen s t)
refresh_deadlock_example = refresh_deadlock 0

only_one : (i : ℕ) → member i (0 ∷ []) ≡ true → is_selecting (selects.calls i) ≡ true
unfolding member set_phase
only_one i h = ground (arith, h)

refresh-IsRefreshed_example :
    (t : Server) × (run (refresh_started (0 ∷ []) ∷ rest_of_refresh (0 ∷ [])) selects ≡ some t)
    × IsRefreshed (0 ∷ []) selects t
unfolding is_order member remove
refresh-IsRefreshed_example = refresh-IsRefreshed (0 ∷ []) selects selects-Reach refl refl only_one
