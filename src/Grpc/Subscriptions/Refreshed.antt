-- ===== src/Grpc/Subscriptions/Refreshed.antt =====
-- A call of Refresh that finds every call of Subscribe in its `select`.
use rusi.Prelude.{
  ℕ, ◌≤◌, ◌≡◌, refl, ◌∙◌, true, false, Option, none, some, List, [], ◌∷◌, arith, beq, if◌then◌else◌,
}
use rusi.Grpc.Subscriptions.{
  Phase, receiving, subscribing, awaiting_chan, selecting, removing, returned, Server, member,
  remove, count, is_order, set_phase, start, is_selecting, refresh, take_refreshing, signal,
  refreshed, Event, refresh_started, signalled, refresh_ended, step, Reach,
}
use rusi.Grpc.Subscriptions.Sound.{Reach-IsSound, member-count, count-is_order, most}

-- the steps of a call of Refresh that has these channels left
abbrev pub rest_of_refresh : List ℕ → List Event
rest_of_refresh [] = refresh_ended 0 ∷ []
rest_of_refresh (_ ∷ order) = signalled 0 ∷ rest_of_refresh order

pub run : List Event → Server → Option Server
run [] s = some s
run (e ∷ es) s = elim (step e s) [ none ↦ none | some t ↦ run es t ]

pub record IsRefreshed (order : List ℕ) (s t : Server) : Type 0 where
  pub ended : t.refreshing ≡ []
  pub same_channels : t.refresh_channels ≡ s.refresh_channels
  -- the calls in the map subscribe again, the others go on as they were
  pub subscribes : (i : ℕ) → t.calls i ≡ (if member i order then subscribing else s.calls i)

all_selecting_tail :
    (x i : ℕ) (order : List ℕ) (s : Server)
    → count i (x ∷ order) ≤ 1
    → (member i (x ∷ order) ≡ true → is_selecting (s.calls i) ≡ true)
    → member i order ≡ true
    → is_selecting (set_phase x subscribing s.calls i) ≡ true
unfolding count member set_phase
all_selecting_tail x i order s once h m =
    let c = member-count i order in
    let other : beq x i ≡ false = ground (arith, once, m, c) in
    let there : member i (x ∷ order) ≡ true = ground (arith, m) in ground (arith, other, h there)

count_tail : (i x : ℕ) (order : List ℕ) → count i order ≤ count i (x ∷ order)
unfolding count
count_tail i x order = omega arith

member_head : (x : ℕ) (order : List ℕ) → member x (x ∷ order) ≡ true
unfolding member
member_head x order = ground arith

signal-suc :
    (x : ℕ) (order : List ℕ) (s : Server)
    → s.refreshing ≡ (x ∷ order) ∷ []
    → is_selecting (s.calls x) ≡ true
    → step (signalled 0) s
      ≡ some (record s {
        calls = set_phase x subscribing s.calls;
        refreshing = order ∷ [];
        open_subscriptions = remove x s.open_subscriptions;
      })
unfolding step signal take_refreshing
signal-suc x order s w h = ground (arith, w, h)

subscribes_tail :
    (x i : ℕ) (order : List ℕ) (calls : ℕ → Phase)
    → (if member i order then subscribing else set_phase x subscribing calls i)
      ≡ (if member i (x ∷ order) then subscribing else calls i)
unfolding member set_phase
subscribes_tail x i order calls = ground arith

last :
    (s : Server)
    → s.refreshing ≡ [] ∷ []
    → step (refresh_ended 0) s ≡ some (record s { refreshing = [] })
unfolding step refreshed take_refreshing
last s w = ground (arith, w)

none_there : (i : ℕ) (s : Server) → s.calls i ≡ (if member i [] then subscribing else s.calls i)
unfolding member
none_there i s = refl

refresh-step :
    (order : List ℕ) (s : Server)
    → s.refreshing ≡ []
    → is_order order s.refresh_channels ≡ true
    → step (refresh_started order) s ≡ some (record s { refreshing = order ∷ [] })
unfolding step refresh
refresh-step order s idle all = ground (arith, idle, all)

most_one : (p : Phase) → most p ≤ 1
most_one receiving = omega arith
most_one subscribing = omega arith
most_one awaiting_chan = omega arith
most_one selecting = omega arith
most_one (removing _) = omega arith
most_one (returned _) = omega arith

at_most_once :
    (order : List ℕ) (s : Server)
    → Reach start s
    → is_order order s.refresh_channels ≡ true
    → (i : ℕ) → count i order ≤ 1
at_most_once order s r all i =
    let sound = Reach-IsSound i s r in
    omega
      (arith, count-is_order i order s.refresh_channels all, sound.at_most, most_one (s.calls i))

rest_of_refresh-IsRefreshed :
    (order : List ℕ) (s : Server)
    → s.refreshing ≡ order ∷ []
    → ((i : ℕ) → count i order ≤ 1)
    → ((i : ℕ) → member i order ≡ true → is_selecting (s.calls i) ≡ true)
    → (t : Server) × (run (rest_of_refresh order) s ≡ some t) × IsRefreshed order s t
unfolding run
rest_of_refresh-IsRefreshed [] s w once h = (
  record s { refreshing = [] },
  ground (arith, last s w),
  record { ended = refl; same_channels = refl; subscribes = λ i. none_there i s },
)
rest_of_refresh-IsRefreshed (x ∷ order) s w once h =
    let s' : Server = record s {
      calls = set_phase x subscribing s.calls;
      refreshing = order ∷ [];
      open_subscriptions = remove x s.open_subscriptions;
    } in
    let (t, ran, finishes) =
      rest_of_refresh-IsRefreshed order s' refl (λ i. omega (arith, once i, count_tail i x order))
        (λ i m. all_selecting_tail x i order s (once i) (h i) m) in
    (
      t,
      ground (arith, signal-suc x order s w (h x (member_head x order)), ran),
      record {
        ended = finishes.ended;
        same_channels = finishes.same_channels;
        subscribes = λ i. finishes.subscribes i ∙ subscribes_tail x i order s.calls;
      },
    )

-- When no other call of Refresh is under way and every call of Subscribe that has a channel waits in its
-- `select`, Refresh signals them one after the other, in whatever order the map gives, and returns; each
-- of them then subscribes again, and no other call is touched.
pub refresh-IsRefreshed :
    (order : List ℕ) (s : Server)
    → Reach start s
    → s.refreshing ≡ []
    → is_order order s.refresh_channels ≡ true
    → ((i : ℕ) → member i order ≡ true → is_selecting (s.calls i) ≡ true)
    → (t : Server) × (run (refresh_started order ∷ rest_of_refresh order) s ≡ some t)
      × IsRefreshed order s t
unfolding run
refresh-IsRefreshed order s r idle all h =
    let s' : Server = record s { refreshing = order ∷ [] } in
    let (t, ran, finishes) =
      rest_of_refresh-IsRefreshed order s' refl (at_most_once order s r all) h in
    (
      t,
      ground (arith, refresh-step order s idle all, ran),
      record {
        ended = finishes.ended;
        same_channels = finishes.same_channels;
        subscribes = finishes.subscribes;
      },
    )
