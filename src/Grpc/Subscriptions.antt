-- ===== src/Grpc/Subscriptions.antt =====
-- Subscribe, Refresh, getRefreshChan and removeRefreshChan of pkg/api/runtime/grpc/grpc_api.go: the calls
-- of Subscribe by their numbers, which stand for the UUIDs of their subscriptions, and the calls of
-- Refresh, as steps. What a call does between two waits for the lock, for the subscribe handler or in
-- `select` is one step.
pub mod Sound
pub mod Stuck
pub mod Refreshed
use rusi.Prelude.{
  ℕ, zero, suc, ◌+◌, ◌-◌, ◌*◌, ◌/◌, ◌%◌, ◌^◌, ◌≤◌, ◌<◌, String, ◌≡◌, refl, sym, ap, ◌∙◌, subst, ◌≢◌,
  ◌↔◌, ◌⊎◌, inl, inr, Bool, true, false, not, ◌&&◌, ◌||◌, Option, none, some, List, [], ◌∷◌, ◌++◌,
  map, append_assoc, append-nil, arith, ◌==◌, eq_iff, eq_refl, ltb, leb, beq, if◌then◌else◌,
  Bool-cases, Option-cases, length, is_empty, any, length-append, any-append_right, All, All-append,
  Error, Result, ok, err, ◌>>=◌, ◌>>◌, fail_if, Result-cases, >>=-eq-ok,
}
use rusi.Prelude.Int.{ℤ, pos, negsuc, pos_part, neg_part, neg, ltb_ℤ, IsSigned, to_uint64, to_int64}
use rusi.Prelude.Dict.{
  Dict, lookup, insert, delete, lookup-insert, lookup-delete, lookup-empty, dict_laws, get,
}
use rusi.Prelude.Text.{◌⊕◌, single, to_lower, to_lower-append, split, trim_space, replace_char}
use rusi.Prelude.Number.{parse_uint64, parse_int32, parse_int32-IsSigned, parse_uint64-lt, itoa}

pub data Phase : Type 0 where
  -- `stream.Recv`
  receiving : Phase
  -- at the top of the loop, where the subscribe handler is called
  subscribing : Phase
  -- subscribed; getRefreshChan takes the lock
  awaiting_chan : Phase
  -- in `select`
  selecting : Phase
  -- the deferred removeRefreshChan takes the lock
  removing : Option Error → Phase
  returned : Option Error → Phase

-- what `stream.Recv` gives
pub data Received : Type 0 where
  recv_error : Error → Received
  other_message subscription_request : Received

pub record Server : Type 0 where
  pub calls : ℕ → Phase
  pub refresh_channels : List ℕ
  -- the calls of Refresh, which hold the read lock, with the channels that they still have to send on;
  -- the first is the one on which they wait
  pub refreshing : List (List ℕ)
  -- the subscriptions that have not been unsubscribed, by their calls
  pub open_subscriptions : List ℕ

unfoldable pub member : ℕ → List ℕ → Bool
member i [] = false
member i (x ∷ xs) = beq x i || member i xs

-- without the first occurrence
unfoldable pub remove : ℕ → List ℕ → List ℕ
remove i [] = []
remove i (x ∷ xs) = let others = remove i xs in if beq x i then xs else x ∷ others

unfoldable pub count : ℕ → List ℕ → ℕ
count i [] = 0
count i (x ∷ xs) = (if beq x i then 1 else 0) + count i xs

-- an order in which a map's keys may be ranged over
unfoldable pub is_order : List ℕ → List ℕ → Bool
unfolding member remove
is_order [] keys = is_empty keys
is_order (x ∷ xs) keys = let rest = is_order xs (remove x keys) in member x keys && rest

unfoldable pub set_phase : ℕ → Phase → (ℕ → Phase) → ℕ → Phase
set_phase i phase calls j = if beq i j then phase else calls j

-- the error with which a call ends when a context is done
unfoldable pub exit_error : Error → Error
exit_error reason =
    if reason == "context canceled"
    then "rpc error: code = Aborted desc = Cancellation requested"
    else reason

abbrev pub start : Server
start = record {
  calls = λ _. receiving;
  refresh_channels = [];
  refreshing = [];
  open_subscriptions = [];
}

abbrev pub is_receiving : Phase → Bool
is_receiving receiving = true
is_receiving _ = false

abbrev pub is_subscribing : Phase → Bool
is_subscribing subscribing = true
is_subscribing _ = false

abbrev pub is_awaiting_chan : Phase → Bool
is_awaiting_chan awaiting_chan = true
is_awaiting_chan _ = false

abbrev pub is_selecting : Phase → Bool
is_selecting selecting = true
is_selecting _ = false

abbrev pub is_removing : Phase → Bool
is_removing (removing _) = true
is_removing _ = false

-- the error that a call returns when its channel is removed
abbrev pub result_of : Phase → Option Error
result_of (removing e) = e
result_of _ = none

abbrev pub after_recv : Received → Phase
after_recv (recv_error e) = returned (some e)
after_recv other_message = returned (some "invalid subscription request")
after_recv subscription_request = subscribing

pub recv : ℕ → Received → Server → Option Server
unfolding set_phase
recv i message s =
    if is_receiving (s.calls i)
    then some (record s { calls = set_phase i (after_recv message) s.calls })
    else none

-- the subscribe handler returns
pub subscribe : ℕ → Option Error → Server → Option Server
unfolding set_phase
subscribe i failure s =
    if is_subscribing (s.calls i)
    then elim failure [
      | some e ↦ some (record s { calls = set_phase i (removing (some e)) s.calls })
      | none ↦ some (record s {
        calls = set_phase i awaiting_chan s.calls;
        open_subscriptions = i ∷ s.open_subscriptions;
      })
    ]
    else none

-- under the lock, which waits for every call of Refresh
pub get_refresh_chan : ℕ → Server → Option Server
unfolding set_phase member
get_refresh_chan i s =
    if is_awaiting_chan (s.calls i) && is_empty s.refreshing
    then some (record s {
      calls = set_phase i selecting s.calls;
      refresh_channels =
          if member i s.refresh_channels then s.refresh_channels else i ∷ s.refresh_channels;
    })
    else none

-- a context is done in `select`: the subscription is unsubscribed and the loop ends
pub exit : ℕ → Error → Server → Option Server
unfolding set_phase remove exit_error
exit i reason s =
    if is_selecting (s.calls i)
    then some (record s {
      calls = set_phase i (removing (some (exit_error reason))) s.calls;
      open_subscriptions = remove i s.open_subscriptions;
    })
    else none

-- under the lock
pub remove_refresh_chan : ℕ → Server → Option Server
unfolding set_phase remove
remove_refresh_chan i s =
    if is_removing (s.calls i) && is_empty s.refreshing
    then some (record s {
      calls = set_phase i (returned (result_of (s.calls i))) s.calls;
      refresh_channels = remove i s.refresh_channels;
    })
    else none

-- Refresh takes the read lock and ranges over the channels in some order
pub refresh : List ℕ → Server → Option Server
unfolding is_order
refresh order s =
    if is_order order s.refresh_channels
    then some (record s { refreshing = order ∷ s.refreshing })
    else none

-- the call of Refresh with this position, and the others
pub take_refreshing : ℕ → List (List ℕ) → Option (List ℕ × List (List ℕ))
take_refreshing k [] = none
take_refreshing zero (x ∷ xs) = some (x, xs)
take_refreshing (suc k) (x ∷ xs) = elim (take_refreshing k xs) [
  | none ↦ none
  | some (y, left) ↦ some (y, x ∷ left)
]

-- `channel <- true` meets the `select` of the call, which unsubscribes and goes on with its loop
pub signal : ℕ → Server → Option Server
unfolding take_refreshing set_phase remove
signal k s = elim (take_refreshing k s.refreshing) [
  | none ↦ none
  | some ([], others) ↦ none
  | some (i ∷ rest, others) ↦
      if is_selecting (s.calls i)
      then some (record s {
        calls = set_phase i subscribing s.calls;
        refreshing = rest ∷ others;
        open_subscriptions = remove i s.open_subscriptions;
      })
      else none
]

-- Refresh returns and releases the read lock
pub refreshed : ℕ → Server → Option Server
unfolding take_refreshing
refreshed k s = elim (take_refreshing k s.refreshing) [
  | none ↦ none
  | some ([], others) ↦ some (record s { refreshing = others })
  | some (i ∷ rest, others) ↦ none
]

pub data Event : Type 0 where
  received : ℕ → Received → Event
  subscribed : ℕ → Option Error → Event
  got_chan : ℕ → Event
  done : ℕ → Error → Event
  removed : ℕ → Event
  refresh_started : List ℕ → Event
  signalled : ℕ → Event
  refresh_ended : ℕ → Event

unfoldable pub step : Event → Server → Option Server
unfolding recv subscribe get_refresh_chan exit remove_refresh_chan refresh signal refreshed
step (received i message) s = recv i message s
step (subscribed i failure) s = subscribe i failure s
step (got_chan i) s = get_refresh_chan i s
step (done i reason) s = exit i reason s
step (removed i) s = remove_refresh_chan i s
step (refresh_started order) s = refresh order s
step (signalled k) s = signal k s
step (refresh_ended k) s = refreshed k s

pub data Reach (s : Server) : Server → Type 0 where
  here : Reach s s
  next : {t u : Server} (e : Event) → Reach s t → step e t ≡ some u → Reach s u
