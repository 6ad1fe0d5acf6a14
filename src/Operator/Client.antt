-- ===== src/Operator/Client.antt =====
-- The watchers of pkg/operator/client.go, whose loops for components and for configurations are the same
-- but for the names: `M` is what a stream brings, `S` a specification.
pub mod Laws
use rusi.Prelude.{
  ℕ, zero, suc, ◌+◌, ◌-◌, ◌*◌, ◌/◌, ◌%◌, ◌^◌, ◌≤◌, ◌<◌, String, ◌≡◌, refl, sym, ap, ◌∙◌, subst, ◌≢◌,
  ◌↔◌, ◌⊎◌, inl, inr, Bool, true, false, not, ◌&&◌, ◌||◌, Option, none, some, List, [], ◌∷◌, ◌++◌,
  map, append_assoc, append-nil, arith, ◌==◌, eq_iff, eq_refl, ltb, leb, beq, if◌then◌else◌,
  Bool-cases, Option-cases, length, is_empty, any, length-append, any-append_right, All, All-append,
  Error, Result, ok, err, ◌>>=◌, ◌>>◌, fail_if, Result-cases, >>=-eq-ok,
}
use rusi.Prelude.Int.{ℤ, pos, negsuc, pos_part, neg_part, neg, ltb_ℤ, IsSigned, to_uint64, to_int64}
use rusi.Prelude.Dict.{
  Dict, lookup, insert, delete, lookup-insert, lookup-delete, lookup-empty, dict_laws, get,
}
use rusi.Prelude.Text.{◌⊕◌, single, to_lower, to_lower-append, split, trim_space, replace_char}
use rusi.Prelude.Number.{parse_uint64, parse_int32, parse_int32-IsSigned, parse_uint64-lt, itoa}

-- a stream by the messages that `Recv` gives before its error; `none` is the nil stream of a call that
-- failed
abbrev pub Stream : Type 0 → Type 0
Stream M = Option (List M)

-- what a round of the outer loop meets: whether the context is done at its start, and else the stream of
-- its end, `stream, _ = client.WatchComponents(ctx, req)`
pub data Round (M : Type 0) : Type 0 where
  ctx_done : Round M
  reconnected : Stream M → Round M

pub data End : Type 0 where
  -- the goroutine has closed its channel and returned
  closed : End
  -- `Recv` of a nil stream
  panicked : End
  -- more rounds follow
  watching : End

module _ {M S : Type 0} (unmarshal : M → S × Option Error) where
  -- the inner loop: the specification of each message goes to the channel, its error to the log
  unfoldable pub received_specs : List M → List S
  received_specs [] = []
  received_specs (msg ∷ rest) = (unmarshal msg).0 ∷ received_specs rest

  -- the goroutine: what it has sent on its channel, and its end
  unfoldable pub watch_loop : Stream M → List (Round M) → List S × End
  unfolding received_specs
  watch_loop stream [] = ([], watching)
  watch_loop stream (ctx_done ∷ rest) = ([], closed)
  watch_loop none (reconnected next ∷ rest) = ([], panicked)
  watch_loop (some messages) (reconnected next ∷ rest) =
      let (later, end) = watch_loop next rest in (received_specs messages ++ later, end)

  -- the function that GetComponentsWatcher and GetConfigurationWatcher return; the stream's error is
  -- returned
  unfoldable pub get_watcher : Result (List M) → List (Round M) → Result (List S × End)
  unfolding watch_loop
  get_watcher (err e) rounds = err e
  get_watcher (ok messages) rounds = ok (watch_loop (some messages) rounds)
