-- ===== src/Messaging/Pipeline.antt =====
-- Pipeline of pkg/messaging/pipeline.go. `H` is the type of handlers.
pub mod Laws
use mathlib.Core.List.{reverse}
use rusi.Prelude.{
  ℕ, zero, suc, ◌+◌, ◌-◌, ◌*◌, ◌/◌, ◌%◌, ◌^◌, ◌≤◌, ◌<◌, String, ◌≡◌, refl, sym, ap, ◌∙◌, subst, ◌≢◌,
  ◌↔◌, ◌⊎◌, inl, inr, Bool, true, false, not, ◌&&◌, ◌||◌, Option, none, some, List, [], ◌∷◌, ◌++◌,
  map, append_assoc, append-nil, arith, ◌==◌, eq_iff, eq_refl, ltb, leb, beq, if◌then◌else◌,
  Bool-cases, Option-cases, length, is_empty, any, length-append, any-append_right, All, All-append,
  Error, Result, ok, err, ◌>>=◌, ◌>>◌, fail_if, Result-cases, >>=-eq-ok,
}
use rusi.Prelude.Int.{ℤ, pos, negsuc, pos_part, neg_part, neg, ltb_ℤ, IsSigned, to_uint64, to_int64}
use rusi.Prelude.Dict.{
  Dict, lookup, insert, delete, lookup-insert, lookup-delete, lookup-empty, dict_laws, get,
}
use rusi.Prelude.Text.{◌⊕◌, single, to_lower, to_lower-append, split, trim_space, replace_char}
use rusi.Prelude.Number.{parse_uint64, parse_int32, parse_int32-IsSigned, parse_uint64-lt, itoa}

module _ {H : Type 0} where
  -- the loop from the last index down to the first, over the middlewares from the last on
  pub wrap : List (H → H) → H → H
  wrap [] handler = handler
  wrap (m ∷ ms) handler = wrap ms (m handler)

  unfoldable pub build : List (H → H) → H → H
  unfolding wrap
  build middlewares handler = wrap (reverse middlewares) handler

  unfoldable pub use_middleware : (H → H) → List (H → H) → List (H → H)
  use_middleware middleware middlewares = middlewares ++ middleware ∷ []
