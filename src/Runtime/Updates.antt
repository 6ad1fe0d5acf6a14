-- ===== src/Runtime/Updates.antt =====
-- watchConfigurationUpdates and watchComponentsUpdates of pkg/runtime/runtime.go. `W` is what `Refresh`
-- of the API acts on; its errors are logged. `same` is `reflect.DeepEqual` on configurations `S`.
pub mod Laws
use rusi.Prelude.{
  ℕ, zero, suc, ◌+◌, ◌-◌, ◌*◌, ◌/◌, ◌%◌, ◌^◌, ◌≤◌, ◌<◌, String, ◌≡◌, refl, sym, ap, ◌∙◌, subst, ◌≢◌,
  ◌↔◌, ◌⊎◌, inl, inr, Bool, true, false, not, ◌&&◌, ◌||◌, Option, none, some, List, [], ◌∷◌, ◌++◌,
  map, append_assoc, append-nil, arith, ◌==◌, eq_iff, eq_refl, ltb, leb, beq, if◌then◌else◌,
  Bool-cases, Option-cases, length, is_empty, any, length-append, any-append_right, All, All-append,
  Error, Result, ok, err, ◌>>=◌, ◌>>◌, fail_if, Result-cases, >>=-eq-ok,
}
use rusi.Prelude.Int.{ℤ, pos, negsuc, pos_part, neg_part, neg, ltb_ℤ, IsSigned, to_uint64, to_int64}
use rusi.Prelude.Dict.{
  Dict, lookup, insert, delete, lookup-insert, lookup-delete, lookup-empty, dict_laws, get,
}
use rusi.Prelude.Text.{◌⊕◌, single, to_lower, to_lower-append, split, trim_space, replace_char}
use rusi.Prelude.Number.{parse_uint64, parse_int32, parse_int32-IsSigned, parse_uint64-lt, itoa}
use rusi.Components.{ChangeNotification, Operation, insertion, update}

pub watch_configuration_updates :
    {S W : Type 0} → (S → S → Bool) → (W → W × Option Error) → List S → S → W → S × W
watch_configuration_updates same refresh [] config w = (config, w)
watch_configuration_updates same refresh (new ∷ rest) config w =
    if same config new
    then watch_configuration_updates same refresh rest config w
    else watch_configuration_updates same refresh rest new (refresh w).0

abbrev pub is_update : Operation → Bool
is_update update = true
is_update insertion = false

pub watch_components_updates :
    {W : Type 0} → (W → W × Option Error) → List ChangeNotification → W → W
watch_components_updates refresh [] w = w
watch_components_updates refresh (change ∷ rest) w =
    if is_update change.operation
    then watch_components_updates refresh rest (refresh w).0
    else watch_components_updates refresh rest w
