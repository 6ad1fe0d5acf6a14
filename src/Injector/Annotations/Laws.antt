-- ===== src/Injector/Annotations/Laws.antt =====
-- Ranges and defaults of the annotation readers.
use rusi.Prelude.{◌^◌, String, ◌≢◌, arith, eq_iff}
use rusi.Prelude.Int.{ℤ, IsSigned}
use rusi.Prelude.Dict.{Dict}
use rusi.Prelude.Number.{parse_int32-IsSigned}
use rusi.Injector.Annotations.{get_int32_annotation_or_default, get_string_annotation_or_default}

-- Whatever the annotations, a number that is read from them is in the range of an int32 when the
-- default is.
pub get_int32_annotation_or_default-IsSigned :
    (annotations : Dict String) (key : String) (default_value : ℤ)
    → IsSigned (2 ^ 31) default_value
    → IsSigned (2 ^ 31) (get_int32_annotation_or_default annotations key default_value)
unfolding get_int32_annotation_or_default
get_int32_annotation_or_default-IsSigned annotations key default_value h =
    grind (arith, parse_int32-IsSigned)

-- A text that is read is empty only if the default is.
pub get_string_annotation_or_default-ne-empty :
    (annotations : Dict String) (key default_value : String)
    → default_value ≢ ""
    → get_string_annotation_or_default annotations key default_value ≢ ""
unfolding get_string_annotation_or_default
get_string_annotation_or_default-ne-empty annotations key default_value h = grind (arith, eq_iff)
