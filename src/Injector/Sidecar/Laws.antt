-- ===== src/Injector/Sidecar/Laws.antt =====
-- What the sidecar container looks like, whatever the annotations of the pod.
use rusi.Prelude.{◌^◌, String, ◌≡◌, refl, Bool, Option, arith, Result}
use rusi.Prelude.Int.{pos, IsSigned}
use rusi.Prelude.Dict.{Dict}
use rusi.Prelude.Text.{◌⊕◌}
use rusi.Injector.Kube.{VolumeMount, Container, Probe}
use rusi.Injector.Annotations.Laws.{get_int32_annotation_or_default-IsSigned}
use rusi.Injector.Sidecar.{sidecar_container, probe}

module _ {Q : Type 0} (parse_quantity : String → Result Q) (must_parse : String → Q)
    (annotations : Dict String)
    (id image image_pull_policy namespace control_plane_address : String)
    (token_volume_mount : Option VolumeMount) (inject_as_init_container : Bool) where
  abbrev the_container : Container Q
  the_container =
      sidecar_container parse_quantity must_parse annotations id image image_pull_policy namespace
        control_plane_address token_volume_mount inject_as_init_container

  pub sidecar_container-name : the_container.name ≡ "rusid"
  unfolding sidecar_container
  sidecar_container-name = refl

pub record ProbeInRange (p : Probe) : Type 0 where
  pub delay : IsSigned (2 ^ 31) p.initial_delay_seconds
  pub timeout : IsSigned (2 ^ 31) p.timeout_seconds
  pub period : IsSigned (2 ^ 31) p.period_seconds
  pub threshold : IsSigned (2 ^ 31) p.failure_threshold

-- Whatever the annotations, the four numbers of a probe are in the range of an int32.
probe-ProbeInRange :
    (annotations : Dict String) (prefix : String) → ProbeInRange (probe annotations prefix)
unfolding probe
probe-ProbeInRange annotations prefix = record {
  delay =
      get_int32_annotation_or_default-IsSigned annotations (prefix ⊕ "-delay-seconds") (pos 3)
        (omega arith);
  timeout =
      get_int32_annotation_or_default-IsSigned annotations (prefix ⊕ "-timeout-seconds") (pos 3)
        (omega arith);
  period =
      get_int32_annotation_or_default-IsSigned annotations (prefix ⊕ "-period-seconds") (pos 15)
        (omega arith);
  threshold =
      get_int32_annotation_or_default-IsSigned annotations (prefix ⊕ "-threshold") (pos 3)
        (omega arith);
}
