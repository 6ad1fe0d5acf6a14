-- ===== src/Operator/Types.antt =====
-- The specification of a Configuration object as the operator reads it from the cluster:
-- pkg/operator/apis/rusi/v1alpha1/configurationTypes.go. The telemetry and the features have the same
-- fields as in pkg/custom-resource/configuration; a handler has no version.
use rusi.Prelude.{String, List}
use rusi.Configuration.{FeatureSpec}
use rusi.Diagnostics.{TelemetrySpec}

pub record V1HandlerSpec : Type 0 where
  pub name : String
  pub type : String

pub record V1ConfigurationSpec : Type 0 where
  pub subscriber_pipeline : List V1HandlerSpec
  pub publisher_pipeline : List V1HandlerSpec
  pub telemetry : TelemetrySpec
  pub features : List FeatureSpec
  pub pub_sub_name : String
  pub min_runtime_version : String
