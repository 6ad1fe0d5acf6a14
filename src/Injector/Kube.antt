-- ===== src/Injector/Kube.antt =====
-- The Kubernetes objects that pkg/injector/pod_patch.go reads and builds: the fields that it names.
-- `Q` is the type of resource quantities, which belongs to k8s.io/apimachinery.
use rusi.Prelude.{String, Option, List, Bool}
use rusi.Prelude.Int.{ℤ}
use rusi.Prelude.Dict.{Dict}

pub record EnvVar : Type 0 where
  pub name : String
  pub value : String

pub record VolumeMount : Type 0 where
  pub name : String
  pub mount_path : String

pub record ContainerPort : Type 0 where
  pub name : String
  pub container_port : ℤ

-- HTTPGet of the probe handler, and the probe's numbers
pub record Probe : Type 0 where
  pub path : String
  pub port : ℤ
  pub initial_delay_seconds : ℤ
  pub timeout_seconds : ℤ
  pub period_seconds : ℤ
  pub failure_threshold : ℤ

pub record ResourceRequirements (Q : Type 0) : Type 0 where
  pub limits : Dict Q
  pub requests : Dict Q

pub data PullPolicy : Type 0 where
  always never if_not_present : PullPolicy

pub record Container (Q : Type 0) : Type 0 where
  pub name : String
  pub image : String
  pub image_pull_policy : Option PullPolicy
  pub allow_privilege_escalation : Option Bool
  pub ports : List ContainerPort
  pub command : List String
  pub env : List EnvVar
  pub args : List String
  pub readiness_probe : Option Probe
  pub liveness_probe : Option Probe
  pub restart_policy : Option String
  pub volume_mounts : List VolumeMount
  pub resources : Option (ResourceRequirements Q)

pub record Pod (Q : Type 0) : Type 0 where
  pub name : String
  pub labels : Option (Dict String)
  pub annotations : Dict String
  pub containers : List (Container Q)
  pub init_containers : List (Container Q)

-- `Value interface{}` of a patch operation, by what the code puts there
pub data PatchValue (Q : Type 0) : Type 0 where
  containers : List (Container Q) → PatchValue Q
  container : Container Q → PatchValue Q
  text : String → PatchValue Q
  envs : List EnvVar → PatchValue Q
  env : EnvVar → PatchValue Q

pub record PatchOperation (Q : Type 0) : Type 0 where
  pub op : String
  pub path : String
  pub value : PatchValue Q
