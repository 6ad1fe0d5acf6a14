-- ===== src/Runtime/Config/Laws.antt =====
-- What a configuration that was built has.
use rusi.Prelude.{
  List, [], ◌∷◌, refl, sym, ap, ◌∙◌, subst, inl, inr, Option-cases, String, ◌≡◌, ◌≢◌, ◌↔◌, Option,
  none, arith, eq_iff, Error, ok,
}
use rusi.Prelude.Number.{itoa}
use rusi.Runtime.Config.{
  ConfigBuilder, Config, kubernetes_mode, validate, variables, configured, build, set_env_variables,
}

abbrev pub IsUsable : Config → Type 0
IsUsable c =
    (c.app_id ≢ "") × (c.config ≢ "") × (c.mode ≡ kubernetes_mode → c.control_plane_address ≢ "")

validate-IsUsable : (c : ConfigBuilder) → (validate c ≡ none) ↔ IsUsable (configured c)
unfolding validate
validate-IsUsable c = ground (
  arith,
  eq_iff c.app_id "",
  eq_iff c.config "",
  eq_iff c.mode kubernetes_mode,
  eq_iff c.control_plane_address "",
)

-- the configuration has the builder's values
pub record HasValues (c : ConfigBuilder) (built : Config) : Type 0 where
  pub mode : built.mode ≡ c.mode
  pub rusi_grpc_host : built.rusi_grpc_host ≡ c.rusi_grpc_host
  pub rusi_grpc_port : built.rusi_grpc_port ≡ c.rusi_grpc_port
  pub diagnostics_port : built.diagnostics_port ≡ c.diagnostics_port
  pub enable_metrics : built.enable_metrics ≡ c.enable_metrics
  pub components_path : built.components_path ≡ c.components_path
  pub config : built.config ≡ c.config
  pub control_plane_address : built.control_plane_address ≡ c.control_plane_address
  pub app_id : built.app_id ≡ c.app_id

HasValues-configured : (c : ConfigBuilder) → HasValues c (configured c)
HasValues-configured c = record {
  mode = refl;
  rusi_grpc_host = refl;
  rusi_grpc_port = refl;
  diagnostics_port = refl;
  enable_metrics = refl;
  components_path = refl;
  config = refl;
  control_plane_address = refl;
  app_id = refl;
}

HasValues-eq : (c : ConfigBuilder) (built : Config) → HasValues c built → built ≡ configured c
HasValues-eq c built h = ground (
  arith, h.mode, h.rusi_grpc_host, h.rusi_grpc_port, h.diagnostics_port, h.enable_metrics,
  h.components_path, h.config, h.control_plane_address, h.app_id,
)

module _ {E : Type 0} (setenv : String → String → E → E × Option Error) where
  -- the environment takes the three variables, one after the other
  abbrev pub Takes : ConfigBuilder → E → E → Type 0
  Takes c env env' =
      (env₁ env₂ : E) × (setenv "APP_ID" c.app_id env ≡ (env₁, none))
      × (setenv "RUSI_GRPC_HOST" c.rusi_grpc_host env₁ ≡ (env₂, none))
      × (setenv "RUSI_GRPC_PORT" (itoa c.rusi_grpc_port) env₂ ≡ (env', none))

  set_env_variables-cons :
      (key value : String) (rest : List (String × String)) (env env' : E)
      → (set_env_variables setenv ((key, value) ∷ rest) env ≡ (env', none)) ↔ (
          (next : E) × (setenv key value env ≡ (next, none))
          × (set_env_variables setenv rest next ≡ (env', none)))
  unfolding set_env_variables
  set_env_variables-cons key value rest env env' = (there, back)
    where
      there :
          set_env_variables setenv ((key, value) ∷ rest) env ≡ (env', none)
          → (next : E) × (setenv key value env ≡ (next, none))
            × (set_env_variables setenv rest next ≡ (env', none))
      there h = elim (Option-cases (setenv key value env).1) [
        | inr (e, failed) ↦ absurd (ground (arith, failed, h))
        | inl fine ↦ (
          (setenv key value env).0,
          ap (λ e. ((setenv key value env).0, e)) fine,
          ground (arith, fine, h),
        )
      ]

      back :
          (next : E) × (setenv key value env ≡ (next, none))
            × (set_env_variables setenv rest next ≡ (env', none))
          → set_env_variables setenv ((key, value) ∷ rest) env ≡ (env', none)
      back (next, taken, others) = ground (arith, taken, others)

  set_env_variables-nil :
      (env env' : E) → (set_env_variables setenv [] env ≡ (env', none)) ↔ (env ≡ env')
  unfolding set_env_variables
  set_env_variables-nil env env' = ground arith

  set_env_variables-Takes :
      (c : ConfigBuilder) (env env' : E)
      → (set_env_variables setenv (variables c) env ≡ (env', none)) ↔ Takes c env env'
  set_env_variables-Takes c env env' = (there, back)
    where
      port : List (String × String)
      port = ("RUSI_GRPC_PORT", itoa c.rusi_grpc_port) ∷ []

      there : set_env_variables setenv (variables c) env ≡ (env', none) → Takes c env env'
      there h =
          let (env₁, e₁, h₁) =
            (set_env_variables-cons "APP_ID" c.app_id (("RUSI_GRPC_HOST", c.rusi_grpc_host) ∷ port)
                env env').0
              h in
          let (env₂, e₂, h₂) =
            (set_env_variables-cons "RUSI_GRPC_HOST" c.rusi_grpc_host port env₁ env').0 h₁ in
          let (env₃, e₃, h₃) =
            (set_env_variables-cons "RUSI_GRPC_PORT" (itoa c.rusi_grpc_port) [] env₂ env').0 h₂ in
          let last = (set_env_variables-nil env₃ env').0 h₃ in
          (env₁, env₂, e₁, e₂, e₃ ∙ ap (λ e. (e, none)) last)

      back : Takes c env env' → set_env_variables setenv (variables c) env ≡ (env', none)
      back (env₁, env₂, e₁, e₂, e₃) =
          (set_env_variables-cons "APP_ID" c.app_id (("RUSI_GRPC_HOST", c.rusi_grpc_host) ∷ port)
              env env').1
            (
              env₁,
              e₁,
              (set_env_variables-cons "RUSI_GRPC_HOST" c.rusi_grpc_host port env₁ env').1 (
                env₂,
                e₂,
                (set_env_variables-cons "RUSI_GRPC_PORT" (itoa c.rusi_grpc_port) [] env₂ env').1
                    (env', e₃, (set_env_variables-nil env' env').1 refl),
              ),
            )

  build_steps :
      (c : ConfigBuilder) (env env' : E) (built : Config)
      → (build setenv c env ≡ (env', ok built)) ↔ (
          (validate c ≡ none)
          × (set_env_variables setenv (variables c) env ≡ (env', none))
          × (built ≡ configured c))
  unfolding build
  build_steps c env env' built = (there, back)
    where
      there :
          build setenv c env ≡ (env', ok built)
          → (validate c ≡ none)
            × (set_env_variables setenv (variables c) env ≡ (env', none))
            × (built ≡ configured c)
      there h = elim (Option-cases (validate c)) [
        | inr (e, failed) ↦ absurd (ground (arith, failed, h))
        | inl valid ↦ elim (Option-cases (set_env_variables setenv (variables c) env).1) [
          | inr (e, failed) ↦ absurd (ground (arith, valid, failed, h))
          | inl taken ↦ (valid, ground (arith, valid, taken, h), ground (arith, valid, taken, h))
        ]
      ]

      back :
          (validate c ≡ none)
            × (set_env_variables setenv (variables c) env ≡ (env', none))
            × (built ≡ configured c)
          → build setenv c env ≡ (env', ok built)
      back (valid, taken, same) = ground (arith, valid, taken, same)

  -- A configuration is built exactly when the app's id and the configuration's name are given, in
  -- Kubernetes mode the control plane's address too, and the environment takes the app's id, the host
  -- and the port of gRPC under their names, one after the other; the configuration has the builder's
  -- values, and the environment is then the one that the last of them leaves.
  pub build_iff :
      (c : ConfigBuilder) (env env' : E) (built : Config)
      → (build setenv c env ≡ (env', ok built))
        ↔ (IsUsable built × Takes c env env' × HasValues c built)
  build_iff c env env' built = (there, back)
    where
      there :
          build setenv c env ≡ (env', ok built)
          → IsUsable built × Takes c env env' × HasValues c built
      there h =
          let (valid, taken, same) = (build_steps c env env' built).0 h in
          (
            subst IsUsable (sym same) ((validate-IsUsable c).0 valid),
            (set_env_variables-Takes c env env').0 taken,
            subst (HasValues c) (sym same) (HasValues-configured c),
          )

      back :
          IsUsable built × Takes c env env' × HasValues c built
          → build setenv c env ≡ (env', ok built)
      back (usable, taken, values) =
          let same = HasValues-eq c built values in
          (build_steps c env env' built).1 (
            (validate-IsUsable c).1 (subst IsUsable same usable),
            (set_env_variables-Takes c env env').1 taken,
            same,
          )
