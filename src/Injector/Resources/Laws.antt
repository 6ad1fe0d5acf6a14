-- ===== src/Injector/Resources/Laws.antt =====
-- What the resource annotations of a pod do to the sidecar's limits and requests.
use rusi.Prelude.{
  String, ◌≡◌, refl, ap, ◌∙◌, inl, inr, not, ◌||◌, Bool-cases, Option-cases, false, Option, none,
  some, [], ◌∷◌, arith, ◌==◌, eq_iff, if◌then◌else◌, is_empty, Result, ok, err, >>=-eq-ok,
}
use rusi.Prelude.Dict.{Dict, lookup, insert, lookup-insert}
use rusi.Injector.Kube.{ResourceRequirements}
use rusi.Injector.Resources.{
  append_quantity_to_resource_list, apply_annotation, default_list, get_resource_requirements,
  rusi_cpu_limit_key, rusi_memory_limit_key, rusi_cpu_request_key, rusi_memory_request_key,
}

-- the quantity that a list holds for a resource: the annotation's, or else what it held
abbrev pub quantity_or :
    {Q : Type 0} → (String → Result Q) → Dict String → String → Option Q → Option Q
quantity_or parse_quantity annotations key held = elim (lookup key annotations) [
  | none ↦ held
  | some quantity ↦ elim (parse_quantity quantity) [ ok q ↦ some q | err _ ↦ held ]
]

module _ {Q : Type 0} (parse_quantity : String → Result Q) (annotations : Dict String) where
  pub lookup-apply_annotation :
      (key name context : String) (list : Dict Q) {list' : Dict Q}
      → apply_annotation parse_quantity annotations key name context list ≡ ok list'
      → (other : String)
      → lookup other list' ≡ (
          if name == other
          then quantity_or parse_quantity annotations key (lookup other list)
          else lookup other list)
  unfolding apply_annotation append_quantity_to_resource_list
  lookup-apply_annotation key name context list {list'} h other =
      grind (arith, lookup-insert, eq_iff)

  -- a list with both resources applied, and what it then holds
  apply_both :
      (cpu_key cpu_context memory_key memory_context : String) (d : Q) (l₁ l₂ : Dict Q)
      → apply_annotation parse_quantity annotations cpu_key "cpu" cpu_context (("memory", d) ∷ [])
        ≡ ok l₁
      → apply_annotation parse_quantity annotations memory_key "memory" memory_context l₁ ≡ ok l₂
      → (lookup "cpu" l₂ ≡ quantity_or parse_quantity annotations cpu_key none)
        × (lookup "memory" l₂ ≡ quantity_or parse_quantity annotations memory_key (some d))
        × (is_empty l₂ ≡ false)
  unfolding lookup
  apply_both cpu_key cpu_context memory_key memory_context d l₁ l₂ e₁ e₂ =
      let first = lookup-apply_annotation cpu_key "cpu" cpu_context (("memory", d) ∷ []) e₁ in
      let second = lookup-apply_annotation memory_key "memory" memory_context l₁ e₂ in
      let held : lookup "memory" l₂ ≡ quantity_or parse_quantity annotations memory_key (some d) =
        ground (arith, second "memory", first "memory") in
      (ground (arith, second "cpu", first "cpu"), held, nonempty l₂ held)
    where
      nonempty :
          (l : Dict Q)
          → lookup "memory" l ≡ quantity_or parse_quantity annotations memory_key (some d)
          → is_empty l ≡ false
      nonempty [] h = ground arith
      nonempty (x ∷ l) h = refl

  abbrev wanted : String → Option Q → Option Q
  wanted = quantity_or parse_quantity annotations

  requirements-inverted :
      (must_parse : String → Q) (r : Option (ResourceRequirements Q))
      → get_resource_requirements parse_quantity must_parse annotations ≡ ok r
      → (rr : ResourceRequirements Q) × (r ≡ some rr)
        × (lookup "cpu" rr.limits ≡ wanted rusi_cpu_limit_key none)
        × (lookup "memory" rr.limits ≡ wanted rusi_memory_limit_key (some (must_parse "512Mi")))
        × (lookup "cpu" rr.requests ≡ wanted rusi_cpu_request_key none)
        × (lookup "memory" rr.requests ≡ wanted rusi_memory_request_key (some (must_parse "20Mi")))
  unfolding get_resource_requirements
  requirements-inverted must_parse r h =
      let (l₁, e₁, h₁) =
        >>=-eq-ok
          (apply_annotation parse_quantity annotations rusi_cpu_limit_key "cpu"
            "error parsing sidecar cpu limit" (default_list parse_quantity must_parse "512Mi"))
          _ h in
      let (l₂, e₂, h₂) =
        >>=-eq-ok
          (apply_annotation parse_quantity annotations rusi_memory_limit_key "memory"
            "error parsing sidecar memory limit" l₁)
          _ h₁ in
      let (r₁, f₁, h₃) =
        >>=-eq-ok
          (apply_annotation parse_quantity annotations rusi_cpu_request_key "cpu"
            "error parsing sidecar cpu request" (default_list parse_quantity must_parse "20Mi"))
          _ h₂ in
      let (r₂, f₂, h₄) =
        >>=-eq-ok
          (apply_annotation parse_quantity annotations rusi_memory_request_key "memory"
            "error parsing sidecar memory request" r₁)
          _ h₃ in
      let (cpu, memory, some_limit) =
        apply_both rusi_cpu_limit_key "error parsing sidecar cpu limit" rusi_memory_limit_key
          "error parsing sidecar memory limit" (must_parse "512Mi") l₁ l₂ e₁ e₂ in
      let (cpu', memory', _) =
        apply_both rusi_cpu_request_key "error parsing sidecar cpu request" rusi_memory_request_key
          "error parsing sidecar memory request" (must_parse "20Mi") r₁ r₂ f₁ f₂ in
      (
        record { limits = l₂; requests = r₂ },
        ground (arith, some_limit, h₄),
        cpu,
        memory,
        cpu',
        memory',
      )

  -- an annotation parses, or is not there
  abbrev pub Parses : String → Type 0
  Parses key =
      (text : String) → lookup key annotations ≡ some text → (q : Q) × (parse_quantity text ≡ ok q)

  apply_annotation-Parses :
      (key name context : String) (list : Dict Q)
      → Parses key
      → (list' : Dict Q) × (apply_annotation parse_quantity annotations key name context list
          ≡ ok list')
  unfolding apply_annotation append_quantity_to_resource_list
  apply_annotation-Parses key name context list h = elim (Option-cases (lookup key annotations)) [
    | inl missing ↦ (list, ground (arith, missing))
    | inr (text, found) ↦
        let (q, parsed) = h text found in (insert name q list, ground (arith, found, parsed))
  ]

  requirements-ok :
      (must_parse : String → Q)
      → Parses rusi_cpu_limit_key
      → Parses rusi_memory_limit_key
      → Parses rusi_cpu_request_key
      → Parses rusi_memory_request_key
      → (r : Option (ResourceRequirements Q)) × (get_resource_requirements parse_quantity must_parse
            annotations
          ≡ ok r)
  unfolding get_resource_requirements
  requirements-ok must_parse cpu_limit memory_limit cpu_request memory_request =
      let (l₁, e₁) =
        apply_annotation-Parses rusi_cpu_limit_key "cpu" "error parsing sidecar cpu limit"
          (default_list parse_quantity must_parse "512Mi") cpu_limit in
      let (l₂, e₂) =
        apply_annotation-Parses rusi_memory_limit_key "memory" "error parsing sidecar memory limit"
          l₁ memory_limit in
      let (r₁, f₁) =
        apply_annotation-Parses rusi_cpu_request_key "cpu" "error parsing sidecar cpu request"
          (default_list parse_quantity must_parse "20Mi") cpu_request in
      let (r₂, f₂) =
        apply_annotation-Parses rusi_memory_request_key "memory"
          "error parsing sidecar memory request" r₁ memory_request in
      elim (Bool-cases (not (is_empty l₂) || not (is_empty r₂))) [
        | inl some_entry ↦ (
          some (record { limits = l₂; requests = r₂ }),
          ground (arith, e₁, e₂, f₁, f₂, some_entry),
        )
        | inr no_entry ↦ (none, ground (arith, e₁, e₂, f₁, f₂, no_entry))
      ]

  -- Where each of the four resource annotations parses or is not there, the sidecar has limits and
  -- requests, and each of the four quantities is the annotation's or else the default: none for the
  -- processor, 512Mi and 20Mi for memory.
  pub get_resource_requirements-exact :
      (must_parse : String → Q)
      → Parses rusi_cpu_limit_key
      → Parses rusi_memory_limit_key
      → Parses rusi_cpu_request_key
      → Parses rusi_memory_request_key
      → (rr : ResourceRequirements Q) × (get_resource_requirements parse_quantity must_parse
            annotations
          ≡ ok (some rr))
        × (lookup "cpu" rr.limits ≡ wanted rusi_cpu_limit_key none)
        × (lookup "memory" rr.limits ≡ wanted rusi_memory_limit_key (some (must_parse "512Mi")))
        × (lookup "cpu" rr.requests ≡ wanted rusi_cpu_request_key none)
        × (lookup "memory" rr.requests ≡ wanted rusi_memory_request_key (some (must_parse "20Mi")))
  get_resource_requirements-exact must_parse cpu_limit memory_limit cpu_request memory_request =
      let (r, made) =
        requirements-ok must_parse cpu_limit memory_limit cpu_request memory_request in
      let (rr, e, cpu, memory, cpu', memory') = requirements-inverted must_parse r made in
      (rr, made ∙ ap ok e, cpu, memory, cpu', memory')
