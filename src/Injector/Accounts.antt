-- ===== src/Injector/Accounts.antt =====
-- AllowedControllersServiceAccountUID of pkg/injector/injector.go. `get_service_account` asks the
-- Kubernetes API for the UID of a service account.
pub mod Laws
use rusi.Prelude.{
  ℕ, zero, suc, ◌+◌, ◌-◌, ◌*◌, ◌/◌, ◌%◌, ◌^◌, ◌≤◌, ◌<◌, String, ◌≡◌, refl, sym, ap, ◌∙◌, subst, ◌≢◌,
  ◌↔◌, ◌⊎◌, inl, inr, Bool, true, false, not, ◌&&◌, ◌||◌, Option, none, some, List, [], ◌∷◌, ◌++◌,
  map, append_assoc, append-nil, arith, ◌==◌, eq_iff, eq_refl, ltb, leb, beq, if◌then◌else◌,
  Bool-cases, Option-cases, length, is_empty, any, length-append, any-append_right, All, All-append,
  Error, Result, ok, err, ◌>>=◌, ◌>>◌, fail_if, Result-cases,
}
use rusi.Prelude.Int.{ℤ, pos, negsuc, pos_part, neg_part, neg, ltb_ℤ, IsSigned, to_uint64, to_int64}
use rusi.Prelude.Dict.{
  Dict, lookup, insert, delete, lookup-insert, lookup-delete, lookup-empty, dict_laws, get,
}
use rusi.Prelude.Text.{◌⊕◌, single, to_lower, to_lower-append, split, trim_space, replace_char}
use rusi.Prelude.Number.{parse_uint64, parse_int32, parse_int32-IsSigned, parse_uint64-lt, itoa}

abbrev pub allowed_controllers_service_accounts : List String
allowed_controllers_service_accounts =
    "replicaset-controller" ∷ "deployment-controller" ∷ "cronjob-controller" ∷ "job-controller"
    ∷ "statefulset-controller" ∷ "daemon-set-controller" ∷ []

module _ (get_service_account : String → Result String) where
  -- the rounds from index `i` on; the first account is mandatory, and another that is missing is
  -- skipped
  pub collect_uids : ℕ → List String → Result (List String)
  collect_uids i [] = ok []
  collect_uids i (account ∷ accounts) =
      let rest = collect_uids (i + 1) accounts in
      elim (get_service_account account) [
        | err e ↦ if beq i 0 then err e else rest
        | ok uid ↦ (do uids ← rest; ok (uid ∷ uids))
      ]

  pub allowed_controllers_service_account_uid : Result (List String)
  unfolding collect_uids
  allowed_controllers_service_account_uid = collect_uids 0 allowed_controllers_service_accounts
