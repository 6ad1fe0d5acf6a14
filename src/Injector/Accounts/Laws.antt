-- ===== src/Injector/Accounts/Laws.antt =====
-- Which accounts are allowed.
use rusi.Prelude.{ℕ, suc, ◌+◌, String, ◌≡◌, refl, List, [], ◌∷◌, arith, Result, ok, err}
use rusi.Injector.Accounts.{
  collect_uids, allowed_controllers_service_account_uid, allowed_controllers_service_accounts,
}

module _ (get_service_account : String → Result String) where
  -- the UIDs of the accounts that are there
  abbrev pub known_uids : List String → List String
  known_uids [] = []
  known_uids (account ∷ accounts) = elim (get_service_account account) [
    | err _ ↦ known_uids accounts
    | ok uid ↦ uid ∷ known_uids accounts
  ]

  collect_uids-suc :
      (i : ℕ) (accounts : List String)
      → collect_uids get_service_account (suc i) accounts ≡ ok (known_uids accounts)
  unfolding collect_uids
  collect_uids-suc i [] = refl
  collect_uids-suc i (account ∷ accounts) = ground (arith, collect_uids-suc (i + 1) accounts)

  collect_uids-zero :
      (account : String) (accounts : List String)
      → collect_uids get_service_account 0 (account ∷ accounts)
        ≡ elim (get_service_account account) [
          | err e ↦ err e
          | ok _ ↦ ok (known_uids (account ∷ accounts))
        ]
  unfolding collect_uids
  collect_uids-zero account accounts = ground (arith, collect_uids-suc 0 accounts)

  -- The list of allowed callers fails exactly when the replica set controller's account is missing, and
  -- holds the UIDs of all accounts that are there otherwise.
  allowed_controllers_service_account_uid_lem :
      allowed_controllers_service_account_uid get_service_account
      ≡ elim (get_service_account "replicaset-controller") [
        | err e ↦ err e
        | ok _ ↦ ok (known_uids allowed_controllers_service_accounts)
      ]
  unfolding allowed_controllers_service_account_uid
  allowed_controllers_service_account_uid_lem = collect_uids-zero "replicaset-controller" (
      "deployment-controller" ∷ "cronjob-controller" ∷ "job-controller" ∷ "statefulset-controller"
      ∷ "daemon-set-controller" ∷ [])
