-- ===== src/Transfer/Service/Gate.antt =====
-- What reaches the store through `Service.Create` of internal/transfer/service.go, and what does not.
use nex_drop.Prelude.{
  ℕ, ◌≤◌, ◌≡◌, ◌≢◌, ◌↔◌, ◌⊎◌, inl, inr, refl, ap, String, false, List, [], ◌∷◌, map, All, any, none,
  length, ◌==◌, arith, String,
}
use nex_drop.Prelude.Result.{Result, ok, err}
use nex_drop.Version.{current_limits}
use nex_drop.Transfer.Types.{Error, Request, Prepared, Transfer, Session}
use nex_drop.Transfer.Validate.Spec.{WellFormed, validate_request_iff}
use nex_drop.Transfer.Prepare.{prepare}
use nex_drop.Transfer.Service.{Store, route_selection, Outcome, is_ok, admit, create}

has_keys :
    (keys : String → List ℕ) (ids : List String)
    → (any (λ id. length (keys id) == 0) ids ≡ false) ↔ All (λ id. keys id ≢ []) ids
has_keys keys [] = (λ _. tt, λ _. refl)
has_keys keys (id ∷ ids) =
    let (to, back) = has_keys keys ids in
    (λ h. (ground arith, to (ground arith)), λ h. ground (arith, h.0, back h.1))

module _ {W : Type 0} (store : Store W) (fingerprint : Request → List ℕ) where
  -- The conditions on a request for the listed devices to receive it.
  pub record Admitted (w : W) (session : Session) (r : Request) (ids : List String) : Type 0 where
    pub device : session.device_id ≢ none
    pub well_formed : WellFormed r
    pub resolved :
        store.resolve_transfer_targets w session r.target_type r.group_id r.target_device_ids
        ≡ ok ids
    pub some_targets : ids ≢ []
    pub few_targets : length ids ≤ current_limits.max_recipients
    pub keys : All (λ id. r.wrapped_content_keys id ≢ []) ids

  module _ (w : W) (session : Session) (r : Request) (now : ℕ) where
    abbrev prepared_for : List String → Prepared
    prepared_for ids = prepare r ids now (fingerprint (record r { idempotency_key = "" }))

    -- What the store is called with, and what is recorded.
    abbrev pub stored : List String → Outcome W Transfer
    stored ids =
        let (result, w') = store.create_transfer w session (prepared_for ids) in
        (
          result,
          w',
          map (λ t. route_selection t.selected_route (is_ok result)) (prepared_for ids).targets,
        )

    admit-Admitted :
        (ids : List String)
        → Admitted w session r ids
        → admit store fingerprint w session r now ≡ ok (prepared_for ids)
    unfolding admit
    admit-Admitted ids a = ground (
      arith,
      (validate_request_iff r).1 a.well_formed,
      (has_keys r.wrapped_content_keys ids).1 a.keys,
    )

    resolved_of_admit :
        (p : Prepared)
        → admit store fingerprint w session r now ≡ ok p
        → (ids : List String) × (store.resolve_transfer_targets w session r.target_type r.group_id
              r.target_device_ids
            ≡ ok ids)
    unfolding admit
    resolved_of_admit p h = ground arith

    resolved_Admitted :
        (ids : List String) (p : Prepared)
        → store.resolve_transfer_targets w session r.target_type r.group_id r.target_device_ids
          ≡ ok ids
        → admit store fingerprint w session r now ≡ ok p
        → Admitted w session r ids × (p ≡ prepared_for ids)
    unfolding admit
    resolved_Admitted ids p e h =
        ground (arith, (validate_request_iff r).0, (has_keys r.wrapped_content_keys ids).0)

    admit_cases :
        (a : Result Error Prepared)
        → admit store fingerprint w session r now ≡ a
        → ((e : Error) × (a ≡ err e))
          ⊎ ((ids : List String) × Admitted w session r ids × (a ≡ ok (prepared_for ids)))
    admit_cases (err e) h = inl (e, refl)
    admit_cases (ok p) h =
        let (ids, e) = resolved_of_admit p h in
        let (a, q) = resolved_Admitted ids p e h in inr (ids, a, ap ok q)

    -- `Create` either refuses, with no call that changes the store and no metric, or the request is
    -- admitted for the devices that the store resolved (the session has a device, the request is
    -- well formed, there are 1 to 100 devices, each with a content key), and the store creates
    -- exactly the prepared transfer, with one route metric for each target.
    pub create_refuses_or_stores :
        ((e : Error) × (create store fingerprint w session r now ≡ (err e, w, [])))
        ⊎ ((ids : List String) × Admitted w session r ids
            × (create store fingerprint w session r now ≡ stored ids))
    unfolding create
    create_refuses_or_stores = elim (admit_cases (admit store fingerprint w session r now) refl) [
      | inl (e, h) ↦ inl (e, rw (h, create))
      | inr (ids, a, h) ↦ inr (ids, a, rw (h, create))
    ]

    -- Every admitted request is passed to the store.
    pub create_stores :
        (ids : List String)
        → Admitted w session r ids
        → create store fingerprint w session r now ≡ stored ids
    unfolding create
    create_stores ids a = rw (admit-Admitted ids a, create)
