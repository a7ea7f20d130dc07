-- ===== src/Reconciler/Laws.antt =====
-- How many instances one reconciliation creates or deletes.
use machine_api_provider_nvi.Base.{◌+◌, ◌≤◌, Bool, true, false, refl}
use machine_api_provider_nvi.Api.Errors.{Outcome, ok, err, panic}
use machine_api_provider_nvi.Actuator.World.{Env, World, Found, found, not_found, get_failed}
use machine_api_provider_nvi.Actuator.World.Effects.{Emits, emits_rules}
use machine_api_provider_nvi.Actuator.World.Counts.{
  tally, AddsAtMost, AddsAtMost-of_Emits, AddsAtMost-attempt, AddsAtMost-bind, AddsAtMost-after,
  AddsAtMost-if, is_creation, is_deletion, other_effects-is_creation, other_effects-is_deletion,
}
use machine_api_provider_nvi.Actuator.Create.Laws.{create-AddsAtMost}
use machine_api_provider_nvi.Actuator.Create.Effects.{create-Emits}
use machine_api_provider_nvi.Actuator.Update.Effects.{update-Emits}
use machine_api_provider_nvi.Actuator.Exists.Effects.{exists-Emits}
use machine_api_provider_nvi.Actuator.Delete.Effects.{delete-Emits}
use machine_api_provider_nvi.Actuator.Delete.Laws.{delete-AddsAtMost}
use machine_api_provider_nvi.Reconciler.{
  create_or_update, reconcile_normal, reconcile_delete, reconcile_found, reconcile,
}
use machine_api_provider_nvi.Reconciler.Effects.{
  try-Emits, add_our_finalizer-Emits, after_delete-Emits, not_creation, not_deletion,
  not_creation-is_creation, not_deletion-is_deletion,
}

module _ (env : Env) where
  create_or_update-AddsAtMost :
      (r : Outcome Bool) → AddsAtMost 1 is_creation (create_or_update env r)
  unfolding create_or_update
  create_or_update-AddsAtMost (ok false) =
      AddsAtMost-bind 1 0 _ _ (AddsAtMost-attempt 1 _ (create-AddsAtMost env))
        λ e. AddsAtMost-of_Emits 0 other_effects-is_creation (search emits_rules)
  create_or_update-AddsAtMost (ok true) =
      AddsAtMost-of_Emits 1 not_creation-is_creation (search (emits_rules, update-Emits) depth 8)
  create_or_update-AddsAtMost (err e) =
      AddsAtMost-of_Emits 1 other_effects-is_creation (search emits_rules)
  create_or_update-AddsAtMost panic =
      AddsAtMost-of_Emits 1 other_effects-is_creation (search emits_rules)

  reconcile_normal-AddsAtMost : AddsAtMost 1 is_creation (reconcile_normal env)
  unfolding reconcile_normal
  reconcile_normal-AddsAtMost =
      AddsAtMost-after 1 _ _ other_effects-is_creation (search emits_rules) λ o.
        AddsAtMost-if 1 _ _ _
          (AddsAtMost-after 1 _ _ other_effects-is_creation (try-Emits _ _ (exists-Emits env refl))
            λ r. create_or_update-AddsAtMost r)
          (AddsAtMost-of_Emits 1 other_effects-is_creation (add_our_finalizer-Emits env refl o))

  pub reconcile_delete-Emits : Emits not_creation (reconcile_delete env)
  unfolding reconcile_delete
  reconcile_delete-Emits = search (emits_rules, delete-Emits, after_delete-Emits) depth 12

  create_or_update-Emits : (r : Outcome Bool) → Emits not_deletion (create_or_update env r)
  unfolding create_or_update
  create_or_update-Emits (ok false) = search (emits_rules, create-Emits) depth 12
  create_or_update-Emits (ok true) = search (emits_rules, update-Emits) depth 12
  create_or_update-Emits (err e) = search emits_rules
  create_or_update-Emits panic = search emits_rules

  pub reconcile_normal-Emits : Emits not_deletion (reconcile_normal env)
  unfolding reconcile_normal
  reconcile_normal-Emits =
      search (emits_rules, try-Emits, exists-Emits, create_or_update-Emits, add_our_finalizer-Emits)
        depth 12

  delete_after-AddsAtMost : AddsAtMost 1 is_deletion (reconcile_delete env)
  unfolding reconcile_delete
  delete_after-AddsAtMost =
      AddsAtMost-bind 1 0 _ _ (AddsAtMost-attempt 1 _ (delete-AddsAtMost env))
        λ e. AddsAtMost-of_Emits 0 other_effects-is_deletion (after_delete-Emits env refl e)

  creates_found : (r : Found) → AddsAtMost 1 is_creation (reconcile_found env r)
  unfolding reconcile_found
  creates_found not_found = AddsAtMost-of_Emits 1 other_effects-is_creation (search emits_rules)
  creates_found (get_failed e) =
      AddsAtMost-of_Emits 1 other_effects-is_creation (search emits_rules)
  creates_found (found o) =
      AddsAtMost-after 1 _ _ other_effects-is_creation (search emits_rules) λ u.
        AddsAtMost-if 1 _ _ _ reconcile_normal-AddsAtMost
          (AddsAtMost-of_Emits 1 not_creation-is_creation reconcile_delete-Emits)

  deletes_found : (r : Found) → AddsAtMost 1 is_deletion (reconcile_found env r)
  unfolding reconcile_found
  deletes_found not_found = AddsAtMost-of_Emits 1 other_effects-is_deletion (search emits_rules)
  deletes_found (get_failed e) =
      AddsAtMost-of_Emits 1 other_effects-is_deletion (search emits_rules)
  deletes_found (found o) =
      AddsAtMost-after 1 _ _ other_effects-is_deletion (search emits_rules) λ u.
        AddsAtMost-if 1 _ _ _
          (AddsAtMost-of_Emits 1 not_deletion-is_deletion reconcile_normal-Emits)
          delete_after-AddsAtMost

  creates : AddsAtMost 1 is_creation (reconcile env)
  unfolding reconcile
  creates =
      AddsAtMost-after 1 _ _ other_effects-is_creation (search emits_rules depth 8) creates_found

  deletes : AddsAtMost 1 is_deletion (reconcile env)
  unfolding reconcile
  deletes =
      AddsAtMost-after 1 _ _ other_effects-is_deletion (search emits_rules depth 8) deletes_found

-- One reconciliation, whatever the servers answer, sends at most one request for a new instance and
-- at most one request to delete one.
pub reconcile-AddsAtMost :
    (env : Env) (w : World)
    → (tally is_creation (reconcile env w).1.history ≤ 1 + tally is_creation w.history)
      × (tally is_deletion (reconcile env w).1.history ≤ 1 + tally is_deletion w.history)
reconcile-AddsAtMost env w = ((creates env).at w, (deletes env).at w)
