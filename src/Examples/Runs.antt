-- ===== src/Examples/Runs.antt =====
-- Whole runs of the reconciler and of the operations.
use machine_api_provider_nvi.Base.{◌≤◌, ◌+◌, none, some, ◌≡◌, ◌≢◌, refl, arith}
use machine_api_provider_nvi.Base.Dict.{lookup}
use machine_api_provider_nvi.Api.Errors.{ok}
use machine_api_provider_nvi.Actuator.World.Monad.{
  ◌>>=◌, pure, fail, crash, deref, wrapping, attempt, lift, get_memory, set_memory, get_history,
  emit,
}
use machine_api_provider_nvi.Actuator.World.Counts.{tally, is_creation, is_deletion}
use machine_api_provider_nvi.Actuator.World.Calls.{request, update_with}
use machine_api_provider_nvi.Actuator.World.Calls
use machine_api_provider_nvi.Actuator.Request.{validate_provider_spec}
use machine_api_provider_nvi.Actuator.Provider.{
  get_provider_spec, get_provider_status, set_provider_status, set_provider_id, get_nico_client,
  is_mhc_remediation,
}
use machine_api_provider_nvi.Actuator.Health.{
  has_targeted_instance_creation, check_critical_faults, check_machine_validation, accounts_allow,
  critical_faults, all_alerts, validation_failure,
}
use machine_api_provider_nvi.Actuator.Alerts.{classify_alerts}
use machine_api_provider_nvi.Actuator.PreFlight.{check_pre_flight_health}
use machine_api_provider_nvi.Actuator.Create.{
  request_instance, handle_created, record_instance, create_checked, require_client_object, create,
}
use machine_api_provider_nvi.Actuator.Exists.{exists}
use machine_api_provider_nvi.Actuator.Delete.{delete, delete_instance, handle_deleted}
use machine_api_provider_nvi.Reconciler.{
  reconcile, reconcile_normal, reconcile_delete, try, remove_finalizer,
}
use machine_api_provider_nvi.Reconciler.Laws.{reconcile-AddsAtMost}
use machine_api_provider_nvi.Reconciler.Guards.{MayCreate, reconcile-MayCreate, reconcile-deleted}
use machine_api_provider_nvi.Reconciler.Finalizers.{
  reconcile_delete-deleted, is_object_write, Drops, reconcile_delete-Drops,
}
use machine_api_provider_nvi.Actuator.Create.Checked.{IsCleared, create-IsCleared}
use machine_api_provider_nvi.Actuator.World.{Object, World, found}
use machine_api_provider_nvi.Actuator.World.Growth.{Returns}
use machine_api_provider_nvi.Examples.Sample.{env, machine, start}

-- A new Machine with the finalizer, and one that is being deleted, with an instance.
abbrev new_machine : Object
new_machine = machine 0 none

abbrev old_machine : Object
old_machine = machine 900 (some "uuu")

tally-create : tally is_creation (create (env new_machine) (start new_machine)).1.history ≡ 1
unfolding create create_checked request_instance handle_created record_instance
    require_client_object ◌>>=◌ pure fail crash deref wrapping attempt lift get_memory set_memory
    get_history emit request update_with Calls.create_instance Calls.get_all_tenant_account
    Calls.get_all_machine_health_report Calls.get_machine_validation_runs get_provider_spec
    get_provider_status set_provider_status set_provider_id get_nico_client validate_provider_spec
    has_targeted_instance_creation check_critical_faults check_machine_validation accounts_allow
    critical_faults all_alerts validation_failure classify_alerts check_pre_flight_health
tally-create = refl

create-IsCleared_example :
    IsCleared
      (env new_machine)
      new_machine
      (start new_machine)
      (create (env new_machine) (start new_machine)).1.history
create-IsCleared_example =
    create-IsCleared (env new_machine) (start new_machine) (λ h. omega (arith, tally-create, h))

tally-reconcile : tally is_creation (reconcile (env new_machine) (start new_machine)).1.history ≡ 1
unfolding reconcile reconcile_normal try exists create create_checked request_instance
    handle_created record_instance require_client_object ◌>>=◌ pure fail crash deref wrapping
    attempt lift get_memory set_memory get_history emit request update_with Calls.create_instance
    Calls.get_all_tenant_account Calls.get_all_machine_health_report
    Calls.get_machine_validation_runs get_provider_spec get_provider_status set_provider_status
    set_provider_id get_nico_client validate_provider_spec has_targeted_instance_creation
    check_critical_faults check_machine_validation accounts_allow critical_faults all_alerts
    validation_failure classify_alerts check_pre_flight_health
tally-reconcile = refl

reconcile-MayCreate_example : MayCreate (env new_machine) (start new_machine)
reconcile-MayCreate_example =
    reconcile-MayCreate (env new_machine) (start new_machine)
      (λ h. omega (arith, tally-reconcile, h))

reconcile-AddsAtMost_example :
    (tally is_creation (reconcile (env new_machine) (start new_machine)).1.history
      ≤ 1 + tally is_creation (start new_machine).history)
    × (tally is_deletion (reconcile (env new_machine) (start new_machine)).1.history
        ≤ 1 + tally is_deletion (start new_machine).history)
reconcile-AddsAtMost_example = reconcile-AddsAtMost (env new_machine) (start new_machine)

deletion_tally : tally is_deletion (reconcile (env old_machine) (start old_machine)).1.history ≡ 1
unfolding reconcile reconcile_delete remove_finalizer delete delete_instance handle_deleted
    is_mhc_remediation require_client_object Calls.delete_instance ◌>>=◌ pure fail crash deref
    wrapping attempt lift get_memory set_memory get_history emit request update_with
    get_provider_spec get_provider_status get_nico_client lookup
deletion_tally = refl

reconcile-deleted_example :
    (o : Object) × (((env old_machine).kube.get_object (start old_machine).history ≡ found o)
      × (o.deletion_timestamp ≢ 0))
reconcile-deleted_example =
    reconcile-deleted (env old_machine) (start old_machine) (λ h. omega (arith, deletion_tally, h))

write_tally :
    tally is_object_write (reconcile_delete (env old_machine) (start old_machine)).1.history ≡ 1
unfolding reconcile_delete remove_finalizer delete delete_instance handle_deleted is_mhc_remediation
    require_client_object Calls.delete_instance ◌>>=◌ pure fail crash deref wrapping attempt lift
    get_memory set_memory get_history emit request update_with get_provider_spec get_provider_status
    get_nico_client lookup
write_tally = refl

reconcile_delete-deleted_example : (delete (env old_machine) (start old_machine)).0 ≡ ok tt
reconcile_delete-deleted_example =
    reconcile_delete-deleted (env old_machine) (start old_machine)
      (λ h. omega (arith, write_tally, h))

abbrev deleted : World
deleted = (delete (env old_machine) (start old_machine)).1

deletes : Returns (delete (env old_machine)) (start old_machine) tt deleted
unfolding delete delete_instance handle_deleted is_mhc_remediation require_client_object
    Calls.delete_instance ◌>>=◌ pure fail crash deref wrapping attempt lift get_memory set_memory
    get_history emit request update_with get_provider_spec get_provider_status get_nico_client
    lookup
deletes = refl

reconcile_delete-Drops_example :
    Drops deleted (reconcile_delete (env old_machine) (start old_machine)).1.history
reconcile_delete-Drops_example =
    reconcile_delete-Drops (env old_machine) (start old_machine) deleted deletes
