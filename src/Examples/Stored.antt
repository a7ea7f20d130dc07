-- ===== src/Examples/Stored.antt =====
-- A creation, and what is asked for after it.
use machine_api_provider_nvi.Base.{true, none, some, [], ◌≡◌, refl, arith}
use machine_api_provider_nvi.Base.Dict.{lookup}
use machine_api_provider_nvi.ProviderId.{to_text}
use machine_api_provider_nvi.Actuator.World.{Env, World, found}
use machine_api_provider_nvi.Actuator.World.Monad.{
  ◌>>=◌, pure, fail, crash, deref, wrapping, attempt, lift, get_memory, set_memory, get_history,
  emit,
}
use machine_api_provider_nvi.Actuator.World.Calls.{request, update_with}
use machine_api_provider_nvi.Actuator.World.Calls
use machine_api_provider_nvi.Actuator.World.Growth.{Returns}
use machine_api_provider_nvi.Actuator.Request.{validate_provider_spec}
use machine_api_provider_nvi.Actuator.Provider.{
  get_provider_spec, get_provider_status, set_provider_status, set_provider_id, get_nico_client,
  is_mhc_remediation,
}
use machine_api_provider_nvi.Actuator.Provider.Stored.{KeepsStatus}
use machine_api_provider_nvi.Actuator.Health.{
  has_targeted_instance_creation, check_critical_faults, check_machine_validation, accounts_allow,
  critical_faults, all_alerts, validation_failure,
}
use machine_api_provider_nvi.Actuator.Alerts.{classify_alerts}
use machine_api_provider_nvi.Actuator.PreFlight.{check_pre_flight_health}
use machine_api_provider_nvi.Actuator.Create.{
  addresses_of, created_status, request_instance, handle_created, record_instance, create_checked,
  require_client_object, create,
}
use machine_api_provider_nvi.Actuator.Conditions.{set_condition, set_instance_state_conditions}
use machine_api_provider_nvi.Actuator.Create.Stored.{Creates}
use machine_api_provider_nvi.Actuator.Exists.{exists, instance_exists}
use machine_api_provider_nvi.Actuator.Exists.Created.{AsksFor, create-exists}
use machine_api_provider_nvi.Actuator.Delete.{delete, delete_instance, handle_deleted}
use machine_api_provider_nvi.Actuator.Delete.Created.{Deletes}
use machine_api_provider_nvi.Actuator.World.Counts.{tally, is_creation}
use machine_api_provider_nvi.Reconciler.{
  reconcile, reconcile_normal, reconcile_delete, remove_finalizer, try,
}
use machine_api_provider_nvi.Reconciler.Finalizers.{is_object_write}
use machine_api_provider_nvi.Reconciler.Leaks.{reconcile-Deletes}
use machine_api_provider_nvi.Reconciler.Once.{SaidAbsent, reconcile-SaidAbsent}
use machine_api_provider_nvi.Actuator.Topology.{set_topology_labels, topology_labels, set_label}
use machine_api_provider_nvi.Actuator.Monitor.{update_machine_health}
use machine_api_provider_nvi.Actuator.Progress.{check_status_history, check_provisioning_timeout}
use machine_api_provider_nvi.Actuator.Update.{update, update_instance_status, track_instance}
use machine_api_provider_nvi.Actuator.Update.Evolves.{Evolves, stays, updates}
use machine_api_provider_nvi.Examples.Sample.{start}
use machine_api_provider_nvi.Examples.Kept.{
  plain_env, plain_env-KeepsStatus, created_object, updated_object, deleted_object, new_machine,
}
use machine_api_provider_nvi.Examples.Texts.{write_status, read_status, write_token, read_token}
use machine_api_provider_nvi.Examples.Timeout.{transition, transition-SetsConditions}
use machine_api_provider_nvi.Actuator.Update.Followed.{Followed, update-FollowedReady}
use machine_api_provider_nvi.Actuator.Progress.Ready.{ReadyOf}

abbrev now_created : World
now_created = record { object = created_object; history = (create plain_env new_machine).1.history }

created : Returns (create plain_env) new_machine tt now_created
unfolding create create_checked request_instance handle_created record_instance
    require_client_object ◌>>=◌ pure fail crash deref wrapping attempt lift get_memory set_memory
    get_history emit request update_with Calls.create_instance Calls.get_all_tenant_account
    Calls.get_all_machine_health_report Calls.get_machine_validation_runs get_provider_spec
    get_provider_status set_provider_status set_provider_id get_nico_client validate_provider_spec
    has_targeted_instance_creation check_critical_faults check_machine_validation accounts_allow
    critical_faults all_alerts validation_failure classify_alerts check_pre_flight_health
    write_status read_status write_token read_token transition set_condition
    set_instance_state_conditions created_status addresses_of to_text
created = refl

abbrev now_updated : World
now_updated = (update plain_env (start created_object)).1

updated : Returns (update plain_env) (start created_object) tt now_updated
unfolding update update_instance_status track_instance set_topology_labels update_machine_health
    check_status_history check_provisioning_timeout Calls.get_instance request update_with
    require_client_object ◌>>=◌ pure fail crash deref wrapping lift get_memory set_memory
    get_history emit get_provider_spec get_provider_status set_provider_status get_nico_client
    write_status read_status write_token read_token transition set_condition
    set_instance_state_conditions addresses_of topology_labels set_label lookup
updated = refl

kind_kept : updated_object.kind ≡ now_updated.object.kind
unfolding update update_instance_status track_instance set_topology_labels update_machine_health
    check_status_history check_provisioning_timeout Calls.get_instance request update_with
    require_client_object ◌>>=◌ pure fail crash deref wrapping lift get_memory set_memory
    get_history emit get_provider_spec get_provider_status set_provider_status get_nico_client
    write_status read_status write_token read_token transition set_condition
    set_instance_state_conditions addresses_of topology_labels set_label lookup
kind_kept = refl

-- The created object is updated once.
abbrev life : Evolves plain_env now_created now_updated
life = updates created_object [] tt stays refl updated

abbrev now_asked : World
now_asked = (exists plain_env (start updated_object)).1

asked : Returns (exists plain_env) (start updated_object) true now_asked
unfolding exists instance_exists Calls.get_instance request require_client_object ◌>>=◌ pure fail
    wrapping lift get_memory get_provider_spec get_provider_status get_nico_client read_status
    read_token
asked = refl

create-exists_example :
    (c : Creates plain_env now_created) × AsksFor plain_env c.id true [] now_asked
create-exists_example =
    create-exists plain_env plain_env-KeepsStatus new_machine now_created now_updated now_asked tt
      true updated_object [] created life kind_kept asked

-- The API has lost the instance, and the object is the created one.
abbrev lost_env : Env
lost_env = record plain_env {
  nico = λ client. record (plain_env.nico client) {
    get_instance = λ h org id. record {
      value = none;
      http = some (record { status_code = 404; body = none });
      failure = some "404 Not Found";
    };
  };
  kube = record plain_env.kube { get_object = λ h. found created_object };
}

lost_env-KeepsStatus : KeepsStatus lost_env
lost_env-KeepsStatus = record {
  read_back = plain_env-KeepsStatus.read_back;
  nest_back = plain_env-KeepsStatus.nest_back;
  nest_id = plain_env-KeepsStatus.nest_id;
  status_kept = λ h o s fine holds. holds;
  object_kept = λ h o s written fine holds. holds;
}

abbrev before_loss : World
before_loss = record { object = created_object; history = (create lost_env new_machine).1.history }

created_before : Returns (create lost_env) new_machine tt before_loss
unfolding create create_checked request_instance handle_created record_instance
    require_client_object ◌>>=◌ pure fail crash deref wrapping attempt lift get_memory set_memory
    get_history emit request update_with Calls.create_instance Calls.get_all_tenant_account
    Calls.get_all_machine_health_report Calls.get_machine_validation_runs get_provider_spec
    get_provider_status set_provider_status set_provider_id get_nico_client validate_provider_spec
    has_targeted_instance_creation check_critical_faults check_machine_validation accounts_allow
    critical_faults all_alerts validation_failure classify_alerts check_pre_flight_health
    write_status read_status write_token read_token transition set_condition
    set_instance_state_conditions created_status addresses_of to_text
created_before = refl

tally-reconcile : tally is_creation (reconcile lost_env (start created_object)).1.history ≡ 1
unfolding reconcile reconcile_normal try exists instance_exists Calls.get_instance create
    create_checked request_instance handle_created record_instance require_client_object ◌>>=◌ pure
    fail crash deref wrapping attempt lift get_memory set_memory get_history emit request
    update_with Calls.create_instance Calls.get_all_tenant_account
    Calls.get_all_machine_health_report Calls.get_machine_validation_runs get_provider_spec
    get_provider_status set_provider_status set_provider_id get_nico_client validate_provider_spec
    has_targeted_instance_creation check_critical_faults check_machine_validation accounts_allow
    critical_faults all_alerts validation_failure classify_alerts check_pre_flight_health
    write_status read_status write_token read_token transition set_condition
    set_instance_state_conditions created_status addresses_of to_text
tally-reconcile = refl

reconcile-SaidAbsent_example :
    (c : Creates lost_env before_loss) × SaidAbsent lost_env c.id []
      (reconcile lost_env (start created_object)).1.history
reconcile-SaidAbsent_example =
    reconcile-SaidAbsent lost_env lost_env-KeepsStatus new_machine before_loss before_loss
      (start created_object) tt created_object created_before stays refl refl
      (λ h. omega (arith, tally-reconcile, h))

tally-delete : tally is_object_write (reconcile plain_env (start created_object)).1.history ≡ 1
unfolding reconcile reconcile_delete remove_finalizer delete delete_instance handle_deleted
    is_mhc_remediation lookup Calls.delete_instance request update_with require_client_object ◌>>=◌
    pure fail crash deref emit attempt wrapping lift get_memory set_memory get_history
    get_provider_spec get_provider_status get_nico_client read_status read_token
tally-delete = refl

reconcile-Deletes_example :
    (c : Creates plain_env now_created) × Deletes plain_env c.id []
      (reconcile plain_env (start created_object)).1
reconcile-Deletes_example =
    reconcile-Deletes plain_env plain_env-KeepsStatus new_machine now_created now_updated
      (start created_object) tt deleted_object created life refl kind_kept (λ e. omega (arith, e))
      (λ h. omega (arith, tally-delete, h))

update-FollowedReady_example :
    (f : Followed plain_env (start created_object) now_updated) × ReadyOf f.inst.status f.new
update-FollowedReady_example =
    update-FollowedReady plain_env plain_env-KeepsStatus transition-SetsConditions
      (start created_object) now_updated tt updated
