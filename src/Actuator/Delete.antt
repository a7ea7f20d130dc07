-- ===== src/Actuator/Delete.antt =====
-- Delete and reportMHCHealthIssue of pkg/actuators/machine/actuator.go.
pub mod Effects
pub mod Laws
pub mod Created
use machine_api_provider_nvi.Base.{
  maybe, ℕ, String, ◌<>◌, Bool, true, false, ◌||◌, Option, none, some, [], ◌∷◌, eqb, if◌then◌else◌,
}
use machine_api_provider_nvi.Base.Decimal.{itoa}
use machine_api_provider_nvi.Api.Errors.{errorf, wrapf, external}
use machine_api_provider_nvi.Api.Types.{NicoMachineProviderSpec, NicoMachineProviderStatus}
use machine_api_provider_nvi.Api.Sdk.{
  InstanceDeleteRequest, MachineHealthReportEntryRequest, HttpResponse, Reply,
}
use machine_api_provider_nvi.Actuator.World.{
  Env, NicoClient, Object, normal, warning, api_latency, api_error, managed_dec, health_events_inc,
}
use machine_api_provider_nvi.Actuator.World.Monad.{
  M, ◌>>=◌, ◌>>◌, pure, fail, deref, wrapping, count, when, eventf, get_history,
}
use machine_api_provider_nvi.Actuator.World.Calls
use machine_api_provider_nvi.Actuator.Alerts.{severity_critical}
use machine_api_provider_nvi.Actuator.Provider.{
  get_provider_spec, get_provider_status, get_nico_client, is_mhc_remediation,
}
use machine_api_provider_nvi.Actuator.Health.{succeeded, has_code}
use machine_api_provider_nvi.Actuator.Create.{require_client_object, code_label}

remediation_summary : Object → String
remediation_summary o = "MachineHealthCheck triggered remediation for machine " <> o.name

-- The report of reportMHCHealthIssue.
mhc_report : Object → MachineHealthReportEntryRequest
unfolding remediation_summary
mhc_report o = record {
  source = "k8s-mhc";
  alerts =
      record {
        id = "mhc-remediation-triggered";
        message = remediation_summary o;
        classifications = severity_critical ∷ [];
      }
      ∷ [];
  mode = "replace";
}

-- The codes that say that the instance is gone or will be.
abbrev pub is_deleted_code : ℕ → Bool
is_deleted_code code = eqb code 200 || eqb code 202 || eqb code 204 || eqb code 404

module _ (env : Env) where
  module _ (client : NicoClient) (org : String) where
    unfoldable pub report_mhc_health_issue : Object → String → M (Unit {0})
    unfolding mhc_report
    report_mhc_health_issue o machine_id = do
      reply ← Calls.create_or_update_machine_health_report env client org machine_id (mhc_report o)
      when (succeeded reply) (do
        count health_events_inc
        eventf env normal "MHCHealthReported" "Reported MHC health issue to NICo HealthReport API"
            [] none)

    report_assigned : Object → Option String → M (Unit {0})
    report_assigned o none = pure tt
    report_assigned o (some machine_id) = report_mhc_health_issue o machine_id

    -- The issue on the request itself, found at a time.
    delete_request : ℕ → Object → InstanceDeleteRequest
    unfolding remediation_summary
    delete_request now o = record {
      machine_health_issue = record {
        category = "MachineHealthCheck";
        summary = remediation_summary o;
        details =
            "{\"machine_name\":"
            <> (env.quote o.name
                <> (",\"namespace\":"
                    <> (env.quote o.namespace
                        <> (",\"annotation\":\"machine.openshift.io/unhealthy\",\"detected_at\":"
                            <> (env.quote (env.format_time now) <> "}")))));
      };
    }

    -- The request's body, after the report that a remediation makes.
    pub remediate : Object → NicoMachineProviderStatus → M (Option InstanceDeleteRequest)
    remediate o status =
        if is_mhc_remediation o
        then (do
          history ← get_history
          report_assigned o status.machine_id
          eventf env normal "MHCRemediation"
              "Reporting machine health issue to NICo for break-fix workflow" [] none
          pure (some (delete_request (env.now history) o)))
        else pure none

    -- An error: a 404 is a success.
    delete_failed : String → Option HttpResponse → String → M (Unit {0})
    delete_failed id http e =
        if has_code 404 http
        then eventf env normal "Deleted" "Instance %s already deleted (404)" (id ∷ []) none
        else (do
          count (api_error "DeleteInstance" (code_label http))
          eventf env warning "FailedDelete" "Failed to delete instance: %v" [] (some (external e))
          fail (wrapf "failed to delete instance: %w" [] (external e)))

    -- No error: the code decides.
    delete_answered : ℕ → M (Unit {0})
    delete_answered code = if is_deleted_code code then pure tt else (do
      eventf env warning "FailedDelete" "Delete instance returned unexpected status: %d"
          (itoa code ∷ []) none
      fail (errorf "delete instance returned unexpected status: %d" (itoa code ∷ [])))

    delete_code : Option HttpResponse → M (Unit {0})
    delete_code http = do r ← deref http; delete_answered r.status_code

    unfoldable pub handle_deleted : String → Reply (Unit {0}) → M (Unit {0})
    unfolding delete_failed delete_code delete_answered
    handle_deleted id reply =
        maybe reply.failure (delete_code reply.http) (delete_failed id reply.http)

    unfoldable pub delete_instance : Object → NicoMachineProviderStatus → String → M (Unit {0})
    unfolding remediate report_assigned delete_request
    delete_instance o status id = do
      req ← remediate o status
      reply ← Calls.delete_instance env client org id req
      count (api_latency "DeleteInstance")
      handle_deleted id reply
      count managed_dec
      eventf env normal "Deleted" "Deleted instance %s" (id ∷ []) none

  delete_known :
      Object → NicoMachineProviderSpec → NicoMachineProviderStatus → Option String → M (Unit {0})
  delete_known o spec status none = pure tt
  delete_known o spec status (some id) = do
    (client, org) ← wrapping "failed to create NICo client: %w" (get_nico_client env spec)
    delete_instance client org o status id

  unfoldable pub delete : M (Unit {0})
  unfolding delete_known
  delete = do
    o ← require_client_object env
    spec ← wrapping "failed to get provider spec: %w" (get_provider_spec env o)
    status ← wrapping "failed to get provider status: %w" (get_provider_status env o)
    delete_known o spec status status.instance_id
