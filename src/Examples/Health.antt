-- ===== src/Examples/Health.antt =====
-- Alerts, conditions, runs and answers.
use machine_api_provider_nvi.Base.{
  ℕ, String, true, false, Option, none, some, List, [], ◌∷◌, ◌≡◌, ◌≢◌, ◌↔◌, ◌⊎◌, ◌||◌, refl, arith,
}
use machine_api_provider_nvi.Base.Int.{pos}
use machine_api_provider_nvi.Api.Errors.{ok}
use machine_api_provider_nvi.Api.Types.{condition_true}
use machine_api_provider_nvi.Api.Sdk.{
  MachineHealthProbeAlert, MachineValidationRun, HttpResponse, Instance, Reply, ready, error,
}
use machine_api_provider_nvi.Actuator.World.{Env, World, injected}
use machine_api_provider_nvi.Actuator.World.Monad.{pure, ◌>>=◌}
use machine_api_provider_nvi.Actuator.Alerts.{classify_alerts}
use machine_api_provider_nvi.Actuator.Alerts.Laws.{IsSplit, classify_alerts-IsSplit}
use machine_api_provider_nvi.Actuator.Conditions.{set_instance_state_conditions}
use machine_api_provider_nvi.Actuator.Conditions.Laws.{
  status_of, set_instance_state_conditions-error_stays,
}
use machine_api_provider_nvi.Actuator.Health.{
  latest_run, has_code, check_critical_faults, check_machine_validation, critical_faults,
  all_alerts, validation_failure,
}
use machine_api_provider_nvi.Actuator.Exists.{instance_exists}
use machine_api_provider_nvi.Actuator.World.Growth.{Returns, Answered}
use machine_api_provider_nvi.Actuator.World.Calls.{request}
use machine_api_provider_nvi.Actuator.World.Calls
use machine_api_provider_nvi.Actuator.Health.Laws.{IsLatest, latest_run-IsLatest}
use machine_api_provider_nvi.Actuator.Monitor.{apply_alerts}
use machine_api_provider_nvi.Actuator.Monitor.Laws.{Follows, apply_alerts-Follows}
use machine_api_provider_nvi.Actuator.PreFlight.{next_attempt, escalated, check_pre_flight_health}
use machine_api_provider_nvi.Actuator.PreFlight.Escalation.{
  failure_reason, after_blocks, failure_reason-after_blocks,
}
use machine_api_provider_nvi.Actuator.PreFlight.Laws.{check_pre_flight_health-Answered}
use machine_api_provider_nvi.Actuator.Delete.{handle_deleted}
use machine_api_provider_nvi.Actuator.Delete.Laws.{handle_deleted-outcome}
use machine_api_provider_nvi.Reconciler.Errors.{IsRefused, handle_created-IsRefused}
use machine_api_provider_nvi.Actuator.Create.{handle_created}
use machine_api_provider_nvi.Examples.Sample.{
  env, machine, start, spec, no_status, set_status_condition-SetsConditions,
}

abbrev cluster : Env
cluster = env (machine 0 none)

abbrev now_running : World
now_running = start (machine 0 none)

abbrev alert : List String → MachineHealthProbeAlert
alert classes = record { id = "probe"; message = "hot"; classifications = classes }

abbrev alerts : List MachineHealthProbeAlert
alerts =
    alert ("warning" ∷ []) ∷ alert ("remediating" ∷ []) ∷ alert ("warning" ∷ "critical" ∷ []) ∷ []

classify_alerts-IsSplit_example :
    IsSplit alerts (classify_alerts alerts).0 (classify_alerts alerts).1
classify_alerts-IsSplit_example = classify_alerts-IsSplit alerts

apply_alerts-Follows_example :
    Follows cluster set_status_condition-SetsConditions 7 alerts
      (apply_alerts cluster 7 "No health alerts" alerts no_status)
apply_alerts-Follows_example =
    apply_alerts-Follows cluster set_status_condition-SetsConditions 7 "No health alerts" alerts
      no_status

set_instance_state_conditions-error_stays_example :
    let s =
      set_instance_state_conditions cluster 8 ready
        (set_instance_state_conditions cluster 7 error no_status) in
    (status_of "InstanceError" s ≡ some condition_true)
    × (status_of "InstanceReady" s ≡ some condition_true)
set_instance_state_conditions-error_stays_example =
    set_instance_state_conditions-error_stays cluster 7 8 no_status
      set_status_condition-SetsConditions

abbrev four_blocks : List (ℕ × String)
four_blocks = (1, "hot") ∷ (2, "hot") ∷ (3, "dusty") ∷ (4, "hot") ∷ []

first_attempt : next_attempt no_status.conditions ≡ pos 1
unfolding next_attempt
first_attempt = refl

failure_reason-after_blocks_example :
    failure_reason (
      escalated cluster "m"
        (next_attempt (after_blocks cluster four_blocks no_status).conditions)
        "hot"
        (machine 0 none))
    ≡ some "PreFlightHealthCheckFailed"
failure_reason-after_blocks_example =
    failure_reason-after_blocks cluster four_blocks no_status "m" "hot" (machine 0 none) _
      set_status_condition-SetsConditions first_attempt (ground arith) refl

abbrev run : Option ℕ → MachineValidationRun
run end = record { end_time = end; state = "completed"; completed = 2; total = 2 }

latest_run-IsLatest_example :
    IsLatest
      (latest_run (run none) (run (some 5) ∷ run (some 3) ∷ []))
      (run none ∷ run (some 5) ∷ run (some 3) ∷ [])
latest_run-IsLatest_example = latest_run-IsLatest (run none) (run (some 5) ∷ run (some 3) ∷ [])

abbrev bad_request : Option HttpResponse
bad_request = some (record { status_code = 400; body = none })

handle_created-IsRefused_example :
    IsRefused bad_request
      (handle_created cluster injected "org" spec
        (record { value = none; http = bad_request; failure = some "400 Bad Request" })
        now_running).0
handle_created-IsRefused_example =
    handle_created-IsRefused cluster injected "org" spec none bad_request "400 Bad Request"
      now_running

abbrev deleted_reply : Reply (Unit {0})
deleted_reply = record {
  value = tt;
  http = some (record { status_code = 404; body = none });
  failure = some "404 Not Found";
}

handle_deleted-outcome_example :
    ((handle_deleted cluster injected "org" "uuu" deleted_reply now_running).0 ≡ ok tt)
    ↔ ((deleted_reply.failure ≡ none)
        × (has_code 200 deleted_reply.http
              || has_code 202 deleted_reply.http
              || has_code 204 deleted_reply.http
              || has_code 404 deleted_reply.http
            ≡ true))
      ⊎ ((deleted_reply.failure ≢ none) × (has_code 404 deleted_reply.http ≡ true))
handle_deleted-outcome_example =
    handle_deleted-outcome cluster injected "org" "uuu" deleted_reply now_running

abbrev absent_reply : Reply (Option Instance)
absent_reply = record {
  value = none;
  http = some (record { status_code = 404; body = none });
  failure = some "404 Not Found";
}

absent : Returns (instance_exists absent_reply) now_running false now_running
unfolding instance_exists pure
absent = refl

passed : Answered (check_pre_flight_health cluster injected "org" spec) none
unfolding check_pre_flight_health check_critical_faults check_machine_validation ◌>>=◌ pure request
    Calls.get_all_machine_health_report Calls.get_machine_validation_runs critical_faults all_alerts
    validation_failure classify_alerts
passed = record { before = now_running; after = _; answer = refl }

check_pre_flight_health-Answered_example :
    Answered (check_critical_faults cluster injected "org" spec.machine_id) none
    × Answered (check_machine_validation cluster injected "org" spec.machine_id) none
check_pre_flight_health-Answered_example =
    check_pre_flight_health-Answered cluster injected "org" spec passed
