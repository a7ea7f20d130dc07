-- ===== src/Manager.antt =====
-- cmd/manager/main.go: what the program sets up, in its order, and how it ends. The flags are
-- parsed already; the log and the scheme are left out. controller-runtime and the file system are
-- parameters; that no configuration is found is an error of the first call.
pub mod Laws
use machine_api_provider_nvi.Base.{
  ℕ, String, Bool, true, false, not, Option, none, some, List, [], ◌∷◌, if◌then◌else◌,
}

-- The flags, as `main` declares them.
pub record Flags : Type 0 where
  pub metrics_addr : String
  pub probe_addr : String
  pub webhook_port : ℕ
  pub enable_leader_election : Bool
  pub enable_webhooks : Bool
  pub webhook_cert_dir : String

abbrev pub default_flags : Flags
default_flags = record {
  metrics_addr = ":8080";
  probe_addr = ":8081";
  webhook_port = 9443;
  enable_leader_election = false;
  enable_webhooks = true;
  webhook_cert_dir = "/tmp/k8s-webhook-server/serving-certs";
}

pub record ServerOptions : Type 0 where
  pub port : ℕ
  pub cert_dir : String

-- ctrl.Options
pub record Options : Type 0 where
  pub metrics_bind_address : String
  pub health_probe_bind_address : String
  pub leader_election : Bool
  pub leader_election_id : String
  pub webhook_server : Option ServerOptions

-- The calls of `main`. The actuator is the one that the first controller gets.
pub data Call : Type 0 where
  new_manager : Options → Call
  new_actuator : String → Call
  setup_machine_controller : Call
  register_webhook : String → Call
  add_healthz_check : String → Call
  add_readyz_check : String → Call
  start_manager : Call

-- The calls that were made, and the exit code: 0 when `main` returns.
pub record Exit : Type 0 where
  pub calls : List Call
  pub code : ℕ

-- A call, and what follows if it gives no error.
abbrev pub then_exit : Call → Option String → Exit → Exit
then_exit call none next = record next { calls = call ∷ next.calls }
then_exit call (some text) next = record { calls = call ∷ []; code = 1 }

-- What `os.Stat` gives of the certificates' directory.
pub data Stat : Type 0 where
  exists not_exist other_error : Stat

abbrev pub is_not_exist : Stat → Bool
is_not_exist exists = false
is_not_exist not_exist = true
is_not_exist other_error = false

module _ (stat : String → Stat) where
  -- Whether webhooks are on, after the look at their certificates.
  unfoldable pub webhooks_on : Flags → Bool
  webhooks_on flags =
      if flags.enable_webhooks then not (is_not_exist (stat flags.webhook_cert_dir)) else false

  unfoldable pub manager_options : Flags → Options
  unfolding webhooks_on
  manager_options flags = record {
    metrics_bind_address = flags.metrics_addr;
    health_probe_bind_address = flags.probe_addr;
    leader_election = flags.enable_leader_election;
    leader_election_id = "machine-controller.nico.nvidia.com";
    webhook_server =
        if webhooks_on flags
        then some (record { port = flags.webhook_port; cert_dir = flags.webhook_cert_dir })
        else none;
  }

module _ (error_of : Call → Option String) where
  abbrev pub checked : Call → Exit → Exit
  checked call next = then_exit call (error_of call) next

  abbrev pub unchecked : Call → Exit → Exit
  unchecked call next = then_exit call none next

  -- From the health checks on.
  unfoldable pub run_checks : Exit
  run_checks = checked (add_healthz_check "healthz") (
      checked (add_readyz_check "readyz") (checked start_manager (record { calls = []; code = 0 })))

  module _ (stat : String → Stat) where
    unfoldable pub main : Flags → Exit
    unfolding run_checks manager_options webhooks_on
    main flags = checked (new_manager (manager_options stat flags)) (
        unchecked (new_actuator "nico-machine-controller") (
          checked setup_machine_controller (
            if webhooks_on stat flags
            then unchecked (register_webhook "/validate-machine") run_checks
            else run_checks)))
