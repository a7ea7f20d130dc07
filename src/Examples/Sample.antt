-- ===== src/Examples/Sample.antt =====
-- A cluster and a NICo API that answer with success, and small stand-ins for the libraries that
-- satisfy what is relied on of them.
use machine_api_provider_nvi.Base.{
  ℕ, zero, suc, ◌*◌, String, true, false, Option, none, some, List, [], ◌∷◌, ◌≡◌, refl, ap, arith,
  eq_iff, ◌==◌, string_eq, if◌then◌else◌,
}
use machine_api_provider_nvi.Api.Errors.{LibResult, done, failed}
use machine_api_provider_nvi.Api.Types.{
  NicoMachineProviderSpec, NicoMachineProviderStatus, Condition,
}
use machine_api_provider_nvi.Api.Sdk.{Instance, Reply, TenantAccount, ready}
use machine_api_provider_nvi.ProviderId.{UuidLibrary}
use machine_api_provider_nvi.ProviderId.RoundTrip.{NoSlash, IsLawful}
use machine_api_provider_nvi.Actuator.World.{
  Env, World, Object, typed, Nico, Json, nested_missing, found,
}
use machine_api_provider_nvi.Actuator.Conditions.Laws.{SetsConditions, find_condition}

-- A number is printed as one letter more than itself.
abbrev pub print_unary : ℕ → String
print_unary zero = String.◌∷◌ "u" String.[]
print_unary (suc n) = String.◌∷◌ "u" (print_unary n)

abbrev pub count_letters : String → ℕ
count_letters String.[] = 0
count_letters (String.◌∷◌ c s) = suc (count_letters s)

abbrev pub parse_unary : String → LibResult ℕ
parse_unary String.[] = failed "empty"
parse_unary (String.◌∷◌ c s) = done (count_letters s)

abbrev pub unary_uuid : UuidLibrary
unary_uuid = record { parse = parse_unary; print = print_unary }

count_letters-print : (n : ℕ) → count_letters (print_unary n) ≡ suc n
count_letters-print zero = refl
count_letters-print (suc n) = ap suc (count_letters-print n)

parse-print : (n : ℕ) → parse_unary (print_unary n) ≡ done n
parse-print zero = refl
parse-print (suc n) = ap done (count_letters-print n)

print-NoSlash : (n : ℕ) → NoSlash (print_unary n)
print-NoSlash zero = ground arith
print-NoSlash (suc n) = ground (arith, print-NoSlash n)

pub unary_uuid-IsLawful : IsLawful unary_uuid
unary_uuid-IsLawful = record {
  parse-print = λ u h. parse-print u;
  print-NoSlash = λ u h. print-NoSlash u;
}

-- The condition of the type is replaced, or added at the end.
unfoldable pub upsert : List Condition → Condition → List Condition
upsert [] c = c ∷ []
upsert (d ∷ ds) c =
    let rest = upsert ds c in if d.condition_type == c.condition_type then c ∷ ds else d ∷ rest

abbrev pub set_status_condition : ℕ → List Condition → Condition → List Condition
set_status_condition now cs c = upsert cs c

upsert-own :
    (cs : List Condition) (c : Condition)
    → find_condition c.condition_type (upsert cs c) ≡ some (c.status, (c.reason, c.message))
unfolding upsert find_condition
upsert-own [] c = ground (arith, eq_iff c.condition_type c.condition_type)
upsert-own (d ∷ ds) c = ground (arith, eq_iff c.condition_type c.condition_type, upsert-own ds c)

upsert-others :
    (cs : List Condition) (c : Condition) (type : String)
    → (type == c.condition_type) ≡ false
    → find_condition type (upsert cs c) ≡ find_condition type cs
unfolding upsert find_condition
upsert-others [] c type h =
    ground (arith, h, eq_iff type c.condition_type, eq_iff c.condition_type type)
upsert-others (d ∷ ds) c type h = ground (
  arith,
  h,
  eq_iff type c.condition_type,
  eq_iff c.condition_type type,
  eq_iff d.condition_type type,
  eq_iff d.condition_type c.condition_type,
  upsert-others ds c type h,
)

pub set_status_condition-SetsConditions : SetsConditions set_status_condition
set_status_condition-SetsConditions = record {
  own = λ now cs c. upsert-own cs c;
  others = λ now cs c type h. upsert-others cs c type h;
}

-- A spec for one machine, whose health is checked first.
abbrev pub spec : NicoMachineProviderSpec
spec = record {
  site_id = "uu";
  tenant_id = "uuu";
  instance_type_id = "";
  machine_id = "uuuu";
  allow_unhealthy_machine = false;
  vpc_id = "uuuuu";
  subnet_id = "u";
  additional_subnet_ids = record { subnet_id = "uu"; is_physical = true } ∷ [];
  operating_system_id = "";
  infini_band_interfaces = [];
  nv_link_interfaces = [];
  network_security_group_id = "";
  user_data = "";
  ssh_key_group_ids = [];
  labels = [];
  description = "";
  always_boot_with_custom_ipxe = false;
  dpu_extension_services = [];
  credentials_secret = record { name = "credentials"; namespace = "default" };
}

abbrev pub no_status : NicoMachineProviderStatus
no_status = record {
  instance_id = none;
  machine_id = none;
  instance_state = none;
  addresses = [];
  conditions = [];
  health_labels = [];
}

-- A Machine with the finalizer, deleted at a time, or not at time 0; it has an instance or not.
abbrev pub machine : ℕ → Option String → Object
machine deleted status = record {
  name = "worker";
  namespace = "default";
  labels = [];
  annotations = [];
  finalizers = "machine.openshift.io/nico" ∷ [];
  deletion_timestamp = deleted;
  kind = typed (record {
    provider_spec_value = some "spec";
    provider_status = status;
    provider_id = none;
    error_reason = none;
    error_message = none;
  });
}

abbrev pub answer : {A : Type 0} → A → Reply A
answer value = record {
  value = value;
  http = some (record { status_code = 200; body = none });
  failure = none;
}

abbrev pub instance_of : String → Instance
instance_of id = record {
  id = some id;
  machine_id = some "uuuu";
  site_id = some "uu";
  status = some ready;
  interfaces = [];
  nv_link_interfaces = [];
  infiniband_interfaces = [];
}

abbrev pub account : TenantAccount
account = record {
  is_ready = true;
  site_capabilities = record { targeted_instance_creation = true; site_ids = [] } ∷ [];
}

abbrev pub nico : Nico
nico = record {
  create_instance = λ h org req. answer (some (instance_of "uuu"));
  get_instance = λ h org id. answer (some (instance_of id));
  delete_instance = λ h org id req. answer tt;
  update_instance = λ h org id req. answer tt;
  get_machine = λ h org id. answer none;
  get_current_tenant = λ h org. answer none;
  get_instance_status_history = λ h org id. answer [];
  get_all_machine_health_report = λ h org id. answer [];
  create_or_update_machine_health_report = λ h org id req. answer tt;
  delete_machine_health_report = λ h org id source. answer tt;
  get_machine_validation_runs = λ h org id. answer [];
  get_machine_status_history = λ h org id. answer [];
  get_all_tenant_account = λ h org. answer (account ∷ []);
}

-- The text of a status is the ID of its instance.
abbrev pub json : Json
json = record {
  unmarshal_spec = λ raw. done spec;
  unmarshal_status = λ raw. done (record no_status { instance_id = some raw });
  marshal_status = λ status. done "uuu";
  nested_spec = λ content. nested_missing;
  nested_status = λ content. nested_missing;
  unmarshal_map = λ raw. done raw;
  set_nested_status = λ content raw. done content;
  set_nested_provider_id = λ content id. done content;
  error_message = λ body. failed "no message";
}

-- A cluster with one Machine.
abbrev pub env : Object → Env
env o = record {
  has_recorder = true;
  has_client = true;
  org_name = "org";
  provisioning_timeout = 1800 * 1000000000;
  max_fault_blocked_attempts = 5;
  nico = λ client. nico;
  kube = record {
    get_secret = λ h name namespace. failed "no secret";
    get_object = λ h. found o;
    update_object = λ h o'. (o', none);
    update_status = λ h o'. (o', none);
  };
  json = json;
  uuid = unary_uuid;
  set_status_condition = set_status_condition;
  now = λ h. 1000;
  format_duration = λ d. "30m0s";
  format_time = λ t. "2026-01-01T00:00:00Z";
  quote = λ s. s;
}

abbrev pub start : Object → World
start o = record { object = o; history = [] }
