-- ===== src/Examples/Specs.antt =====
-- The webhook and the validation.
use mathlib.Core.List.{Perm}
use mathlib.Core.List.Perm
use machine_api_provider_nvi.Base.{
  String, Option, none, some, List, ◌≡◌, ◌↔◌, refl, ap, inl, inr, ◌==◌, string_eq, if◌then◌else◌,
  arith,
}
use machine_api_provider_nvi.Api.Errors.{LibResult, done}
use machine_api_provider_nvi.Webhook.{
  AdmissionRequest, Decoder, required_fields, validate_uuids, handle,
}
use machine_api_provider_nvi.Webhook.Fields.{IsWellFormed, HasUuids, validate_uuids_iff}
use machine_api_provider_nvi.Webhook.Admission.{
  IsAllowed, OldAllows, handle-IsAllowed_iff, handle-drop_then_set,
}
use machine_api_provider_nvi.Actuator.Request.{validate_provider_spec}
use machine_api_provider_nvi.Actuator.Request.Laws.{validate_provider_spec-IsWellFormed}
use machine_api_provider_nvi.Examples.Sample.{unary_uuid, spec}

-- The map is walked in the order in which it is written.
abbrev in_order : List (String × String) → List (String × String)
in_order fields = fields

in_order-Perm : Perm (in_order (required_fields spec)) (required_fields spec)
in_order-Perm = Perm.refl (required_fields spec)

-- An object without a spec is "none".
abbrev decode_object : String → LibResult (Option String)
decode_object raw = if raw == "none" then done none else done (some raw)

abbrev decoder : Decoder
decoder = record {
  decode = decode_object;
  decode_raw = decode_object;
  unmarshal_spec =
      λ raw. if raw == "old" then done (record spec { site_id = "uuuuuu" }) else done spec;
}

accepted : validate_provider_spec spec ≡ none
unfolding validate_provider_spec
accepted = refl

spec-IsWellFormed : IsWellFormed spec
spec-IsWellFormed = (validate_provider_spec-IsWellFormed spec).0 accepted

spec-HasUuids : HasUuids unary_uuid spec
spec-HasUuids = record {
  site = refl;
  tenant = refl;
  vpc = refl;
  subnet = refl;
  instance_type = inl refl;
  machine = inr refl;
  operating_system = inl refl;
  network_security_group = inl refl;
  subnets = (refl, tt);
  services = tt;
}

validate_uuids_iff_example :
    (validate_uuids unary_uuid in_order spec ≡ none) ↔ HasUuids unary_uuid spec
validate_uuids_iff_example = validate_uuids_iff unary_uuid in_order spec in_order-Perm

abbrev drop_request : AdmissionRequest
drop_request = record { object = "none"; old_object = some "old" }

abbrev set_request : AdmissionRequest
set_request = record { object = "new"; old_object = some "none" }

handle-IsAllowed_iff_example : IsAllowed (handle unary_uuid in_order decoder set_request) ↔ (
    IsWellFormed spec
    × HasUuids unary_uuid spec
    × OldAllows unary_uuid in_order decoder set_request.old_object spec)
handle-IsAllowed_iff_example =
    handle-IsAllowed_iff unary_uuid in_order decoder set_request "new" spec in_order-Perm refl refl
      refl

-- The same new object in one update.
abbrev direct_request : AdmissionRequest
direct_request = record { object = "new"; old_object = some "old" }

handle-drop_then_set_example :
    (¬ IsAllowed (handle unary_uuid in_order decoder direct_request))
    × IsAllowed (handle unary_uuid in_order decoder drop_request)
    × IsAllowed (handle unary_uuid in_order decoder set_request)
handle-drop_then_set_example =
    handle-drop_then_set unary_uuid in_order decoder direct_request drop_request set_request "old"
      "new" "old" spec (record spec { site_id = "uuuuuu" }) in_order-Perm refl refl refl refl refl
      refl refl refl refl refl refl spec-IsWellFormed spec-HasUuids
      (λ same. grind (arith, ap (λ s. s == spec.site_id) same.0))

validate_provider_spec-IsWellFormed_example :
    (validate_provider_spec spec ≡ none) ↔ IsWellFormed spec
validate_provider_spec-IsWellFormed_example = validate_provider_spec-IsWellFormed spec
