-- ===== src/Webhook/Admission.antt =====
-- What the webhook admits, and what it keeps over updates.
use mathlib.Core.List.{Perm}
use machine_api_provider_nvi.Base.{
  String, false, Option, none, some, List, ◌≡◌, ◌∙◌, ap, subst, ◌↔◌, arith,
}
use machine_api_provider_nvi.Api.Errors.{LibResult, done, failed}
use machine_api_provider_nvi.Api.Types.{NicoMachineProviderSpec}
use machine_api_provider_nvi.ProviderId.{UuidLibrary}
use machine_api_provider_nvi.Webhook.{
  required_fields, is_blank, AdmissionRequest, Decoder, AdmissionResponse, allowed, denied, errored,
  check_machine, check_spec, check_update, check_old_machine, check_old_spec, handle,
}
use machine_api_provider_nvi.Webhook.Fields.{
  IsWellFormed, HasUuids, validate_provider_spec_iff, validate_uuids_iff,
  validate_immutable_fields_iff,
}

-- The response lets the request pass.
abbrev pub IsAllowed : AdmissionResponse → Type 0
IsAllowed (allowed m) = Unit
IsAllowed (denied e) = ⊥
IsAllowed (errored c e) = ⊥

abbrev pub SameOwner : NicoMachineProviderSpec → NicoMachineProviderSpec → Type 0
SameOwner a b = (a.site_id ≡ b.site_id) × (a.tenant_id ≡ b.tenant_id)

module _ (uuid : UuidLibrary) (order : List (String × String) → List (String × String))
    (decoder : Decoder) where
  -- What an old spec, if it can be read, asks of the new one.
  abbrev pub SpecAllows : LibResult NicoMachineProviderSpec → NicoMachineProviderSpec → Type 0
  SpecAllows (failed e) spec = Unit
  SpecAllows (done old_spec) spec = SameOwner old_spec spec

  -- What an old Machine asks: it can be decoded, and its spec, if it has one, allows the new one.
  abbrev pub MachineAllows : LibResult (Option String) → NicoMachineProviderSpec → Type 0
  MachineAllows (failed e) spec = ⊥
  MachineAllows (done none) spec = Unit
  MachineAllows (done (some raw)) spec = SpecAllows (decoder.unmarshal_spec raw) spec

  abbrev pub OldAllows : Option String → NicoMachineProviderSpec → Type 0
  OldAllows none spec = Unit
  OldAllows (some old) spec = MachineAllows (decoder.decode_raw old) spec

  check_old_spec_iff :
      (r : LibResult NicoMachineProviderSpec) (spec : NicoMachineProviderSpec)
      → IsAllowed (check_old_spec uuid order decoder r spec) ↔ SpecAllows r spec
  unfolding check_old_spec
  check_old_spec_iff (failed e) spec = ground arith
  check_old_spec_iff (done old_spec) spec =
      ground (arith, validate_immutable_fields_iff old_spec spec)

  check_old_machine_iff :
      (r : LibResult (Option String)) (spec : NicoMachineProviderSpec)
      → IsAllowed (check_old_machine uuid order decoder r spec) ↔ MachineAllows r spec
  unfolding check_old_machine
  check_old_machine_iff (failed e) spec = ground arith
  check_old_machine_iff (done none) spec = ground arith
  check_old_machine_iff (done (some raw)) spec =
      check_old_spec_iff (decoder.unmarshal_spec raw) spec

  check_update_iff :
      (old : Option String) (spec : NicoMachineProviderSpec)
      → IsAllowed (check_update uuid order decoder old spec) ↔ OldAllows old spec
  unfolding check_update
  check_update_iff none spec = ground arith
  check_update_iff (some old) spec = check_old_machine_iff (decoder.decode_raw old) spec

  -- For a request whose object decodes to a Machine with a spec that unmarshals and is not blank,
  -- and an order in which the map of fields is walked: the webhook allows the request exactly if
  -- the spec is well-formed, all its IDs are UUIDs, and the old object, if there is one, can be
  -- decoded and, if it has a spec that unmarshals, has the same site and tenant.
  pub handle-IsAllowed_iff :
      (req : AdmissionRequest) (raw : String) (spec : NicoMachineProviderSpec)
      → Perm (order (required_fields spec)) (required_fields spec)
      → decoder.decode req.object ≡ done (some raw)
      → decoder.unmarshal_spec raw ≡ done spec
      → is_blank spec ≡ false
      → IsAllowed (handle uuid order decoder req)
        ↔ (IsWellFormed spec × HasUuids uuid spec × OldAllows req.old_object spec)
  unfolding handle check_machine check_spec
  handle-IsAllowed_iff req raw spec perm d u nico =
      rw (d, check_machine)
        (rw (u, check_spec)
          (rw nico (
            ground (
              arith,
              validate_provider_spec_iff spec,
              validate_uuids_iff uuid order spec perm,
              check_update_iff req.old_object spec,
            ))))

  -- For a Machine whose old object has a spec that can be read, and a new spec that is not blank,
  -- is well-formed, has UUIDs and names another site or another tenant: the webhook refuses the
  -- update from the old object to the new one, but allows an update from the old object to one
  -- without a spec, and then one from that to the new one. In two updates a Machine gets another
  -- owner.
  pub handle-drop_then_set :
      (direct drop set : AdmissionRequest) (old raw old_raw : String)
      (spec old_spec : NicoMachineProviderSpec)
      → Perm (order (required_fields spec)) (required_fields spec)
      → decoder.decode direct.object ≡ done (some raw)
      → direct.old_object ≡ some old
      → drop.old_object ≡ some old
      → set.old_object ≡ some drop.object
      → set.object ≡ direct.object
      → decoder.decode_raw old ≡ done (some old_raw)
      → decoder.unmarshal_spec old_raw ≡ done old_spec
      → decoder.decode drop.object ≡ done none
      → decoder.decode_raw drop.object ≡ done none
      → decoder.unmarshal_spec raw ≡ done spec
      → is_blank spec ≡ false
      → IsWellFormed spec
      → HasUuids uuid spec
      → ¬ SameOwner old_spec spec
      → (¬ IsAllowed (handle uuid order decoder direct))
        × IsAllowed (handle uuid order decoder drop)
        × IsAllowed (handle uuid order decoder set)
  unfolding handle check_machine
  handle-drop_then_set direct drop set old raw old_raw spec old_spec perm d from _ onto same k l
        dropped bare u nico w h other =
      (
        (λ a.
            let (_, _, allows) = (handle-IsAllowed_iff direct raw spec perm d u nico).0 a in
            other (
              subst (λ r. SpecAllows r spec) l
                (subst (λ r. MachineAllows r spec) k (subst (λ o. OldAllows o spec) from allows)))),
        rw (dropped, check_machine) tt,
        (handle-IsAllowed_iff set raw spec perm (ap decoder.decode same ∙ d) u nico).1
            (w, h, rw onto (rw bare tt)),
      )
