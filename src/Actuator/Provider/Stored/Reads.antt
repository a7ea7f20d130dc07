-- ===== src/Actuator/Provider/Stored/Reads.antt =====
-- What getProviderStatus reads of an object that holds a status.
use machine_api_provider_nvi.Base.{maybe, String, Option, none, some, ◌≡◌, arith, ap, ◌∙◌, sym}
use machine_api_provider_nvi.Api.Errors.{done}
use machine_api_provider_nvi.Api.Types.{NicoMachineProviderStatus}
use machine_api_provider_nvi.Actuator.World.{
  Env, World, Object, Kind, typed, unstructured, unsupported, not_client_object, Nested,
  nested_error, nested_missing, nested_field,
}
use machine_api_provider_nvi.Actuator.World.Growth.{
  Returns, Returns-bind, Returns-wrapping, Returns-lift, not-Returns-fail,
}
use machine_api_provider_nvi.Actuator.Provider.{
  unmarshal_status, status_of_typed, status_of_nested, status_of_kind, get_provider_status,
  unsupported_type,
}
use machine_api_provider_nvi.Actuator.Provider.Stored.{Holds, kept}

done-injective : (a b : NicoMachineProviderStatus) → done a ≡ done b → a ≡ b
done-injective a b e = grind (arith, e)

module _ (env : Env) (s : NicoMachineProviderStatus) where
  unmarshal_status-Returns :
      (raw : String) (w w' : World) (s' : NicoMachineProviderStatus)
      → env.json.unmarshal_status raw ≡ done s
      → Returns (unmarshal_status env raw) w s' w'
      → s' ≡ s
  unfolding unmarshal_status
  unmarshal_status-Returns raw w w' s' e h =
      let (same, _) = Returns-lift _ s' w w' (Returns-wrapping _ _ w w' s' h) in
      done-injective s' s (sym same ∙ e)

  status_of_typed-Holds :
      (o : Option String) (raw : String) (w w' : World) (s' : NicoMachineProviderStatus)
      → maybe o nested_missing (λ r. nested_field (done r)) ≡ nested_field (done raw)
      → env.json.unmarshal_status raw ≡ done s
      → Returns (status_of_typed env o) w s' w'
      → s' ≡ s
  unfolding status_of_typed
  status_of_typed-Holds none raw w w' s' stored e h = cc
  status_of_typed-Holds (some r) raw w w' s' stored e h =
      let same : r ≡ raw = grind (arith, stored) in
      unmarshal_status-Returns r w w' s' (ap env.json.unmarshal_status same ∙ e) h

  status_of_nested-Holds :
      (n : Nested) (raw : String) (w w' : World) (s' : NicoMachineProviderStatus)
      → n ≡ nested_field (done raw)
      → env.json.unmarshal_status raw ≡ done s
      → Returns (status_of_nested env n) w s' w'
      → s' ≡ s
  unfolding status_of_nested
  status_of_nested-Holds (nested_error x) raw w w' s' stored e h = cc
  status_of_nested-Holds nested_missing raw w w' s' stored e h = cc
  status_of_nested-Holds (nested_field r) raw w w' s' stored e h =
      let p = Returns-bind _ _ w w' s' h in
      let (is_done, _) =
        Returns-lift _ p.value w p.state (Returns-wrapping _ _ w p.state p.value p.first) in
      let same : p.value ≡ raw = grind (arith, is_done, stored) in
      unmarshal_status-Returns p.value p.state w' s' (ap env.json.unmarshal_status same ∙ e)
        p.second

module _ (env : Env) (s : NicoMachineProviderStatus) where
  status_of_kind-Holds :
      (k : Kind) (w w' : World) (s' : NicoMachineProviderStatus) (holds : Holds env.json k s)
      → Returns (status_of_kind env k) w s' w'
      → s' ≡ holds.read
  unfolding status_of_kind unsupported_type
  status_of_kind-Holds (typed m) w w' s' holds h =
      status_of_typed-Holds env holds.read m.provider_status holds.raw w w' s' holds.is_stored
        holds.is_read h
  status_of_kind-Holds (unstructured content) w w' s' holds h =
      status_of_nested-Holds env holds.read _ holds.raw w w' s' holds.is_stored holds.is_read h
  status_of_kind-Holds unsupported w w' s' holds h = absurd (not-Returns-fail _ s' w w' h)
  status_of_kind-Holds not_client_object w w' s' holds h = absurd (not-Returns-fail _ s' w w' h)

  -- getProviderStatus gives the status that the object holds, as it is read back.
  pub get_provider_status-Holds :
      (o : Object) (w w' : World) (s' : NicoMachineProviderStatus)
      → Holds env.json o.kind s
      → Returns (get_provider_status env o) w s' w'
      → kept s' ≡ kept s
  unfolding get_provider_status
  get_provider_status-Holds o w w' s' holds h =
      ap kept (status_of_kind-Holds o.kind w w' s' holds h) ∙ holds.same
