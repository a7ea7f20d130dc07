-- ===== src/Actuator/Client/Credentials.antt =====
-- With what credentials the calls of an actuator that NewActuator makes reach the server.
use machine_api_provider_nvi.Base.{String, Bool, ◌≡◌, refl, ap, ◌∙◌}
use machine_api_provider_nvi.Api.Types.{NicoMachineProviderSpec}
use machine_api_provider_nvi.Actuator.World.{Env, World, History, NicoClient, injected, ApiCall}
use machine_api_provider_nvi.Actuator.World.Growth.{Returns}
use machine_api_provider_nvi.Actuator.Provider.{get_nico_client}
use machine_api_provider_nvi.Actuator.Provider.Credentials.{
  IsFromSecret, get_nico_client-IsFromSecret,
}
use machine_api_provider_nvi.Actuator.ApiClient.{ApiClient, Context}
use machine_api_provider_nvi.Actuator.Client.{new_actuator, client_of}
use machine_api_provider_nvi.Actuator.Client.Wire.{
  Server, IsServed, answer, served, answer-nico_client,
}

module _ {Deleted S : Type 0} (new_api_client : String → ApiClient Deleted S)
    (server : String → Server Deleted S) where
  -- The client and the organisation come from the spec's secret, and every call that is made with
  -- them reaches the server at the secret's endpoint, with the secret's token.
  pub record IsAuthorised (env : Env) (spec : NicoMachineProviderSpec) (h : History)
      (client : NicoClient) (org : String) : Type 0 where
    pub source : IsFromSecret env spec h client org
    pub answers :
        (later : History) (call : ApiCall)
        → answer (env.nico client) later org call
          ≡ served (server source.endpoint) source.token org later call

  -- NewActuator's actuator, whose clients are built over the SDK.
  unfoldable pub sdk_actuator : Bool → Context → Env → Env
  unfolding new_actuator client_of
  sdk_actuator has_recorder ctx env =
      new_actuator has_recorder
        (record env { nico = client_of new_api_client ctx (env.nico injected) })

  -- Over an SDK whose methods send to the server of their endpoint what their requests were given
  -- and the access token of their context, the client that an actuator of NewActuator gets has
  -- endpoint, token and organisation from the secret that the spec names, as it was read, and each
  -- call of the actuator with it is answered by the server at this endpoint, for a request with
  -- this token, this organisation, and the IDs and the body of the call.
  pub get_nico_client-IsAuthorised :
      ((endpoint : String) → IsServed (new_api_client endpoint) (server endpoint))
      → (has_recorder : Bool) (ctx : Context) (env : Env) (spec : NicoMachineProviderSpec)
        (w w' : World) (client : NicoClient) (org : String)
      → Returns (get_nico_client (sdk_actuator has_recorder ctx env) spec) w (client, org) w'
      → IsAuthorised (sdk_actuator has_recorder ctx env) spec w.history client org
  unfolding sdk_actuator new_actuator client_of
  get_nico_client-IsAuthorised sends has_recorder ctx env spec w w' client org h =
      let actuator = sdk_actuator has_recorder ctx env in
      let s = get_nico_client-IsFromSecret actuator spec refl w w' client org h in
      record {
        source = s;
        answers = λ later call.
            ap (λ c. answer (actuator.nico c) later org call) s.is_built
            ∙ answer-nico_client (server s.endpoint) s.token org (new_api_client s.endpoint) ctx
                (sends s.endpoint) later call;
      }
