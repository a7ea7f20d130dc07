-- ===== src/Actuator/Client/Wire.antt =====
-- What the requests of nicoClient carry, over an SDK that behaves as it is documented.
use machine_api_provider_nvi.Base.{String, true, Option, none, some, List, ◌≡◌, ap, ◌∙◌, eq_refl}
use machine_api_provider_nvi.Base.Dict.{lookup}
use machine_api_provider_nvi.Api.Sdk.{
  Instance, Machine, Tenant, StatusDetail, MachineHealthReportEntry, MachineValidationRun,
  TenantAccount, Reply,
}
use machine_api_provider_nvi.Actuator.World.{History, Nico, ApiCall}
use machine_api_provider_nvi.Actuator.ApiClient.{Context, Operation, Method, ApiClient}
use machine_api_provider_nvi.Actuator.Client.{
  drop_value, auth_ctx, plain, setting, nico_client, get_all_machine, get_all_sku,
  get_all_site_explorer_endpoint,
}

-- A request as it reaches a server.
pub record Wire (Route Body : Type 0) : Type 0 where
  pub access_token : Option String
  pub org : String
  pub path : Route
  pub body : Option Body

-- A server's answers to the requests of all methods.
pub record Server (Deleted S : Type 0) : Type 1 where
  pub reply : {P B R : Type 0} → Operation Deleted S P B R → Wire P B → R

-- The SDK's method sends what its request was given, and the access token of the context.
pub record Sends {P B R : Type 0} (key : String) (m : Method P B R) (server : Wire P B → R)
    : Type 0 where
  pub wire : m.Request → Wire P B
  pub wire-start :
      (ctx : Context) (org : String) (path : P)
      → wire (m.start ctx org path)
        ≡ record { access_token = lookup key ctx; org = org; path = path; body = none }
  pub wire-set : (r : m.Request) (b : B) → wire (m.set r b) ≡ record (wire r) { body = some b }
  pub execute-wire : (r : m.Request) → m.execute r ≡ server (wire r)

-- What the client's methods give are the answers of this server.
pub record IsServed {Deleted S : Type 0} (client : ApiClient Deleted S) (server : Server Deleted S)
    : Type 1 where
  pub sends :
      {P B R : Type 0} (op : Operation Deleted S P B R)
      → Sends client.access_token_key (client.method op) (server.reply op)

-- The data of the replies to a call.
abbrev pub DataOf : ApiCall → Type 0
DataOf (ApiCall.create_instance req) = Option Instance
DataOf (ApiCall.get_instance id) = Option Instance
DataOf (ApiCall.delete_instance id req) = Unit {0}
DataOf (ApiCall.update_instance id req) = Unit {0}
DataOf (ApiCall.get_machine id) = Option Machine
DataOf ApiCall.get_current_tenant = Option Tenant
DataOf (ApiCall.get_instance_status_history id) = List StatusDetail
DataOf (ApiCall.get_all_machine_health_report id) = List MachineHealthReportEntry
DataOf (ApiCall.create_or_update_machine_health_report id req) = Unit {0}
DataOf (ApiCall.delete_machine_health_report id source) = Unit {0}
DataOf (ApiCall.get_machine_validation_runs id) = List MachineValidationRun
DataOf (ApiCall.get_machine_status_history id) = List StatusDetail
DataOf ApiCall.get_all_tenant_account = List TenantAccount

-- The answer of an API to a call.
abbrev pub answer : Nico → History → String → (call : ApiCall) → Reply (DataOf call)
answer nico h org (ApiCall.create_instance req) = nico.create_instance h org req
answer nico h org (ApiCall.get_instance id) = nico.get_instance h org id
answer nico h org (ApiCall.delete_instance id req) = nico.delete_instance h org id req
answer nico h org (ApiCall.update_instance id req) = nico.update_instance h org id req
answer nico h org (ApiCall.get_machine id) = nico.get_machine h org id
answer nico h org ApiCall.get_current_tenant = nico.get_current_tenant h org
answer nico h org (ApiCall.get_instance_status_history id) =
    nico.get_instance_status_history h org id
answer nico h org (ApiCall.get_all_machine_health_report id) =
    nico.get_all_machine_health_report h org id
answer nico h org (ApiCall.create_or_update_machine_health_report id req) =
    nico.create_or_update_machine_health_report h org id req
answer nico h org (ApiCall.delete_machine_health_report id source) =
    nico.delete_machine_health_report h org id source
answer nico h org (ApiCall.get_machine_validation_runs id) =
    nico.get_machine_validation_runs h org id
answer nico h org (ApiCall.get_machine_status_history id) = nico.get_machine_status_history h org id
answer nico h org ApiCall.get_all_tenant_account = nico.get_all_tenant_account h org

abbrev wire : {P B : Type 0} → String → String → P → Option B → Wire P B
wire token org path body = record { access_token = some token; org = org; path = path; body = body }

module _ {Deleted S : Type 0} (server : Server Deleted S) (token org : String) where
  -- A server's answer to a call, made with a token for an organisation.
  abbrev pub served : History → (call : ApiCall) → Reply (DataOf call)
  served h (ApiCall.create_instance req) =
      server.reply Operation.create_instance (wire token org tt (some req)) h
  served h (ApiCall.get_instance id) =
      server.reply Operation.get_instance (wire token org id none) h
  served h (ApiCall.delete_instance id req) =
      drop_value (server.reply Operation.delete_instance (wire token org id req) h)
  served h (ApiCall.update_instance id req) =
      drop_value (server.reply Operation.update_instance (wire token org id (some req)) h)
  served h (ApiCall.get_machine id) = server.reply Operation.get_machine (wire token org id none) h
  served h ApiCall.get_current_tenant =
      server.reply Operation.get_current_tenant (wire token org tt none) h
  served h (ApiCall.get_instance_status_history id) =
      server.reply Operation.get_instance_status_history (wire token org id none) h
  served h (ApiCall.get_all_machine_health_report id) =
      server.reply Operation.get_all_machine_health_report (wire token org id none) h
  served h (ApiCall.create_or_update_machine_health_report id req) = drop_value (
      server.reply Operation.create_or_update_machine_health_report (wire token org id (some req))
        h)
  served h (ApiCall.delete_machine_health_report id source) =
      server.reply Operation.delete_machine_health_report (wire token org (id, source) none) h
  served h (ApiCall.get_machine_validation_runs id) =
      server.reply Operation.get_all_machine_validation_runs (wire token org id none) h
  served h (ApiCall.get_machine_status_history id) =
      server.reply Operation.get_machine_status_history (wire token org id none) h
  served h ApiCall.get_all_tenant_account =
      server.reply Operation.get_all_tenant_account (wire token org tt none) h

  module _ (client : ApiClient Deleted S) (ctx : Context) where
    lookup-auth_ctx : lookup client.access_token_key (auth_ctx client token ctx) ≡ some token
    unfolding lookup auth_ctx
    lookup-auth_ctx = simp (eq_refl client.access_token_key)

    module _ (s : IsServed client server) {P B R : Type 0} (op : Operation Deleted S P B R)
        (path : P) where
      start-wire :
          let o = s.sends op in
          o.wire ((client.method op).start (auth_ctx client token ctx) org path)
          ≡ wire token org path none
      start-wire =
          (s.sends op).wire-start (auth_ctx client token ctx) org path
          ∙ ap (λ t. record { access_token = t; org = org; path = path; body = none })
              lookup-auth_ctx

      plain-wire : plain client token ctx org op path ≡ server.reply op (wire token org path none)
      unfolding plain
      plain-wire = (s.sends op).execute-wire _ ∙ ap (server.reply op) start-wire

      setting-wire :
          (b : B)
          → setting client token ctx org op path b ≡ server.reply op (wire token org path (some b))
      unfolding setting
      setting-wire b =
          let o = s.sends op in
          o.execute-wire _
          ∙ ap (server.reply op)
              (o.wire-set _ b ∙ ap {A = Wire P B} (λ r. record r { body = some b }) start-wire)

    module _ (s : IsServed client server) where
      -- Over an SDK whose methods send to a server what their requests were given, and the access
      -- token of their context, a nicoClient's answer to each call of the actuator is what the
      -- server gives to a request with the client's token, and with the organisation, the IDs and
      -- the body of the call; a deletion has a body if and only if the call has one.
      pub answer-nico_client :
          (h : History) (call : ApiCall)
          → answer (nico_client client token ctx) h org call ≡ served h call
      unfolding nico_client
      answer-nico_client h (ApiCall.create_instance req) =
          λ i. setting-wire s Operation.create_instance tt req i h
      answer-nico_client h (ApiCall.get_instance id) =
          λ i. plain-wire s Operation.get_instance id i h
      answer-nico_client h (ApiCall.delete_instance id none) =
          λ i. drop_value (plain-wire s Operation.delete_instance id i h)
      answer-nico_client h (ApiCall.delete_instance id (some req)) =
          λ i. drop_value (setting-wire s Operation.delete_instance id req i h)
      answer-nico_client h (ApiCall.update_instance id req) =
          λ i. drop_value (setting-wire s Operation.update_instance id req i h)
      answer-nico_client h (ApiCall.get_machine id) = λ i. plain-wire s Operation.get_machine id i h
      answer-nico_client h ApiCall.get_current_tenant =
          λ i. plain-wire s Operation.get_current_tenant tt i h
      answer-nico_client h (ApiCall.get_instance_status_history id) =
          λ i. plain-wire s Operation.get_instance_status_history id i h
      answer-nico_client h (ApiCall.get_all_machine_health_report id) =
          λ i. plain-wire s Operation.get_all_machine_health_report id i h
      answer-nico_client h (ApiCall.create_or_update_machine_health_report id req) = λ i.
          drop_value (setting-wire s Operation.create_or_update_machine_health_report id req i h)
      answer-nico_client h (ApiCall.delete_machine_health_report id source) =
          λ i. plain-wire s Operation.delete_machine_health_report (id, source) i h
      answer-nico_client h (ApiCall.get_machine_validation_runs id) =
          λ i. plain-wire s Operation.get_all_machine_validation_runs id i h
      answer-nico_client h (ApiCall.get_machine_status_history id) =
          λ i. plain-wire s Operation.get_machine_status_history id i h
      answer-nico_client h ApiCall.get_all_tenant_account =
          λ i. plain-wire s Operation.get_all_tenant_account tt i h

      -- The three lists of the hosts' controller are fetched likewise, the machines with their
      -- metadata.
      lists-wire :
          (get_all_machine client token ctx org
            ≡ server.reply Operation.get_all_machine (wire token org tt (some true)))
          × (get_all_sku client token ctx org
              ≡ server.reply Operation.get_all_sku (wire token org tt none))
          × (get_all_site_explorer_endpoint client token ctx org
              ≡ server.reply Operation.get_all_site_explorer_endpoint (wire token org tt none))
      unfolding get_all_machine get_all_sku get_all_site_explorer_endpoint
      lists-wire = (setting-wire s _ tt true, plain-wire s _ tt, plain-wire s _ tt)
