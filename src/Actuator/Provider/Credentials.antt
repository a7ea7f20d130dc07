-- ===== src/Actuator/Provider/Credentials.antt =====
-- Where the client that getNicoClient returns has its endpoint, its token and its organisation from.
use machine_api_provider_nvi.Base.{
  String, ◌∷◌, Bool, true, false, Option, none, some, maybe, ◌≡◌, arith, ap, ◌∙◌, sym,
  if◌then◌else◌,
}
use machine_api_provider_nvi.Base.Dict.{Dict, lookup}
use machine_api_provider_nvi.Api.Errors.{GoError, done}
use machine_api_provider_nvi.Api.Types.{NicoMachineProviderSpec}
use machine_api_provider_nvi.Actuator.World.{Env, World, Effect, History, NicoClient, built}
use machine_api_provider_nvi.Actuator.World.Monad.{M, ◌>>=◌, pure, fail, lift}
use machine_api_provider_nvi.Actuator.World.Calls.{request, get_secret}
use machine_api_provider_nvi.Actuator.World.Growth.{
  Returns, Returns-lift, Returns-bind, Returns-wrapping, Returns-pure, not-Returns-fail,
}
use machine_api_provider_nvi.Actuator.Provider.{require_field, build_client, get_nico_client}

module _ {A : Type 0} where
  Returns-maybe :
      (o : Option A) (e : GoError) (a : A) (w w' : World)
      → Returns (maybe o (fail e) pure) w a w'
      → o ≡ some a
  Returns-maybe none e a w w' h = absurd (not-Returns-fail e a w w' h)
  Returns-maybe (some b) e a w w' h = let (same, _) = Returns-pure b a w w' h in ap some same

if_false :
    {A : Type 0} (b : Bool) (m n : M A) (w w' : World) (a : A)
    → b ≡ false
    → Returns (if b then m else n) w a w'
    → Returns n w a w'
if_false true m n w w' a e h = absurd (grind (arith, e))
if_false false m n w w' a e h = h

-- Where the client and the organisation come from: a secret that was read, with these fields.
pub record IsFromSecret (env : Env) (spec : NicoMachineProviderSpec) (h : History)
    (client : NicoClient) (org : String) : Type 0 where
  pub fields : Dict String
  pub endpoint : String
  pub token : String
  pub is_read :
      env.kube.get_secret h spec.credentials_secret.name spec.credentials_secret.namespace
      ≡ done fields
  pub has_endpoint : lookup "endpoint" fields ≡ some endpoint
  pub has_org : lookup "orgName" fields ≡ some org
  pub has_token : lookup "token" fields ≡ some token
  pub is_built : client ≡ built endpoint token

module _ (env : Env) (spec : NicoMachineProviderSpec) where
  get_secret-Returns :
      (name namespace : String) (fields : Dict String) (w w' : World)
      → Returns (get_secret env name namespace) w fields w'
      → env.kube.get_secret w.history name namespace ≡ done fields
  unfolding request lift ◌>>=◌
  get_secret-Returns name namespace fields w w' h =
      let asked = record w { history = Effect.get_secret name namespace ∷ w.history } in
      let (same, _) =
        Returns-lift (env.kube.get_secret w.history name namespace) fields asked w' h in
      same

  build_client-IsFromSecret :
      (w w' : World) (client : NicoClient) (org : String)
      → Returns (build_client env spec.credentials_secret) w (client, org) w'
      → IsFromSecret env spec w.history client org
  unfolding build_client require_field
  build_client-IsFromSecret w w' client org h =
      let both : NicoClient × String = (client, org) in
      let read = Returns-bind _ _ w w' both h in
      let first = Returns-bind _ _ read.state w' both read.second in
      let second = Returns-bind _ _ first.state w' both first.second in
      let third = Returns-bind _ _ second.state w' both second.second in
      let (same, _) =
        Returns-pure {A = NicoClient × String} (built first.value third.value, second.value)
          (client, org) third.state w' third.second in
      let same_client = ap {A = NicoClient × String} (λ r. r.0) same in
      let same_org = ap {A = NicoClient × String} (λ r. r.1) same in
      record {
        fields = read.value;
        endpoint = first.value;
        token = third.value;
        is_read =
            get_secret-Returns _ _ read.value w read.state
              (Returns-wrapping _ _ w read.state read.value read.first);
        has_endpoint = Returns-maybe _ _ first.value read.state first.state first.first;
        has_org =
            Returns-maybe _ _ second.value first.state second.state second.first ∙ ap some same_org;
        has_token = Returns-maybe _ _ third.value second.state third.state third.first;
        is_built = sym same_client;
      }

  -- Without an injected client, the client and the organisation are made of the endpoint, the token
  -- and the orgName in the secret that the spec names, as it was read.
  pub get_nico_client-IsFromSecret :
      env.has_client ≡ false
      → (w w' : World) (client : NicoClient) (org : String)
      → Returns (get_nico_client env spec) w (client, org) w'
      → IsFromSecret env spec w.history client org
  unfolding get_nico_client
  get_nico_client-IsFromSecret h w w' client org r =
      build_client-IsFromSecret w w' client org (if_false env.has_client _ _ w w' (client, org) h r)
