-- ===== src/Reconciler/Once.antt =====
-- When a second instance is asked for.
use machine_api_provider_nvi.Base.{
  String, refl, ◌≡◌, ◌≢◌, ◌⊎◌, none, true, false, arith, sym, ap, subst, ◌∷◌, ◌∙◌,
}
use machine_api_provider_nvi.Actuator.World.{
  Env, World, History, Object, NicoClient, found, api, ApiCall,
}
use machine_api_provider_nvi.Actuator.World.Effects.{Adds, Adds-trans, same, more}
use machine_api_provider_nvi.Actuator.World.Counts.{tally, is_creation}
use machine_api_provider_nvi.Actuator.World.Growth.{Returns}
use machine_api_provider_nvi.Actuator.Health.{has_code}
use machine_api_provider_nvi.Actuator.Provider.Stored.{KeepsStatus}
use machine_api_provider_nvi.Actuator.Create.{create}
use machine_api_provider_nvi.Actuator.Create.Stored.{HoldsId-same, Creates, create-Creates}
use machine_api_provider_nvi.Actuator.Update.Evolves.{Evolves, Evolves-HoldsId}
use machine_api_provider_nvi.Actuator.Exists.Laws.{instance_exists-absent}
use machine_api_provider_nvi.Actuator.Exists.Created.{exists-AsksFor}
use machine_api_provider_nvi.Reconciler.{reconcile}
use machine_api_provider_nvi.Reconciler.Guards.{reconcile-MayCreate}

-- Among the effects from `start` to `history` is a request for the instance of this ID, and the
-- answer of the API to it was that there is none: with a 404, or without data.
pub record SaidAbsent (env : Env) (id : String) (start history : History) : Type 0 where
  pub client : NicoClient
  pub org : String
  pub asked_at : History
  pub since : Adds (λ k. true) start asked_at
  pub asked : Adds (λ k. true) (api client org (ApiCall.get_instance id) ∷ asked_at) history
  pub said :
      let reply = (env.nico client).get_instance asked_at org id in
      ((reply.failure ≢ none) × (has_code 404 reply.http ≡ true))
      ⊎ ((reply.failure ≡ none) × (reply.value ≡ none))

found-injective : (o o' : Object) → found o ≡ found o' → o ≡ o'
found-injective o o' e = grind (arith, e)

-- If encoding/json reads back a status but for the times of its conditions and its labels, and the
-- API server keeps the status: after a Create that succeeded, and any number of Updates that
-- succeeded, each from an object of the content that the call before it left, a reconciliation, at
-- any time, that finds an object of the content that is left sends a request for another instance
-- only if it has itself asked the API for the created instance and the answer was that there is
-- none, with a 404 or without data.
pub reconcile-SaidAbsent :
    (env : Env)
    → KeepsStatus env
    → (w w₁ w₂ w₃ : World) (u : Unit {0}) (o : Object) → Returns (create env) w u w₁
    → Evolves env w₁ w₂
    → env.kube.get_object w₃.history ≡ found o
    → o.kind ≡ w₂.object.kind
    → tally is_creation (reconcile env w₃).1.history ≢ tally is_creation w₃.history
    → (c : Creates env w₁) × SaidAbsent env c.id w₃.history (reconcile env w₃).1.history
reconcile-SaidAbsent env keeps w w₁ w₂ w₃ u o returned life f k g =
    let c = create-Creates env keeps w w₁ u returned in
    let may = reconcile-MayCreate env w₃ g in
    let same_object = may.in_memory ∙ found-injective may.object o (sym may.is_found ∙ f) in
    let holds =
      HoldsId-same env may.asking.object w₂.object c.id (ap (λ x. x.kind) same_object ∙ k)
        (Evolves-HoldsId env keeps c.id w₁ w₂ life c.stored) in
    let a = exists-AsksFor env keeps c.id may.asking may.creating false holds may.absent in
    (
      c,
      record {
        client = a.client;
        org = a.org;
        asked_at = a.before;
        since =
            Adds-trans (more refl same)
              (subst (λ h. Adds (λ k. true) h a.before) may.start a.since);
        asked = subst (λ h. Adds (λ k. true) h (reconcile env w₃).1.history) a.sent may.run;
        said = instance_exists-absent _ may.creating may.creating a.judged;
      },
    )
