-- ===== src/Reconciler/Leaks.antt =====
-- What has become of the instance when the finalizers are dropped.
use machine_api_provider_nvi.Base.{
  true, false, refl, sym, ◌∷◌, ◌≡◌, ◌≢◌, ◌∙◌, ap, subst, eqb, arith, if◌then◌else◌,
}
use machine_api_provider_nvi.Actuator.World.{Env, World, Object, Effect, found}
use machine_api_provider_nvi.Actuator.World.Monad.{◌>>=◌, set_memory, attempt, caught}
use machine_api_provider_nvi.Actuator.World.Calls.{request}
use machine_api_provider_nvi.Actuator.World.Effects.{Adds, Adds-trans, same, more, Emits-continue}
use machine_api_provider_nvi.Reconciler.Effects.{after_delete-Emits}
use machine_api_provider_nvi.Actuator.World.Counts.{tally}
use machine_api_provider_nvi.Actuator.World.Growth.{Returns}
use machine_api_provider_nvi.Actuator.Provider.Stored.{KeepsStatus}
use machine_api_provider_nvi.Actuator.Create.{create}
use machine_api_provider_nvi.Actuator.Create.Stored.{Creates}
use machine_api_provider_nvi.Actuator.Update.Evolves.{Evolves}
use machine_api_provider_nvi.Actuator.Delete.{delete}
use machine_api_provider_nvi.Actuator.Delete.Created.{Deletes, create-delete}
use machine_api_provider_nvi.Reconciler.{
  reconcile, reconcile_found, reconcile_normal, reconcile_delete, after_delete,
}
use machine_api_provider_nvi.Reconciler.Finalizers.{is_object_write, reconcile_delete-deleted}

module _ (env : Env) where
  -- The state in which the deletion of an object that was found starts.
  abbrev pub deleting : World → Object → World
  deleting w o = record { object = o; history = Effect.get_object ∷ w.history }

  reconcile-deleting :
      (w : World) (o : Object)
      → env.kube.get_object w.history ≡ found o
      → eqb o.deletion_timestamp 0 ≡ false
      → reconcile env w ≡ reconcile_delete env (deleting w o)
  unfolding reconcile reconcile_found ◌>>=◌ request set_memory
  reconcile-deleting w o e d =
      ap (λ r. reconcile_found env r (record w { history = Effect.get_object ∷ w.history })) e
      ∙ ap (λ b. (if b then reconcile_normal env else reconcile_delete env) (deleting w o)) d

  reconcile_delete-Adds :
      (w : World) → Adds (λ k. true) (delete env w).1.history (reconcile_delete env w).1.history
  unfolding reconcile_delete ◌>>=◌ attempt
  reconcile_delete-Adds w =
      Emits-continue (caught (delete env w).0) (after_delete env) (delete env w).1
        (after_delete-Emits env refl)

  -- If encoding/json reads back a status but for the times of its conditions and its labels, and
  -- the API server keeps the status: after a Create that succeeded, and any number of Updates that
  -- succeeded, each from an object of the content that the call before it left, a reconciliation,
  -- at any time, that finds an object of the content that is left, which is being deleted, and
  -- writes the object, which drops its finalizers, has itself asked the API to delete the very
  -- instance that the answer to the creation named, and the answer was a success or a 404.
  pub reconcile-Deletes :
      KeepsStatus env
      → (w w₁ w₂ w₃ : World) (u : Unit {0}) (o : Object) → Returns (create env) w u w₁
      → Evolves env w₁ w₂
      → env.kube.get_object w₃.history ≡ found o
      → o.kind ≡ w₂.object.kind
      → o.deletion_timestamp ≢ 0
      → tally is_object_write (reconcile env w₃).1.history ≢ tally is_object_write w₃.history
      → (c : Creates env w₁) × Deletes env c.id w₃.history (reconcile env w₃).1
  reconcile-Deletes keeps w w₁ w₂ w₃ u o returned life f k d g =
      let run = reconcile-deleting w₃ o f (ground (arith, d)) in
      let written =
        subst (λ r. tally is_object_write r.1.history ≢ tally is_object_write w₃.history) run g in
      let accepted = reconcile_delete-deleted env (deleting w₃ o) written in
      let done = (delete env (deleting w₃ o)).1 in
      let (c, deletes) =
        create-delete env keeps w w₁ w₂ done u tt o (Effect.get_object ∷ w₃.history) returned life k
          (λ i. (accepted i, done)) in
      let rest =
        subst (λ r. Adds (λ k. true) done.history r.1.history) (sym run)
          (reconcile_delete-Adds (deleting w₃ o)) in
      (
        c,
        record {
          client = deletes.client;
          org = deletes.org;
          req = deletes.req;
          before = deletes.before;
          since = Adds-trans (more refl same) deletes.since;
          sent = Adds-trans deletes.sent rest;
          accepted = deletes.accepted;
        },
      )
