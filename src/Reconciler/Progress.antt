-- ===== src/Reconciler/Progress.antt =====
-- How a new machine gets from its first reconciliation to its creation.
use machine_api_provider_nvi.Base.{
  ◌≡◌, refl, ap, ◌∙◌, String, true, false, Option, none, List, [], ◌∷◌, ◌++◌, eqb, string_eq,
  eq_refl, arith,
}
use machine_api_provider_nvi.Api.Errors.{GoError, Outcome, ok, err, panic}
use machine_api_provider_nvi.Actuator.World.{Env, World, Object, Effect, found}
use machine_api_provider_nvi.Actuator.World.Monad.{
  M, ◌>>=◌, pure, continue, attempt, caught, get_memory, set_memory,
}
use machine_api_provider_nvi.Actuator.World.Calls.{request, update_with}
use machine_api_provider_nvi.Actuator.Create.{create}
use machine_api_provider_nvi.Actuator.Exists.{exists}
use machine_api_provider_nvi.Reconciler.{
  machine_finalizer, done_after, contains_finalizer, add_finalizer, add_our_finalizer,
  create_or_update, reconcile_normal, reconcile_found, reconcile, try,
}

-- The object with our finalizer at the end.
abbrev pub with_finalizer : Object → Object
with_finalizer o = record o { finalizers = o.finalizers ++ machine_finalizer ∷ [] }

contains-append : (f : String) (fs : List String) → contains_finalizer f (fs ++ f ∷ []) ≡ true
contains-append f [] = ground (arith, eq_refl f)
contains-append f (g ∷ fs) = ground (arith, contains-append f fs)

attempt-state :
    {A B : Type 0} (m : M A) (k : Option GoError → B) (w : World)
    → ((attempt m >>= λ e. pure (k e)) w).1 ≡ (m w).1
unfolding attempt pure ◌>>=◌
attempt-state {A = A} m k w = after (m w).0
  where
    after : (r : Outcome A) → (continue (caught r) (λ e. pure (k e)) (m w).1).1 ≡ (m w).1
    after (ok a) = refl
    after (err e) = refl
    after panic = refl

module _ (env : Env) where
  -- The history that the first reconciliation leaves.
  abbrev pub finalized : World → Object → World
  finalized w o = record {
    object = with_finalizer o;
    history = Effect.update_object (with_finalizer o) ∷ Effect.get_object ∷ w.history;
  }

  adds_finalizer :
      (w : World) (o : Object)
      → env.kube.get_object w.history ≡ found o
      → o.deletion_timestamp ≡ 0
      → contains_finalizer machine_finalizer o.finalizers ≡ false
      → env.kube.update_object (Effect.get_object ∷ w.history) (with_finalizer o)
        ≡ (with_finalizer o, none)
      → reconcile env w ≡ (ok (done_after 1), finalized w o)
  unfolding reconcile reconcile_found reconcile_normal add_our_finalizer add_finalizer request
      attempt update_with get_memory set_memory pure ◌>>=◌
  adds_finalizer w o g d f u = rw g (rw (ap (λ t. eqb t 0) d) (rw f (rw u)))

  -- The state in which Exists is asked by the next one.
  abbrev pub asked : World → Object → World
  asked w o = record (finalized w o) { history = Effect.get_object ∷ (finalized w o).history }

  creates :
      (w w' : World) (o : Object)
      → env.kube.get_object w.history ≡ found o
      → o.deletion_timestamp ≡ 0
      → contains_finalizer machine_finalizer o.finalizers ≡ true
      → exists env (record { object = o; history = Effect.get_object ∷ w.history }) ≡ (ok false, w')
      → (reconcile env w).1 ≡ (create env w').1
  unfolding reconcile reconcile_found reconcile_normal create_or_update try request attempt
      get_memory set_memory pure ◌>>=◌
  creates w w' o g d f x =
      rw g (rw (ap (λ t. eqb t 0) d) (rw f (rw x (attempt-state (create env) _ w'))))

  -- For a Machine without our finalizer that is not being deleted, and an API server that stores
  -- the object with the finalizer and gives it back: the first reconciliation adds the finalizer,
  -- makes no other write and asks for another one after a second; and if Exists says in the next
  -- one that there is no instance, that reconciliation ends in the state in which Create ends after
  -- Exists.
  pub reconcile-reaches_create :
      (w w' : World) (o : Object)
      → env.kube.get_object w.history ≡ found o
      → o.deletion_timestamp ≡ 0
      → contains_finalizer machine_finalizer o.finalizers ≡ false
      → env.kube.update_object (Effect.get_object ∷ w.history) (with_finalizer o)
        ≡ (with_finalizer o, none)
      → env.kube.get_object (finalized w o).history ≡ found (with_finalizer o)
      → exists env (asked w o) ≡ (ok false, w')
      → (reconcile env w ≡ (ok (done_after 1), finalized w o))
        × ((reconcile env (reconcile env w).1).1 ≡ (create env w').1)
  reconcile-reaches_create w w' o g d f u g' x =
      let first = adds_finalizer w o g d f u in
      (
        first,
        ap (λ r. (reconcile env r.1).1) first
            ∙ creates (finalized w o) w' (with_finalizer o) g' d
                (contains-append machine_finalizer o.finalizers) x,
      )
