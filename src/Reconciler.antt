-- ===== src/Reconciler.antt =====
-- pkg/controllers/machine/controller.go: the reconciler of Machine objects. Its log is left out.
pub mod Laws
pub mod Once
pub mod Leaks
pub mod Errors
pub mod Guards
pub mod Finalizers
pub mod Effects
pub mod Progress
use machine_api_provider_nvi.Base.{
  ℕ, ◌*◌, ◌^◌, String, Bool, true, false, not, ◌||◌, Option, none, some, List, [], ◌∷◌, ◌++◌, eqb,
  any, ◌==◌, string_eq, if◌then◌else◌,
}
use machine_api_provider_nvi.Api.Errors.{
  ApiErrorKind, error_transient, error_terminal, GoError, wrapf, external, as_classified, Outcome,
  ok, err, panic,
}
use machine_api_provider_nvi.Actuator.World.{
  Env, World, Object, Effect, found, not_found, get_failed, Found,
}
use machine_api_provider_nvi.Actuator.World.Monad.{
  M, ◌>>=◌, ◌>>◌, pure, crash, attempt, get_memory, set_memory,
}
use machine_api_provider_nvi.Actuator.World.Calls.{request, update_object}
use machine_api_provider_nvi.Actuator.Create.{create}
use machine_api_provider_nvi.Actuator.Update.{update}
use machine_api_provider_nvi.Actuator.Exists.{exists}
use machine_api_provider_nvi.Actuator.Delete.{delete}

abbrev pub machine_finalizer : String
machine_finalizer = "machine.openshift.io/nico"

abbrev pub legacy_machine_finalizer : String
legacy_machine_finalizer = "machine.openshift.io/nvidia-carbide"

-- The pair (ctrl.Result, error): RequeueAfter in seconds, 0 for none.
pub record Reconciled : Type 0 where
  pub requeue_after : ℕ
  pub failure : Option GoError

abbrev pub done_after : ℕ → Reconciled
done_after seconds = record { requeue_after = seconds; failure = none }

abbrev pub failed_after : ℕ → GoError → Reconciled
failed_after seconds e = record { requeue_after = seconds; failure = some e }

abbrev pub requeue_after_seconds : ℕ
requeue_after_seconds = 30

-- controllerutil.ContainsFinalizer, AddFinalizer and RemoveFinalizer.
abbrev pub contains_finalizer : String → List String → Bool
contains_finalizer f = any (λ g. g == f)

unfoldable pub remove_finalizer : String → List String → List String
remove_finalizer f [] = []
remove_finalizer f (g ∷ gs) = let rest = remove_finalizer f gs in if g == f then rest else g ∷ rest

pub add_finalizer : String → List String → List String
add_finalizer f fs = if contains_finalizer f fs then fs else fs ++ f ∷ []

-- handleActuatorError
handle_kind : Option ApiErrorKind → GoError → Reconciled
handle_kind (some error_terminal) e = done_after 0
handle_kind (some error_transient) e = failed_after requeue_after_seconds e
handle_kind none e = failed_after requeue_after_seconds e

unfoldable pub handle_actuator_error : GoError → Reconciled
unfolding handle_kind
handle_actuator_error e = handle_kind (as_classified e) e

-- The result by the error of a call.
abbrev by_error : (GoError → Reconciled) → Reconciled → Option GoError → Reconciled
by_error handle good none = good
by_error handle good (some e) = handle e

abbrev caught_value : {A : Type 0} → Outcome A → Outcome (Outcome A)
caught_value (ok a) = ok (ok a)
caught_value (err e) = ok (err e)
caught_value panic = panic

-- A call's value or error as a value.
unfoldable pub try : {A : Type 0} → M A → M (Outcome A)
try m w = let (r, w') = m w in (caught_value r, w')

module _ (env : Env) where
  pub add_our_finalizer : Object → M Reconciled
  add_our_finalizer o = do
    let o' = record o { finalizers = add_finalizer machine_finalizer o.finalizers }
    set_memory o'
    e ← attempt (update_object env o')
    pure (
        by_error (λ cause. failed_after 0 (wrapf "failed to add finalizer: %w" [] cause))
          (done_after 1) e)

  pub create_or_update : Outcome Bool → M Reconciled
  create_or_update (ok false) = do
    e ← attempt (create env)
    pure (by_error handle_actuator_error (done_after 10) e)
  create_or_update (ok true) = do
    e ← attempt (update env)
    pure (by_error handle_actuator_error (done_after requeue_after_seconds) e)
  create_or_update (err e) = pure (failed_after requeue_after_seconds e)
  create_or_update panic = crash

  unfoldable pub reconcile_normal : M Reconciled
  unfolding add_our_finalizer create_or_update add_finalizer
  reconcile_normal = do
    o ← get_memory
    if contains_finalizer machine_finalizer o.finalizers
        then (do there ← try (exists env); create_or_update there)
        else add_our_finalizer o

  -- Both finalizers go, and the object is written.
  pub remove_finalizers : M Reconciled
  remove_finalizers = do
    o ← get_memory
    let o' = record o {
      finalizers =
          remove_finalizer legacy_machine_finalizer
            (remove_finalizer machine_finalizer o.finalizers);
    }
    set_memory o'
    e ← attempt (update_object env o')
    pure (
        by_error (λ cause. failed_after 0 (wrapf "failed to remove finalizer: %w" [] cause))
          (done_after 0) e)

  pub after_delete : Option GoError → M Reconciled
  after_delete (some e) = pure (failed_after 0 e)
  after_delete none = remove_finalizers

  unfoldable pub reconcile_delete : M Reconciled
  unfolding after_delete remove_finalizers
  reconcile_delete = do e ← attempt (delete env); after_delete e

  pub reconcile_found : Found → M Reconciled
  reconcile_found not_found = pure (done_after 0)
  reconcile_found (get_failed e) = pure (failed_after 0 (external e))
  reconcile_found (found o) = do
    set_memory o
    if eqb o.deletion_timestamp 0 then reconcile_normal else reconcile_delete

  unfoldable pub reconcile : M Reconciled
  unfolding reconcile_found
  reconcile = do r ← request Effect.get_object env.kube.get_object; reconcile_found r
