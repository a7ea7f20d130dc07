-- ===== src/Examples/Progress.antt =====
-- A machine without the finalizer over two reconciliations, and the labels of an instance.
use machine_api_provider_nvi.Base.{◌≡◌, refl, false, none, [], ◌∷◌}
use machine_api_provider_nvi.Api.Errors.{ok}
use machine_api_provider_nvi.Actuator.World.{
  Env, World, Object, History, Found, found, update_object,
}
use machine_api_provider_nvi.Actuator.World.Monad.{
  ◌>>=◌, pure, fail, crash, deref, wrapping, attempt, lift, get_memory, set_memory, emit,
}
use machine_api_provider_nvi.Actuator.World.Calls.{request}
use machine_api_provider_nvi.Actuator.Provider.{
  get_provider_spec, get_provider_status, get_nico_client,
}
use machine_api_provider_nvi.Actuator.Create.{create, require_client_object}
use machine_api_provider_nvi.Actuator.Exists.{exists}
use machine_api_provider_nvi.Actuator.Topology.{set_topology_labels}
use machine_api_provider_nvi.Actuator.Topology.Laws.{IsLabelled, set_topology_labels-IsLabelled}
use machine_api_provider_nvi.Reconciler.{reconcile, done_after}
use machine_api_provider_nvi.Reconciler.Progress.{finalized, asked, reconcile-reaches_create}
use machine_api_provider_nvi.Examples.Sample.{env, machine, instance_of, spec, start}

abbrev fresh : Object
fresh = record (machine 0 none) { finalizers = "other" ∷ [] }

-- The object as it was written last.
abbrev stored : History → Found
stored [] = found fresh
stored (update_object o ∷ h) = found o
stored (e ∷ h) = stored h

abbrev storing : Env
storing = record (env fresh) { kube = record ((env fresh).kube) { get_object = stored } }

abbrev absent : World
absent = (exists storing (asked storing (start fresh) fresh)).1

is_absent : exists storing (asked storing (start fresh) fresh) ≡ (ok false, absent)
unfolding exists get_provider_spec get_provider_status get_nico_client request ◌>>=◌ pure fail crash
    deref wrapping attempt lift get_memory set_memory emit require_client_object
is_absent = refl

reconcile-reaches_create_example :
    (reconcile storing (start fresh) ≡ (ok (done_after 1), finalized storing (start fresh) fresh))
    × ((reconcile storing (reconcile storing (start fresh)).1).1 ≡ (create storing absent).1)
reconcile-reaches_create_example =
    reconcile-reaches_create storing (start fresh) absent fresh refl refl refl refl refl is_absent

set_topology_labels-IsLabelled_example :
    IsLabelled fresh (instance_of "uuu") spec (set_topology_labels fresh (instance_of "uuu") spec)
set_topology_labels-IsLabelled_example =
    set_topology_labels-IsLabelled fresh (instance_of "uuu") spec
