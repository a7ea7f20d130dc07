-- ===== src/Reconciler/Finalizers.antt =====
-- What a reconciliation has made sure of before it drops the finalizers.
use machine_api_provider_nvi.Base.{
  String, Bool, true, false, not, ◌||◌, Option, none, some, List, [], ◌∷◌, ◌≡◌, ◌≢◌, refl, ap, ◌∙◌,
  arith, ◌==◌, string_eq, nat_eq, if◌then◌else◌,
}
use machine_api_provider_nvi.Api.Errors.{GoError, Outcome, ok, err, panic}
use machine_api_provider_nvi.Actuator.World.{Env, World, Effect, History}
use machine_api_provider_nvi.Actuator.World.Monad.{
  attempt, caught, continue, pure, ◌>>=◌, get_memory, set_memory,
}
use machine_api_provider_nvi.Actuator.World.Calls.{update_with}
use machine_api_provider_nvi.Actuator.World.Effects.{EffectKind, object_write, emits_rules}
use machine_api_provider_nvi.Actuator.World.Counts.{tally, Disjoint}
use machine_api_provider_nvi.Actuator.World.Growth.{Grows, Grows-bind, not-Grows-Emits, Returns}
use machine_api_provider_nvi.Actuator.Delete.{delete}
use machine_api_provider_nvi.Actuator.Delete.Effects.{delete-Emits}
use machine_api_provider_nvi.Reconciler.{
  Reconciled, remove_finalizer, machine_finalizer, legacy_machine_finalizer, remove_finalizers,
  after_delete, reconcile_delete,
}

module _ {A : Type 0} where
  attempt_none : (r : Outcome A) → caught r ≡ ok none → ((a : A) × (r ≡ ok a))
  attempt_none (ok b) h = (b, refl)
  attempt_none (err e) h = absurd (grind (arith, h))
  attempt_none panic h = absurd (grind (arith, h))

abbrev pub is_object_write : EffectKind → Bool
is_object_write object_write = true
is_object_write _ = false

delete_effects-is_object_write : Disjoint (λ k. not (is_object_write k)) is_object_write
delete_effects-is_object_write k h = ground (arith, h)

after_delete-none :
    (env : Env) (e : Option GoError) (w : World)
    → Grows is_object_write (after_delete env e) w
    → e ≡ none
unfolding after_delete
after_delete-none env none w g = refl
after_delete-none env (some x) w g = absurd (
    not-Grows-Emits {m = after_delete env (some x)} w delete_effects-is_object_write
      (search emits_rules) g)

-- If the reconciliation of an object that is being deleted writes the object, which drops its
-- finalizers, then Delete has returned without an error.
pub reconcile_delete-deleted :
    (env : Env) (w : World)
    → tally is_object_write (reconcile_delete env w).1.history ≢ tally is_object_write w.history
    → (delete env w).0 ≡ ok tt
unfolding reconcile_delete attempt
reconcile_delete-deleted env w g =
    let a =
      Grows-bind (attempt (delete env)) (after_delete env) w delete_effects-is_object_write
        (search (emits_rules, delete-Emits)) g in
    let e = after_delete-none env a.value a.state a.grown in
    (attempt_none (delete env w).0 (ap (λ r. r.0) a.returned ∙ ap ok e)).1

-- The finalizers that are not ours, in their order.
unfoldable pub foreign_finalizers : List String → List String
foreign_finalizers [] = []
foreign_finalizers (g ∷ gs) =
    let rest = foreign_finalizers gs in
    if g == machine_finalizer || g == legacy_machine_finalizer then rest else g ∷ rest

remove_finalizer-foreign :
    (fs : List String)
    → remove_finalizer legacy_machine_finalizer (remove_finalizer machine_finalizer fs)
      ≡ foreign_finalizers fs
unfolding remove_finalizer foreign_finalizers
remove_finalizer-foreign [] = refl
remove_finalizer-foreign (g ∷ gs) = ground (arith, remove_finalizer-foreign gs)

-- The only new request writes the object in memory, less our finalizers.
pub record Drops (w : World) (after : History) : Type 0 where
  pub sent :
      after
      ≡ Effect.update_object
          (record w.object { finalizers = foreign_finalizers w.object.finalizers })
        ∷ w.history

caught_history :
    (r : Outcome (Unit {0})) (f : Option GoError → Reconciled) (w : World)
    → (continue (caught r) (λ e. pure (f e)) w).1.history ≡ w.history
unfolding pure
caught_history (ok u) f w = refl
caught_history (err e) f w = refl
caught_history panic f w = refl

remove_finalizers-Drops : (env : Env) (w : World) → Drops w (remove_finalizers env w).1.history
unfolding remove_finalizers ◌>>=◌ get_memory set_memory attempt update_with
remove_finalizers-Drops env w = record {
  sent =
      caught_history _ _ _
      ∙ ap (λ fs. Effect.update_object (record w.object { finalizers = fs }) ∷ w.history)
          (remove_finalizer-foreign w.object.finalizers);
}

Drops-after :
    (env : Env) (w w' : World) (r : Outcome (Unit {0}) × World)
    → r ≡ (ok tt, w')
    → Drops w' (continue (caught r.0) (after_delete env) r.1).1.history
unfolding after_delete
Drops-after env w w' r e = rw e (remove_finalizers-Drops env w')

-- If Delete returns without an error, the reconciliation of the deleted object then sends one more
-- request and no other: to write the object as Delete left it in memory, without the current and
-- without the legacy finalizer, and with all others in their order.
pub reconcile_delete-Drops :
    (env : Env) (w w' : World)
    → Returns (delete env) w tt w'
    → Drops w' (reconcile_delete env w).1.history
unfolding reconcile_delete ◌>>=◌ attempt
reconcile_delete-Drops env w w' h = Drops-after env w w' (delete env w) h
