-- ===== src/Reconciler/Guards.antt =====
-- What a reconciliation has made sure of before it creates or deletes an instance.
use machine_api_provider_nvi.Base.{
  Bool, true, false, ◌∷◌, ◌≡◌, ◌≢◌, refl, sym, ap, subst, ◌∙◌, arith, eqb, nat_eq, if◌then◌else◌,
}
use machine_api_provider_nvi.Api.Errors.{Outcome, ok, err, panic}
use machine_api_provider_nvi.Actuator.World.{
  Effect, Env, World, History, Object, Found, found, not_found, get_failed,
}
use machine_api_provider_nvi.Actuator.World.Monad.{M, ◌>>=◌, attempt, get_memory, set_memory}
use machine_api_provider_nvi.Actuator.World.Calls.{request}
use machine_api_provider_nvi.Actuator.World.Effects.{Adds, Emits, emits_rules}
use machine_api_provider_nvi.Actuator.World.Counts.{
  tally, is_creation, is_deletion, other_effects-is_creation, other_effects-is_deletion,
}
use machine_api_provider_nvi.Actuator.World.Growth.{
  Grows, Returns, Grows-bind, not-Grows-Emits, Grows-first, bind-Returns,
}
use machine_api_provider_nvi.Actuator.Create.{create}
use machine_api_provider_nvi.Actuator.Create.Checked.{IsCleared, create-IsCleared}
use machine_api_provider_nvi.Actuator.Create.Effects.{create-Emits}
use machine_api_provider_nvi.Actuator.Exists.{exists}
use machine_api_provider_nvi.Actuator.Exists.Memory.{exists-KeepsObject}
use machine_api_provider_nvi.Actuator.Exists.Effects.{exists-Emits}
use machine_api_provider_nvi.Actuator.Update.Effects.{update-Emits}
use machine_api_provider_nvi.Reconciler.{
  try, caught_value, contains_finalizer, machine_finalizer, add_our_finalizer, create_or_update,
  reconcile_normal, reconcile_delete, reconcile_found, reconcile,
}
use machine_api_provider_nvi.Reconciler.Effects.{
  try-Emits, add_our_finalizer-Emits, not_creation-is_creation, not_deletion-is_deletion,
}
use machine_api_provider_nvi.Reconciler.Laws.{reconcile_normal-Emits, reconcile_delete-Emits}

module _ {A : Type 0} where
  try_ok : (r : Outcome A) (a : A) → caught_value r ≡ ok (ok a) → r ≡ ok a
  try_ok (ok b) a h = grind (arith, h)
  try_ok (err e) a h = absurd (grind (arith, h))
  try_ok panic a h = absurd (grind (arith, h))

  try-returned : (m : M A) (w w' : World) (a : A) → Returns (try m) w (ok a) w' → Returns m w a w'
  unfolding try
  try-returned m w w' a h =
      let first = try_ok (m w).0 a (ap (λ r. r.0) h) in λ i. (first i, (h i).1)

-- What holds when a reconciliation asks for an instance: the object that was found is not being
-- deleted and has the finalizer, its instance was found to be absent, and the creation is cleared.
pub record MayCreate (env : Env) (w : World) : Type 0 where
  pub object : Object
  pub is_found : env.kube.get_object w.history ≡ found object
  pub live : object.deletion_timestamp ≡ 0
  pub guarded : contains_finalizer machine_finalizer object.finalizers ≡ true
  pub asking : World
  pub start : asking.history ≡ Effect.get_object ∷ w.history
  pub creating : World
  pub in_memory : asking.object ≡ object
  pub absent : Returns (exists env) asking false creating
  pub unchanged : creating.object ≡ object
  pub cleared : IsCleared env creating.object creating (create env creating).1.history
  pub run : Adds (λ k. true) creating.history (reconcile env w).1.history

module _ (env : Env) where
  create_or_update-IsCleared :
      (r : Outcome Bool) (w : World)
      → Grows is_creation (create_or_update env r) w
      → (r ≡ ok false) × IsCleared env w.object w (create env w).1.history
  unfolding create_or_update attempt
  create_or_update-IsCleared (ok false) w g =
      let g' =
        Grows-first (attempt (create env)) _ w other_effects-is_creation (λ e. search emits_rules)
          g in
      (refl, create-IsCleared env w g')
  create_or_update-IsCleared (ok true) w g = absurd (
      not-Grows-Emits {m = create_or_update env (ok true)} w not_creation-is_creation
        (search (emits_rules, update-Emits) depth 8) g)
  create_or_update-IsCleared (err e) w g = absurd (
      not-Grows-Emits {m = create_or_update env (err e)} w other_effects-is_creation
        (search emits_rules) g)
  create_or_update-IsCleared panic w g = absurd (
      not-Grows-Emits {m = create_or_update env panic} w other_effects-is_creation
        (search emits_rules) g)

  create_absent-Emits : Emits (λ k. true) (create_or_update env (ok false))
  unfolding create_or_update
  create_absent-Emits = search (emits_rules, create-Emits) depth 8

  record MayCreateNow (w : World) (after : History) : Type 0 where
    guarded : contains_finalizer machine_finalizer w.object.finalizers ≡ true
    creating : World
    absent : Returns (exists env) w false creating
    unchanged : creating.object ≡ w.object
    cleared : IsCleared env creating.object creating (create env creating).1.history
    run : Adds (λ k. true) creating.history after

  exists-object : (w w' : World) → Returns (exists env) w false w' → w'.object ≡ w.object
  exists-object w w' h = ap (λ r. r.1.object) (sym h) ∙ (exists-KeepsObject env).at w

  normal_if :
      (b : Bool) (w : World)
      → contains_finalizer machine_finalizer w.object.finalizers ≡ b
      → Grows is_creation
          (if b
            then (try (exists env) >>= create_or_update env)
            else add_our_finalizer env w.object)
          w
      → MayCreateNow w
          ((if b
              then (try (exists env) >>= create_or_update env)
              else add_our_finalizer env w.object)
            w).1.history
  normal_if false w e g = absurd (
      not-Grows-Emits {m = add_our_finalizer env w.object} w other_effects-is_creation
        (add_our_finalizer-Emits env refl w.object) g)
  normal_if true w e g =
      let a =
        Grows-bind (try (exists env)) (create_or_update env) w other_effects-is_creation
          (try-Emits _ _ (exists-Emits env refl)) g in
      let (answer, cleared) = create_or_update-IsCleared a.value a.state a.grown in
      let run =
        bind-Returns (try (exists env)) (create_or_update env) w a.state a.value a.returned
        ∙ ap (λ r. create_or_update env r a.state) answer in
      let absent =
        try-returned (exists env) w a.state false
          (absent_answer a.value a.state answer a.returned) in
      record {
        guarded = e;
        creating = a.state;
        absent = absent;
        unchanged = exists-object w a.state absent;
        cleared = cleared;
        run =
            subst (λ r. Adds (λ k. true) a.state.history r.1.history) (sym run)
              (create_absent-Emits.at a.state);
      }
    where
      absent_answer :
          (r : Outcome Bool) (w' : World)
          → r ≡ ok false
          → Returns (try (exists env)) w r w'
          → Returns (try (exists env)) w (ok false) w'
      absent_answer r w' e h = rw (sym e) h

  normal-MayCreate :
      (w : World)
      → Grows is_creation (reconcile_normal env) w
      → MayCreateNow w (reconcile_normal env w).1.history
  unfolding reconcile_normal ◌>>=◌ get_memory
  normal-MayCreate w g =
      normal_if (contains_finalizer machine_finalizer w.object.finalizers) w refl g

  branch_live :
      (b : Bool) (w : World)
      → Grows is_creation (if b then reconcile_normal env else reconcile_delete env) w
      → (b ≡ true)
        × MayCreateNow w ((if b then reconcile_normal env else reconcile_delete env) w).1.history
  branch_live true w g = (refl, normal-MayCreate w g)
  branch_live false w g = absurd (
      not-Grows-Emits {m = reconcile_delete env} w not_creation-is_creation
        (reconcile_delete-Emits env) g)

  branch_deleted :
      (b : Bool) (w : World)
      → Grows is_deletion (if b then reconcile_normal env else reconcile_delete env) w
      → b ≡ false
  branch_deleted false w g = refl
  branch_deleted true w g = absurd (
      not-Grows-Emits {m = reconcile_normal env} w not_deletion-is_deletion
        (reconcile_normal-Emits env) g)

  found-MayCreate :
      (r : Found) (w : World)
      → env.kube.get_object w.history ≡ r
      → Grows is_creation
          (reconcile_found env r)
          (record w { history = Effect.get_object ∷ w.history })
      → (reconcile env w).1.history
        ≡ (reconcile_found env r (record w { history = Effect.get_object ∷ w.history })).1.history
      → MayCreate env w
  unfolding reconcile_found ◌>>=◌ set_memory
  found-MayCreate not_found w e g run = absurd (
      not-Grows-Emits {m = reconcile_found env not_found} _ other_effects-is_creation
        (search emits_rules) g)
  found-MayCreate (get_failed x) w e g run = absurd (
      not-Grows-Emits {m = reconcile_found env (get_failed x)} _ other_effects-is_creation
        (search emits_rules) g)
  found-MayCreate (found o) w e g run =
      let (live, may) = branch_live (eqb o.deletion_timestamp 0) _ g in
      record {
        object = o;
        is_found = e;
        live = ground (arith, live);
        guarded = may.guarded;
        asking = record { object = o; history = Effect.get_object ∷ w.history };
        start = refl;
        creating = may.creating;
        in_memory = refl;
        absent = may.absent;
        unchanged = may.unchanged;
        cleared = may.cleared;
        run = subst (Adds (λ k. true) may.creating.history) (sym run) may.run;
      }

  found-deleted :
      (r : Found) (w : World)
      → Grows is_deletion (reconcile_found env r) w
      → ((o : Object) × ((r ≡ found o) × (o.deletion_timestamp ≢ 0)))
  unfolding reconcile_found ◌>>=◌ set_memory
  found-deleted not_found w g = absurd (
      not-Grows-Emits {m = reconcile_found env not_found} _ other_effects-is_deletion
        (search emits_rules) g)
  found-deleted (get_failed x) w g = absurd (
      not-Grows-Emits {m = reconcile_found env (get_failed x)} _ other_effects-is_deletion
        (search emits_rules) g)
  found-deleted (found o) w g =
      let deleted = branch_deleted (eqb o.deletion_timestamp 0) _ g in
      (o, (refl, ground (arith, deleted)))

-- Whenever a reconciliation sends a request for an instance, it found the object, the object is not
-- being deleted and already has the finalizer, Exists, asked with this object in memory, answered
-- that there is no instance and left the object as it was, and Create cleared the spec that it read
-- from the object.
pub reconcile-MayCreate :
    (env : Env) (w : World)
    → tally is_creation (reconcile env w).1.history ≢ tally is_creation w.history
    → MayCreate env w
unfolding reconcile ◌>>=◌ request
reconcile-MayCreate env w g = found-MayCreate env (env.kube.get_object w.history) w refl g refl

-- If a reconciliation sends a request to delete an instance, it found the object, and the object is
-- being deleted.
pub reconcile-deleted :
    (env : Env) (w : World)
    → tally is_deletion (reconcile env w).1.history ≢ tally is_deletion w.history
    → ((o : Object) × ((env.kube.get_object w.history ≡ found o) × (o.deletion_timestamp ≢ 0)))
unfolding reconcile ◌>>=◌ request
reconcile-deleted env w g = found-deleted env (env.kube.get_object w.history) _ g
