-- ===== src/Reconciler/Effects.antt =====
-- What the parts of a reconciliation do, by kinds of effects.
use machine_api_provider_nvi.Base.{Bool, true, false, Option, none, some, ◌≡◌, arith}
use machine_api_provider_nvi.Api.Errors.{GoError}
use machine_api_provider_nvi.Actuator.World.{Env, Object}
use machine_api_provider_nvi.Actuator.World.Monad.{M}
use machine_api_provider_nvi.Actuator.World.Effects.{
  EffectKind, creation, deletion, object_write, Emits, emits_rules,
}
use machine_api_provider_nvi.Actuator.World.Counts.{is_creation, is_deletion, Disjoint}
use machine_api_provider_nvi.Reconciler.{try, add_our_finalizer, remove_finalizers, after_delete}

module _ {p : EffectKind → Bool} where
  pub try-Emits : (A : Type 0) (m : M A) → Emits p m → Emits p (try m)
  unfolding try
  try-Emits A m k = record { at = λ w. k.at w }

module _ (env : Env) {p : EffectKind → Bool} (objects : p object_write ≡ true) where
  pub add_our_finalizer-Emits : (o : Object) → Emits p (add_our_finalizer env o)
  unfolding add_our_finalizer
  add_our_finalizer-Emits o = search emits_rules depth 12

  pub remove_finalizers-Emits : Emits p (remove_finalizers env)
  unfolding remove_finalizers
  remove_finalizers-Emits = search emits_rules depth 12

  pub after_delete-Emits : (e : Option GoError) → Emits p (after_delete env e)
  unfolding after_delete
  after_delete-Emits none = search (emits_rules, remove_finalizers-Emits)
  after_delete-Emits (some e) = search emits_rules

-- All kinds but creations, and all but deletions.
abbrev pub not_creation : EffectKind → Bool
not_creation creation = false
not_creation _ = true

abbrev pub not_deletion : EffectKind → Bool
not_deletion deletion = false
not_deletion _ = true

pub not_creation-is_creation : Disjoint not_creation is_creation
not_creation-is_creation k h = ground arith

pub not_deletion-is_deletion : Disjoint not_deletion is_deletion
not_deletion-is_deletion k h = ground arith
