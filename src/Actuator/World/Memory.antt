-- ===== src/Actuator/World/Memory.antt =====
-- Operations that leave the object in memory as it is, by one rule for each way to build them.
use machine_api_provider_nvi.Base.{
  Bool, true, false, Option, none, some, String, ◌≡◌, refl, ap, sym, ◌∙◌, maybe, if◌then◌else◌,
}
use machine_api_provider_nvi.Api.Errors.{GoError, Outcome, ok, err, panic, LibResult}
use machine_api_provider_nvi.Actuator.World.{Effect, History, World}
use machine_api_provider_nvi.Actuator.World.Monad.{
  M, continue, ◌>>=◌, pure, fail, wrapping, lift, get_memory, emit,
}
use machine_api_provider_nvi.Actuator.World.Calls.{request}
use machine_api_provider_nvi.Actuator.World.Growth.{Returns}

-- Whatever its outcome, `m` leaves the object in memory as it is.
pub record KeepsObject {A : Type 0} (m : M A) : Type 0 where
  pub at : (w : World) → (m w).1.object ≡ w.object

module _ {A : Type 0} where
  pub KeepsObject-pure : (a : A) → KeepsObject (pure a)
  unfolding pure
  KeepsObject-pure a = record { at = λ w. refl }

  pub KeepsObject-fail : (e : GoError) → KeepsObject (fail {A = A} e)
  unfolding fail
  KeepsObject-fail e = record { at = λ w. refl }

  pub KeepsObject-lift : (r : LibResult A) → KeepsObject (lift r)
  unfolding lift
  KeepsObject-lift r = record { at = λ w. refl }

  pub KeepsObject-wrapping : (f : String) (m : M A) → KeepsObject m → KeepsObject (wrapping f m)
  unfolding wrapping
  KeepsObject-wrapping f m k = record { at = λ w. k.at w }

  pub KeepsObject-if :
      (b : Bool) (m n : M A) → KeepsObject m → KeepsObject n → KeepsObject (if b then m else n)
  KeepsObject-if true m n km kn = km
  KeepsObject-if false m n km kn = kn

  pub KeepsObject-request : (e : Effect) (answer : History → A) → KeepsObject (request e answer)
  unfolding request
  KeepsObject-request e answer = record { at = λ w. refl }

  -- An operation that keeps the object and returned.
  pub Returns-object :
      (m : M A) (w w' : World) (a : A) → Returns m w a w' → KeepsObject m → w'.object ≡ w.object
  Returns-object m w w' a h k = sym (ap (λ r. r.1.object) h) ∙ k.at w

pub KeepsObject-get_memory : KeepsObject get_memory
unfolding get_memory
KeepsObject-get_memory = record { at = λ w. refl }

pub KeepsObject-emit : (e : Effect) → KeepsObject (emit e)
unfolding emit
KeepsObject-emit e = record { at = λ w. refl }

module _ {A B : Type 0} where
  continue-object :
      (r : Outcome A) (f : A → M B) (w : World)
      → ((a : A) → KeepsObject (f a))
      → (continue r f w).1.object ≡ w.object
  continue-object (ok a) f w k = (k a).at w
  continue-object (err e) f w k = refl
  continue-object panic f w k = refl

  pub KeepsObject-bind :
      (m : M A) (f : A → M B)
      → KeepsObject m
      → ((a : A) → KeepsObject (f a))
      → KeepsObject (m >>= f)
  unfolding ◌>>=◌
  KeepsObject-bind m f km kf = record {
    at = λ w. let (r, w') = m w in continue-object r f w' kf ∙ km.at w;
  }

  pub KeepsObject-maybe :
      (o : Option A) (n : M B) (s : A → M B)
      → KeepsObject n
      → ((a : A) → KeepsObject (s a))
      → KeepsObject (maybe o n s)
  KeepsObject-maybe none n s kn ks = kn
  KeepsObject-maybe (some a) n s kn ks = ks a

pub ruleset memory_rules = (
  KeepsObject-pure, KeepsObject-fail, KeepsObject-lift, KeepsObject-wrapping, KeepsObject-if,
  KeepsObject-request, KeepsObject-get_memory, KeepsObject-emit, KeepsObject-bind,
  KeepsObject-maybe,
)
