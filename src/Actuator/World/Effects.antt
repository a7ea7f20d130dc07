-- ===== src/Actuator/World/Effects.antt =====
-- What kinds of effects an operation can have, by one rule for each way to build it.
use machine_api_provider_nvi.Base.{
  ℕ, suc, ◌+◌, ◌≤◌, Bool, true, false, Option, none, some, List, [], ◌∷◌, ◌≡◌, refl, arith, maybe,
  if◌then◌else◌, String,
}
use machine_api_provider_nvi.Api.Errors.{GoError, Outcome, ok, err, panic, LibResult}
use machine_api_provider_nvi.Actuator.World.{
  ApiCall, Effect, api, get_secret, get_object, update_object, update_status, metric, event,
  History, Object, World,
}
use machine_api_provider_nvi.Actuator.World.Monad.{
  M, continue, ◌>>=◌, pure, fail, crash, deref, wrapping, attempt, lift, get_memory, set_memory,
  get_history, emit,
}
use machine_api_provider_nvi.Actuator.World.Calls.{request, update_with}

-- Creations, deletions and updates of instances; reads; health reports; writes of the object and of
-- its status; events and metrics.
pub data EffectKind : Type 0 where
  creation deletion deployment reading report object_write status_write note : EffectKind

abbrev pub kind_of_call : ApiCall → EffectKind
kind_of_call (ApiCall.create_instance r) = creation
kind_of_call (ApiCall.get_instance i) = reading
kind_of_call (ApiCall.delete_instance i r) = deletion
kind_of_call (ApiCall.update_instance i r) = deployment
kind_of_call (ApiCall.get_machine i) = reading
kind_of_call ApiCall.get_current_tenant = reading
kind_of_call (ApiCall.get_instance_status_history i) = reading
kind_of_call (ApiCall.get_all_machine_health_report i) = reading
kind_of_call (ApiCall.create_or_update_machine_health_report i r) = report
kind_of_call (ApiCall.delete_machine_health_report i s) = report
kind_of_call (ApiCall.get_machine_validation_runs i) = reading
kind_of_call (ApiCall.get_machine_status_history i) = reading
kind_of_call ApiCall.get_all_tenant_account = reading

abbrev pub kind_of : Effect → EffectKind
kind_of (api c o call) = kind_of_call call
kind_of (get_secret n s) = reading
kind_of get_object = reading
kind_of (update_object o) = object_write
kind_of (update_status o) = status_write
kind_of (metric m) = note
kind_of (event t r f a e) = note

-- `later` adds to `before` effects of the kinds `p` only.
pub data Adds (p : EffectKind → Bool) (before : History) : History → Type 0 where
  same : Adds p before before
  more :
      {e : Effect} {later : History}
      → p (kind_of e) ≡ true
      → Adds p before later
      → Adds p before (e ∷ later)

pub Adds-trans : {p : EffectKind → Bool} {a b c : History} → Adds p a b → Adds p b c → Adds p a c
Adds-trans x same = x
Adds-trans x (more h y) = more h (Adds-trans x y)

-- Whatever its outcome, `m` has effects of the kinds `p` only.
pub record Emits {A : Type 0} (p : EffectKind → Bool) (m : M A) : Type 0 where
  pub at : (w : World) → Adds p w.history (m w).1.history

module _ {p : EffectKind → Bool} {A : Type 0} where
  pub Emits-pure : (a : A) → Emits p (pure a)
  unfolding pure
  Emits-pure a = record { at = λ w. same }

  pub Emits-fail : (e : GoError) → Emits p (fail {A = A} e)
  unfolding fail
  Emits-fail e = record { at = λ w. same }

  pub Emits-crash : Emits p (crash {A = A})
  unfolding crash
  Emits-crash = record { at = λ w. same }

  pub Emits-deref : (o : Option A) → Emits p (deref o)
  unfolding deref
  Emits-deref none = record { at = λ w. same }
  Emits-deref (some a) = record { at = λ w. same }

  pub Emits-lift : (r : LibResult A) → Emits p (lift r)
  unfolding lift
  Emits-lift r = record { at = λ w. same }

  pub Emits-wrapping : (f : String) (m : M A) → Emits p m → Emits p (wrapping f m)
  unfolding wrapping
  Emits-wrapping f m k = record { at = λ w. k.at w }

  pub Emits-attempt : (m : M A) → Emits p m → Emits p (attempt m)
  unfolding attempt
  Emits-attempt m k = record { at = λ w. k.at w }

  pub Emits-if : (b : Bool) (m n : M A) → Emits p m → Emits p n → Emits p (if b then m else n)
  Emits-if true m n km kn = km
  Emits-if false m n km kn = kn

  pub Emits-request :
      (e : Effect) (answer : History → A) → p (kind_of e) ≡ true → Emits p (request e answer)
  unfolding request
  Emits-request e answer h = record { at = λ w. more h same }

module _ {p : EffectKind → Bool} where
  pub Emits-get_memory : Emits p get_memory
  unfolding get_memory
  Emits-get_memory = record { at = λ w. same }

  pub Emits-set_memory : (o : Object) → Emits p (set_memory o)
  unfolding set_memory
  Emits-set_memory o = record { at = λ w. same }

  pub Emits-get_history : Emits p get_history
  unfolding get_history
  Emits-get_history = record { at = λ w. same }

  pub Emits-emit : (e : Effect) → p (kind_of e) ≡ true → Emits p (emit e)
  unfolding emit
  Emits-emit e h = record { at = λ w. more h same }

  pub Emits-update_with :
      (e : Effect) (answer : History → Object × Option String)
      → p (kind_of e) ≡ true
      → Emits p (update_with e answer)
  unfolding update_with
  Emits-update_with e answer h = record { at = λ w. more h same }

module _ {p : EffectKind → Bool} {A B : Type 0} where
  pub Emits-continue :
      (r : Outcome A) (f : A → M B) (w : World)
      → ((a : A) → Emits p (f a))
      → Adds p w.history (continue r f w).1.history
  Emits-continue (ok a) f w k = (k a).at w
  Emits-continue (err e) f w k = same
  Emits-continue panic f w k = same

  pub Emits-bind :
      (m : M A) (f : A → M B) → Emits p m → ((a : A) → Emits p (f a)) → Emits p (m >>= f)
  unfolding ◌>>=◌
  Emits-bind m f km kf = record {
    at = λ w. let (r, w') = m w in Adds-trans (km.at w) (Emits-continue r f w' kf);
  }

  pub Emits-maybe :
      (o : Option A) (n : M B) (s : A → M B)
      → Emits p n
      → ((a : A) → Emits p (s a))
      → Emits p (maybe o n s)
  Emits-maybe none n s kn ks = kn
  Emits-maybe (some a) n s kn ks = ks a

pub ruleset emits_rules = (
  refl, Emits-pure, Emits-fail, Emits-crash, Emits-deref, Emits-lift, Emits-wrapping, Emits-attempt,
  Emits-if, Emits-request, Emits-get_memory, Emits-set_memory, Emits-get_history, Emits-emit,
  Emits-update_with, Emits-bind, Emits-maybe,
)
