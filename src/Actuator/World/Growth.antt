-- ===== src/Actuator/World/Growth.antt =====
-- What must have succeeded before an operation had an effect of some kind.
use machine_api_provider_nvi.Base.{
  ◌∷◌, String, Option, none, some, Bool, true, false, ◌≡◌, ◌≢◌, refl, subst, ◌∙◌, arith, ap,
}
use machine_api_provider_nvi.Api.Errors.{GoError, Outcome, ok, err, panic, LibResult, done, failed}
use machine_api_provider_nvi.Actuator.World.{World, Object, History, Effect}
use machine_api_provider_nvi.Actuator.World.Monad.{
  M, continue, ◌>>=◌, pure, wrapping, wrap_outcome, get_memory, fail, when, lift, deref,
}
use machine_api_provider_nvi.Actuator.World.Effects.{EffectKind, Adds, Emits}
use machine_api_provider_nvi.Actuator.World.Calls.{update_with, written}
use machine_api_provider_nvi.Actuator.World.Counts.{tally, Disjoint, tally-Emits}

-- From the state `w`, the number of the effects of kinds `q` changes.
abbrev pub Grows : {A : Type 0} → (EffectKind → Bool) → M A → World → Type 0
Grows q m w = tally q (m w).1.history ≢ tally q w.history

-- `m` returns `a` from `w`, in the state `w'`.
abbrev pub Returns : {A : Type 0} → M A → World → A → World → Type 0
Returns m w a w' = m w ≡ (ok a, w')

module _ {p q : EffectKind → Bool} {A : Type 0} where
  pub not-Grows-Emits : {m : M A} (w : World) → Disjoint p q → Emits p m → ¬ Grows q m w
  not-Grows-Emits w d k g = g (tally-Emits d k w)

-- What an operation that returned added to the history.
pub Adds-Returns :
    {p : EffectKind → Bool} {A : Type 0} (m : M A) (w w' : World) (a : A)
    → Returns m w a w'
    → Emits p m
    → Adds p w.history w'.history
Adds-Returns {p} m w w' a h k = subst (λ r. Adds p w.history r.1.history) h (k.at w)

-- What a bind's first part returned, when the growth is the second part's.
pub record Reached {A B : Type 0} (q : EffectKind → Bool) (m : M A) (f : A → M B) (w : World)
    : Type 0 where
  pub value : A
  pub state : World
  pub returned : Returns m w value state
  pub grown : Grows q (f value) state

module _ {q : EffectKind → Bool} {A B : Type 0} where
  continue-Grows :
      (m : M A) (f : A → M B) (w : World) (r : Outcome A) (w' : World)
      → m w ≡ (r, w')
      → tally q w'.history ≡ tally q w.history
      → tally q (continue r f w').1.history ≢ tally q w.history
      → Reached q m f w
  continue-Grows m f w (ok a) w' e same g = record {
    value = a;
    state = w';
    returned = e;
    grown = λ h. g (rw h same);
  }
  continue-Grows m f w (err x) w' e same g = absurd (g same)
  continue-Grows m f w panic w' e same g = absurd (g same)

  pub Grows-bind :
      {p : EffectKind → Bool} (m : M A) (f : A → M B) (w : World)
      → Disjoint p q
      → Emits p m
      → Grows q (m >>= f) w
      → Reached q m f w
  unfolding ◌>>=◌
  Grows-bind m f w d k g = continue-Grows m f w (m w).0 (m w).1 refl (tally-Emits d k w) g

module _ {A : Type 0} where
  wrap_outcome-eq-ok :
      (format : String) (r : Outcome A) (a : A) → wrap_outcome format r ≡ ok a → r ≡ ok a
  wrap_outcome-eq-ok format (ok b) a h = h
  wrap_outcome-eq-ok format (err e) a h = cc
  wrap_outcome-eq-ok format panic a h = cc

  pub Returns-wrapping :
      (format : String) (m : M A) (w w' : World) (a : A)
      → Returns (wrapping format m) w a w'
      → Returns m w a w'
  unfolding wrapping
  Returns-wrapping format m w w' a h =
      let first = wrap_outcome-eq-ok format (m w).0 a (ap (λ r. r.0) h) in λ i. (first i, (h i).1)

-- The two parts of a bind that returned.
pub record Passed {A B : Type 0} (m : M A) (f : A → M B) (w : World) (b : B) (w' : World)
    : Type 0 where
  pub value : A
  pub state : World
  pub first : Returns m w value state
  pub second : Returns (f value) state b w'

-- `m` returned `a` from some state.
pub record Answered {A : Type 0} (m : M A) (a : A) : Type 0 where
  pub before : World
  pub after : World
  pub answer : Returns m before a after

module _ {A B : Type 0} where
  continue-Passed :
      (m : M A) (f : A → M B) (w w₁ w' : World) (r : Outcome A) (b : B)
      → m w ≡ (r, w₁)
      → continue r f w₁ ≡ (ok b, w')
      → Passed m f w b w'
  continue-Passed m f w w₁ w' (ok a) b e h = record { value = a; state = w₁; first = e; second = h }
  continue-Passed m f w w₁ w' (err x) b e h = absurd (grind (arith, ap (λ r. r.0) h))
  continue-Passed m f w w₁ w' panic b e h = absurd (grind (arith, ap (λ r. r.0) h))

  pub Returns-bind :
      (m : M A) (f : A → M B) (w w' : World) (b : B) → Returns (m >>= f) w b w' → Passed m f w b w'
  unfolding ◌>>=◌
  Returns-bind m f w w' b h = continue-Passed m f w (m w).1 w' (m w).0 b refl h

  -- What follows a part that returned.
  pub bind-Returns :
      (m : M A) (f : A → M B) (w w' : World) (a : A) → Returns m w a w' → (m >>= f) w ≡ f a w'
  unfolding ◌>>=◌
  bind-Returns m f w w' a e = ap (λ r. continue r.0 f r.1) e

module _ {A : Type 0} where
  pub not-Returns-fail : (e : GoError) (a : A) (w w' : World) → ¬ Returns (fail e) w a w'
  unfolding fail
  not-Returns-fail e a w w' h = grind (arith, ap (λ r. r.0) h)

  pub Returns-pure : (a b : A) (w w' : World) → Returns (pure a) w b w' → (a ≡ b) × (w ≡ w')
  unfolding pure
  Returns-pure a b w w' h = (grind (arith, ap (λ r. r.0) h), ap (λ r. r.1) h)

pub ok-injective : {A : Type 0} (a b : A) → ok a ≡ ok b → a ≡ b
ok-injective a b e = grind (arith, e)

module _ {A : Type 0} where
  pub Returns-lift :
      (r : LibResult A) (a : A) (w w' : World) → Returns (lift r) w a w' → (r ≡ done a) × (w ≡ w')
  unfolding lift
  Returns-lift (done b) a w w' h = (grind (arith, ap (λ r. r.0) h), ap (λ r. r.1) h)
  Returns-lift (failed e) a w w' h = absurd (grind (arith, ap (λ r. r.0) h))

  pub Returns-deref :
      (o : Option A) (a : A) (w w' : World) → Returns (deref o) w a w' → (o ≡ some a) × (w ≡ w')
  unfolding deref
  Returns-deref none a w w' h = absurd (grind (arith, ap (λ r. r.0) h))
  Returns-deref (some b) a w w' h =
      let same : b ≡ a = grind (arith, ap (λ r. r.0) h) in (ap some same, ap (λ r. r.1) h)

accepted : (reply : Object × Option String) (u : Unit {0}) → written reply ≡ ok u → reply.1 ≡ none
accepted (o, none) u h = refl
accepted (o, some e) u h = absurd (grind (arith, h))

-- A write that returned was accepted, and its answer is the object in memory.
pub Returns-update_with :
    (e : Effect) (answer : History → Object × Option String) (w w' : World) (u : Unit {0})
    → Returns (update_with e answer) w u w'
    → ((answer w.history).1 ≡ none) × ((answer w.history).0 ≡ w'.object)
unfolding update_with
Returns-update_with e answer w w' u h =
    (accepted (answer w.history) u (ap (λ r. r.0) h), ap (λ r. r.1.object) h)

pub Returns-update_with-history :
    (e : Effect) (answer : History → Object × Option String) (w w' : World) (u : Unit {0})
    → Returns (update_with e answer) w u w'
    → e ∷ w.history ≡ w'.history
unfolding update_with
Returns-update_with-history e answer w w' u h = ap (λ r. r.1.history) h

pub Returns-get_memory :
    (o : Object) (w w' : World) → Returns get_memory w o w' → (w.object ≡ o) × (w ≡ w')
unfolding get_memory
Returns-get_memory o w w' h = (grind (arith, ap (λ r. r.0) h), ap (λ r. r.1) h)

pub Returns-when :
    (b : Bool) (m : M (Unit {0})) (w w' : World) (u : Unit {0})
    → b ≡ true
    → Returns (when b m) w u w'
    → Returns m w u w'
Returns-when true m w w' u e h = h
Returns-when false m w w' u e h = absurd (grind (arith, e))

module _ {p q : EffectKind → Bool} {A B : Type 0} where
  continue-same :
      (r : Outcome A) (f : A → M B) (w : World)
      → Disjoint p q
      → ((a : A) → Emits p (f a))
      → tally q (continue r f w).1.history ≡ tally q w.history
  continue-same (ok a) f w d k = tally-Emits d (k a) w
  continue-same (err e) f w d k = refl
  continue-same panic f w d k = refl

  -- The growth is the first part's, if the second has no such effects.
  pub Grows-first :
      (m : M A) (f : A → M B) (w : World)
      → Disjoint p q
      → ((a : A) → Emits p (f a))
      → Grows q (m >>= f) w
      → Grows q m w
  unfolding ◌>>=◌
  Grows-first m f w d k g e = g (continue-same (m w).0 f (m w).1 d k ∙ e)
