-- ===== src/Actuator/World/Counts.antt =====
-- How often a kind of effect occurs, and how much an operation adds to it.
use machine_api_provider_nvi.Base.{
  ℕ, suc, ◌+◌, ◌≤◌, Bool, true, false, [], ◌∷◌, ◌≡◌, refl, arith, if◌then◌else◌,
}
use machine_api_provider_nvi.Api.Errors.{Outcome, ok, err, panic}
use machine_api_provider_nvi.Actuator.World.{Effect, History, World}
use machine_api_provider_nvi.Actuator.World.Monad.{M, continue, ◌>>=◌, attempt}
use machine_api_provider_nvi.Actuator.World.Calls.{request}
use machine_api_provider_nvi.Actuator.World.Effects.{
  EffectKind, creation, deletion, kind_of, Adds, same, more, Emits,
}

abbrev pub tally : (EffectKind → Bool) → History → ℕ
tally p [] = 0
tally p (e ∷ h) = if p (kind_of e) then suc (tally p h) else tally p h

-- The kinds `p` and `q` have none in common.
abbrev pub Disjoint : (EffectKind → Bool) → (EffectKind → Bool) → Type 0
Disjoint p q = (k : EffectKind) → p k ≡ true → q k ≡ false

tally-Adds :
    {p q : EffectKind → Bool} {a b : History} → Disjoint p q → Adds p a b → tally q b ≡ tally q a
tally-Adds d same = refl
tally-Adds d (more {e} h x) = rw (d (kind_of e) h) (tally-Adds d x)

-- An operation without effects of the kinds `q` leaves their number.
pub tally-Emits :
    {p q : EffectKind → Bool} {A : Type 0} {m : M A}
    → Disjoint p q
    → Emits p m
    → (w : World) → tally q (m w).1.history ≡ tally q w.history
tally-Emits d k w = tally-Adds d (k.at w)

-- `m` adds at most `n` effects of the kinds `q`.
pub record AddsAtMost {A : Type 0} (n : ℕ) (q : EffectKind → Bool) (m : M A) : Type 0 where
  pub at : (w : World) → tally q (m w).1.history ≤ n + tally q w.history

module _ {q : EffectKind → Bool} {A : Type 0} where
  pub AddsAtMost-of_Emits :
      {p : EffectKind → Bool} (n : ℕ) {m : M A} → Disjoint p q → Emits p m → AddsAtMost n q m
  AddsAtMost-of_Emits n {m} d k = record { at = λ w. omega (arith, tally-Emits d k w) }

  pub AddsAtMost-request : (e : Effect) (answer : History → A) → AddsAtMost 1 q (request e answer)
  unfolding request
  AddsAtMost-request e answer = record { at = λ w. ground arith }

module _ {q : EffectKind → Bool} {A B : Type 0} where
  AddsAtMost-continue :
      (n : ℕ) (r : Outcome A) (f : A → M B) (w : World)
      → ((a : A) → AddsAtMost n q (f a))
      → tally q (continue r f w).1.history ≤ n + tally q w.history
  AddsAtMost-continue n (ok a) f w k = (k a).at w
  AddsAtMost-continue n (err e) f w k = omega arith
  AddsAtMost-continue n panic f w k = omega arith

  pub AddsAtMost-bind :
      (a b : ℕ) (m : M A) (f : A → M B)
      → AddsAtMost a q m
      → ((x : A) → AddsAtMost b q (f x))
      → AddsAtMost (a + b) q (m >>= f)
  unfolding ◌>>=◌
  AddsAtMost-bind a b m f km kf = record {
    at = λ w. let (r, w') = m w in omega (arith, km.at w, AddsAtMost-continue b r f w' kf);
  }

  -- What comes before, with other kinds of effects, does not count.
  pub AddsAtMost-after :
      {p : EffectKind → Bool} (n : ℕ) (m : M A) (f : A → M B)
      → Disjoint p q
      → Emits p m
      → ((x : A) → AddsAtMost n q (f x))
      → AddsAtMost n q (m >>= f)
  unfolding ◌>>=◌
  AddsAtMost-after n m f d km kf = record {
    at = λ w.
        let (r, w') = m w in omega (arith, tally-Emits d km w, AddsAtMost-continue n r f w' kf);
  }

abbrev pub is_creation : EffectKind → Bool
is_creation creation = true
is_creation _ = false

-- All kinds of effects but creations and deletions.
abbrev pub other_effects : EffectKind → Bool
other_effects creation = false
other_effects deletion = false
other_effects _ = true

pub other_effects-is_creation : Disjoint other_effects is_creation
other_effects-is_creation k h = ground arith

abbrev pub is_deletion : EffectKind → Bool
is_deletion deletion = true
is_deletion _ = false

pub other_effects-is_deletion : Disjoint other_effects is_deletion
other_effects-is_deletion k h = ground arith

module _ {q : EffectKind → Bool} {A : Type 0} where
  pub AddsAtMost-attempt : (n : ℕ) (m : M A) → AddsAtMost n q m → AddsAtMost n q (attempt m)
  unfolding attempt
  AddsAtMost-attempt n m k = record { at = λ w. k.at w }

  pub AddsAtMost-if :
      (n : ℕ) (b : Bool) (m m' : M A)
      → AddsAtMost n q m
      → AddsAtMost n q m'
      → AddsAtMost n q (if b then m else m')
  AddsAtMost-if n true m m' k k' = k
  AddsAtMost-if n false m m' k k' = k'
