-- ===== src/Actuator/World/Monad.antt =====
-- Go code that has effects, fails or panics, as a function of the state. What was done before an
-- error stays done.
use machine_api_provider_nvi.Base.{String, Bool, Option, none, some, List, [], ◌∷◌, if◌then◌else◌}
use machine_api_provider_nvi.Api.Errors.{
  GoError, external, wrapf, Outcome, ok, err, panic, LibResult, done, failed,
}
use machine_api_provider_nvi.Actuator.World.{
  World, Object, History, Effect, event, metric, Metric, EventType, Env,
}

abbrev pub M : Type 0 → Type 0
M A = World → Outcome A × World

module _ {A B : Type 0} where
  abbrev pub continue : Outcome A → (A → M B) → M B
  continue (ok a) f w = f a w
  continue (err e) f w = (err e, w)
  continue panic f w = (panic, w)

  infixl 5 ◌>>=◌ ◌>>◌
  unfoldable pub ◌>>=◌ : M A → (A → M B) → M B
  ◌>>=◌ m f w = let (r, w') = m w in continue r f w'

  abbrev pub ◌>>◌ : M A → M B → M B
  m >> n = m >>= λ _. n

module _ {A : Type 0} where
  unfoldable pub pure : A → M A
  pure a w = (ok a, w)

  -- `return err`
  unfoldable pub fail : GoError → M A
  fail e w = (err e, w)

  -- A nil pointer is dereferenced.
  unfoldable pub crash : M A
  crash w = (panic, w)

  -- `*p`
  unfoldable pub deref : Option A → M A
  deref (some a) w = (ok a, w)
  deref none w = (panic, w)

  abbrev pub wrap_outcome : String → Outcome A → Outcome A
  wrap_outcome format (ok a) = ok a
  wrap_outcome format (err e) = err (wrapf format [] e)
  wrap_outcome format panic = panic

  -- `if err != nil { return fmt.Errorf(format, err) }`
  unfoldable pub wrapping : String → M A → M A
  wrapping format m w = let (r, w') = m w in (wrap_outcome format r, w')

  abbrev pub caught : Outcome A → Outcome (Option GoError)
  caught (ok a) = ok none
  caught (err e) = ok (some e)
  caught panic = panic

  -- The error of a call as a value.
  unfoldable pub attempt : M A → M (Option GoError)
  attempt m w = let (r, w') = m w in (caught r, w')

  abbrev pub as_outcome : LibResult A → Outcome A
  as_outcome (done a) = ok a
  as_outcome (failed e) = err (external e)

  -- A library call that returns a value and an error.
  unfoldable pub lift : LibResult A → M A
  lift r w = (as_outcome r, w)

unfoldable pub get_memory : M Object
get_memory w = (ok w.object, w)

unfoldable pub set_memory : Object → M (Unit {0})
set_memory o w = (ok tt, record w { object = o })

unfoldable pub get_history : M History
get_history w = (ok w.history, w)

unfoldable pub emit : Effect → M (Unit {0})
emit e w = (ok tt, record w { history = e ∷ w.history })

abbrev pub count : Metric → M (Unit {0})
count m = emit (metric m)

-- `if b { … }`
abbrev pub when : Bool → M (Unit {0}) → M (Unit {0})
when b m = if b then m else pure tt

-- `if a.eventRecorder != nil { a.eventRecorder.Eventf(…) }`
abbrev pub eventf : Env → EventType → String → String → List String → Option GoError → M (Unit {0})
eventf env type reason format args e =
    when env.has_recorder (emit (event type reason format args e))
