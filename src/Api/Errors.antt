-- ===== src/Api/Errors.antt =====
-- Go's `error` and results, and ClassifiedError of pkg/actuators/machine/actuator.go. A message is
-- its format and the values put into it, so that no text is lost and none is rendered.
use machine_api_provider_nvi.Base.{String, List, Option, none, some}

-- APIErrorKind
pub data ApiErrorKind : Type 0 where
  error_transient : ApiErrorKind
  error_terminal : ApiErrorKind

pub data GoError : Type 0 where
  -- An error of a library.
  external : String → GoError
  -- `fmt.Errorf` without `%w`.
  errorf : String → List String → GoError
  -- `fmt.Errorf` with a last argument under `%w`.
  wrapf : String → List String → GoError → GoError
  -- `&ClassifiedError{Kind: …, wrapped: …}`
  classified : ApiErrorKind → GoError → GoError

-- `errors.As(err, &classified)`: the first ClassifiedError of the chain, by its kind.
unfoldable pub as_classified : GoError → Option ApiErrorKind
as_classified (external s) = none
as_classified (errorf f args) = none
as_classified (wrapf f args e) = as_classified e
as_classified (classified k e) = some k

-- What a call gives: its values, an error, or a panic (a nil pointer is dereferenced).
pub data Outcome {ℓ} (A : Type ℓ) : Type ℓ where
  ok : A → Outcome A
  err : GoError → Outcome A
  panic : Outcome A

-- What a library call gives that returns a value and an error: the value, or the error's text.
pub data LibResult {ℓ} (A : Type ℓ) : Type ℓ where
  done : A → LibResult A
  failed : String → LibResult A
