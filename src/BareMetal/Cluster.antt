-- ===== src/BareMetal/Cluster.antt =====
-- What the controller of pkg/controllers/baremetalhost runs in: the NICo API, the Kubernetes API
-- and the clock. They are the fields of `Cluster`, over a type of outside worlds that is left
-- open: a call gives its result and the world after it.
pub mod Frames
use machine_api_provider_nvi.Base.{ℕ, String, Option, none, some, List, []}
use machine_api_provider_nvi.Base.Dict.{Dict}
use machine_api_provider_nvi.Api.Errors.{GoError, LibResult, external, wrapf}
use machine_api_provider_nvi.Api.Sdk.{Reply}
use machine_api_provider_nvi.BareMetal.Types.{
  NicoMachine, Sku, ExploredEndpoint, HardwareDetails, Host, FirmwareComponents,
}

-- What `Get` gives: the object, `errors.IsNotFound(err)`, or another error.
pub data Got {ℓ} (A : Type ℓ) : Type ℓ where
  got : A → Got A
  absent : Got A
  get_failed : String → Got A

pub record Cluster (S : Type 0) : Type 0 where
  -- The fields OrgName and Namespace of Reconciler.
  pub org_name : String
  pub namespace : String
  -- NicoClientInterface; the text is the organisation.
  pub get_all_machine : String → S → Reply (List NicoMachine) × S
  pub get_all_sku : String → S → Reply (List Sku) × S
  pub get_all_site_explorer_endpoint : String → S → Reply (List ExploredEndpoint) × S
  -- client.Client: the object by its namespace and its name, and an error of a write.
  pub get_host : String → String → S → Got Host × S
  pub create_host : Host → S → Option String × S
  pub update_host : Host → S → Option String × S
  pub get_components : String → String → S → Got FirmwareComponents × S
  -- The object as `Create` leaves it in memory, and the error.
  pub create_components : FirmwareComponents → S → (FirmwareComponents × Option String) × S
  pub update_components_status : FirmwareComponents → S → Option String × S
  -- `time.Now()`, in nanoseconds.
  pub clock : S → ℕ
  -- `json.Marshal`, and the order in which `range` walks a map.
  pub marshal : HardwareDetails → LibResult String
  pub order : Dict String → List (String × String)

-- The fields of Reconciler that change, and the world outside.
pub record State (S : Type 0) : Type 0 where
  pub sku_cache : Option (Dict Sku)
  pub sku_cache_expiry : ℕ
  pub world : S

abbrev pub M : Type 0 → Type 0 → Type 0
M S A = State S → A × State S

module _ {S A : Type 0} where
  unfoldable pub pure : A → M S A
  pure a s = (a, s)

  -- A call of the outside world.
  unfoldable pub call : (S → A × S) → M S A
  call f s = let (a, w) = f s.world in (a, record s { world = w })

  module _ {B : Type 0} where
    infixl 5 ◌>>=◌ ◌>>◌
    unfoldable pub ◌>>=◌ : M S A → (A → M S B) → M S B
    ◌>>=◌ m f s = let (a, s') = m s in f a s'

    abbrev pub ◌>>◌ : M S A → M S B → M S B
    m >> n = m >>= λ _. n

module _ {S : Type 0} where
  unfoldable pub now : Cluster S → M S ℕ
  now c s = (c.clock s.world, s)

  unfoldable pub get_state : M S (State S)
  get_state s = (s, s)

  unfoldable pub set_cache : Dict Sku → ℕ → M S (Unit {0})
  set_cache skus expiry s = (tt, record s { sku_cache = some skus; sku_cache_expiry = expiry })

-- An error of a call, and the same under a format.
abbrev pub failure_of : Option String → Option GoError
failure_of none = none
failure_of (some text) = some (external text)

abbrev pub wrapped : String → Option GoError → Option GoError
wrapped format none = none
wrapped format (some e) = some (wrapf format [] e)
