-- ===== src/ProviderId.antt =====
-- pkg/providerid/providerid.go. A uuid.UUID is its 128-bit value; the UUID library's `Parse` and
-- `String` are the fields of a parameter.
pub mod RoundTrip
pub mod Accepted
use Prim.Native.Char.{Char, code}
use Prim.Native.String
use machine_api_provider_nvi.Base.{
  ℕ, String, ◌<>◌, List, [], ◌∷◌, Option, none, some, eqb, if◌then◌else◌,
}
use machine_api_provider_nvi.Base.Text.{strip_prefix}
use machine_api_provider_nvi.Api.Errors.{
  external, errorf, wrapf, Outcome, ok, err, LibResult, done, failed,
}

-- github.com/google/uuid
pub record UuidLibrary : Type 0 where
  pub parse : String → LibResult ℕ
  pub print : ℕ → String

abbrev pub provider_prefix : String
provider_prefix = "nico://"

abbrev pub legacy_provider_prefix : String
legacy_provider_prefix = "nvidia-carbide://"

pub record ProviderId : Type 0 where
  pub org_name : String
  pub tenant_name : String
  pub site_name : String
  pub instance_id : ℕ

abbrev pub new_provider_id : String → String → String → ℕ → ProviderId
new_provider_id org tenant site id = record {
  org_name = org;
  tenant_name = tenant;
  site_name = site;
  instance_id = id;
}

-- Puts a character in front of the first part.
abbrev pub cons_first : Char → List String → List String
cons_first c [] = String.◌∷◌ c "" ∷ []
cons_first c (part ∷ parts) = String.◌∷◌ c part ∷ parts

-- `strings.Split(s, "/")`
unfoldable pub split : String → List String
split String.[] = "" ∷ []
split (String.◌∷◌ c s) =
    let rest = split s in if eqb (code c) b'/' then "" ∷ rest else cons_first c rest

-- The `switch` on the prefixes: the text after the scheme.
unfoldable pub trim_scheme : String → Option String
trim_scheme text = elim (strip_prefix provider_prefix text) [
  | some trimmed ↦ some trimmed
  | none ↦ strip_prefix legacy_provider_prefix text
]

module _ (uuid : UuidLibrary) where
  -- `(*ProviderID).String`
  unfoldable pub to_text : ProviderId → String
  to_text p =
      provider_prefix
      <> (p.org_name
          <> ("/"
              <> (p.tenant_name <> ("/" <> (p.site_name <> ("/" <> uuid.print p.instance_id))))))

  with_instance : LibResult ℕ → String → (ℕ → ProviderId) → Outcome ProviderId
  with_instance (done id) part build = ok (build id)
  with_instance (failed e) part build =
      err (wrapf "invalid instance ID %q: %w" (part ∷ []) (external e))

  -- The `switch len(parts)`.
  parse_parts : String → List String → Outcome ProviderId
  parse_parts text (org ∷ site ∷ id ∷ []) =
      with_instance (uuid.parse id) id (new_provider_id org "" site)
  parse_parts text (org ∷ tenant ∷ site ∷ id ∷ []) =
      with_instance (uuid.parse id) id (new_provider_id org tenant site)
  parse_parts text _ =
      err (errorf "invalid provider ID format, expected 3 or 4 segments: %s" (text ∷ []))

  parse_trimmed : String → Option String → Outcome ProviderId
  unfolding parse_parts with_instance
  parse_trimmed text (some trimmed) = parse_parts text (split trimmed)
  parse_trimmed text none = err (
      errorf "invalid provider ID prefix, expected %q or %q: %s"
        (provider_prefix ∷ legacy_provider_prefix ∷ text ∷ []))

  unfoldable pub parse_provider_id : String → Outcome ProviderId
  unfolding parse_trimmed
  parse_provider_id text = parse_trimmed text (trim_scheme text)
