-- ===== src/ProviderId/RoundTrip.antt =====
-- What ParseProviderID reads back of printed provider IDs.
use Prim.Native.Char.{code}
use text.Mathlib.TextLemmas.{nil-append, cons-append}
use machine_api_provider_nvi.Base.{
  ℕ, ◌<◌, ◌^◌, String, ◌<>◌, [], ◌∷◌, none, some, ◌≡◌, ◌≢◌, ◌⊎◌, inl, inr, refl, arith,
}
use machine_api_provider_nvi.Base.Text.{strip_prefix, strip_prefix-append}
use machine_api_provider_nvi.Api.Errors.{done, ok}
use machine_api_provider_nvi.ProviderId.{
  UuidLibrary, provider_prefix, legacy_provider_prefix, ProviderId, new_provider_id, trim_scheme,
  split, to_text, parse_provider_id,
}

-- The text has no "/".
abbrev pub NoSlash : String → Type 0
NoSlash String.[] = Unit
NoSlash (String.◌∷◌ c s) = (code c ≢ b'/') × NoSlash s

-- What is relied on of the UUID library: a printed UUID is read back, and has no "/".
pub record IsLawful (uuid : UuidLibrary) : Type 0 where
  pub parse-print : (u : ℕ) → u < 2 ^ 128 → uuid.parse (uuid.print u) ≡ done u
  pub print-NoSlash : (u : ℕ) → u < 2 ^ 128 → NoSlash (uuid.print u)

split-NoSlash : (s : String) → NoSlash s → split s ≡ s ∷ []
unfolding split
split-NoSlash String.[] h = refl
split-NoSlash (String.◌∷◌ c s) (h, hs) = rw (split-NoSlash s hs) (ground arith)

split-append : (s rest : String) → NoSlash s → split (s <> ("/" <> rest)) ≡ s ∷ split rest
unfolding split
split-append String.[] rest h = rw (nil-append, cons-append, nil-append) refl
split-append (String.◌∷◌ c s) rest (h, hs) =
    rw (cons-append c s ("/" <> rest)) (rw (split-append s rest hs, split) (ground arith))

-- The legacy scheme does not begin with the current one.
strip_prefix-legacy :
    (s : String) → strip_prefix provider_prefix (legacy_provider_prefix <> s) ≡ none
unfolding strip_prefix
strip_prefix-legacy s = rw cons-append (rw cons-append refl)

abbrev pub IsScheme : String → Type 0
IsScheme scheme = (scheme ≡ provider_prefix) ⊎ (scheme ≡ legacy_provider_prefix)

trim_scheme-append : (scheme s : String) → IsScheme scheme → trim_scheme (scheme <> s) ≡ some s
unfolding trim_scheme
trim_scheme-append scheme s (inl e) =
    rw e (rw (strip_prefix-append provider_prefix s, trim_scheme) refl)
trim_scheme-append scheme s (inr e) = rw e (
    rw (strip_prefix-legacy s, trim_scheme)
      (rw (strip_prefix-append legacy_provider_prefix s) refl))

-- The text after the scheme, of three and of four segments.
abbrev pub three_segments : String → String → String → String
three_segments org site id = org <> ("/" <> (site <> ("/" <> id)))

abbrev pub four_segments : String → String → String → String → String
four_segments org tenant site id = org <> ("/" <> (tenant <> ("/" <> (site <> ("/" <> id)))))

split-three_segments :
    (org site id : String)
    → NoSlash org
    → NoSlash site
    → NoSlash id
    → split (three_segments org site id) ≡ org ∷ site ∷ id ∷ []
split-three_segments org site id ho hs hi =
    rw (split-append org _ ho, split-append site id hs, split-NoSlash id hi)

split-four_segments :
    (org tenant site id : String)
    → NoSlash org
    → NoSlash tenant
    → NoSlash site
    → NoSlash id
    → split (four_segments org tenant site id) ≡ org ∷ tenant ∷ site ∷ id ∷ []
split-four_segments org tenant site id ho ht hs hi =
    rw (
      split-append org _ ho,
      split-append tenant _ ht,
      split-append site id hs,
      split-NoSlash id hi,
    )

-- A provider ID with no "/" in its names and a 128-bit instance ID is parsed back from its text, if
-- the UUID library reads back what it prints and prints no "/".
pub parse_provider_id-to_text :
    (uuid : UuidLibrary) (p : ProviderId)
    → IsLawful uuid
    → NoSlash p.org_name
    → NoSlash p.tenant_name
    → NoSlash p.site_name
    → p.instance_id < 2 ^ 128
    → parse_provider_id uuid (to_text uuid p) ≡ ok p
unfolding parse_provider_id to_text
parse_provider_id-to_text uuid p law ho ht hs hi =
    rw (trim_scheme-append provider_prefix _ (inl refl), parse_provider_id)
      (rw
        (split-four_segments p.org_name p.tenant_name p.site_name (uuid.print p.instance_id) ho ht
          hs (law.print-NoSlash p.instance_id hi))
        (rw (law.parse-print p.instance_id hi)))

-- Under both schemes, and if the UUID library reads back what it prints and prints no "/", the text
-- of three segments without a "/" is read with an empty tenant, and that of four segments with its
-- tenant.
parse_provider_id-schemes :
    (uuid : UuidLibrary) (scheme org tenant site : String) (u : ℕ)
    → IsLawful uuid
    → IsScheme scheme
    → NoSlash org
    → NoSlash tenant
    → NoSlash site
    → u < 2 ^ 128
    → (parse_provider_id uuid (scheme <> three_segments org site (uuid.print u))
        ≡ ok (new_provider_id org "" site u))
      × (parse_provider_id uuid (scheme <> four_segments org tenant site (uuid.print u))
          ≡ ok (new_provider_id org tenant site u))
unfolding parse_provider_id
parse_provider_id-schemes uuid scheme org tenant site u law e ho ht hs hi =
    let id = uuid.print u in
    let hid = law.print-NoSlash u hi in
    (
      rw (trim_scheme-append scheme _ e, parse_provider_id)
          (rw (split-three_segments org site id ho hs hid) (rw (law.parse-print u hi))),
      rw (trim_scheme-append scheme _ e, parse_provider_id)
          (rw (split-four_segments org tenant site id ho ht hs hid) (rw (law.parse-print u hi))),
    )
