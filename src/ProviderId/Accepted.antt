-- ===== src/ProviderId/Accepted.antt =====
-- Which texts ParseProviderID accepts.
use Prim.Native.Char.{Char, code}
use text.Mathlib.TextEquality.{Char-path}
use text.Mathlib.TextLemmas.{nil-append, cons-append}
use machine_api_provider_nvi.Base.{
  String, ◌<>◌, List, [], ◌∷◌, some, ◌≡◌, ◌≢◌, ◌⊎◌, inl, inr, refl, ◌∙◌, true, arith, eqb,
  Bool-cases, Option-cases, ℕ, ap, All,
}
use machine_api_provider_nvi.Base.Text.{strip_prefix}
use machine_api_provider_nvi.Api.Errors.{LibResult, done, failed, ok}
use machine_api_provider_nvi.ProviderId.{
  UuidLibrary, provider_prefix, legacy_provider_prefix, ProviderId, trim_scheme, cons_first, split,
  with_instance, parse_parts, parse_trimmed, parse_provider_id,
}
use machine_api_provider_nvi.ProviderId.RoundTrip.{NoSlash, IsScheme, three_segments, four_segments}

-- Joins parts by "/".
abbrev pub join : List String → String
join [] = ""
join (part ∷ []) = part
join (part ∷ next ∷ parts) = part <> ("/" <> join (next ∷ parts))

join-cons_first :
    (c : Char) (parts : List String) → join (cons_first c parts) ≡ String.◌∷◌ c (join parts)
join-cons_first c [] = refl
join-cons_first c (part ∷ []) = refl
join-cons_first c (part ∷ next ∷ parts) = cons-append c part _

code-eq : (c d : Char) → eqb (code c) (code d) ≡ true → c ≡ d
code-eq c d h = Char-path c d (ground arith)

cons_first-ne-nil : (c : Char) (parts : List String) → cons_first c parts ≢ []
cons_first-ne-nil c [] = λ e. cc
cons_first-ne-nil c (part ∷ parts) = λ e. cc

split-ne-nil : (s : String) → split s ≢ []
unfolding split
split-ne-nil String.[] = λ e. cc
split-ne-nil (String.◌∷◌ c s) = ground (arith, cons_first-ne-nil c (split s))

join-cons : (parts : List String) → parts ≢ [] → join ("" ∷ parts) ≡ "/" <> join parts
join-cons [] h = absurd (h refl)
join-cons (part ∷ parts) h = nil-append _

slash : (c : Char) (s : String) → eqb (code c) b'/' ≡ true → "/" <> s ≡ String.◌∷◌ c s
slash c s e = rw (code-eq c "/" e) (rw (cons-append, nil-append) refl)

join-split : (s : String) → join (split s) ≡ s
unfolding split
join-split String.[] = refl
join-split (String.◌∷◌ c s) = elim (Bool-cases (eqb (code c) b'/')) [
  | inl e ↦ rw (e, split) (join-cons (split s) (split-ne-nil s) ∙ rw (join-split s) (slash c s e))
  | inr e ↦ rw (e, split) (join-cons_first c (split s) ∙ rw (join-split s) refl)
]

strip_prefix-eq-some : (p s rest : String) → strip_prefix p s ≡ some rest → s ≡ p <> rest
unfolding strip_prefix
strip_prefix-eq-some String.[] s rest h = rw nil-append (ground arith)
strip_prefix-eq-some (String.◌∷◌ c p) String.[] rest h = cc
strip_prefix-eq-some (String.◌∷◌ c p) (String.◌∷◌ d s) rest h =
    elim (Bool-cases (eqb (code c) (code d))) [
      | inl e ↦
          let tail = strip_prefix-eq-some p s rest (ground arith) in
          rw (code-eq c d e, tail, cons-append) refl
      | inr e ↦ absurd (ground arith)
    ]

trim_scheme-eq-some :
    (text t : String)
    → trim_scheme text ≡ some t
    → (scheme : String) × IsScheme scheme × (text ≡ scheme <> t)
unfolding trim_scheme
trim_scheme-eq-some text t h = elim (Option-cases (strip_prefix provider_prefix text)) [
  | inl e ↦
      let h' : strip_prefix legacy_provider_prefix text ≡ some t = rw (e, trim_scheme) at h in
      (legacy_provider_prefix, inr refl, strip_prefix-eq-some legacy_provider_prefix text t h')
  | inr (s, e) ↦
      let same : s ≡ t = ground arith in
      (provider_prefix, inl refl, strip_prefix-eq-some provider_prefix text t (e ∙ ap some same))
]

-- `text` is `scheme` followed by the segments of `p`, none of which has a "/"; the last of them
-- reads as its UUID.
pub record IsAccepted (uuid : UuidLibrary) (text : String) (p : ProviderId) : Type 0 where
  pub scheme : String
  pub id : String
  pub known_scheme : IsScheme scheme
  pub id_parses : uuid.parse id ≡ done p.instance_id
  pub segments :
      (text ≡ scheme <> four_segments p.org_name p.tenant_name p.site_name id)
      ⊎ ((p.tenant_name ≡ "") × (text ≡ scheme <> three_segments p.org_name p.site_name id))
  pub no_slash : All NoSlash (p.org_name ∷ p.tenant_name ∷ p.site_name ∷ id ∷ [])

cons_first-NoSlash :
    (c : Char) (parts : List String)
    → code c ≢ b'/'
    → All NoSlash parts
    → All NoSlash (cons_first c parts)
cons_first-NoSlash c [] h k = ((h, tt), tt)
cons_first-NoSlash c (part ∷ parts) h (k, ks) = ((h, k), ks)

split-All-NoSlash : (s : String) → All NoSlash (split s)
unfolding split
split-All-NoSlash String.[] = (tt, tt)
split-All-NoSlash (String.◌∷◌ c s) = elim (Bool-cases (eqb (code c) b'/')) [
  | inl e ↦ rw (e, split) (tt, split-All-NoSlash s)
  | inr e ↦ rw (e, split) (cons_first-NoSlash c (split s) (ground (arith, e)) (split-All-NoSlash s))
]

module _ (uuid : UuidLibrary) (text : String) (p : ProviderId) where
  with_instance-eq-ok :
      (r : LibResult ℕ) (part : String) (build : ℕ → ProviderId)
      → with_instance uuid r part build ≡ ok p
      → (u : ℕ) × (r ≡ done u) × (build u ≡ p)
  unfolding with_instance
  with_instance-eq-ok (done u) part build h = (u, refl, cc)
  with_instance-eq-ok (failed e) part build h = cc

  parse_parts-eq-ok :
      (scheme : String) (parts : List String)
      → IsScheme scheme
      → text ≡ scheme <> join parts
      → All NoSlash parts
      → parse_parts uuid text parts ≡ ok p
      → IsAccepted uuid text p
  unfolding parse_parts
  parse_parts-eq-ok scheme [] k e ns h = cc
  parse_parts-eq-ok scheme (a ∷ []) k e ns h = cc
  parse_parts-eq-ok scheme (a ∷ b ∷ []) k e ns h = cc
  parse_parts-eq-ok scheme (org ∷ site ∷ id ∷ []) k e ns h =
      let (u, parsed, same) = with_instance-eq-ok _ _ _ h in
      rw (← same) (record {
        scheme = scheme;
        id = id;
        known_scheme = k;
        id_parses = parsed;
        segments = inr (refl, e);
        no_slash = (ns.0, (tt, ns.1));
      })
  parse_parts-eq-ok scheme (org ∷ tenant ∷ site ∷ id ∷ []) k e ns h =
      let (u, parsed, same) = with_instance-eq-ok _ _ _ h in
      rw (← same) (record {
        scheme = scheme;
        id = id;
        known_scheme = k;
        id_parses = parsed;
        segments = inl e;
        no_slash = ns;
      })
  parse_parts-eq-ok scheme (a ∷ b ∷ c ∷ d ∷ f ∷ parts) k e ns h = cc

  -- A text that the parser accepts is one of the two schemes, then three or four segments without a
  -- "/", of which the last is a UUID, and the parsed fields are these segments.
  pub parse_provider_id-IsAccepted : parse_provider_id uuid text ≡ ok p → IsAccepted uuid text p
  unfolding parse_provider_id parse_trimmed
  parse_provider_id-IsAccepted h = elim (Option-cases (trim_scheme text)) [
    | inl e ↦ let bad = rw (e, parse_trimmed) at h in cc
    | inr (t, e) ↦
        let (scheme, k, same) = trim_scheme-eq-some text t e in
        parse_parts-eq-ok scheme (split t) k (rw (join-split t) same) (split-All-NoSlash t)
          (rw (e, parse_trimmed) at h)
  ]
