-- ===== src/Examples/Identifiers.antt =====
-- Provider IDs.
use machine_api_provider_nvi.Base.{◌<◌, ◌^◌, ◌≡◌, refl, arith}
use machine_api_provider_nvi.Api.Errors.{ok}
use machine_api_provider_nvi.ProviderId.{
  ProviderId, new_provider_id, to_text, parse_provider_id, split, trim_scheme,
}
use machine_api_provider_nvi.ProviderId.RoundTrip.{NoSlash, parse_provider_id-to_text}
use machine_api_provider_nvi.ProviderId.Accepted.{IsAccepted, parse_provider_id-IsAccepted}
use machine_api_provider_nvi.Base.Text.{strip_prefix}
use machine_api_provider_nvi.Examples.Sample.{unary_uuid, unary_uuid-IsLawful}

abbrev id : ProviderId
id = new_provider_id "org" "t" "s" 3

small : 3 < 2 ^ 128
small = ground arith

org_NoSlash : NoSlash "org"
org_NoSlash = ground arith

t_NoSlash : NoSlash "t"
t_NoSlash = ground arith

s_NoSlash : NoSlash "s"
s_NoSlash = ground arith

parse_provider_id-to_text_example : parse_provider_id unary_uuid (to_text unary_uuid id) ≡ ok id
parse_provider_id-to_text_example =
    parse_provider_id-to_text unary_uuid id unary_uuid-IsLawful org_NoSlash t_NoSlash s_NoSlash
      small

parsed : parse_provider_id unary_uuid "nico://org/t/s/uuuu" ≡ ok id
unfolding parse_provider_id trim_scheme strip_prefix split
parsed = refl

parse_provider_id-IsAccepted_example : IsAccepted unary_uuid "nico://org/t/s/uuuu" id
parse_provider_id-IsAccepted_example =
    parse_provider_id-IsAccepted unary_uuid "nico://org/t/s/uuuu" id parsed
