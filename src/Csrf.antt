-- ===== src/Csrf.antt =====
-- packages/core/src/policies/csrf-policy.ts.
use authia.Prelude.{
  String, Bool, false, ◌&&◌, ◌==◌, Option, none, some, lookup, truthy, if◌then◌else◌,
}
use authia.Contracts.Errors.{DeniedCode}
use authia.Contracts.Results.{RequestContext}
use authia.Contracts.Services.{Platform, Policy, PolicyDecision}

-- headers.origin, headers.referer: an absent header and an empty one are both falsy.
abbrev pub header_truthy : Option String → Bool
header_truthy none = false
header_truthy (some value) = truthy value

abbrev pub header_is : Option String → String → Bool
header_is none value = false
header_is (some given) value = given == value

-- The referer is read only where the origin is falsy.
abbrev pub referer_decision : Platform → String → Option String → PolicyDecision
referer_decision platform public_origin none = PolicyDecision.deny DeniedCode.policy_denied
referer_decision platform public_origin (some referer) =
    if truthy referer && header_is (platform.url_origin referer) public_origin
    then PolicyDecision.allow
    else PolicyDecision.deny DeniedCode.policy_denied

unfoldable pub csrf_decision : Platform → String → RequestContext → PolicyDecision
csrf_decision platform public_origin context =
    let origin = lookup "origin" context.headers in
    if header_is origin public_origin
    then PolicyDecision.allow
    else if header_truthy origin
    then PolicyDecision.deny DeniedCode.policy_denied
    else referer_decision platform public_origin (lookup "referer" context.headers)

abbrev pub create_csrf_policy : {W : Type 0} → Platform → String → Policy W
create_csrf_policy platform public_origin = record {
  may_redirect = false;
  evaluate = λ context w. (some (csrf_decision platform public_origin context), w);
}
