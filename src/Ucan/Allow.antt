-- ===== src/Ucan/Allow.antt =====
-- lib/ucan/token.go: what a token allows.
pub mod Laws
use device_management_servic.Common.{
  ℕ, String, Bool, true, false, ◌||◌, ◌&&◌, not, List, [], ◌∷◌, Option, none, some, if◌then◌else◌,
  any, all, leb,
}
use device_management_servic.Ucan.Capability.{Capability, implies}
use device_management_servic.Ucan.Did.{Did, equal, empty}
use device_management_servic.Ucan.Token.{
  Token, byo, root, chained, Claims, Action, is_invoke, is_delegate, is_broadcast, issuer, subject,
  audience, capability, topic, expire, expire_before, anchor, anchor_depth, exceeds, verify_depth,
}

-- Some member of the list implies the capability: the inner loops.
unfoldable pub granted : List Capability → Capability → Bool
granted caps c = any caps (λ g. implies g c)

-- Each capability that is asked for is granted: the outer loops.
unfoldable pub all_granted : List Capability → List Capability → Bool
unfolding granted
all_granted caps asked = all asked (granted caps)

-- The token is for any audience or for this one.
unfoldable pub audience_ok : Claims → Did → Bool
audience_ok c aud = empty c.audience || equal c.audience aud

claims_allow_invocation : Claims → Did → Did → Capability → Bool
claims_allow_invocation t sub aud c =
    is_invoke t.action && equal t.subject sub && audience_ok t aud && granted t.capability c

unfoldable pub allow_invocation : Token → Did → Did → Capability → Bool
unfolding claims_allow_invocation
allow_invocation byo sub aud c = false
allow_invocation (root t) sub aud c = claims_allow_invocation t sub aud c
allow_invocation (chained t p) sub aud c = claims_allow_invocation t sub aud c

claims_allow_broadcast : Claims → Did → Capability → Capability → Bool
claims_allow_broadcast t sub top c =
    is_broadcast t.action
    && equal t.subject sub
    && empty t.audience
    && granted t.topic top
    && granted t.capability c

unfoldable pub allow_broadcast : Token → Did → Capability → Capability → Bool
unfolding claims_allow_broadcast
allow_broadcast byo sub top c = false
allow_broadcast (root t) sub top c = claims_allow_broadcast t sub top c
allow_broadcast (chained t p) sub top c = claims_allow_broadcast t sub top c

-- `expired` is `t.ExpireBefore(expire)`.
claims_allow_delegation : Claims → Bool → Did → Did → List Capability → Capability → Bool
claims_allow_delegation t expired iss aud topics c =
    is_delegate t.action
    && not expired
    && equal t.subject iss
    && audience_ok t aud
    && all_granted t.topic topics
    && granted t.capability c

-- `allowDelegation`: the token may stand above a token with this issuer, audience, topics and
-- expiry that carries the capability.
unfoldable pub chain_allows : Token → Did → Did → List Capability → ℕ → Capability → Bool
unfolding claims_allow_delegation
chain_allows byo iss aud topics exp c = false
chain_allows (root t) iss aud topics exp c =
    claims_allow_delegation t (expire_before (root t) exp) iss aud topics c
chain_allows (chained t p) iss aud topics exp c =
    claims_allow_delegation t (expire_before (chained t p) exp) iss aud topics c

-- The distance that the chain must have left: a token to delegate by would be a dead end with 1.
abbrev pub needed_depth : Action → ℕ
needed_depth act = if is_delegate act then 2 else 1

unfoldable pub allow_delegation :
    Token → Action → Did → Did → List Capability → ℕ → Capability → Bool
allow_delegation t act iss aud topics exp c =
    verify_depth t (needed_depth act) && chain_allows t iss aud topics exp c

-- `if t.Depth > 0 { depth, ok := ot.AnchorDepth(t.Subject); if ok && depth > t.Depth {…} }`
depth_allows : Claims → Option ℕ → Bool
depth_allows t none = true
depth_allows t (some d) = not (exceeds t.depth d)

claims_allow_action : Claims → Bool → Token → Bool
claims_allow_action t expired ot =
    is_delegate t.action
    && not expired
    && anchor ot t.subject
    && depth_allows t (anchor_depth ot t.subject)
    && audience_ok t (audience ot)
    && all_granted t.capability (capability ot)
    && all_granted t.topic (topic ot)

-- `AllowAction`: a side chain accepts the other token.
unfoldable pub allow_action : Token → Token → Bool
unfolding claims_allow_action depth_allows
allow_action byo ot = false
allow_action (root t) ot = claims_allow_action t (expire_before (root t) (expire ot)) ot
allow_action (chained t p) ot = claims_allow_action t (expire_before (chained t p) (expire ot)) ot

claims_subsume : Claims → Bool → Token → Bool
claims_subsume t chains ot =
    equal t.issuer (issuer ot)
    && equal t.subject (subject ot)
    && equal t.audience (audience ot)
    && leb (expire ot) t.expire
    && chains
    && all_granted t.capability (capability ot)

-- `Subsumes`: both have a chain, which is subsumed too, or neither has.
unfoldable pub subsumes : Token → Token → Bool
unfolding claims_subsume
subsumes byo ot = false
subsumes (root t) byo = claims_subsume t true byo
subsumes (root t) (root o) = claims_subsume t true (root o)
subsumes (root t) (chained o q) = claims_subsume t false (chained o q)
subsumes (chained t p) byo = claims_subsume t false byo
subsumes (chained t p) (root o) = claims_subsume t false (root o)
subsumes (chained t p) (chained o q) = claims_subsume t (subsumes p q) (chained o q)
