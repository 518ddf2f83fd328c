-- ===== src/Model/Provider.antt =====
-- internal/model/provider.go: provider labels, the billing channel of a label, and the strength of
-- the evidence that a label carries.
use omni_token.Prelude.{
  ℕ, String, ◌≡◌, sym, subst, inl, inr, Bool-cases, All, eq_iff, arith, false, List, [], ◌∷◌, ◌==◌,
  one_of, if◌then◌else◌,
}

abbrev pub provider_anthropic_oauth : String
provider_anthropic_oauth = "anthropic-oauth"

abbrev pub provider_anthropic_api : String
provider_anthropic_api = "anthropic-api"

abbrev pub provider_anthropic : String
provider_anthropic = "anthropic"

abbrev pub provider_openai_chatgpt : String
provider_openai_chatgpt = "openai-chatgpt"

abbrev pub provider_openai_api : String
provider_openai_api = "openai-api"

abbrev pub provider_openai : String
provider_openai = "openai"

abbrev pub provider_bedrock : String
provider_bedrock = "bedrock"

abbrev pub provider_vertex : String
provider_vertex = "vertex"

abbrev pub provider_relay : String
provider_relay = "relay"

abbrev pub provider_unknown : String
provider_unknown = "unknown"

abbrev pub channel_subscription : String
channel_subscription = "subscription"

abbrev pub channel_api : String
channel_api = "api"

abbrev pub channel_relay : String
channel_relay = "relay"

abbrev pub channel_unknown : String
channel_unknown = "unknown"

-- The map `providerChannel` with the fallback of `BillingChannel`.
unfoldable pub billing_channel : String → String
billing_channel p =
    if one_of p (provider_anthropic_oauth ∷ provider_openai_chatgpt ∷ [])
    then channel_subscription
    else if one_of p
        (provider_anthropic_api ∷ provider_openai_api ∷ provider_bedrock ∷ provider_vertex ∷ [])
    then channel_api
    else if p == provider_relay
    then channel_relay
    else if one_of p (provider_anthropic ∷ provider_openai ∷ provider_unknown ∷ "" ∷ [])
    then channel_unknown
    else channel_relay

abbrev pub channels : List String
channels = channel_subscription ∷ channel_api ∷ channel_relay ∷ channel_unknown ∷ []

abbrev pub rank_fingerprint : ℕ
rank_fingerprint = 0

abbrev pub rank_none : ℕ
rank_none = 1

abbrev pub rank_endpoint : ℕ
rank_endpoint = 2

abbrev pub rank_billing : ℕ
rank_billing = 3

abbrev pub rank_not_first_party : ℕ
rank_not_first_party = 4

unfoldable pub provider_rank : String → ℕ
provider_rank p =
    if p == provider_relay
    then rank_not_first_party
    else if one_of p (
        provider_anthropic_oauth ∷ provider_anthropic_api ∷ provider_openai_chatgpt
        ∷ provider_openai_api ∷ [])
    then rank_billing
    else if one_of p (provider_anthropic ∷ provider_openai ∷ [])
    then rank_endpoint
    else if one_of p (provider_bedrock ∷ provider_vertex ∷ [])
    then rank_fingerprint
    else if one_of p (provider_unknown ∷ "" ∷ [])
    then rank_none
    else rank_not_first_party

abbrev pub ranked_providers : List String
ranked_providers =
    provider_bedrock ∷ provider_vertex ∷ provider_unknown ∷ "" ∷ provider_anthropic
    ∷ provider_openai ∷ provider_anthropic_oauth ∷ provider_anthropic_api ∷ provider_openai_chatgpt
    ∷ provider_openai_api ∷ provider_relay ∷ []

abbrev pub default_provider_rank : ℕ
default_provider_rank = rank_not_first_party

-- `CASE provider WHEN p THEN n … ELSE d END`, built from a list of labels.
abbrev case_provider : List String → String → ℕ
case_provider [] p = default_provider_rank
case_provider (q ∷ qs) p = if p == q then provider_rank q else case_provider qs p

-- internal/store/window.go: the SQL mirror of `provider_rank`.
unfoldable pub provider_rank_sql : String → ℕ
provider_rank_sql = case_provider ranked_providers

-- A label is one of the ranked ones, or every comparison with them fails.
ranked_or_other :
    (P : String → Type 0) (qs : List String) (p : String)
    → All P qs
    → (All (λ q. (p == q) ≡ false) qs → P p)
    → P p
ranked_or_other P [] p h k = k tt
ranked_or_other P (q ∷ qs) p h k = elim (Bool-cases (p == q)) [
  | inl e ↦ subst P (sym ((eq_iff p q).0 e)) h.0
  | inr e ↦ ranked_or_other P qs p h.1 (λ r. k (e, r))
]

-- The SQL expression and the Go function rank every label alike.
pub provider_rank_sql_lem : (p : String) → provider_rank_sql p ≡ provider_rank p
unfolding provider_rank_sql provider_rank
provider_rank_sql_lem p =
    ranked_or_other (λ s. provider_rank_sql s ≡ provider_rank s) ranked_providers p (omega arith)
      (λ h. rw (
        h.0, h.1.0, h.1.1.0, h.1.1.1.0, h.1.1.1.1.0, h.1.1.1.1.1.0, h.1.1.1.1.1.1.0,
        h.1.1.1.1.1.1.1.0, h.1.1.1.1.1.1.1.1.0, h.1.1.1.1.1.1.1.1.1.0, h.1.1.1.1.1.1.1.1.1.1.0,
      ))
