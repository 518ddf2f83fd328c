-- ===== src/Tests/ModelTests.antt =====
-- Tests of Model.
use omni_token.Prelude.{[], ◌≡◌, refl}
use omni_token.Model.Provider.{provider_rank, provider_rank_sql, provider_rank_sql_lem}
use omni_token.Model.Envelope.{validate_ingest_envelope}
use omni_token.Tests.Data.{envelope}

provider_rank_sql_lem_example :
    provider_rank_sql "anthropic-oauth" ≡ provider_rank "anthropic-oauth"
provider_rank_sql_lem_example = provider_rank_sql_lem "anthropic-oauth"

accepted : validate_ingest_envelope envelope ≡ []
unfolding validate_ingest_envelope omni_token.Model.Envelope.check_header
    omni_token.Model.Envelope.valid_uuid omni_token.Model.Envelope.check_events_payload
    omni_token.Model.Envelope.check_events
accepted = refl
