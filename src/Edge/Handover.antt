-- ===== src/Edge/Handover.antt =====
-- services/mcp-edge-gateway/src/connector-handover.ts: which of two connectors serves. A date is the time
-- that `Date.parse` finds, `none` where it finds none; `locale_gt a b` says that
-- `a.localeCompare(b) > 0`. A generation is a natural number.
pub mod Order
mod Tests
use mcp_access_stack_legacy.Prelude.{
  ℕ, String, Bool, true, false, not, ◌&&◌, Option, none, some, if◌then◌else◌, ◌==◌, ltb, str_eq,
  ◌or_else◌, is_some,
}

-- Of the identity of a connector the fields that the handover reads.
pub record ConnectorRuntimeIdentity : Type 0 where
  pub connector_instance_id : String
  pub process_started_at : Option ℕ
  pub connection_generation : ℕ

abbrev pub started_at : Option ConnectorRuntimeIdentity → Option ℕ
started_at none = none
started_at (some identity) = identity.process_started_at

abbrev pub id_of : Option ConnectorRuntimeIdentity → String
id_of none = ""
id_of (some identity) = identity.connector_instance_id

abbrev pub generation_of : Option ConnectorRuntimeIdentity → ℕ
generation_of none = 0
generation_of (some identity) = identity.connection_generation

module _ (locale_gt : String → String → Bool) where
  -- Of two connectors whose start times are known.
  abbrev pub is_preferred_start :
      Option ConnectorRuntimeIdentity → Option ConnectorRuntimeIdentity → ℕ → ℕ → Bool
  is_preferred_start candidate current candidate_started_at current_started_at =
      if not (candidate_started_at == current_started_at)
      then ltb current_started_at candidate_started_at
      else if str_eq (id_of candidate) (id_of current)
      then ltb (generation_of current) (generation_of candidate)
      else locale_gt (id_of candidate) (id_of current)

  abbrev pub is_preferred_at :
      Option ConnectorRuntimeIdentity → Option ConnectorRuntimeIdentity → Option ℕ → Option ℕ → Bool
  is_preferred_at candidate current (some a) (some b) = is_preferred_start candidate current a b
  is_preferred_at candidate current (some a) none = true
  is_preferred_at candidate current none o = false

  unfoldable pub is_preferred_connector_runtime :
      Option ConnectorRuntimeIdentity → Option ConnectorRuntimeIdentity → Bool
  is_preferred_connector_runtime candidate current =
      is_preferred_at candidate current (started_at candidate) (started_at current)

-- The protocol that is spoken.
pub data EdgeProtocolVersion : Type 0 where
  edge_protocol_version legacy_edge_protocol_version : EdgeProtocolVersion

unfoldable pub select_preferred_connector_protocol :
    (v3_ready legacy_ready : Bool) → Option EdgeProtocolVersion
select_preferred_connector_protocol v3_ready legacy_ready =
    if v3_ready
    then some edge_protocol_version
    else if legacy_ready
    then some legacy_edge_protocol_version
    else none
