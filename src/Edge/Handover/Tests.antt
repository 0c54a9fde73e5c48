-- ===== src/Edge/Handover/Tests.antt =====
-- Three connectors, of which the second and the third started together.
use mcp_access_stack_legacy.Prelude.{String, Bool, true, false, Option, some, ◌≡◌, ltb, ℕ, arith}
use mcp_access_stack_legacy.Core.Text.{utf16_length}
use mcp_access_stack_legacy.Edge.Handover.{ConnectorRuntimeIdentity, is_preferred_connector_runtime}
use mcp_access_stack_legacy.Edge.Handover.Order.{is_preferred_order}

abbrev connector : ℕ → ℕ → Option ConnectorRuntimeIdentity
connector time generation = some (record {
  connector_instance_id = "c";
  process_started_at = some time;
  connection_generation = generation;
})

-- An order on texts, by their lengths.
abbrev longer : String → String → Bool
longer a b = ltb (utf16_length b) (utf16_length a)

longer_asymmetric : (a b : String) → longer a b ≡ true → longer b a ≡ false
longer_asymmetric a b e = ground arith

longer_transitive : (a b c : String) → longer a b ≡ true → longer b c ≡ true → longer a c ≡ true
longer_transitive a b c e f = ground arith

is_preferred_order_example :
    (is_preferred_connector_runtime longer (connector 9 1) (connector 9 1) ≡ false)
    × (is_preferred_connector_runtime longer (connector 9 1) (connector 7 2) ≡ true
        → is_preferred_connector_runtime longer (connector 7 2) (connector 9 1) ≡ false)
    × (is_preferred_connector_runtime longer (connector 9 1) (connector 7 2) ≡ true
        → is_preferred_connector_runtime longer (connector 7 2) (connector 7 1) ≡ true
        → is_preferred_connector_runtime longer (connector 9 1) (connector 7 1) ≡ true)
is_preferred_order_example =
    is_preferred_order longer longer_asymmetric longer_transitive (connector 9 1) (connector 7 2)
      (connector 7 1)
