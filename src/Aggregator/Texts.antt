-- ===== src/Aggregator/Texts.antt =====
-- crates/broker/src/mcp_client.rs and aggregator.rs: the texts of the errors. The text of an
-- io::Error is kept as it is.
use mcp_lock.Prelude.{suc, String}
use mcp_lock.Prelude.Text.{◌+++◌}
use mcp_lock.Prelude.Decimal.{decimal}
use mcp_lock.Child.{Code, pos, negsuc, ChildError, io, protocol, rpc, exited, timeout}
use mcp_lock.Aggregator.Data.{
  AggregatorError, invalid_server_id, unknown_server, unknown_tool, not_exposed, not_confirmed,
  child,
}

abbrev pub code_text : Code → String
code_text (pos n) = decimal n
code_text (negsuc n) = "-" +++ decimal (suc n)

abbrev pub child_error_text : ChildError → String
child_error_text (io e) = "child io error: " +++ e
child_error_text (protocol m) = "child protocol error: " +++ m
child_error_text (rpc code message) =
    "child returned error " +++ (code_text code +++ (": " +++ message))
child_error_text exited = "child exited"
child_error_text timeout = "child timed out"

abbrev pub aggregator_error_text : AggregatorError → String
aggregator_error_text (invalid_server_id id) = "server id '" +++ (id +++ "' must not contain '.'")
aggregator_error_text (unknown_server id) = "unknown server: " +++ id
aggregator_error_text (unknown_tool name) = "unknown tool: " +++ name
aggregator_error_text (not_exposed name) = "tool not currently exposed: " +++ name
aggregator_error_text (not_confirmed name) =
    "tool requires a fresh per-action confirmation: " +++ name
aggregator_error_text (child e) = child_error_text e
