-- ===== src/Daemon/Requests.antt =====
-- crates/broker/src/main.rs: the two handlers over the aggregator and the tape that
-- they share.
use mcp_lock.Prelude.{ℕ, Option, none, some}
use mcp_lock.Policy.Grant.{Timestamp}
use mcp_lock.Control.Data.{ControlRequest, ControlResponse, Externals, Inputs, Handler}
use mcp_lock.Control.Handle.{handle as control_handle}
use mcp_lock.Mcp.{BrokerMcpHandler, McpExternals, handle as mcp_handle}
use mcp_lock.Daemon.{ControlOwn, Served, own_of}

module _ {Value Child Spawner Key File : Type 0} where
  abbrev pub mcp_handler :
      Served Value Child Spawner Key File → BrokerMcpHandler Value Child Spawner File
  mcp_handler s = record { aggregator = s.aggregator; audit = s.audit }

  abbrev pub control_handler :
      Served Value Child Spawner Key File → ControlOwn Key → Handler Value Child Spawner Key File
  control_handler s own = record {
    aggregator = s.aggregator;
    notified = own.notified;
    nonces = own.nonces;
    registry = own.registry;
    audit = s.audit;
    log = own.log;
  }

  -- A request of the MCP client that the endpoint lets through: it leaves the shared cells to the
  -- next request of either handler.
  unfoldable pub mcp_request :
      McpExternals Value Child Spawner File
      → Served Value Child Spawner Key File
      → Value
      → Timestamp
      → ℕ
      → Value × Served Value Child Spawner Key File
  mcp_request ext s request now wall =
      let (response, h) = mcp_handle ext (mcp_handler s) request now wall in
      (response, record s { aggregator = h.aggregator; audit = h.audit })

  abbrev controlled :
      Externals Value Child Spawner Key File
      → Served Value Child Spawner Key File
      → Inputs
      → ControlRequest
      → Option (ControlOwn Key)
      → Option (ControlResponse × Served Value Child Spawner Key File)
  controlled ext s inputs request none = none
  controlled ext s inputs request (some own) =
      let (response, h) = control_handle ext (control_handler s own) inputs request in
      some (
        response,
        record s { aggregator = h.aggregator; audit = h.audit; control = some (own_of h) },
      )

  -- A request of the control channel, where there is one.
  unfoldable pub control_request :
      Externals Value Child Spawner Key File
      → Served Value Child Spawner Key File
      → Inputs
      → ControlRequest
      → Option (ControlResponse × Served Value Child Spawner Key File)
  control_request ext s inputs request = controlled ext s inputs request s.control
