-- ===== src/Daemon/Asked.antt =====
-- What the requests of the MCP client lead to, from a state of the daemon.
use mcp_lock.Prelude.{ℕ, ◌≡◌, refl}
use mcp_lock.Policy.Grant.{Timestamp}
use mcp_lock.Aggregator.Data.{Aggregator}
use mcp_lock.Mcp.{BrokerMcpHandler, McpExternals, handle}
use mcp_lock.Daemon.{Served}
use mcp_lock.Daemon.Requests.{mcp_handler, mcp_request}

module _ {Value Child Spawner Key File : Type 0} where
  -- The states that requests of the MCP client lead to, whatever its children answer.
  pub data Asked (s : Served Value Child Spawner Key File)
      : Served Value Child Spawner Key File → Type 0 where
    unasked : Asked s s
    asks :
        (ext : McpExternals Value Child Spawner File) {t : Served Value Child Spawner Key File}
        (request : Value) (at : Timestamp) (wall : ℕ)
        → Asked s t
        → Asked s (mcp_request ext t request at wall).1

  -- What holds of the shared aggregator and survives a request of the MCP client.
  pub Asked_lem :
      (P : Aggregator Value Child Spawner → Type 0) (s t : Served Value Child Spawner Key File)
      → ((ext : McpExternals Value Child Spawner File)
            (h : BrokerMcpHandler Value Child Spawner File) (request : Value) (at : Timestamp)
            (wall : ℕ)
          → P h.aggregator.value
          → P (handle ext h request at wall).1.aggregator.value)
      → P s.aggregator.value
      → Asked s t
      → P t.aggregator.value
  unfolding mcp_request
  Asked_lem P s t keeps p unasked = p
  Asked_lem P s t keeps p (asks ext {t = u} request at wall before) =
      keeps ext (mcp_handler u) request at wall (Asked_lem P s u keeps p before)

  pub Asked-control :
      (s t : Served Value Child Spawner Key File) → Asked s t → t.control ≡ s.control
  unfolding mcp_request
  Asked-control s t unasked = refl
  Asked-control s t (asks ext {t = u} request at wall before) = Asked-control s u before
