-- ===== src/Client/Supervised.antt =====
-- crates/broker/src/mcp_client.rs: the client as the child that the aggregator supervises, and
-- crates/broker/src/main.rs: `spawn_child`. The operating system is a parameter, `launch`: the process
-- of an entry of the manifest with its pipes, or the text of the error.
use mcp_lock.Prelude.{ℕ, String, Bool, true, false}
use mcp_lock.Prelude.Results.{Result, ok, err}
use mcp_lock.Manifest.{ServerManifest}
use mcp_lock.Child.{ChildError, io, McpChild}
use mcp_lock.Client.Reap.{Waited, running, reaped, failed}
use mcp_lock.Client.Operations.{call_tool, list_tools, spawn}
use mcp_lock.Client.Requests.{Receiver, StdioMcpClient, ClientExternals, default_request_timeout}

-- A process that was launched: its pipes, what `try_wait` says of it at a time, and the time.
pub record Process (Pipe : Type 0) : Type 0 where
  pub stdin : Pipe
  pub stdout : Receiver
  pub try_wait : ℕ → Waited
  pub launched_at : ℕ

-- The client, its process, and the time until which it was used.
pub record Supervised (Pipe : Type 0) : Type 0 where
  pub client : StdioMcpClient Pipe
  pub try_wait : ℕ → Waited
  pub now : ℕ

abbrev is_running : Waited → Bool
is_running running = true
is_running reaped = false
is_running failed = false

unfoldable pub is_alive : {Pipe : Type 0} → Supervised Pipe → Bool × Supervised Pipe
is_alive c = (is_running (c.try_wait c.now), c)

abbrev pub used :
    {Pipe : Type 0} {A : Type 0}
    → Supervised Pipe
    → A × ℕ × StdioMcpClient Pipe
    → A × Supervised Pipe
used c (a, now, client) = (a, record c { client = client; now = now })

module _ {Value Pipe Spawner : Type 0} (ext : ClientExternals Value Pipe)
    (launch : Spawner → ServerManifest → Result (Process Pipe) String × Spawner) where
  abbrev ready :
      Process Pipe
      → Result (Unit {0}) ChildError × ℕ × StdioMcpClient Pipe
      → Result (Supervised Pipe) ChildError
  ready p (ok u, now, client) = ok (record { client = client; try_wait = p.try_wait; now = now })
  ready p (err e, now, client) = err e

  abbrev launched :
      Result (Process Pipe) String × Spawner → Result (Supervised Pipe) ChildError × Spawner
  launched (ok p, s) =
      (ready p (spawn ext p.stdin p.stdout default_request_timeout p.launched_at), s)
  launched (err e, s) = (err (io e), s)

  unfoldable pub spawn_child :
      Spawner → ServerManifest → Result (Supervised Pipe) ChildError × Spawner
  unfolding spawn
  spawn_child s server = launched (launch s server)

  -- `impl McpChild for StdioMcpClient`.
  abbrev pub supervised : McpChild Value (Supervised Pipe) Spawner
  supervised = record {
    list_tools = λ c. used c (list_tools ext c.client c.now);
    call_tool = λ c tool arguments. used c (call_tool ext c.client c.now tool arguments);
    is_alive = is_alive;
    spawn = spawn_child;
  }
