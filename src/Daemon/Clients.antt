-- ===== src/Daemon/Clients.antt =====
-- Which clients a start registers.
use mcp_lock.Prelude.{String, ◌≢◌, Option, none, some, [], ◌∷◌, All, eq_string}
use mcp_lock.Prelude.BTreeMap.{BTreeMap}
use mcp_lock.Prelude.Bytes.{Bytes}
use mcp_lock.Prelude.Results.{Result, ok, err}
use mcp_lock.Daemon.{System, clients_env, decode_pubkey}

-- A map: no later entry has the key of an earlier one.
abbrev pub IsMap : BTreeMap String → Type 0
IsMap [] = Unit
IsMap (e ∷ es) = All (λ f. f.0 ≢ e.0) es × IsMap es

module _ {Value Child Spawner Key File : Type 0} (sys : System Value Child Spawner Key File) where
  abbrev parsed_or_empty : Result (BTreeMap String) String → BTreeMap String
  parsed_or_empty (ok m) = m
  parsed_or_empty (err e) = []

  abbrev read_or_empty : Result Bytes String → BTreeMap String
  read_or_empty (ok bytes) = parsed_or_empty (sys.parse_clients bytes)
  read_or_empty (err e) = []

  abbrev found_or_empty : Option String → BTreeMap String
  found_or_empty none = []
  found_or_empty (some path) = read_or_empty (sys.read_file path)

  -- The entries of the file of the clients; none where there is no such file, or it cannot be read.
  abbrev pub clients : BTreeMap String
  clients = found_or_empty (sys.var clients_env)

  abbrev key_of_bytes : Option Bytes → Option Key
  key_of_bytes none = none
  key_of_bytes (some bytes) = sys.from_bytes bytes

  -- The key that a text gives, if it gives one.
  abbrev pub key_of : Option String → Option Key
  key_of none = none
  key_of (some hex) = key_of_bytes (decode_pubkey hex)

  -- The key of a client once an entry was seen.
  abbrev seen : Option Key → Option Key → Option Key
  seen none before = before
  seen (some k) before = some k
