-- ===== src/Cli/Session.antt =====
-- crates/cli/src/main.rs: the commands. The channel to the broker is a parameter: a request, and the
-- response or the error of the connection. Ed25519's signature and the serializer are parameters too.
use mcp_lock.Prelude.{ℕ, String, Option, none, some, List, [], ◌∷◌, ◌==◌, eq_string, if◌then◌else◌}
use mcp_lock.Prelude.Bytes.{Bytes}
use mcp_lock.Prelude.Hex.{to_hex}
use mcp_lock.Prelude.Results.{Result, ok, err}
use mcp_lock.Prelude.Text.{◌+++◌}
use mcp_lock.Elevation.Challenge.{
  Nonce, Purpose, elevate as elevate_purpose, confirm as confirm_purpose, RequestedMode, duration,
  until_revoked, Doc, nonce_from_hex, challenge_message,
}
use mcp_lock.Control.Data.{ControlRequest, ControlResponse}
use mcp_lock.Cli.Args.{parse_simple, parse_mode, load_identity}
use mcp_lock.Cli.Output.{Exit, fail, usage_error, print_response}

pub record CliExternals (SigningKey World : Type 0) : Type 0 where
  pub sign : SigningKey → Bytes → Bytes
  pub from_bytes : Bytes → SigningKey
  pub to_vec : Doc → Bytes
  pub lookup : String → Option String
  pub send : World → ControlRequest → Result ControlResponse String × World
  pub socket_path : String

-- The messages of the two steps.
abbrev pub mode_text : RequestedMode → String
mode_text (duration ttl_secs) = "duration"
mode_text until_revoked = "until_revoked"

abbrev pub mode_ttl : RequestedMode → Option ℕ
mode_ttl (duration ttl_secs) = some ttl_secs
mode_ttl until_revoked = none

abbrev pub submission : Purpose → String → String → String → ControlRequest
submission (elevate_purpose server_id mode) client_id nonce signature =
    ControlRequest.submit_elevation client_id nonce signature
submission (confirm_purpose server_id tool) client_id nonce signature =
    ControlRequest.submit_confirm client_id nonce signature

module _ {SigningKey World : Type 0} (ext : CliExternals SigningKey World) where
  abbrev pub unreachable : String → Exit
  unreachable e = record {
    code = 1;
    out = [];
    errors =
        ("mcp-lock: cannot reach broker at " +++ (ext.socket_path +++ (" (" +++ (e +++ ")"))))
        ∷ "is mcp-lockd running? (set MCPLOCK_CONTROL_SOCK to override the path)"
        ∷ [];
  }

  abbrev pub shown : Result ControlResponse String × World → Exit × World
  shown (ok response, w) = (print_response response, w)
  shown (err e, w) = (unreachable e, w)

  abbrev pub signed_with :
      SigningKey → String → Purpose → String → World → Option Nonce → Exit × World
  signed_with signing client_id purpose nonce_hex w none =
      (fail "broker returned a malformed nonce", w)
  signed_with signing client_id purpose nonce_hex w (some nonce) = shown (
      ext.send w (
        submission purpose client_id nonce_hex
          (to_hex (ext.sign signing (challenge_message ext.to_vec nonce client_id purpose)))))

  -- The match on the response to the request of a nonce.
  abbrev pub with_nonce :
      SigningKey → String → Purpose → Result ControlResponse String × World → Exit × World
  with_nonce signing client_id purpose (ok (ControlResponse.nonce nonce), w) =
      signed_with signing client_id purpose nonce w (nonce_from_hex nonce)
  with_nonce signing client_id purpose (ok (ControlResponse.error message), w) = (fail message, w)
  with_nonce signing client_id purpose (ok (ControlResponse.status servers), w) =
      (fail "unexpected response to nonce request", w)
  with_nonce signing client_id purpose (ok (ControlResponse.list tools), w) =
      (fail "unexpected response to nonce request", w)
  with_nonce signing client_id purpose (ok (ControlResponse.logs entries), w) =
      (fail "unexpected response to nonce request", w)
  with_nonce signing client_id purpose (ok (ControlResponse.done message), w) =
      (fail "unexpected response to nonce request", w)
  with_nonce signing client_id purpose (err e, w) = (unreachable e, w)

  unfoldable pub submit_signed :
      World → SigningKey → String → ControlRequest → Purpose → Exit × World
  submit_signed w signing client_id request_nonce purpose =
      with_nonce signing client_id purpose (ext.send w request_nonce)

  abbrev pub asked : World → Result ControlRequest String → Exit × World
  asked w (err message) = (usage_error message, w)
  asked w (ok request) = shown (ext.send w request)

  -- Each command is given the arguments that follow it.
  unfoldable pub simple : World → String → List String → Exit × World
  simple w command args = asked w (parse_simple command args)

  abbrev pub elevate_as :
      World → String → RequestedMode → Result (String × SigningKey) String → Exit × World
  elevate_as w server mode (err message) = (usage_error message, w)
  elevate_as w server mode (ok (client_id, signing)) =
      submit_signed w signing client_id
        (ControlRequest.request_elevation client_id server (mode_text mode) (mode_ttl mode))
        (elevate_purpose server mode)

  abbrev pub elevate_mode : World → String → Result RequestedMode String → Exit × World
  elevate_mode w server (err message) = (usage_error message, w)
  elevate_mode w server (ok mode) =
      elevate_as w server mode (load_identity ext.from_bytes ext.lookup)

  unfoldable pub elevate : World → List String → Exit × World
  unfolding submit_signed
  elevate w [] = (usage_error "`elevate` requires a server id", w)
  elevate w (server ∷ flags) = elevate_mode w server (parse_mode flags)

  abbrev pub confirm_as :
      World → String → String → Result (String × SigningKey) String → Exit × World
  confirm_as w server tool (err message) = (usage_error message, w)
  confirm_as w server tool (ok (client_id, signing)) =
      submit_signed w signing client_id (ControlRequest.request_confirm client_id server tool)
        (confirm_purpose server tool)

  unfoldable pub confirm : World → List String → Exit × World
  unfolding submit_signed
  confirm w (server ∷ tool ∷ args) =
      confirm_as w server tool (load_identity ext.from_bytes ext.lookup)
  confirm w (server ∷ []) = (usage_error "`confirm` requires a server id and a tool name", w)
  confirm w [] = (usage_error "`confirm` requires a server id and a tool name", w)

  unfoldable pub run : World → String → List String → Exit × World
  unfolding elevate confirm simple
  run w command args =
      if command == "elevate"
      then elevate w args
      else if command == "confirm"
      then confirm w args
      else simple w command args
