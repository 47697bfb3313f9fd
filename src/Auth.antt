-- ===== src/Auth.antt =====
-- crates/core/src/auth.rs: the bearer token of the MCP endpoint.
pub mod Bits
pub mod Tokens
mod Tests
use Prim.Native.Nat.{bit_or, bit_xor}
use mcp_lock.Prelude.{
  ℕ, String, Bool, true, false, not, Option, none, some, List, [], ◌∷◌, nat_eq, ◌==◌, eq_string,
  length, if◌then◌else◌,
}
use mcp_lock.Prelude.Bytes.{Bytes, as_bytes}
use mcp_lock.Prelude.Results.{Result, ok, err}

pub record ValidatedClient : Type 0 where
  pub client_id : String

pub data AuthError : Type 0 where
  missing invalid : AuthError

pub record StaticBearerValidator : Type 0 where
  pub expected : Bytes
  pub client_id : String

unfoldable pub new : String → String → Option StaticBearerValidator
unfolding as_bytes
new token client_id =
    if token == "" then none else some (record { expected = as_bytes token; client_id = client_id })

-- The loop `diff |= x ^ y` over the pairs, from a value of `diff`.
unfoldable pub diff_from : ℕ → Bytes → Bytes → ℕ
diff_from diff [] bs = diff
diff_from diff (a ∷ as') [] = diff
diff_from diff (a ∷ as') (b ∷ bs) = diff_from (bit_or diff (bit_xor a b)) as' bs

unfoldable pub constant_time_eq : Bytes → Bytes → Bool
unfolding diff_from
constant_time_eq a b =
    if not (nat_eq (length a) (length b)) then false else nat_eq (diff_from 0 a b) 0

unfoldable pub validate : StaticBearerValidator → Option String → Result ValidatedClient AuthError
unfolding constant_time_eq as_bytes
validate v none = err missing
validate v (some presented) =
    if presented == ""
    then err missing
    else if constant_time_eq (as_bytes presented) v.expected
    then ok (record { client_id = v.client_id })
    else err invalid
