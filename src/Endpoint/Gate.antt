-- ===== src/Endpoint/Gate.antt =====
-- Which requests pass the bearer token.
use mcp_lock.Prelude.{
  ℕ, String, ◌≡◌, refl, ◌≢◌, ◌↔◌, inl, inr, Option, none, some, [], ◌∷◌, arith, Bool-cases,
}
use mcp_lock.Prelude.Bytes.{as_bytes}
use mcp_lock.Prelude.Results.{Result, ok, err}
use mcp_lock.Auth.{ValidatedClient, AuthError, StaticBearerValidator, new, validate}
use mcp_lock.Auth.Tokens.{validate_made}
use mcp_lock.Endpoint.Requests.{
  Request, Method, post, get, other, Response, status_of, HttpExternals, HttpEndpoint, bearer_token,
  answer, post_value, post_body, handle_post, by_method, authenticated, handle_request,
}

module _ {Value Body H : Type 0} (ext : HttpExternals Value Body H) where
  answer-status :
      (ep : HttpEndpoint H) (client : ValidatedClient) (parsed : Value) (id : Option Value)
      → status_of (answer ext ep client parsed id).0 ≢ 401
  answer-status ep client parsed none h = omega arith
  answer-status ep client parsed (some id) h = omega arith

  post_value-status :
      (ep : HttpEndpoint H) (client : ValidatedClient) (v : Option Value)
      → status_of (post_value ext ep client v).0 ≢ 401
  post_value-status ep client none h = omega arith
  post_value-status ep client (some v) h = elim (Bool-cases (ext.is_array v)) [
    | inl y ↦ absurd (omega (arith, rw y at h))
    | inr n ↦ answer-status ep client v (ext.get v "id") (rw n at h)
  ]

  post_body-status :
      (ep : HttpEndpoint H) (client : ValidatedClient) (body : Option String)
      → status_of (post_body ext ep client body).0 ≢ 401
  post_body-status ep client none h = omega arith
  post_body-status ep client (some body) h = post_value-status ep client (ext.from_str body) h

  by_method-status :
      (ep : HttpEndpoint H) (request : Request Body) (channel : ℕ) (client : ValidatedClient)
      (m : Method)
      → status_of (by_method ext ep request channel client m).0 ≢ 401
  unfolding handle_post
  by_method-status ep request channel client post h = post_body-status ep client _ h
  by_method-status ep request channel client get h = omega arith
  by_method-status ep request channel client other h = omega arith

  -- A credential of these bytes is presented.
  abbrev pub Presents : String → Option String → Type 0
  Presents token o = (t : String) × (o ≡ some t) × (as_bytes t ≡ as_bytes token)

  passes :
      (v : StaticBearerValidator) (token client_id : String) (o : Option String)
      → new token client_id ≡ some v
      → ((c : ValidatedClient) × (validate v o ≡ ok c)) ↔ Presents token o
  unfolding validate
  passes v token client_id none made = (λ (c, e). cc, λ (t, e, same). cc)
  passes v token client_id (some t) made = (
    λ (c, e). (t, refl, ((validate_made v token client_id t c made).0 e).0),
    λ (u, e, same). (
      record { client_id = client_id },
      (validate_made v token client_id t _ made).1 (ground (arith, e, same), refl),
    ),
  )

  authenticated_lem :
      (ep : HttpEndpoint H) (request : Request Body) (channel : ℕ)
      (r : Result ValidatedClient AuthError)
      → ((status_of (authenticated ext ep request channel r).0 ≢ 401)
          ↔ ((c : ValidatedClient) × (r ≡ ok c)))
        × ((status_of (authenticated ext ep request channel r).0 ≡ 401) ↔ (
            authenticated ext ep request channel r
            ≡ (Response.reply 401 (("WWW-Authenticate", "Bearer") ∷ []) "unauthorized", ep)))
  authenticated_lem ep request channel (err e) =
      ((λ h. absurd (h refl), λ (c, e) h. cc), (λ _. refl, λ _. refl))
  authenticated_lem ep request channel (ok c) =
      let answered = by_method-status ep request channel c request.method in
      ((λ _. (c, refl), λ _. answered), (λ h. absurd (answered h), λ e. rw e refl))

  -- Where the endpoint is configured with a token, a request is let through exactly when it presents
  -- those bytes; every other gets one and the same answer, 401, and changes nothing.
  pub handle_request_gate :
      (ep : HttpEndpoint H) (request : Request Body) (channel : ℕ) (token client_id : String)
      → new token client_id ≡ some ep.validator
      → let response = (handle_request ext ep request channel).0 in
        ((status_of response ≢ 401) ↔ Presents token (bearer_token ext request))
        × ((status_of response ≡ 401) ↔ (
            handle_request ext ep request channel
            ≡ (Response.reply 401 (("WWW-Authenticate", "Bearer") ∷ []) "unauthorized", ep)))
  unfolding handle_request
  handle_request_gate ep request channel token client_id made =
      let a =
        authenticated_lem ep request channel (validate ep.validator (bearer_token ext request)) in
      let p = passes ep.validator token client_id (bearer_token ext request) made in
      ((λ h. p.0 (a.0.0 h), λ q. a.0.1 (p.1 q)), a.1)
