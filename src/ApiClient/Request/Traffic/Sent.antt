-- ===== src/ApiClient/Request/Traffic/Sent.antt =====
-- The requests that `request` sends, against the protocol.
use purels.ApiClient.Request.{
  Client, HttpRequest, Options, Reply, csrf_request, needs_csrf, refresh_csrf, request, token_of,
}
use purels.ApiClient.Request.Csrf.{outgoing, request-sent}
use purels.ApiClient.Request.Traffic.{Traffic, one, two}
use purels.ApiClient.Request.Traffic.Own.{http_request-IsOwnRequest}
use purels.ApiClient.Request.Traffic.Tokens.{needs_csrf_iff, token_of-IsTokenOf}
use purels.Base.{Bool-cases, List, inl, inr, refl, ◌++◌, ◌≡◌}
use purels.Js.Case.{CaseMapping}
use purels.Js.Text.{Text}

module _ {W : Type 0} (case : CaseMapping) (serve : W → HttpRequest → Reply × W) where
  outgoing-Traffic :
      (base path : Text) (o : Options) (c : Client W)
      → Traffic case serve base path o c (outgoing case serve base path o c)
  unfolding refresh_csrf
  outgoing-Traffic base path o c = elim (Bool-cases (needs_csrf case serve path o c)) [
    | inl e ↦
        let asks = (needs_csrf_iff case serve path o c).0 e in
        rw e (
          two _ _
            (token_of case serve c.csrf_token (serve c.world (csrf_request case serve base)).0) asks
            (record { url = refl; method = refl; headers = refl; body = refl })
            (rw (asks.1)
              (token_of-IsTokenOf case serve (serve c.world (csrf_request case serve base)).0))
            (http_request-IsOwnRequest case serve base path o _))
    | inr e ↦ rw e (
        one _ (λ asks. cc ((needs_csrf_iff case serve path o c).1 asks))
          (http_request-IsOwnRequest case serve base path o c.csrf_token))
  ]

  -- A call sends these requests and no other, in this order, after those that were sent before.
  -- A write with no token in hand, whose path is not the login, the registration or the
  -- verification of a second factor, first asks for a token by a plain read; its own request
  -- then has the token that a 2xx reply grants, and none if the reply grants none. Any other
  -- call is its own request alone, with the token in hand. The own request has the caller's URL,
  -- method and body; a write with a token has it as its CSRF header, a JSON body has its content
  -- type, and every other header is the caller's.
  pub request-Traffic :
      (base path : Text) (o : Options) (c : Client W)
      → (qs : List HttpRequest) × Traffic case serve base path o c qs
        × ((request case serve base path o c).1.sent ≡ c.sent ++ qs)
  request-Traffic base path o c = (
    outgoing case serve base path o c,
    outgoing-Traffic base path o c,
    request-sent case serve base path o c,
  )
