-- ===== src/ApiClient/Request/Failures.antt =====
-- What the caller gets: the payload of a good answer, or an error with a code and a message.
use purels.ApiClient.Error.{ApiError, or_text, server_code, server_message}
use purels.ApiClient.Request.{
  Client, HttpRequest, Options, Outcome, Reply, Response, conclude, expire, failure, is_ok,
  network_error, payload_of, pre_session_paths, replied, request, response_error, session_expired,
  success, unreachable,
}
use purels.ApiClient.Request.Csrf.{asked, request_lem}
use purels.Base.{
  &&_true, ==_iff, Bool-cases, Option, [], false, inl, inr, none, not, refl, some, sym, true, ℕ,
  ◌&&◌, ◌==◌, ◌∷◌, ◌≡◌, ◌⊎◌,
}
use purels.Js.Case.{CaseMapping}
use purels.Js.Json.{Value}
use purels.Js.Text.{Text, includes, is_empty, text}

or_text_filled : (s t : Text) → is_empty t ≡ false → is_empty (or_text s t) ≡ false
or_text_filled [] t h = h
or_text_filled (c ∷ s) t h = refl

-- An error that a caller can show.
pub record IsTelling (e : ApiError) : Type 0 where
  pub coded : is_empty e.code ≡ false
  pub worded : is_empty e.message ≡ false

response_error-IsTelling :
    (status : ℕ) (payload : Value) → IsTelling (response_error status payload)
response_error-IsTelling status payload = record {
  coded = or_text_filled (server_code payload) (text "http_error") refl;
  worded = or_text_filled (server_message payload) _ refl;
}

-- What an answer means to the caller.
abbrev pub Answers : Reply → Outcome → Type 0
Answers unreachable o = o ≡ failure network_error
Answers (replied r) o =
    ((is_ok r ≡ true) × (o ≡ success (payload_of r)))
    ⊎ ((is_ok r ≡ false)
        × ((e : ApiError) × (o ≡ failure e)
            × (e.status ≡ r.status)
            × (e.details ≡ payload_of r)
            × IsTelling e))

abbrev IsAnswer : ℕ → Value → Outcome → Type 0
IsAnswer status payload o =
    (e : ApiError) × (o ≡ failure e) × (e.status ≡ status) × (e.details ≡ payload) × IsTelling e

response-IsAnswer :
    (status : ℕ) (payload : Value)
    → IsAnswer status payload (failure (response_error status payload))
response-IsAnswer status payload =
    (response_error status payload, refl, refl, refl, response_error-IsTelling status payload)

module _ {W : Type 0} (case : CaseMapping) (serve : W → HttpRequest → Reply × W) where
  expire-IsAnswer :
      (w : Option Text) (payload : Value) (r : Response) (c : Client W)
      → r.status ≡ 401
      → IsAnswer r.status payload (expire case serve w payload r c).0
  expire-IsAnswer none payload r c h = response-IsAnswer r.status payload
  expire-IsAnswer (some pathname) payload r c h =
      (session_expired payload, refl, sym h, refl, record { coded = refl; worded = refl })

  pub conclude-Answers :
      (path : Text) (reply : Reply) (c : Client W)
      → Answers reply (conclude case serve path reply c).0
  unfolding conclude
  conclude-Answers path unreachable c = refl
  conclude-Answers path (replied r) c = elim (Bool-cases (is_ok r)) [
    | inl ok ↦ rw ok (inl (refl, refl))
    | inr bad ↦ elim (Bool-cases (r.status == 401 && not (includes pre_session_paths path))) [
      | inl due ↦
          rw (bad, due)
            (inr (
              refl,
              expire-IsAnswer c.window_path (payload_of r) r c
                  ((==_iff r.status 401).0 ((&&_true _ _).0 due).0),
            ))
      | inr other ↦ rw (bad, other) (inr (refl, response-IsAnswer r.status (payload_of r)))
    ]
  ]

  -- The answer to the request that a call makes, after any request for a token.
  abbrev pub answer : Text → Text → Options → Client W → Reply
  answer base path o c = (asked case serve base path o c).0

  -- For every method, body, token, page and server, a call ends as the reply to its request
  -- says: an unreachable server gives the network error, a 2xx reply gives its payload, and any
  -- other reply gives an error with the reply's status and payload and with a code and a message
  -- that are not empty.
  pub request-Answers :
      (base path : Text) (o : Options) (c : Client W)
      → Answers (answer base path o c) (request case serve base path o c).0
  request-Answers base path o c =
      rw (request_lem case serve base path o c)
        (conclude-Answers path (answer base path o c) (asked case serve base path o c).1)
