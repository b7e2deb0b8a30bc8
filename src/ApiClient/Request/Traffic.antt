-- ===== src/ApiClient/Request/Traffic.antt =====
-- The requests of a call, described from the protocol: which of them carries which CSRF token.
pub mod Tokens
pub mod Own
pub mod Sent
use purels.ApiClient.Error.{property}
use purels.ApiClient.Request.{
  Body, Client, HttpRequest, Options, Reply, json_body, no_body, raw_body, replied, unreachable,
}
use purels.Base.{List, Option, [], none, some, ◌++◌, ◌∷◌, ◌≡◌, ◌≢◌, ◌≤◌, ◌⊎◌}
use purels.Js.Case.{CaseMapping}
use purels.Js.Headers.{get_entry}
use purels.Js.Json.{Value, str, stringify}
use purels.Js.Text.{Text, text}
use purels.RuntimeForm.{typed}

-- A method that changes something, in any case of its letters.
abbrev pub Writes : CaseMapping → Option Text → Type 0
Writes case none = ⊥
Writes case (some m) =
    (m ≢ [])
    × (text "GET" ≢ case.to_upper m)
    × (text "HEAD" ≢ case.to_upper m)
    × (text "OPTIONS" ≢ case.to_upper m)

-- The calls that make a session.
abbrev pub IsPreSession : Text → Type 0
IsPreSession path =
    (text "/api/v1/auth/login" ≡ path)
    ⊎ (text "/api/v1/auth/register" ≡ path)
    ⊎ (text "/api/v1/auth/2fa/verify" ≡ path)

-- A reply of a success status whose body is JSON with a text as its token.
abbrev pub Grants : Reply → Text → Type 0
Grants unreachable token = ⊥
Grants (replied r) token =
    (200 ≤ r.status)
    × (r.status ≤ 299)
    × ((v : Value) × (r.parsed ≡ some v) × (property v (text "token") ≡ str token))

-- The token in hand after that reply: the one that it grants, and else none.
abbrev pub IsTokenOf : Reply → Text → Type 0
IsTokenOf reply token = Grants reply token ⊎ ((token ≡ []) × ((s : Text) → ¬ Grants reply s))

pub data IsCarried : Body → Option Text → Type 0 where
  nothing : IsCarried no_body none
  untouched : (s : Text) → IsCarried (raw_body s) (some s)
  serialised : (v : Value) → IsCarried (json_body v) (some (stringify v))

abbrev pub IsJson : Body → Type 0
IsJson body = (v : Value) × (body ≡ json_body v)

pub record IsTokenRequest (base : Text) (q : HttpRequest) : Type 0 where
  pub url : q.url ≡ base ++ text "/api/v1/auth/csrf"
  pub method : q.method ≡ none
  pub headers : q.headers ≡ []
  pub body : q.body ≡ none

-- The request of the caller, with `token` in hand.
pub record IsOwnRequest (case : CaseMapping) (base path : Text) (o : Options) (token : Text)
    (q : HttpRequest) : Type 0 where
  pub url : q.url ≡ base ++ path
  pub method : q.method ≡ o.method
  pub body : IsCarried o.body q.body
  pub protected :
      Writes case o.method → token ≢ [] → get_entry q.headers (text "x-csrf-token") ≡ some token
  pub unprotected :
      ¬ (Writes case o.method × (token ≢ []))
      → get_entry q.headers (text "x-csrf-token") ≡ get_entry o.headers (text "x-csrf-token")
  pub typed :
      IsJson o.body → get_entry q.headers (text "content-type") ≡ some (text "application/json")
  pub untyped :
      ¬ IsJson o.body
      → get_entry q.headers (text "content-type") ≡ get_entry o.headers (text "content-type")
  pub others :
      (name : Text)
      → text "x-csrf-token" ≢ name
      → text "content-type" ≢ name
      → get_entry q.headers name ≡ get_entry o.headers name

module _ {W : Type 0} (case : CaseMapping) (serve : W → HttpRequest → Reply × W) where
  -- When a token is fetched first: for a write with none in hand, but not to make a session.
  abbrev pub AsksToken : Text → Options → Client W → Type 0
  AsksToken path o c = Writes case o.method × (c.csrf_token ≡ []) × ¬ IsPreSession path

  pub data Traffic (base path : Text) (o : Options) (c : Client W) : List HttpRequest → Type 0 where
    one :
        (q : HttpRequest)
        → ¬ AsksToken path o c
        → IsOwnRequest case base path o c.csrf_token q
        → Traffic base path o c (q ∷ [])
    two :
        (t q : HttpRequest) (token : Text)
        → AsksToken path o c
        → IsTokenRequest base t
        → IsTokenOf (serve c.world t).0 token
        → IsOwnRequest case base path o token q
        → Traffic base path o c (t ∷ q ∷ [])
