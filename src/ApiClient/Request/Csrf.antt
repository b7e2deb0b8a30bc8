-- ===== src/ApiClient/Request/Csrf.antt =====
-- Which requests go out, with which CSRF token, and when the page is sent to the login page.

use purels.ApiClient.Request.{
  Client, HttpRequest, Options, Outcome, Reply, Response, conclude, csrf_header, csrf_request,
  expire, failure, fetch, http_request, is_json_body, is_mutation, is_ok, json_headers,
  leave_for_login, needs_csrf, payload_of, pre_session_paths, prepare, refresh_csrf, replied,
  request, response_error, success, unreachable,
}
use purels.Base.{
  &&_true, Bool, Bool-cases, List, Option, [], ap, append-nil, append_assoc, ap₂, arith, false,
  if◌then◌else◌, inl, inr, none, not, refl, some, sym, true, ◌&&◌, ◌++◌, ◌==◌, ◌∙◌, ◌∷◌, ◌≡◌,
}
use purels.Js.Case.{CaseMapping}
use purels.Js.Headers.{get_entry, get_entry-set_entry}
use purels.Js.Json.{Value}
use purels.Js.Text.{Text, includes, is_empty, same, starts_with, text}
use purels.Js.Text.Equality.{same_refl}

module _ {W : Type 0} (case : CaseMapping) (serve : W → HttpRequest → Reply × W) where
  -- The path to which an answer sends the page: only an expired session, only in a browser, and
  -- not from the login page itself.
  abbrev pub expired : Text → Reply → Bool
  expired path unreachable = false
  expired path (replied r) = r.status == 401 && not (includes pre_session_paths path)

  abbrev pub on_login : Text → Bool
  on_login pathname = starts_with (text "/login") pathname

  abbrev pub moves : Bool → Option Text → List Text
  moves due none = []
  moves due (some pathname) = if due && not (on_login pathname) then text "/login" ∷ [] else []

  same_client : (c : Client W) → record c { replaced = c.replaced ++ [] } ≡ c
  same_client c =
      ap (λ l. let d : Client W = record c { replaced = l } in d) (append-nil c.replaced)

  leave_lem :
      (pathname : Text) (c : Client W)
      → leave_for_login case serve pathname c
        ≡ record c { replaced = c.replaced ++ moves true (some pathname) }
  leave_lem pathname c = elim (Bool-cases (on_login pathname)) [
    | inl e ↦ rw e (sym (same_client c))
    | inr e ↦ rw e
  ]

  expire_lem :
      (w : Option Text) (payload : Value) (r : Response) (c : Client W)
      → (expire case serve w payload r c).1 ≡ record c { replaced = c.replaced ++ moves true w }
  expire_lem none payload r c = sym (same_client c)
  expire_lem (some pathname) payload r c = leave_lem pathname c

  moves-false : (w : Option Text) → moves false w ≡ []
  moves-false none = refl
  moves-false (some pathname) = refl

  quiet : (w : Option Text) (c : Client W) → c ≡ record c { replaced = c.replaced ++ moves false w }
  quiet w c = sym (
      ap (λ l. let d : Client W = record c { replaced = c.replaced ++ l } in d) (moves-false w)
      ∙ same_client c)

  -- A 401 is no success.
  not_ok_401 : (r : Response) → (r.status == 401) ≡ true → is_ok r ≡ false
  not_ok_401 r h = ground arith

  conclude_client :
      (path : Text) (reply : Reply) (c : Client W)
      → (conclude case serve path reply c).1
        ≡ record c { replaced = c.replaced ++ moves (expired path reply) c.window_path }
  unfolding conclude
  conclude_client path unreachable c = quiet c.window_path c
  conclude_client path (replied r) c = elim (Bool-cases (expired path (replied r))) [
    | inl e ↦
        rw (not_ok_401 r ((&&_true _ _).0 e).0, e) (expire_lem c.window_path (payload_of r) r c)
    | inr e ↦ rw e (other (is_ok r))
  ]
    where
      other :
          (b : Bool)
          → (let both : Outcome × Client W =
                if b
                then (success (payload_of r), c)
                else (failure (response_error r.status (payload_of r)), c) in
              both.1)
            ≡ record c { replaced = c.replaced ++ moves false c.window_path }
      other true = quiet c.window_path c
      other false = quiet c.window_path c

  -- The client when the request itself goes out.
  abbrev pub prepared : Text → Text → Options → Client W → Client W
  prepared base path o c = prepare case serve base path o c

  abbrev pub asked : Text → Text → Options → Client W → Reply × Client W
  asked base path o c =
      fetch case serve (http_request case serve base path o (prepared base path o c).csrf_token)
        (prepared base path o c)

  pub request_lem :
      (base path : Text) (o : Options) (c : Client W)
      → request case serve base path o c
        ≡ conclude case serve path (asked base path o c).0 (asked base path o c).1
  unfolding request
  request_lem base path o c = refl

  -- The requests that a call makes: the one for a token, if it is due, and its own.
  abbrev pub outgoing : Text → Text → Options → Client W → List HttpRequest
  outgoing base path o c =
      (if needs_csrf case serve path o c then csrf_request case serve base ∷ [] else [])
      ++ (http_request case serve base path o (prepared base path o c).csrf_token ∷ [])

  prepared_lem :
      (base path : Text) (o : Options) (c : Client W)
      → ((prepared base path o c).window_path ≡ c.window_path)
        × ((prepared base path o c).replaced ≡ c.replaced)
        × ((prepared base path o c).sent
            ≡ c.sent
              ++ (if needs_csrf case serve path o c then csrf_request case serve base ∷ [] else []))
  unfolding refresh_csrf
  prepared_lem base path o c = elim (Bool-cases (needs_csrf case serve path o c)) [
    | inl e ↦ rw e (refl, refl, refl)
    | inr e ↦ rw e (refl, refl, sym (append-nil c.sent))
  ]

  -- A call sends exactly these requests, in this order, after those that were sent before: the
  -- one for a CSRF token if the call is a mutation with no token in hand and a path that needs a
  -- session, and then its own, with the token in hand at that time.
  pub request-sent :
      (base path : Text) (o : Options) (c : Client W)
      → (request case serve base path o c).1.sent ≡ c.sent ++ outgoing base path o c
  request-sent base path o c =
      let (_, _, e) = prepared_lem base path o c in
      ap (λ (a : Outcome × Client W). a.1.sent) (request_lem base path o c)
      ∙ ap (λ (d : Client W). d.sent)
          (conclude_client path (asked base path o c).0 (asked base path o c).1)
      ∙ ap
          (λ s. s ++ (http_request case serve base path o (prepared base path o c).csrf_token ∷ []))
          e
      ∙ append_assoc c.sent _ _

  -- A call sends the page to /login exactly when its own request was answered with 401, its path
  -- needs a session, it runs in a browser and the page is not under /login already; else the
  -- page stays.
  pub request-replaced :
      (base path : Text) (o : Options) (c : Client W)
      → (request case serve base path o c).1.replaced
        ≡ c.replaced ++ moves (expired path (asked base path o c).0) c.window_path
  request-replaced base path o c =
      let (w, r, _) = prepared_lem base path o c in
      ap (λ (a : Outcome × Client W). a.1.replaced) (request_lem base path o c)
      ∙ ap (λ (d : Client W). d.replaced)
          (conclude_client path (asked base path o c).0 (asked base path o c).1)
      ∙ ap₂ (λ r' w'. r' ++ moves (expired path (asked base path o c).0) w') r w

  csrf_differs : same (text "content-type") csrf_header ≡ false
  unfolding same
  csrf_differs = refl

  json_headers_csrf :
      (o : Options) → get_entry (json_headers o) csrf_header ≡ get_entry o.headers csrf_header
  json_headers_csrf o = elim (Bool-cases (is_json_body o.body)) [
    | inl e ↦ rw (
      e,
      get_entry-set_entry o.headers (text "content-type") (text "application/json") csrf_header,
      csrf_differs,
    )
    | inr e ↦ rw e
  ]

  -- The token stands in the headers of a mutation, and of nothing else.
  pub http_request-csrf :
      (base path : Text) (o : Options) (token : Text)
      → get_entry (http_request case serve base path o token).headers csrf_header ≡ (
          if is_mutation case serve o.method && not (is_empty token)
          then some token
          else get_entry o.headers csrf_header)
  http_request-csrf base path o token =
      elim (Bool-cases (is_mutation case serve o.method && not (is_empty token))) [
        | inl e ↦ rw (
          e,
          get_entry-set_entry (json_headers o) csrf_header token csrf_header,
          same_refl csrf_header,
        )
        | inr e ↦ rw e (json_headers_csrf o)
      ]

  outgoing_one :
      (base path : Text) (o : Options) (c : Client W)
      → needs_csrf case serve path o c ≡ false
      → outgoing base path o c ≡ http_request case serve base path o c.csrf_token ∷ []
  outgoing_one base path o c h = rw h

  one_request :
      (base path : Text) (o : Options) (c : Client W)
      → needs_csrf case serve path o c ≡ false
      → (request case serve base path o c).1.sent
        ≡ c.sent ++ (http_request case serve base path o c.csrf_token ∷ [])
  one_request base path o c h =
      request-sent base path o c ∙ ap (λ l. c.sent ++ l) (outgoing_one base path o c h)

  -- With a token in hand a mutation is one request, and carries the token.
  pub request_stored_token :
      (base path : Text) (o : Options) (c : Client W)
      → is_mutation case serve o.method ≡ true
      → is_empty c.csrf_token ≡ false
      → ((request case serve base path o c).1.sent
          ≡ c.sent ++ (http_request case serve base path o c.csrf_token ∷ []))
        × (get_entry (http_request case serve base path o c.csrf_token).headers csrf_header
            ≡ some c.csrf_token)
  request_stored_token base path o c m h = (
    one_request base path o c (ground arith),
    http_request-csrf base path o c.csrf_token ∙ rw (m, h),
  )

  never_expired :
      (path : Text) (reply : Reply)
      → includes pre_session_paths path ≡ true
      → expired path reply ≡ false
  never_expired path unreachable h = refl
  never_expired path (replied r) h = ground arith

  -- A call of an endpoint that is reachable before a session exists is one request, with no
  -- request for a token before it, and never moves the page, whatever the server answers.
  pub request_pre_session :
      (base path : Text) (o : Options) (c : Client W)
      → includes pre_session_paths path ≡ true
      → ((request case serve base path o c).1.sent
          ≡ c.sent ++ (http_request case serve base path o c.csrf_token ∷ []))
        × ((request case serve base path o c).1.replaced ≡ c.replaced)
  request_pre_session base path o c h = (
    one_request base path o c (ground arith),
    request-replaced base path o c
        ∙ ap (λ b. c.replaced ++ moves b c.window_path)
            (never_expired path (asked base path o c).0 h)
        ∙ ap (λ l. c.replaced ++ l) (moves-false c.window_path)
        ∙ append-nil c.replaced,
  )
