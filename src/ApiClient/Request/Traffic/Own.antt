-- ===== src/ApiClient/Request/Traffic/Own.antt =====
-- The caller's own request: its headers and its body.
use purels.ApiClient.Request.{
  Body, HttpRequest, Options, Reply, csrf_header, http_request, is_json_body, is_mutation,
  json_body, no_body, raw_body, request_headers, sent_body,
}
use purels.ApiClient.Request.Traffic.{
  IsCarried, IsJson, IsOwnRequest, nothing, serialised, untouched,
}
use purels.ApiClient.Request.Traffic.Tokens.{is_write_iff}
use purels.Base.{Bool, arith, false, if◌then◌else◌, not, refl, some, true, ◌&&◌, ◌↔◌, ◌∙◌, ◌≡◌}
use purels.Js.Case.{CaseMapping}
use purels.Js.Headers.{get_entry, get_entry-set_entry, set_entry}
use purels.Js.Text.{Text, is_empty, same, text}
use purels.Js.Text.Equality.{is_empty_iff, same_iff, same_refl}

IsJson-iff : (b : Body) → (is_json_body b ≡ true) ↔ IsJson b
IsJson-iff no_body = (λ h. cc, λ h. cc)
IsJson-iff (raw_body s) = (λ h. cc, λ h. cc)
IsJson-iff (json_body v) = (λ h. (v, refl), λ h. refl)

module _ {W : Type 0} (case : CaseMapping) (serve : W → HttpRequest → Reply × W) where
  -- Every header of the request, by its name.
  get_entry-request_headers :
      (o : Options) (token name : Text)
      → get_entry (request_headers case serve o token) name ≡ (
          if (is_mutation case serve o.method && not (is_empty token)) && same csrf_header name
          then some token
          else if is_json_body o.body && same (text "content-type") name
          then some (text "application/json")
          else get_entry o.headers name)
  get_entry-request_headers o token name =
      by_tests (is_mutation case serve o.method && not (is_empty token)) (is_json_body o.body)
    where
      by_tests :
          (m j : Bool)
          → get_entry
              (if m
                then set_entry
                    (if j
                      then set_entry o.headers (text "content-type") (text "application/json")
                      else o.headers)
                    csrf_header
                    token
                else if j
                then set_entry o.headers (text "content-type") (text "application/json")
                else o.headers)
              name
            ≡ (if m && same csrf_header name
                then some token
                else if j && same (text "content-type") name
                then some (text "application/json")
                else get_entry o.headers name)
      by_tests true true = ground (
        arith,
        get_entry-set_entry (set_entry o.headers (text "content-type") (text "application/json"))
            csrf_header token name,
        get_entry-set_entry o.headers (text "content-type") (text "application/json") name,
      )
      by_tests true false = get_entry-set_entry o.headers csrf_header token name
      by_tests false true =
          get_entry-set_entry o.headers (text "content-type") (text "application/json") name
      by_tests false false = refl

  sent_body-IsCarried : (b : Body) → IsCarried b (sent_body b)
  sent_body-IsCarried no_body = nothing
  sent_body-IsCarried (raw_body s) = untouched s
  sent_body-IsCarried (json_body v) = serialised v

  types_differ : same (text "content-type") (text "x-csrf-token") ≡ false
  unfolding same
  types_differ = refl

  types_differ_back : same (text "x-csrf-token") (text "content-type") ≡ false
  unfolding same
  types_differ_back = refl

  pub http_request-IsOwnRequest :
      (base path : Text) (o : Options) (token : Text)
      → IsOwnRequest case base path o token (http_request case serve base path o token)
  http_request-IsOwnRequest base path o token = record {
    url = refl;
    method = refl;
    body = sent_body-IsCarried o.body;
    protected = λ w n.
        get_entry-request_headers o token (text "x-csrf-token")
        ∙ ground
            (arith, is_write_iff case serve o.method, is_empty_iff token, same_refl csrf_header);
    unprotected = λ n.
        get_entry-request_headers o token (text "x-csrf-token")
        ∙ ground (arith, is_write_iff case serve o.method, is_empty_iff token, types_differ);
    typed = λ j.
        get_entry-request_headers o token (text "content-type")
        ∙ ground (arith, IsJson-iff o.body, types_differ_back, same_refl (text "content-type"));
    untyped = λ j.
        get_entry-request_headers o token (text "content-type")
        ∙ ground (arith, IsJson-iff o.body, types_differ_back);
    others = λ name n k.
        get_entry-request_headers o token name
        ∙ ground (arith, same_iff csrf_header name, same_iff (text "content-type") name);
  }
