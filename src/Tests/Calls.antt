-- ===== src/Tests/Calls.antt =====
-- The endpoints of the API at concrete inputs.
use purels.ApiClient.Endpoints.{call, returned}
use purels.ApiClient.Endpoints.Account.{AccountCall, account_endpoint, login}
use purels.ApiClient.Endpoints.Calls.{account, endpoint, link, makes_session, only_reads}
use purels.ApiClient.Endpoints.Calls.Login.{Carries, signed_in_write}
use purels.ApiClient.Endpoints.Calls.Sessions.{endpoint_protected}
use purels.ApiClient.Endpoints.Links.{link_endpoint, links_remove}
use purels.ApiClient.Request.{
  Client, HttpRequest, Options, Reply, csrf_header, http_request, is_mutation, no_body,
  pre_session_paths, replied, request,
}
use purels.Base.{[], none, not, refl, some, true, ◌++◌, ◌∷◌, ◌≡◌}
use purels.Js.Case.{ascii_mapping}
use purels.Js.Headers.{get_entry}
use purels.Js.Json.{Value, end, field, get, obj, str, stringify}
use purels.Js.Text.{contains_text, includes, same, starts_with, text}

abbrev session_server : Unit {0} → HttpRequest → Reply × Unit {0}
session_server w q = (
  replied (record {
    status = 200;
    content_type = some (text "application/json");
    parsed = some (obj (field (text "csrf_token") (str (text "t1")) end));
    body_text = none;
  }),
  tt,
)

abbrev visitor : Client (Unit {0})
visitor = record {
  csrf_token = [];
  window_path = some (text "/login");
  replaced = [];
  sent = [];
  world = tt;
}

abbrev sign_in : AccountCall
sign_in = login (text "ada") (text "secret")

abbrev session_payload : Value
session_payload = obj (field (text "csrf_token") (str (text "t1")) end)

sign_in_answer :
    (call ascii_mapping session_server [] (endpoint (account sign_in)) visitor).0
    ≡ returned session_payload
unfolding call account_endpoint includes starts_with contains_text stringify
sign_in_answer = refl

sign_in_Carries : Carries ascii_mapping session_server session_payload (text "t1")
unfolding get same
sign_in_Carries = (field (text "csrf_token") (str (text "t1")) end, refl, refl, refl)

abbrev patch_options : Options
patch_options = record { method = some (text "PATCH"); headers = []; body = no_body }

patch_mutates : is_mutation ascii_mapping session_server patch_options.method ≡ true
unfolding includes
patch_mutates = refl

signed_in_write_example :
    let signed = (call ascii_mapping session_server [] (endpoint (account sign_in)) visitor).1 in
    ((request ascii_mapping session_server [] (text "/api/v1/users/7") patch_options signed).1.sent
      ≡ signed.sent
        ++ (http_request ascii_mapping session_server []
              (text "/api/v1/users/7")
              patch_options
              (text "t1")
            ∷ []))
    × (get_entry
          (http_request ascii_mapping session_server []
            (text "/api/v1/users/7")
            patch_options
            (text "t1")).headers
          csrf_header
        ≡ some (text "t1"))
signed_in_write_example =
    signed_in_write ascii_mapping session_server [] (text "/api/v1/users/7") (account sign_in)
      patch_options visitor session_payload (text "t1") refl sign_in_answer sign_in_Carries
      patch_mutates

update_path : (endpoint (link (links_remove (text "a/b")))).path ≡ some (text "/api/v1/links/a%2Fb")
unfolding link_endpoint
update_path = refl

endpoint_protected_example :
    (is_mutation ascii_mapping session_server
        (endpoint (link (links_remove (text "a/b")))).options.method
      ≡ not (only_reads (link (links_remove (text "a/b")))))
    × (includes pre_session_paths (text "/api/v1/links/a%2Fb")
        ≡ makes_session (link (links_remove (text "a/b"))))
endpoint_protected_example =
    endpoint_protected ascii_mapping session_server (link (links_remove (text "a/b")))
      (text "/api/v1/links/a%2Fb") update_path
