-- ===== src/Tests/Api.antt =====
-- Calls of the API at concrete inputs, against a server that answers every request with one status.
use purels.ApiClient.Request.{
  Client, HttpRequest, Options, Reply, http_request, is_mutation, json_body, pre_session_paths,
  replied, request,
}
use purels.ApiClient.Request.Csrf.{asked, expired, moves, request-replaced, request_pre_session}
use purels.ApiClient.Request.Failures.{Answers, answer, request-Answers}
use purels.ApiClient.Request.Traffic.{Traffic}
use purels.ApiClient.Request.Traffic.Sent.{request-Traffic}
use purels.Base.{List, [], length, none, refl, some, true, ℕ, ◌++◌, ◌∷◌, ◌≡◌}
use purels.Js.Case.{ascii_mapping}
use purels.Js.Json.{end, field, obj, str, stringify}
use purels.Js.Text.{Text, contains_text, includes, starts_with, text}

abbrev answer_with : ℕ → Unit {0} → HttpRequest → Reply × Unit {0}
answer_with status w q = (
  replied (record {
    status = status;
    content_type = some (text "application/json");
    parsed = some (obj (field (text "token") (str (text "t0ken")) end));
    body_text = none;
  }),
  tt,
)

abbrev fresh_client : Client (Unit {0})
fresh_client = record {
  csrf_token = [];
  window_path = some (text "/links");
  replaced = [];
  sent = [];
  world = tt;
}

abbrev keyed_client : Client (Unit {0})
keyed_client = record fresh_client { csrf_token = text "t0ken" }

abbrev post : Options
post = record { method = some (text "post"); headers = []; body = json_body (obj end) }

abbrev links_path : Text
links_path = text "/api/v1/links"

abbrev login_path : Text
login_path = text "/api/v1/auth/login"

request-Answers_example :
    Answers
      (answer ascii_mapping (answer_with 404) [] links_path post fresh_client)
      (request ascii_mapping (answer_with 404) [] links_path post fresh_client).0
request-Answers_example =
    request-Answers ascii_mapping (answer_with 404) [] links_path post fresh_client

request-Traffic_example :
    (qs : List HttpRequest) × Traffic ascii_mapping
      (answer_with 200)
      []
      links_path
      post
      fresh_client
      qs
    × ((request ascii_mapping (answer_with 200) [] links_path post fresh_client).1.sent ≡ [] ++ qs)
request-Traffic_example =
    request-Traffic ascii_mapping (answer_with 200) [] links_path post fresh_client

two_requests :
    length (request ascii_mapping (answer_with 200) [] links_path post fresh_client).1.sent ≡ 2
unfolding request includes starts_with contains_text stringify
two_requests = refl

request-replaced_example :
    (request ascii_mapping (answer_with 401) [] links_path post fresh_client).1.replaced
    ≡ []
      ++ moves ascii_mapping
          (answer_with 401)
          (expired ascii_mapping
            (answer_with 401)
            links_path
            (asked ascii_mapping (answer_with 401) [] links_path post fresh_client).0)
          (some (text "/links"))
request-replaced_example =
    request-replaced ascii_mapping (answer_with 401) [] links_path post fresh_client

post_mutates : is_mutation ascii_mapping (answer_with 200) post.method ≡ true
unfolding includes
post_mutates = refl

login_is_early : includes pre_session_paths login_path ≡ true
unfolding includes
login_is_early = refl

request_pre_session_example :
    ((request ascii_mapping (answer_with 401) [] login_path post fresh_client).1.sent
      ≡ [] ++ (http_request ascii_mapping (answer_with 401) [] login_path post [] ∷ []))
    × ((request ascii_mapping (answer_with 401) [] login_path post fresh_client).1.replaced ≡ [])
request_pre_session_example =
    request_pre_session ascii_mapping (answer_with 401) [] login_path post fresh_client
      login_is_early
