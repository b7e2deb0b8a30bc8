-- ===== src/ApiClient/Endpoints.antt =====
-- `api` of web/src/lib/api-client.ts: the endpoints, and what each makes of its payload.
pub mod Account
pub mod Links
pub mod Administration
pub mod Statistics
pub mod Calls
use mathlib.Core.Option
use purels.ApiClient.Error.{ApiError, property, string_of, unwrap_key}
use purels.ApiClient.Request.{
  Body, Client, HttpRequest, Options, Outcome, Reply, failure, no_body, request, success,
}
use purels.Base.{
  Bool, List, Option, String, [], false, if◌then◌else◌, map, none, some, true, ◌&&◌, ◌++◌, ◌==◌,
  ◌||◌, ◌∷◌,
}
use purels.Js.Case.{CaseMapping}
use purels.Js.Json.{Value, arr, bool, end, field, get, nil, null, num, obj, str, undefined}
use purels.Js.Text.{Text, is_empty, text}
use purels.Js.Uri.{encode_uri_component, query_text}

-- A parameter of a query: `none` is undefined, and a number is given by its text.
abbrev pub Query : Type 0
Query = List (Text × Option Text)

-- What stays is neither undefined nor empty.
abbrev kept : Query → List (Text × Text)
kept [] = []
kept ((k, none) ∷ ps) = kept ps
kept ((k, some v) ∷ ps) = if is_empty v then kept ps else (k, v) ∷ kept ps

-- `buildQuery`.
unfoldable pub build_query : Query → Text
unfolding query_text
build_query ps = if is_empty (query_text (kept ps)) then [] else b'?' ∷ query_text (kept ps)

-- What is done with the payload.
pub data Handling : Type 0 where
  -- It is returned, unwrapped from the named field, or unwrapped with `|| []`.
  whole : Handling
  unwrapped : Text → Handling
  listed : Text → Handling
  -- It carries the CSRF token of a session, or is asked for the token alone.
  signs_in gives_token : Handling

-- A call as it reaches `request`; the path is `none` where `encodeURIComponent` throws.
pub record Endpoint : Type 0 where
  pub path : Option Text
  pub options : Options
  pub handling : Handling

abbrev bare : Option Text → Body → Options
bare method body = record { method = method; headers = []; body = body }

abbrev pub reads : Text → Handling → Endpoint
reads path h = record { path = some path; options = bare none no_body; handling = h }

abbrev pub sends : Text → Option Text → Body → Handling → Endpoint
sends method path body h = record { path = path; options = bare (some method) body; handling = h }

-- `${prefix}${encodeURIComponent(id)}${suffix}`.
unfoldable pub resource : Text → Text → Text → Option Text
unfolding encode_uri_component
resource prefix id suffix =
    Option.map (λ segment. prefix ++ (segment ++ suffix)) (encode_uri_component id)

abbrev pub post : Text
post = text "POST"

abbrev pub patch : Text
patch = text "PATCH"

abbrev pub put : Text
put = text "PUT"

abbrev pub delete : Text
delete = text "DELETE"

-- An object of one or two fields.
abbrev pub one_field : String → Value → Value
one_field k v = obj (field (text k) v end)

abbrev pub two_fields : String → Value → String → Value → Value
two_fields k v k' v' = obj (field (text k) v (field (text k') v' end))

pub data CallResult : Type 0 where
  returned : Value → CallResult
  failed : ApiError → CallResult
  -- A property of undefined or null was read, or an id could not be encoded.
  thrown : CallResult

-- A number literal that denotes zero: no other digit stands before its exponent.
abbrev is_zero_literal : Text → Bool
is_zero_literal [] = true
is_zero_literal (c ∷ s) =
    c == b'e' || c == b'E' || ((c == b'0' || c == b'.' || c == b'-') && is_zero_literal s)

-- `v || []`.
abbrev or_no_items : Value → Value
or_no_items undefined = arr nil
or_no_items null = arr nil
or_no_items (bool false) = arr nil
or_no_items (str []) = arr nil
or_no_items (num n) = if is_zero_literal n then arr nil else num n
or_no_items v = v

module _ {W : Type 0} where
  -- `csrfToken = result[key]`: a missing token, and one that is no text, is kept as none.
  abbrev with_token : String → Value → Client W → Client W
  with_token key v c = record c { csrf_token = string_of (property v (text key)) }

  abbrev sign_in_with : Value → Client W → CallResult × Client W
  sign_in_with undefined c = (thrown, c)
  sign_in_with null c = (thrown, c)
  sign_in_with v c = (returned v, with_token "csrf_token" v c)

  abbrev give_token : Value → Client W → CallResult × Client W
  give_token undefined c = (thrown, c)
  give_token null c = (thrown, c)
  give_token v c = (returned (property v (text "token")), with_token "token" v c)

  unfoldable pub handle : Handling → Outcome → Client W → CallResult × Client W
  unfolding unwrap_key get
  handle h (failure e) c = (failed e, c)
  handle whole (success v) c = (returned v, c)
  handle (unwrapped key) (success v) c = (returned (unwrap_key v key), c)
  handle (listed key) (success v) c = (returned (or_no_items (unwrap_key v key)), c)
  handle signs_in (success v) c = sign_in_with v c
  handle gives_token (success v) c = give_token v c

  abbrev call_at :
      CaseMapping
      → (W → HttpRequest → Reply × W)
      → Text
      → Endpoint
      → Option Text
      → Client W
      → CallResult × Client W
  call_at case serve base e none c = (thrown, c)
  call_at case serve base e (some path) c =
      handle e.handling (request case serve base path e.options c).0
        (request case serve base path e.options c).1

  unfoldable pub call :
      CaseMapping
      → (W → HttpRequest → Reply × W)
      → Text
      → Endpoint
      → Client W
      → CallResult × Client W
  unfolding handle request
  call case serve base e c = call_at case serve base e e.path c
