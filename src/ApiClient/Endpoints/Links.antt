-- ===== src/ApiClient/Endpoints/Links.antt =====
-- `api.links` and `api.audit`.
use mathlib.Core.Option
use purels.ApiClient.Endpoints.{
  Endpoint, Query, build_query, delete, patch, post, reads, resource, sends, whole,
}
use purels.ApiClient.Request.{json_body, no_body, raw_body}
use purels.Base.{Option, [], if◌then◌else◌, none, some, ◌++◌, ◌||◌, ◌∷◌}
use purels.Js.Json.{Value}
use purels.Js.Text.{Text, is_empty, same, text}

pub record ListParams : Type 0 where
  pub limit : Option Text
  pub offset : Option Text
  pub sort : Option Text
  pub status : Option Text
  pub search : Option Text
  pub tag : Option Text

-- `params.status && params.status !== "all" ? params.status : undefined`.
abbrev status_param : Option Text → Option Text
status_param none = none
status_param (some s) = if is_empty s || same s (text "all") then none else some s

abbrev filter_query : ListParams → Query
filter_query p =
    (text "sort", p.sort)
    ∷ (text "status", status_param p.status)
    ∷ (text "search", p.search)
    ∷ (text "tag", p.tag)
    ∷ []

pub data LinkCall : Type 0 where
  links_list links_export : ListParams → LinkCall
  links_get links_remove links_check : Text → LinkCall
  links_create links_bulk : Value → LinkCall
  links_update : Text → Value → LinkCall
  links_import : Text → LinkCall
  audit_list : Option Text → Option Text → Option Text → LinkCall

abbrev pub links_path : Text
links_path = text "/api/v1/links/"

unfoldable pub link_endpoint : LinkCall → Endpoint
unfolding resource build_query same
link_endpoint (links_list p) =
    reads
      (text "/api/v1/links"
        ++ build_query ((text "limit", p.limit) ∷ (text "offset", p.offset) ∷ filter_query p))
      whole
link_endpoint (links_get id) = record {
  path = resource links_path id [];
  options = record { method = none; headers = []; body = no_body };
  handling = whole;
}
link_endpoint (links_create input) =
    sends post (some (text "/api/v1/links")) (json_body input) whole
link_endpoint (links_update id input) =
    sends patch (resource links_path id []) (json_body input) whole
link_endpoint (links_remove id) = sends delete (resource links_path id []) no_body whole
link_endpoint (links_bulk input) =
    sends post (some (text "/api/v1/links/bulk")) (json_body input) whole
link_endpoint (links_check id) = sends post (resource links_path id (text "/check")) no_body whole
link_endpoint (links_export p) =
    reads (text "/api/v1/links/export" ++ build_query (filter_query p)) whole
link_endpoint (links_import csv) = record {
  path = some (text "/api/v1/links/import");
  options = record {
    method = some post;
    headers = (text "content-type", text "text/csv; charset=utf-8") ∷ [];
    body = raw_body csv;
  };
  handling = whole;
}
link_endpoint (audit_list action limit offset) =
    reads
      (text "/api/v1/audit"
        ++ build_query
            ((text "action", action) ∷ (text "limit", limit) ∷ (text "offset", offset) ∷ []))
      whole

-- `previewUrl` and `qrUrl`, which no request is made for; the default size is 320.
unfoldable pub preview_url : Text → Text
preview_url short_url = short_url ++ text "+"

unfoldable pub qr_url : Text → Text → Text → Option Text
unfolding resource build_query
qr_url base id size =
    Option.map (λ path. base ++ path)
      (resource links_path id (text "/qr" ++ build_query ((text "size", some size) ∷ [])))
