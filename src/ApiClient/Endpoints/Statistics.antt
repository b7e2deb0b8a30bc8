-- ===== src/ApiClient/Endpoints/Statistics.antt =====
-- `api.tags`, `api.config`, `api.system` and `api.stats`.
use purels.ApiClient.Endpoints.{Endpoint, Query, build_query, listed, reads, resource, whole}
use purels.ApiClient.Request.{Outcome, failure, no_body, success}
use purels.Base.{Option, [], if◌then◌else◌, leb, none, some, ◌++◌, ◌==◌, ◌||◌, ◌∷◌}
use purels.Js.Text.{Text, text}

-- A range that may be left out gives both of its bounds or neither.
pub record DateRange : Type 0 where
  pub from : Text
  pub to : Text

pub data StatsCall : Type 0 where
  tags_list config stats_summary : StatsCall
  stats_top : Text → Text → Option DateRange → StatsCall
  stats_overview : DateRange → StatsCall
  stats_link : Text → Option DateRange → StatsCall
  stats_link_clicks : Text → DateRange → Option Text → Option Text → StatsCall

abbrev range_query : Option DateRange → Query
range_query none = (text "from", none) ∷ (text "to", none) ∷ []
range_query (some r) = (text "from", some r.from) ∷ (text "to", some r.to) ∷ []

abbrev link_stats : Text → Text → Endpoint
link_stats id suffix = record {
  path = resource (text "/api/v1/links/") id suffix;
  options = record { method = none; headers = []; body = no_body };
  handling = whole;
}

unfoldable pub stats_endpoint : StatsCall → Endpoint
unfolding resource build_query
stats_endpoint tags_list = reads (text "/api/v1/tags") (listed (text "tags"))
stats_endpoint config = reads (text "/api/v1/config") whole
stats_endpoint stats_summary = reads (text "/api/v1/stats/summary") whole
stats_endpoint (stats_top order limit range) =
    reads
      (text "/api/v1/stats/top"
        ++ build_query
            ((text "order", some order) ∷ (text "limit", some limit) ∷ range_query range))
      (listed (text "links"))
stats_endpoint (stats_overview range) =
    reads (text "/api/v1/stats/overview" ++ build_query (range_query (some range))) whole
stats_endpoint (stats_link id range) =
    link_stats id (text "/stats" ++ build_query (range_query range))
stats_endpoint (stats_link_clicks id range limit offset) = link_stats id (
    text "/clicks"
    ++ build_query (
        (text "from", some range.from)
        ∷ (text "to", some range.to)
        ∷ (text "limit", limit)
        ∷ (text "offset", offset)
        ∷ []))

pub data Readiness : Type 0 where
  ready degraded unreachable_api : Readiness

-- `readiness`: what the outcome of the call of `/readyz` means.
unfoldable pub readiness : Outcome → Readiness
readiness (success v) = ready
readiness (failure e) =
    if e.status == 503
    then degraded
    else if e.status == 0 || leb 500 e.status
    then unreachable_api
    else degraded
