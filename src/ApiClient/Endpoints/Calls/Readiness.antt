-- ===== src/ApiClient/Endpoints/Calls/Readiness.antt =====
-- What the readiness check reports.
use purels.ApiClient.Endpoints.Statistics.{Readiness, degraded, ready, unreachable_api}
use purels.ApiClient.Request.{HttpRequest, Reply, is_ok, replied, unreachable}
use purels.Base.{if◌then◌else◌, leb, ◌==◌, ◌||◌}
use purels.Js.Case.{CaseMapping}
use purels.Js.Text.{Text, text}

module _ {W : Type 0} (case : CaseMapping) (serve : W → HttpRequest → Reply × W) where
  abbrev pub ready_path : Text
  ready_path = text "/readyz"

  -- The verdict as the service's answer has it: only 200 and 503 come from the service itself.
  abbrev pub verdict : Reply → Readiness
  verdict unreachable = unreachable_api
  verdict (replied r) =
      if is_ok r
      then ready
      else if r.status == 503
      then degraded
      else if r.status == 0 || leb 500 r.status
      then unreachable_api
      else degraded
