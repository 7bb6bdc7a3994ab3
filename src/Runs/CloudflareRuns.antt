-- ===== src/Runs/CloudflareRuns.antt =====
-- Runs of the controller over HTTP, and that the service of the runs answers as the API says.
use sidero_proxy.Base.{true, none, List, [], ◌∷◌, map, Result, ok, err, Bytes, codes}
use sidero_proxy.Base.Dict.{Dict}
use sidero_proxy.Failover.{Error, DnsRecord, Environment, ControllerState}
use sidero_proxy.Failover.Cloudflare.{
  CfRecord, CfResponse, HttpResponse, list_query, to_dns_record, environment,
}
use sidero_proxy.Runs.{plain_unicode}
use sidero_proxy.Runs.HttpService.{client, text_json, http}

abbrev body_of : Result Error HttpResponse → Result Error Bytes
body_of (ok answer) = answer.body
body_of (err e) = err e

abbrev records_in : Result Error (CfResponse (List CfRecord)) → List DnsRecord
records_in (ok x) = map to_dns_record x.result
records_in (err e) = []

abbrev over_http : Environment (Dict Bytes)
over_http = environment plain_unicode http text_json client (λ w. 5000000000)

abbrev before : ControllerState (Dict Bytes)
before = record { world = (list_query (codes "play"), codes "192.0.2.1") ∷ []; regions = [] }

abbrev behind : ControllerState (Dict Bytes)
behind = record {
  world = (list_query (codes "play"), codes "192.0.2.9") ∷ [];
  regions = (codes "eu", record { healthy_since = none; on_fallback = true }) ∷ [];
}
