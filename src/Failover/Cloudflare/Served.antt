-- ===== src/Failover/Cloudflare/Served.antt =====
-- That the client gives the controller the DNS service that it relies on, when the service answers as
-- its API describes.
use sidero_proxy.Base.{
  ℕ, ◌≡◌, refl, sym, ap, ◌∙◌, false, All, List, [], ◌∷◌, ◌++◌, map, if◌then◌else◌, Result, ok, err,
  Bytes, codes, bytes_eq, Unicode, continue_with, ◌>>=◌,
}
use sidero_proxy.Base.Integers.{ℤ}
use sidero_proxy.Failover.{Error, DnsRecord}
use sidero_proxy.Failover.Zone.{Zone, without, has_id}
use sidero_proxy.Failover.Cloudflare.{
  CloudflareClient, CfRecord, CfResponse, CloudflareJson, HttpResponse, Http, list_query,
  records_url, to_dns_record, lift, http_request, new_record, check_healthy, http_healthy,
  environment,
}
use sidero_proxy.Failover.Cloudflare.Answered.{
  IsAnswered, list_a_records-IsAnswered, delete_record-IsAnswered, create_a_record-IsAnswered,
}

-- What an answer with a status below 300 tells of the zone, for a service whose lists fit in one page
-- and whose failures have another status, and that asking for health changes nothing.
-- An id belongs to the record of one name.
pub record Api {W : Type 0} (u : Unicode) (http : Http W) (json : CloudflareJson)
    (c : CloudflareClient) (zone_id : Bytes) : Type 0 where
  pub records : W → Bytes → List DnsRecord
  pub listed :
      (name : Bytes) (x : CfResponse (List CfRecord)) (w w' : W)
      → IsAnswered u http json c json.unmarshal_records
          (http_request
            (codes "GET")
            (records_url c zone_id ++ (codes "?" ++ list_query name))
            []
            [])
          x
          w
          w'
      → (map to_dns_record x.result ≡ records w name) × ((j : Bytes) → records w' j ≡ records w j)
  pub deleted :
      (id : Bytes) (x : CfResponse CfRecord) (w w' : W)
      → IsAnswered u http json c json.unmarshal_record
          (http_request (codes "DELETE") (records_url c zone_id ++ (codes "/" ++ id)) [] [])
          x
          w
          w'
      → (j : Bytes) → records w' j ≡ without id (records w j)
  pub created :
      (name content : Bytes) (ttl : ℤ) (body : Bytes) (x : CfResponse CfRecord) (w w' : W)
      → json.marshal (new_record name content ttl) ≡ ok body
      → IsAnswered u http json c json.unmarshal_record
          (http_request
            (codes "POST")
            (records_url c zone_id)
            ((codes "Content-Type", codes "application/json") ∷ [])
            body)
          x
          w
          w'
      → (made : DnsRecord) × (made.content ≡ content)
        × ((j : Bytes)
            → records w' j ≡ (if bytes_eq name j then records w j ++ made ∷ [] else records w j))
  pub distinct_ids :
      (w : W) (j k : Bytes)
      → bytes_eq j k ≡ false
      → All (λ r. has_id (DnsRecord.id r) (records w k) ≡ false) (records w j)
  pub probed :
      (url : Bytes) (w : W) (j : Bytes)
      → records ((http.exchange (http_request (codes "GET") url [] []) w).1) j ≡ records w j

module _ {W : Type 0} (u : Unicode) (http : Http W) (json : CloudflareJson) (c : CloudflareClient)
    (zone_id : Bytes) (api : Api u http json c zone_id) where
  checked-records :
      (r : Result Error HttpResponse × W) (j : Bytes)
      → api.records
          ((continue_with
            (λ (a : HttpResponse). lift {W = W} (check_healthy u http json c a.status_code))
            r).1)
          j
        ≡ api.records (r.1) j
  checked-records (ok a, v) j = refl
  checked-records (err e, v) j = refl

  pub http_healthy-records :
      (url : Bytes) (w : W) (j : Bytes)
      → api.records ((http_healthy u http json c url w).1) j ≡ api.records w j
  unfolding http_healthy
  http_healthy-records url w j = by_url (http.check_url url)
    where
      by_url :
          (r : Result Error (Unit {0}))
          → api.records
              ((continue_with
                (λ (_ : Unit {0}).
                  http.exchange (http_request (codes "GET") url [] []) >>= (λ (a : HttpResponse).
                    lift {W = W} (check_healthy u http json c a.status_code)))
                (r, w)).1)
              j
            ≡ api.records w j
      by_url (ok x) =
          checked-records (http.exchange (http_request (codes "GET") url [] []) w) j
          ∙ api.probed url w j
      by_url (err e) = refl

  -- The service that the controller sees through the client.
  abbrev pub cloudflare_zone : (now : W → ℕ) → Zone (environment u http json c now) zone_id
  cloudflare_zone now = record {
    records = api.records;
    listed = λ name w w' found e.
        let (x, answered, same) =
          list_a_records-IsAnswered u http json c zone_id name found w w' e in
        let (held, kept) = api.listed name x w w' answered in (sym same ∙ held, kept);
    deleted = λ id w w' e.
        let (x, answered) = delete_record-IsAnswered u http json c zone_id id w w' e in
        api.deleted id x w w' answered;
    created = λ name content ttl w w' e.
        let (body, x, encoded, answered) =
          create_a_record-IsAnswered u http json c zone_id name content ttl w w' e in
        api.created name content ttl body x w w' encoded answered;
    distinct_ids = api.distinct_ids;
    probed =
        λ url w w' health e j. ap (λ t. api.records (t.1) j) (sym e) ∙ http_healthy-records url w j;
  }
