-- ===== src/Failover/Cloudflare/Answered.antt =====
-- What the service has answered when a call of the Cloudflare client succeeds.
use sidero_proxy.Base.{
  ◌∷◌, ℕ, ◌≡◌, ap, ◌∙◌, false, List, [], ◌++◌, map, leb, Result, ok, pure, continue_ok,
  with_prefix_ok, prefixed, ◌>>=◌, Bytes, codes, Unicode, arith,
}
use sidero_proxy.Base.Integers.{ℤ}
use sidero_proxy.Failover.{Error, DnsRecord}
use sidero_proxy.Failover.Cloudflare.{
  CloudflareClient, CfRecord, CfResponse, CloudflareJson, HttpRequest, HttpResponse, Http,
  list_query, records_url, to_dns_record, lift, http_request, authorized, check_status, do_request,
  new_record, delete_record, create_a_record, list_a_records,
}

module _ {W : Type 0} (u : Unicode) (http : Http W) (json : CloudflareJson)
    (c : CloudflareClient) where
  -- The service got the request with the client's token, and answered with a status below 300 and a
  -- body that decodes to `x`.
  pub record IsAnswered {T : Type 0} (unmarshal : Bytes → Result Error T) (r : HttpRequest) (x : T)
      (w w' : W) : Type 0 where
    pub answer : HttpResponse
    pub exchanged : http.exchange (authorized u http json c r) w ≡ (ok answer, w')
    pub below_300 : leb 300 answer.status_code ≡ false
    pub text : Bytes
    pub has_text : answer.body ≡ ok text
    pub decodes : unmarshal text ≡ ok x

  check_status_ok :
      (r : HttpRequest) (status : ℕ) (body : Bytes)
      → check_status u http json c r status body ≡ ok tt
      → leb 300 status ≡ false
  check_status_ok r status body h = ground (arith, h)

  do_request-IsAnswered :
      {T : Type 0} (unmarshal : Bytes → Result Error T) (r : HttpRequest) (x : T) (w w' : W)
      → do_request u http json c unmarshal r w ≡ (ok x, w')
      → IsAnswered unmarshal r x w w'
  unfolding do_request
  do_request-IsAnswered {T} unmarshal r x w w' h =
      let decode = λ (text : Bytes).
        prefixed {S = W} (codes "decode cloudflare response: ") (lift (unmarshal text)) in
      let checked = λ (answer : HttpResponse) (text : Bytes).
        lift {W = W} (check_status u http json c r answer.status_code text)
        >>= (λ (_ : Unit {0}). decode text) in
      let (answer, exchanged, h₁) =
        continue_ok (λ answer. lift (HttpResponse.body answer) >>= checked answer)
          (http.exchange (authorized u http json c r) w) x w' h in
      let v = (http.exchange (authorized u http json c r) w).1 in
      let (text, has_text, h₂) =
        continue_ok (checked answer) (lift (HttpResponse.body answer) v) x w' h₁ in
      let (y, below, h₃) =
        continue_ok (λ _. decode text)
          (lift (check_status u http json c r answer.status_code text) v) x w' h₂ in
      let decoded =
        with_prefix_ok (codes "decode cloudflare response: ") (lift (unmarshal text) v) x w' h₃ in
      record {
        answer = answer;
        exchanged = exchanged ∙ ap (λ t. (ok answer, t.1)) decoded;
        below_300 = check_status_ok r answer.status_code text (ap (λ t. t.0) below);
        text = text;
        has_text = ap (λ t. t.0) has_text;
        decodes = ap (λ t. t.0) decoded;
      }

  -- `ListARecords` gives records only if the service has answered the request for the A records of the
  -- name, with the client's token, with a status below 300, and the records are those of its answer, in
  -- its order.
  pub list_a_records-IsAnswered :
      (zone_id name : Bytes) (records : List DnsRecord) (w w' : W)
      → list_a_records u http json c zone_id name w ≡ (ok records, w')
      → (response : CfResponse (List CfRecord)) × IsAnswered json.unmarshal_records
          (http_request
            (codes "GET")
            (records_url c zone_id ++ (codes "?" ++ list_query name))
            []
            [])
          response
          w
          w'
        × (map to_dns_record response.result ≡ records)
  unfolding list_a_records
  list_a_records-IsAnswered zone_id name records w w' h =
      let url = records_url c zone_id ++ (codes "?" ++ list_query name) in
      let r = http_request (codes "GET") url [] [] in
      let finish = λ (response : CfResponse (List CfRecord)).
        pure {S = W} {E = Error} (map to_dns_record response.result) in
      let ask = do_request u http json c json.unmarshal_records r in
      let (x, good, h₁) =
        continue_ok (λ (_ : Unit {0}). ask >>= finish) (lift (http.check_url url) w) records w' h in
      let (response, asked, h₂) = continue_ok finish (ask w) records w' h₁ in
      (
        response,
        do_request-IsAnswered json.unmarshal_records r response w w'
            (asked ∙ ap (λ t. (ok response, t.1)) h₂),
        ok_value h₂,
      )
    where
      ok_value :
          {A : Type 0} {a b : A} {v v' : W}
          → ◌≡◌ {A = Result Error A × W} (ok a, v) (ok b, v')
          → a ≡ b
      ok_value h = ground (arith, h)

  -- Of a chain that checks a URL, asks the service and gives nothing: the answer.
  asked_ok :
      {T : Type 0} (unmarshal : Bytes → Result Error T) (r : HttpRequest) (w w' : W)
      → (lift {W = W} (http.check_url r.url) >>= (λ (_ : Unit {0}).
            do_request u http json c unmarshal r >>= (λ (_ : T). pure {S = W} {E = Error} tt)))
          w
        ≡ (ok tt, w')
      → (x : T) × IsAnswered unmarshal r x w w'
  asked_ok {T} unmarshal r w w' h =
      let ask = do_request u http json c unmarshal r in
      let finish = λ (_ : T). pure {S = W} {E = Error} tt in
      let (y, good, h₁) =
        continue_ok (λ (_ : Unit {0}). ask >>= finish) (lift (http.check_url r.url) w) tt w' h in
      let (x, asked, h₂) = continue_ok finish (ask w) tt w' h₁ in
      (x, do_request-IsAnswered unmarshal r x w w' (asked ∙ ap (λ t. (ok x, t.1)) h₂))

  pub delete_record-IsAnswered :
      (zone_id record_id : Bytes) (w w' : W)
      → delete_record u http json c zone_id record_id w ≡ (ok tt, w')
      → (x : CfResponse CfRecord) × IsAnswered json.unmarshal_record
          (http_request (codes "DELETE") (records_url c zone_id ++ (codes "/" ++ record_id)) [] [])
          x
          w
          w'
  unfolding delete_record
  delete_record-IsAnswered zone_id record_id w w' h =
      asked_ok json.unmarshal_record
        (http_request (codes "DELETE") (records_url c zone_id ++ (codes "/" ++ record_id)) [] []) w
        w' h

  pub create_a_record-IsAnswered :
      (zone_id name content : Bytes) (ttl : ℤ) (w w' : W)
      → create_a_record u http json c zone_id name content ttl w ≡ (ok tt, w')
      → (body : Bytes) × (x : CfResponse CfRecord) × (json.marshal (new_record name content ttl)
          ≡ ok body)
        × IsAnswered json.unmarshal_record
            (http_request
              (codes "POST")
              (records_url c zone_id)
              ((codes "Content-Type", codes "application/json") ∷ [])
              body)
            x
            w
            w'
  unfolding create_a_record
  create_a_record-IsAnswered zone_id name content ttl w w' h =
      let post = λ (body : Bytes).
        http_request (codes "POST") (records_url c zone_id)
          ((codes "Content-Type", codes "application/json") ∷ []) body in
      let send = λ (body : Bytes).
        lift {W = W} (http.check_url (records_url c zone_id)) >>= (λ (_ : Unit {0}).
          do_request u http json c json.unmarshal_record (post body)
          >>= (λ (_ : CfResponse CfRecord). pure {S = W} {E = Error} tt)) in
      let (body, encoded, h₁) =
        continue_ok send (lift (json.marshal (new_record name content ttl)) w) tt w' h in
      let (x, answered) = asked_ok json.unmarshal_record (post body) w w' h₁ in
      (body, x, ap (λ t. t.0) encoded, answered)
