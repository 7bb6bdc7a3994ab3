-- ===== src/Failover/Cloudflare.antt =====
-- internal/failover/cloudflare.go and healthcheck.go: the HTTP clients that the controller uses. The
-- exchange of a request for an answer, the check of its URL and encoding/json are parameters.
pub mod Answered
pub mod Query
pub mod Served
use sidero_proxy.Base.{
  ℕ, ◌≡◌, refl, Bool, true, false, ◌||◌, ◌&&◌, ◌==◌, ◌+◌, ◌/◌, ◌%◌, Option, none, some, List, [],
  ◌∷◌, ◌++◌, map, leb, ltb, if◌then◌else◌, Result, ok, err, Action, fail, pure, continue_with,
  ◌>>=◌, ◌>>◌, prefixed, Bytes, codes, itoa, Unicode, trim_space, arith,
}
use sidero_proxy.Base.Integers.{ℤ}
use sidero_proxy.Config.{is_nil}
use sidero_proxy.Failover.{Error, DnsRecord, Environment}

pub record CloudflareClient : Type 0 where
  pub api_token : Bytes
  pub base_url : Bytes

-- `NewCloudflareClient`, with the value of API_BASE_URL.
unfoldable pub new_cloudflare_client : Bytes → Bytes → CloudflareClient
new_cloudflare_client api_base_url api_token = record {
  api_token = api_token;
  base_url =
      if is_nil api_base_url then codes "https://api.cloudflare.com/client/v4" else api_base_url;
}

pub record CfRecord : Type 0 where
  pub id : Bytes
  pub record_type : Bytes
  pub name : Bytes
  pub content : Bytes
  pub ttl : ℤ

pub record CfResponse (T : Type 0) : Type 0 where
  pub success : Bool
  pub result : T

-- The fields of the object that `CreateARecord` sends.
pub record NewRecord : Type 0 where
  pub record_type : Bytes
  pub name : Bytes
  pub content : Bytes
  pub ttl : ℤ
  pub proxied : Bool

pub record CloudflareJson : Type 0 where
  pub unmarshal_records : Bytes → Result Error (CfResponse (List CfRecord))
  pub unmarshal_record : Bytes → Result Error (CfResponse CfRecord)
  pub marshal : NewRecord → Result Error Bytes

pub record HttpRequest : Type 0 where
  pub method : Bytes
  pub url : Bytes
  pub headers : List (Bytes × Bytes)
  pub body : Bytes

-- An answer: its status, and its body if that can be read to its end.
pub record HttpResponse : Type 0 where
  pub status_code : ℕ
  pub body : Result Error Bytes

abbrev pub new_record : Bytes → Bytes → ℤ → NewRecord
new_record name content ttl = record {
  record_type = codes "A";
  name = name;
  content = content;
  ttl = ttl;
  proxied = false;
}

-- `http.NewRequestWithContext`, which refuses a malformed URL, and the client's `Do`.
pub record Http (W : Type 0) : Type 0 where
  pub check_url : Bytes → Result Error (Unit {0})
  pub exchange : HttpRequest → Action W Error HttpResponse

abbrev is_unreserved : ℕ → Bool
is_unreserved b =
    (leb b'a' b && leb b b'z')
    || (leb b'A' b && leb b b'Z')
    || (leb b'0' b && leb b b'9')
    || (b == b'-')
    || (b == b'_')
    || (b == b'.')
    || (b == b'~')

abbrev hex_digit : ℕ → ℕ
hex_digit d = if ltb d 10 then b'0' + d else 55 + d

abbrev escape_byte : ℕ → Bytes
escape_byte b =
    if is_unreserved b
    then b ∷ []
    else if b == 32
    then b'+' ∷ []
    else b'%' ∷ hex_digit (b / 16) ∷ hex_digit (b % 16) ∷ []

-- `url.QueryEscape`
unfoldable pub query_escape : Bytes → Bytes
query_escape [] = []
query_escape (b ∷ s) = escape_byte b ++ query_escape s

-- `values.Encode()` for the two parameters of `ListARecords`, in the order of their keys.
abbrev pub list_query : Bytes → Bytes
list_query name = codes "name=" ++ (query_escape name ++ codes "&type=A")

abbrev pub records_url : CloudflareClient → Bytes → Bytes
records_url c zone_id = c.base_url ++ (codes "/zones/" ++ (zone_id ++ codes "/dns_records"))

abbrev pub to_dns_record : CfRecord → DnsRecord
to_dns_record r = record {
  id = r.id;
  name = r.name;
  content = r.content;
  ttl = r.ttl;
  record_type = r.record_type;
}

abbrev pub lift : {W A : Type 0} → Result Error A → Action W Error A
lift r w = (r, w)

abbrev pub http_request : Bytes → Bytes → List (Bytes × Bytes) → Bytes → HttpRequest
http_request method url headers body = record {
  method = method;
  url = url;
  headers = headers;
  body = body;
}

module _ {W : Type 0} (u : Unicode) (http : Http W) (json : CloudflareJson)
    (c : CloudflareClient) where
  abbrev pub authorized : HttpRequest → HttpRequest
  authorized r = record r {
    headers = (codes "Authorization", codes "Bearer " ++ c.api_token) ∷ r.headers;
  }

  abbrev pub check_status : HttpRequest → ℕ → Bytes → Result Error (Unit {0})
  check_status r status body =
      if leb 300 status
      then err (
          codes "cloudflare api "
          ++ (r.method ++ (codes " " ++ (r.url ++ (codes " failed: " ++ trim_space u body)))))
      else ok tt

  -- `do`, where `unmarshal` decodes into the caller's variable.
  unfoldable pub do_request :
      {T : Type 0} → (Bytes → Result Error T) → HttpRequest → Action W Error T
  unfolding trim_space
  do_request unmarshal r = do
    response ← http.exchange (authorized r)
    body ← lift (HttpResponse.body response)
    lift (check_status r (HttpResponse.status_code response) body)
    prefixed (codes "decode cloudflare response: ") (lift (unmarshal body))

  unfoldable pub list_a_records : Bytes → Bytes → Action W Error (List DnsRecord)
  unfolding do_request query_escape
  list_a_records zone_id name = do
    let url = records_url c zone_id ++ (codes "?" ++ list_query name)
    lift (http.check_url url)
    response ← do_request json.unmarshal_records (http_request (codes "GET") url [] [])
    pure (map to_dns_record (CfResponse.result response))

  unfoldable pub delete_record : Bytes → Bytes → Action W Error (Unit {0})
  unfolding do_request
  delete_record zone_id record_id = do
    let url = records_url c zone_id ++ (codes "/" ++ record_id)
    lift (http.check_url url)
    response ← do_request json.unmarshal_record (http_request (codes "DELETE") url [] [])
    pure tt

  unfoldable pub create_a_record : Bytes → Bytes → Bytes → ℤ → Action W Error (Unit {0})
  unfolding do_request
  create_a_record zone_id name content ttl = do
    body ← lift (json.marshal (new_record name content ttl))
    let url = records_url c zone_id
    lift (http.check_url url)
    response ← do_request json.unmarshal_record (
        http_request (codes "POST") url ((codes "Content-Type", codes "application/json") ∷ [])
          body)
    pure tt

  abbrev check_healthy : ℕ → Result Error (Unit {0})
  check_healthy status =
      if status == 200 then ok tt else err (codes "unexpected health status: " ++ itoa status)

  -- `Healthy` of the HTTP health checker.
  unfoldable pub http_healthy : Bytes → Action W Error (Unit {0})
  unfolding itoa
  http_healthy url = do
    lift (http.check_url url)
    response ← http.exchange (http_request (codes "GET") url [] [])
    lift (check_healthy (HttpResponse.status_code response))

  -- What the command dnsfailover gives the controller.
  abbrev pub environment : (W → ℕ) → Environment W
  environment now = record {
    healthy = http_healthy;
    now = now;
    list_a_records = list_a_records;
    delete_record = delete_record;
    create_a_record = create_a_record;
  }
