-- ===== src/Runs/HttpService.antt =====
-- A DNS service for the runs, over HTTP: it keeps one address for a name, by the query that asks for it,
-- and refuses to add a second one.
use sidero_proxy.Base.{
  true, Option, none, some, List, [], ◌∷◌, ◌++◌, length, take, drop, if◌then◌else◌, Result, ok,
  Bytes, codes, bytes_eq, strip_prefix,
}
use sidero_proxy.Base.Dict.{Dict, lookup, insert, delete}
use sidero_proxy.Base.Members.{has_key}
use sidero_proxy.Base.Integers.{pos}
use sidero_proxy.Failover.{Error, DnsRecord}
use sidero_proxy.Failover.Cloudflare.{
  CloudflareClient, CfRecord, CloudflareJson, HttpRequest, HttpResponse, Http, list_query,
  records_url, to_dns_record,
}

abbrev pub client : CloudflareClient
client = record { api_token = codes "t"; base_url = codes "https://api" }

abbrev pub record_at : Bytes → Bytes → CfRecord
record_at key content = record {
  id = key;
  record_type = codes "A";
  name = key;
  content = content;
  ttl = pos 60;
}

-- The text of a key and a content, and the record that it stands for.
abbrev pub encode : Bytes → Bytes → Bytes
encode key content = length key ∷ (key ++ content)

abbrev pub decode : Bytes → List CfRecord
decode [] = []
decode (n ∷ s) = record_at (take n s) (drop n s) ∷ []

abbrev pub encode_found : Bytes → Option Bytes → Bytes
encode_found key none = []
encode_found key (some content) = encode key content

abbrev pub text_json : CloudflareJson
text_json = record {
  unmarshal_records = λ s. ok (record { success = true; result = decode s });
  unmarshal_record = λ s. ok (record { success = true; result = record_at [] [] });
  marshal = λ r. ok (encode (list_query r.name) r.content);
}

-- Only the primary region is down.
abbrev pub health_of : Bytes → HttpResponse
health_of url = record {
  status_code = if bytes_eq url (codes "eu/health") then 503 else 200;
  body = ok [];
}

abbrev pub get_answer : Bytes → Dict Bytes → Option Bytes → HttpResponse
get_answer url w none = health_of url
get_answer url w (some key) = record {
  status_code = 200;
  body = ok (encode_found key (lookup key w));
}

abbrev pub done : HttpResponse
done = record { status_code = 200; body = ok [] }

abbrev pub refused : HttpResponse
refused = record { status_code = 409; body = ok [] }

abbrev pub delete_at : Option Bytes → Dict Bytes → Result Error HttpResponse × Dict Bytes
delete_at none w = (ok refused, w)
delete_at (some id) w = (ok done, delete id w)

abbrev pub add_record : List CfRecord → Dict Bytes → Result Error HttpResponse × Dict Bytes
add_record [] w = (ok refused, w)
add_record (r ∷ rs) w =
    if has_key r.id w then (ok refused, w) else (ok done, insert r.id r.content w)

unfoldable pub exchange : HttpRequest → Dict Bytes → Result Error HttpResponse × Dict Bytes
unfolding bytes_eq strip_prefix
exchange r w =
    if bytes_eq r.method (codes "GET")
    then (
      ok (get_answer r.url w (strip_prefix (records_url client (codes "z") ++ codes "?") r.url)),
      w,
    )
    else if bytes_eq r.method (codes "DELETE")
    then delete_at (strip_prefix (records_url client (codes "z") ++ codes "/") r.url) w
    else add_record (decode r.body) w

abbrev pub http : Http (Dict Bytes)
http = record { check_url = λ url. ok tt; exchange = exchange }

abbrev pub found_records : Bytes → Option Bytes → List DnsRecord
found_records key none = []
found_records key (some content) = to_dns_record (record_at key content) ∷ []

abbrev pub records_of : Dict Bytes → Bytes → List DnsRecord
records_of w name = found_records (list_query name) (lookup (list_query name) w)
