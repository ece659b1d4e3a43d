-- ===== src/Http/Tests.antt =====
-- A response that arrives in two reads.
use df.Prelude.{flat, take, drop, bytes_eq, if◌then◌else◌, true, ℕ, ◌≡◌, refl, arith, List, [], ◌∷◌}
use df.Io.{ok}
use df.Conf.{Strconv, codes}
use df.Http.{Names, read_response}
use df.Http.Chunks.{chunks_joined}
use df.Http.Whole.{with_crlf}
use df.SyncMap.{store}
use df.Http.Header.{Uri, Letters, Header, write_to, peek_header}
use df.Http.Arrives.{request_arrives}
use df.H1.Reply.{response_bytes, header_lines}

abbrev sample_names : Names
sample_names = record {
  trim_space = λ s. if bytes_eq (take 1 s) (32 ∷ []) then drop 1 s else s;
  canonical = λ s. s;
}

abbrev sample_atoi : Strconv
sample_atoi = record {
  atoi = λ s. ok (if bytes_eq s (codes "101") then 101 else 200);
  parse_int = λ s. ok 0;
  format_int = λ n. [];
}

abbrev sample_response : List ℕ
sample_response = response_bytes true (codes "HTTP/1.1") (codes "a") [] (codes "key")

-- The response in two reads.
abbrev sample_conn : List (List ℕ)
sample_conn = take 20 sample_response ∷ drop 20 sample_response ∷ []

chunks_joined_example :
    (read_response sample_atoi sample_names sample_conn).0
    ≡ (read_response sample_atoi sample_names (flat sample_conn ∷ [])).0
chunks_joined_example =
    chunks_joined sample_atoi sample_names sample_conn
      (unfold response_bytes header_lines with_crlf in omega arith)

abbrev sample_uri : Uri
sample_uri = record { request_uri = codes "/api/cv2?c=a"; host = [] }

abbrev sample_letters : Letters
sample_letters = record {
  to_upper = λ s. s;
  equal_fold = λ x y. bytes_eq x y;
  canonical = λ s. s;
  parse_request_uri = λ s. ok (record { request_uri = s; host = [] });
}

abbrev sample_header : Header
sample_header = record {
  method = codes "POST";
  proto = codes "HTTP/1.1";
  host = [];
  url = record sample_uri { host = codes "df" };
  values = (codes "Authentication", codes "QUI=") ∷ [];
}

abbrev sample_request : List ℕ
sample_request = write_to sample_letters sample_header

abbrev sample_reads : List (List ℕ)
sample_reads = take 30 sample_request ∷ drop 30 sample_request ∷ []

request_arrives_example :
    peek_header sample_letters sample_reads [] 4096
    ≡ ok (record {
      method = codes "POST";
      proto = codes "HTTP/1.1";
      host = [];
      url = sample_uri;
      values = (codes "Authentication", codes "QUI=") ∷ (codes "Host", codes "df") ∷ [];
    })
unfolding store
request_arrives_example =
    request_arrives sample_letters sample_header sample_uri [] sample_reads
      (record {
        method_ok = refl;
        method_plain = refl;
        uri_ok = refl;
        uri_plain = refl;
        proto_plain = refl;
        fields_ok = ((refl, refl, refl, refl), ((refl, refl, refl, refl), tt));
        parses = refl;
      })
      (unfold write_to with_crlf in refl)
      (unfold write_to with_crlf in (omega arith, (omega arith, tt)))
      (unfold write_to with_crlf in omega arith)
