-- ===== src/Tests/Requests.antt =====
-- Requests that are parsed and responses that are sent.
use holyhttp.Prelude.{
  ℕ, ltb, IsText, Bool, ◌&&◌, zero, suc, ◌+◌, ◌-◌, ◌^◌, ◌<◌, ◌≤◌, ◌≡◌, refl, List, [], ◌∷◌, ◌++◌,
  none, some, true, false, Bytes, codes, arith, length, replicate, is_prefix, bytes_eq, All, ◌⊎◌,
  ◌↔◌,
}
use holyhttp.Text.Letters.{is_upper, is_lower, str2lower}
use holyhttp.Text.Tokens.{tokens, tokens_from, flush}
use holyhttp.Text.Trim.{trim, trim_left, trim_right, trim_right_loop}
use holyhttp.Text.Path.{str_append_fmt}
use holyhttp.Text.Search.{strnstr, memfind, memfind_loop}
use holyhttp.Text.Affix.{str_starts_with}
use holyhttp.Tlv.{c_str}
use holyhttp.Text.Decimal.{isdigit}
use holyhttp.Packet.{strstatus, text_of, get_method, refused, parsed}
use holyhttp.Packet.Scan.{is_space, scan_set, span, nonempty, literal}
use holyhttp.Packet.Line.{http_1_1, parse_request_line, parse_request_line_too_long, IsUrl}
use holyhttp.Packet.Query.{query_text}
use holyhttp.Packet.Url.{url_encode, is_safe}
use holyhttp.Packet.Fields.{
  crlf, crlf_twice, scan_field, atoi_u32, scan_all, scan_cookie, length_of, parse_headers,
  parse_cookies, type_of, stored,
}
use holyhttp.Packet.Headers.{IsField, fields_text, lower_names, parse_headers-fields_text}
use holyhttp.Packet.Names.{find_name_ends, IsLoose}
use holyhttp.Packet.Multipart.{
  find_name, search, name_key, read_part, parse_multipart, read_parts, part_end, store_bin,
  scan_name, isalnum,
}
use holyhttp.Packet.Parse.{new_req_pkt, all_rooms, get_text, new_req_pkt-get_text}
use holyhttp.Request.{
  Context, Response, response, sent_content, plain_response, head_pieces, show_3d, cookie_headers,
  cookie_text, age_headers, decimal, digit_char,
}
use holyhttp.Request.Fits.{head_text, response_overflow}
use holyhttp.Request.Chunks.{send_chunks, unchunk, send_chunks-unchunk}
use holyhttp.Request.Session.{Session, Steps}

-- A file name in front of the name: the search does not end.
abbrev file_part : Bytes
file_part = codes "x; filename=\"a\""

find_name_ends_example :
    (IsLoose file_part 0 (length file_part)
      × (find_name 3 file_part 0 (length file_part)
          ≡ some (search file_part 0 name_key (length file_part))))
    ⊎ (¬ IsLoose file_part 0 (length file_part)
        × ((rounds : ℕ) → find_name rounds file_part 0 (length file_part) ≡ none))
find_name_ends_example = find_name_ends file_part 0 (length file_part) 2

no_spaces : (n : ℕ) → All (λ c. is_space c ≡ false) (replicate n b'a')
unfolding is_space
no_spaces zero = tt
no_spaces (suc n) = (refl, no_spaces n)

abbrev long_url : Bytes
long_url = replicate 250 b'a'

parse_request_line_too_long_example :
    (parse_request_line (codes "GET" ++ b' ' ∷ (long_url ++ codes " HTTP/1.1")) ≡ refused 414)
    ⊎ (parse_request_line (codes "GET" ++ b' ' ∷ (long_url ++ codes " HTTP/1.1")) ≡ refused 400)
parse_request_line_too_long_example =
    parse_request_line_too_long get_method long_url (codes " HTTP/1.1") ((λ e. cc), no_spaces 250)
      (omega arith)

-- The fields of a request.
abbrev pub host : Bytes × Bytes
host = (codes "Host", codes "h")

abbrev cookie : Bytes × Bytes
cookie = (codes "Cookie", codes "a=b; c=d")

pub host-IsField : IsField host
host-IsField = (
  (λ e. cc),
  omega arith,
  ((refl, refl), ((refl, refl), ((refl, refl), ((refl, refl), tt)))),
  (λ e. cc),
  omega arith,
  (refl, tt),
  (λ e. cc),
)

parse_headers-fields_text_example :
    parse_headers true get_method (codes "GET" ++ fields_text (host ∷ []) (crlf_twice ++ codes "x"))
    ≡ parsed (record {
      fields = lower_names (host ∷ []);
      content_length = length_of get_method (lower_names (host ∷ []));
      content_type = type_of (lower_names (host ∷ []));
      content = codes "x";
    })
parse_headers-fields_text_example =
    parse_headers-fields_text get_method (codes "GET") host [] (codes "x")
      (refl, (refl, (refl, tt))) (host-IsField, tt)

-- `GET /a?b=c HTTP/1.1` with a field.
abbrev pub an_arg : List (Bytes × Bytes)
an_arg = (codes "b", codes "c") ∷ []

abbrev pub get_request : Bytes
get_request = codes "GET /a?b=c HTTP/1.1" ++ (13 ∷ 10 ∷ (codes "Host: h" ++ crlf_twice))

pub get_request_text : get_text (codes "/a") an_arg http_1_1 (host ∷ []) ≡ get_request
unfolding get_text query_text url_encode is_safe is_upper is_lower isdigit fields_text
get_request_text = refl

pub sample_text : query_text an_arg ≡ codes "b=c"
unfolding query_text url_encode is_safe is_upper is_lower isdigit
sample_text = refl

pub sample-IsUrl : IsUrl (codes "/a" ++ b'?' ∷ query_text an_arg)
unfolding is_space
sample-IsUrl = rw sample_text ((λ e. cc), (refl, (refl, (refl, (refl, (refl, (refl, tt)))))))

unfoldable pub all_text : Bytes → Bool
all_text [] = true
all_text (c ∷ s) = ltb 0 c && ltb c 256 && all_text s

pub all_text-IsText : (s : Bytes) → all_text s ≡ true → IsText s
unfolding all_text
all_text-IsText [] h = tt
all_text-IsText (c ∷ s) h = (ground arith, all_text-IsText s (ground arith))

pub is_text : all_text get_request ≡ true
unfolding all_text
is_text = refl

new_req_pkt-get_text_example :
    new_req_pkt 1 1 0 all_rooms (some (get_text (codes "/a") an_arg http_1_1 (host ∷ [])))
    ≡ some (
        parsed (record {
          line = record {
            method = get_method;
            url = codes "/a" ++ b'?' ∷ query_text an_arg;
            version = http_1_1;
          };
          uri = codes "/a";
          args = an_arg;
          cookies = parse_cookies true (lower_names (host ∷ []));
          headers = record {
            fields = lower_names (host ∷ []);
            content_length = 0;
            content_type = type_of (lower_names (host ∷ []));
            content = [];
          };
        }))
unfolding all_text
new_req_pkt-get_text_example =
    new_req_pkt-get_text 1 1 0 (codes "/a") an_arg http_1_1 host [] sample-IsUrl
      (rw sample_text (omega arith)) (refl, (refl, tt))
      ((all_text-IsText (codes "b") refl, all_text-IsText (codes "c") refl), tt) (host-IsField, tt)
      (rw get_request_text (all_text-IsText get_request is_text))

-- A page for a client.
abbrev page : Response
page = record (plain_response 200) { content = some (codes "hello") }

abbrev pub ctx : Context
ctx = record {
  method = get_method;
  cookies = [];
  start_time = codes "t";
  now = 5;
  gmt = λ n. codes "t";
}

small_head : ltb (length (head_text ctx page)) 1024 ≡ true
unfolding head_text head_pieces show_3d strstatus text_of cookie_headers age_headers sent_content
    decimal digit_char
small_head = refl

page_room : length (sent_content ctx page) < 2 ^ 32 - 1025
unfolding sent_content
page_room = omega arith

response_overflow_example :
    (text : Bytes) × (response true ctx false false page ≡ some (text, false))
    × ((length text ≤ 1024 + length (sent_content ctx page) + 1)
        ↔ ((length (head_text ctx page) ≤ 1025) ⊎ (length (sent_content ctx page) ≤ 2)))
response_overflow_example = response_overflow ctx false page page_room

send_chunks-unchunk_example :
    (text : Bytes) × (send_chunks ctx page true ((codes "ab" ∷ codes "c" ∷ []) ++ [] ∷ [])
      ≡ some (text, false))
    × (unchunk 3 text ≡ some (codes "abc"))
send_chunks-unchunk_example =
    send_chunks-unchunk ctx page (codes "ab" ∷ codes "c" ∷ []) refl
      ((omega arith, omega arith), ((omega arith, omega arith), tt))

-- A session that was last used at 7.
abbrev session : Session
session = record { entries = some []; last_req = 7; timeout = 3600; refer = 0 }

-- Every step but the cookie succeeds.
abbrev no_cookie : Steps
no_cookie = record { looked = true; dict = true; stored = true; reread = true; cookie = false }

no_blank : scan_field (codes "Host:h") ≡ none
unfolding scan_field scan_set span nonempty literal
no_blank = refl

cookies :
    parse_cookies true (lower_names (cookie ∷ []))
    ≡ (codes "a", codes "b") ∷ (codes "c", codes "d") ∷ []
unfolding parse_cookies stored lower_names str2lower is_upper bytes_eq scan_all scan_cookie scan_set
    span nonempty literal tokens tokens_from flush trim trim_left trim_right trim_right_loop
cookies = refl

-- A multipart content with two parts, the second of them with no data.
abbrev two_parts : Bytes
two_parts =
    codes "--X"
    ++ (crlf
        ++ (codes "c: d; name=\"a\""
            ++ (crlf_twice
                ++ (codes "1"
                    ++ (crlf
                        ++ (codes "--X"
                            ++ (crlf
                                ++ (codes "c: d; name=\"b\""
                                    ++ (crlf_twice ++ (crlf ++ (codes "--X--" ++ crlf)))))))))))

one_argument :
    parse_multipart 3 1 two_parts 0 (length two_parts) (codes "X")
    ≡ some (parsed ((codes "a", codes "1") ∷ []))
unfolding parse_multipart read_parts read_part part_end store_bin find_name scan_name search isalnum
    is_upper is_lower isdigit strnstr memfind memfind_loop is_prefix str_starts_with scan_set span
    nonempty literal c_str bytes_eq
one_argument = refl

-- A cookie without an age, and one with an age.
no_age : cookie_text (codes "v") none ≡ codes "v; HttpOnly; Path=/;"
unfolding cookie_text str_append_fmt
no_age = refl

an_age : cookie_text (codes "v") (some 60) ≡ codes "v; HttpOnly; Path=/; Max-Age=60;"
unfolding cookie_text str_append_fmt decimal digit_char
an_age = refl

-- A length that does not fit in 32 bits is cut.
cut_length : atoi_u32 (codes " 4294967297") ≡ 1
unfolding atoi_u32 isdigit is_space
cut_length = refl

capitals : str2lower (codes "AGENT") ≡ str2lower (codes "Agent")
unfolding str2lower is_upper
capitals = refl
