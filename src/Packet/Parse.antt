-- ===== src/Packet/Parse.antt =====
-- A whole request: `parse_content` and `holy_new_req_pkt` of server/packet.c. The copy of the content
-- at the end of the packet is left out.
use holyhttp.Prelude.{
  ℕ, ◌-◌, ◌<◌, ◌≡◌, refl, ◌≢◌, List, [], ◌∷◌, ◌++◌, Option, none, some, if◌then◌else◌, ◌==◌, ◌&&◌,
  ◌||◌, not, Bool, true, false, Bytes, codes, length, bytes_eq, All, All-append, IsText, ap, ◌∙◌,
  arith, append-nil, append_assoc,
}
use holyhttp.Text.Letters.{str2lower}
use holyhttp.Tlv.{c_str}
use holyhttp.Packet.{
  Method, head_method, get_method, post_method, Parsed, refused, parsed, query_pairs,
}
use holyhttp.Packet.Scan.{is_space, literal, scan_set}
use holyhttp.Packet.Line.{
  Version, http_1_0, http_1_1, http_2_0, RequestLine, parse_request_line, version_name, line_text,
  IsUrl, parse_request_line-line_text,
}
use holyhttp.Packet.Fields.{
  strstr, is_line_end, crlf_twice, Headers, parse_headers, parse_cookies, type_of, length_of,
}
use holyhttp.Packet.Headers.{
  IsField, field_text, fields_text, lower_names, parse_headers-fields_text,
}
use holyhttp.Packet.Multipart.{parse_multipart}
use holyhttp.Packet.Query.{query_text, query_pairs-query_text, c_str_text}

-- `strcasecmp (a, b) == 0`.
unfoldable pub same_word : Bytes → Bytes → Bool
same_word a b = bytes_eq (str2lower a) (str2lower b)

-- `sscanf (tmp, "boundary=%100[^;\r\n]", boundary)` behind the `strstr` for it.
unfoldable pub scan_boundary : Bytes → Option Bytes
scan_boundary param = elim (strstr param (codes "boundary=")) [
  | none ↦ none
  | some tmp ↦ elim (literal (codes "boundary=") tmp) [
    | none ↦ none
    | some r ↦ elim (scan_set 100 (λ c. not (c == b';' || is_line_end c)) r) [
      | none ↦ none
      | some (boundary, rest) ↦ some boundary
    ]
  ]
]

-- Without a boundary the content is a query.
unfoldable pub form_args : ℕ → ℕ → Bytes → ℕ → Headers → Option (Parsed (List (Bytes × Bytes)))
form_args fuel inner text at headers = elim (scan_boundary headers.content_type.param) [
  | none ↦ some (parsed (query_pairs headers.content))
  | some boundary ↦ parse_multipart fuel inner text at headers.content_length boundary
]

-- The arguments in the content, which begins at a position of the data. `none` is fuel that ran out.
unfoldable pub parse_content :
    ℕ → ℕ → Bytes → ℕ → Method → Headers → Option (Parsed (List (Bytes × Bytes)))
parse_content fuel inner text at head_method headers = some (parsed [])
parse_content fuel inner text at get_method headers = some (parsed [])
parse_content fuel inner text at post_method headers =
    let kind = headers.content_type.kind in
    let subtype = headers.content_type.subtype in
    let parts = form_args fuel inner text at headers in
    if same_word kind (codes "application") && same_word subtype (codes "x-www-form-urlencoded")
    then some (parsed (query_pairs headers.content))
    else if not (same_word kind (codes "multipart")) || not (same_word subtype (codes "form-data"))
    then some (parsed [])
    else parts

-- `strchr (url, '?')`: the path, and the query where there is one.
unfoldable pub split_query : Bytes → Bytes × Option Bytes
split_query [] = ([], none)
split_query (c ∷ s) =
    let rest = split_query s in if c == b'?' then ([], some s) else (c ∷ rest.0, rest.1)

unfoldable pub url_args : Option Bytes → List (Bytes × Bytes)
url_args none = []
url_args (some query) = query_pairs query

-- Which allocations succeed.
pub record Rooms : Type 0 where
  pub dicts : Bool
  pub query : Bool
  pub header : Bool
  pub cookies : Bool
  pub packet : Bool

-- `req_pkt_t`.
pub record Packet : Type 0 where
  pub line : RequestLine
  pub uri : Bytes
  pub args : List (Bytes × Bytes)
  pub cookies : List (Bytes × Bytes)
  pub headers : Headers

-- From the content on.
unfoldable pub parse_rest : ℕ → ℕ → Rooms → Bytes → RequestLine → Headers → Option (Parsed Packet)
parse_rest fuel inner rooms text line headers =
    let at = length (c_str text) - length headers.content in
    let url = split_query line.url in
    elim (parse_content fuel inner text at line.method headers) [
      | none ↦ none
      | some (refused status) ↦ some (refused status)
      | some (parsed args) ↦
          if rooms.packet
          then some (
              parsed (record {
                line = line;
                uri = url.0;
                args = url_args url.1 ++ args;
                cookies = parse_cookies rooms.cookies headers.fields;
                headers = headers;
              }))
          else some (refused 507)
    ]

abbrev has_query : Option Bytes → Bool
has_query none = false
has_query (some query) = true

-- `status` is what `*status` holds before: the copy of the query that fails does not set it.
unfoldable pub new_req_pkt : ℕ → ℕ → ℕ → Rooms → Option Bytes → Option (Parsed Packet)
new_req_pkt fuel inner status rooms none = some (refused 400)
new_req_pkt fuel inner status rooms (some []) = some (refused 400)
new_req_pkt fuel inner status rooms (some (c ∷ s)) =
    if not rooms.dicts then some (refused 507) else elim (parse_request_line (c_str (c ∷ s))) [
      | refused code ↦ some (refused code)
      | parsed line ↦
          if has_query (split_query line.url).1 && not rooms.query
          then some (refused status)
          else elim (parse_headers rooms.header line.method (c_str (c ∷ s))) [
            | refused code ↦ some (refused code)
            | parsed headers ↦ parse_rest fuel inner rooms (c ∷ s) line headers
          ]
    ]

-- The head of a GET request without content.
abbrev pub get_line : Bytes → Version → Bytes
get_line url v = codes "GET " ++ (url ++ b' ' ∷ (codes "HTTP/" ++ version_name v))

unfoldable pub get_text : Bytes → List (Bytes × Bytes) → Version → List (Bytes × Bytes) → Bytes
get_text path args v fields =
    get_line (path ++ b'?' ∷ query_text args) v ++ fields_text fields crlf_twice

split_query-text :
    (path query : Bytes)
    → All (λ c. (c == b'?') ≡ false) path
    → split_query (path ++ b'?' ∷ query) ≡ (path, some query)
unfolding split_query
split_query-text [] query h = refl
split_query-text (c ∷ path) query h = rw (h.0, split_query-text path query h.1) refl

get_line-line_text :
    (url : Bytes) (v : Version) (p : Bytes × Bytes) (ps : List (Bytes × Bytes)) (rest : Bytes)
    → get_line url v ++ fields_text (p ∷ ps) rest
      ≡ line_text (codes "GET") url (version_name v) (field_text p ++ fields_text ps rest)
unfolding fields_text
get_line-line_text url v p ps rest =
    ap (λ s. codes "GET " ++ s)
      (append_assoc url (b' ' ∷ (codes "HTTP/" ++ version_name v)) (fields_text (p ∷ ps) rest))

not_line_end : (s : Bytes) → All (λ c. is_space c ≡ false) s → All (λ c. is_line_end c ≡ false) s
unfolding is_space
not_line_end [] h = tt
not_line_end (c ∷ s) h = (ground (arith, h.0), not_line_end s h.1)

version_chars : (v : Version) → All (λ c. is_line_end c ≡ false) (version_name v)
version_chars http_1_0 = (refl, (refl, (refl, tt)))
version_chars http_1_1 = (refl, (refl, (refl, tt)))
version_chars http_2_0 = (refl, (refl, (refl, tt)))

get_line_chars :
    (url : Bytes) (v : Version) → IsUrl url → All (λ c. is_line_end c ≡ false) (get_line url v)
get_line_chars url v h =
    let p : ℕ → Type 0 = λ c. is_line_end c ≡ false in
    (
      refl,
      (
        refl,
        (
          refl,
          (
            refl,
            All-append p url (b' ' ∷ (codes "HTTP/" ++ version_name v)) (not_line_end url h.1)
                (refl, (refl, (refl, (refl, (refl, (refl, version_chars v)))))),
          ),
        ),
      ),
    )

-- All allocations succeed.
abbrev pub all_rooms : Rooms
all_rooms = record { dicts = true; query = true; header = true; cookies = true; packet = true }

and_false : (b : Bool) → (b && false) ≡ false
and_false true = refl
and_false false = refl

-- Where the parts parse, the packet is put together.
new_req_pkt_parts :
    (fuel inner status : ℕ) (text : Bytes) (line : RequestLine) (headers : Headers)
    → text ≢ []
    → c_str text ≡ text
    → parse_request_line text ≡ parsed line
    → parse_headers true line.method text ≡ parsed headers
    → new_req_pkt fuel inner status all_rooms (some text)
      ≡ parse_rest fuel inner all_rooms text line headers
unfolding new_req_pkt
new_req_pkt_parts fuel inner status [] line headers n e f g = absurd (n refl)
new_req_pkt_parts fuel inner status (c ∷ s) line headers n e f g =
    rw (e, f, and_false (has_query (split_query line.url).1), e, g, new_req_pkt) refl

-- A GET request that is written out with a path, query arguments, a version and one or more header
-- fields is parsed to just these: the path, the arguments in order, the version, the fields with
-- their names in lower case and the cookies of these fields. The URL is shorter than 250 characters
-- and holds no white space, the path has no question mark, the text has no NUL, every field has a name
-- of 1 to 50 characters without a colon and a value of 1 to 250 characters that does not begin with a
-- blank, neither has a line end, and every allocation succeeds.
pub new_req_pkt-get_text :
    (fuel inner status : ℕ) (path : Bytes) (args : List (Bytes × Bytes)) (v : Version)
    (p : Bytes × Bytes) (ps : List (Bytes × Bytes))
    → IsUrl (path ++ b'?' ∷ query_text args)
    → length (path ++ b'?' ∷ query_text args) < 250
    → All (λ c. (c == b'?') ≡ false) path
    → All (λ (a : Bytes × Bytes). IsText a.0 × IsText a.1) args
    → All IsField (p ∷ ps)
    → IsText (get_text path args v (p ∷ ps))
    → new_req_pkt fuel inner status all_rooms (some (get_text path args v (p ∷ ps)))
      ≡ some (
          parsed (record {
            line = record {
              method = get_method;
              url = path ++ b'?' ∷ query_text args;
              version = v;
            };
            uri = path;
            args = args;
            cookies = parse_cookies true (lower_names (p ∷ ps));
            headers = record {
              fields = lower_names (p ∷ ps);
              content_length = 0;
              content_type = type_of (lower_names (p ∷ ps));
              content = [];
            };
          }))
unfolding get_text parse_rest url_args length_of parse_content
new_req_pkt-get_text fuel inner status path args v p ps u l q a k t =
    let url = path ++ b'?' ∷ query_text args in
    let text = get_text path args v (p ∷ ps) in
    let line : RequestLine = record { method = get_method; url = url; version = v } in
    let same = get_line-line_text url v p ps crlf_twice in
    let parsed_line : parse_request_line text ≡ parsed line =
      ap parse_request_line same
      ∙ parse_request_line-line_text get_method url v (field_text p ++ fields_text ps crlf_twice) u
          l in
    let parsed_headers =
      parse_headers-fields_text get_method (get_line url v) p ps [] (get_line_chars url v u) k in
    new_req_pkt_parts fuel inner status text line _ (λ e. cc) (c_str_text text t) parsed_line
      parsed_headers
    ∙ rw (split_query-text path (query_text args) q, query_pairs-query_text args a, append-nil args)
        refl
