-- ===== src/Request.antt =====
-- server/request.c: what a handler sends through its request. Formatted texts are built piece by
-- piece, as `snprintf` builds them.
pub mod Fits
pub mod Chunks
pub mod Session
pub mod Handler
pub mod Life
pub mod Render
use holyhttp.Prelude.{
  ℕ, zero, suc, ◌+◌, ◌-◌, ◌*◌, ◌/◌, ◌%◌, ◌^◌, ◌≤◌, ◌<◌, ◌≡◌, refl, List, [], ◌∷◌, ◌++◌, Option,
  none, some, if◌then◌else◌, ltb, ◌==◌, ◌&&◌, ◌||◌, not, Bool, true, false, Bytes, codes, length,
  replicate,
}
use holyhttp.Text.Path.{str_append_fmt}
use holyhttp.Packet.{Method, head_method, get_method, post_method, strstatus}

-- A decimal digit, or a hexadecimal one in lower case.
unfoldable pub digit_char : ℕ → ℕ
digit_char d = if ltb d 10 then b'0' + d else b'a' + (d - 10)

-- `%u` and `%d` of a number that is not negative, of at most `fuel` digits.
unfoldable pub decimal : ℕ → ℕ → Bytes
decimal zero n = []
decimal (suc fuel) n =
    let front = decimal fuel (n / 10) in
    if ltb n 10 then digit_char n ∷ [] else front ++ digit_char (n % 10) ∷ []

-- `%x`.
unfoldable pub hexadecimal : ℕ → ℕ → Bytes
hexadecimal zero n = []
hexadecimal (suc fuel) n =
    let front = hexadecimal fuel (n / 16) in
    if ltb n 16 then digit_char n ∷ [] else front ++ digit_char (n % 16) ∷ []

-- `%u` and `%x` of 32 bits.
abbrev pub show_u32 : ℕ → Bytes
show_u32 n = decimal 10 n

abbrev pub show_hex : ℕ → Bytes
show_hex n = hexadecimal 8 n

-- `%3d`.
unfoldable pub show_3d : ℕ → Bytes
show_3d n = replicate (3 - length (show_u32 n)) b' ' ++ show_u32 n

abbrev pub crlf : Bytes
crlf = 13 ∷ 10 ∷ []

-- `name` and `value` with a line end.
abbrev pub header : Bytes → Bytes → Bytes
header name value = name ++ (value ++ crlf)

-- One more `STR_APPEND` for each piece.
unfoldable pub append_all : ℕ → Bytes → List Bytes → Bytes
append_all size buf [] = buf
append_all size buf (s ∷ pieces) = append_all size (str_append_fmt size buf s) pieces

-- `cookies_to_str`.
unfoldable pub cookie_headers : List (Bytes × Bytes) → List Bytes
cookie_headers [] = []
cookie_headers (c ∷ cs) = header (codes "Set-Cookie: ") (c.0 ++ b'=' ∷ c.1) ∷ cookie_headers cs

-- The arguments of `response`, and what it reads from the request, the server and the clock; an age
-- is not negative. `gmt` is the text of a time.
pub record Response : Type 0 where
  pub code : ℕ
  pub content : Option Bytes
  pub type : Option Bytes
  pub age : ℕ
  pub location : Option Bytes
  pub encoding : Option Bytes
  pub filename : Option Bytes

pub record Context : Type 0 where
  pub method : Method
  pub cookies : List (Bytes × Bytes)
  pub start_time : Bytes
  pub now : ℕ
  pub gmt : ℕ → Bytes

abbrev pub max_header_len : ℕ
max_header_len = 1024

-- A header that is sent where there is a value for it.
abbrev pub optional : Bytes → Option Bytes → Bytes → List Bytes
optional name none tail = []
optional name (some value) tail = (name ++ (value ++ tail)) ∷ []

-- `if (age || code == NOT_MODIFIED)`.
unfoldable pub age_headers : Context → Response → List Bytes
age_headers ctx r =
    if not (r.age == 0) || r.code == 304
    then (if r.code == 301
        then header (codes "Last-Modified: ") (ctx.gmt ctx.now)
        else header (codes "Last-Modified: ") ctx.start_time)
      ∷ header (codes "Expires: ") (ctx.gmt (ctx.now + r.age))
      ∷ []
    else []

abbrev pub allow_header : Response → List Bytes
allow_header r = if r.code == 405 then header (codes "Allow: ") (codes "HEAD,GET,POST") ∷ [] else []

-- The texts that are appended in front of the length, in their order.
unfoldable pub head_pieces : Context → Response → List Bytes
head_pieces ctx r =
    (codes "HTTP/1.1 " ++ (show_3d r.code ++ b' ' ∷ (strstatus r.code ++ crlf)))
    ∷ (header (codes "Server: HolyHttp/0.1") [] ++ header (codes "Connection: keep-alive") [])
    ∷ (cookie_headers ctx.cookies
        ++ (header (codes "Date: ") (ctx.gmt ctx.now)
            ∷ header (codes "Cache-Control: max-age=") (show_u32 r.age)
            ∷ (age_headers ctx r
                ++ (allow_header r
                    ++ (optional (codes "Content-Type: ") r.type (codes "; charset=utf-8" ++ crlf)
                        ++ (optional (codes "Location: ") r.location crlf
                            ++ (optional (codes "Content-Encoding: ") r.encoding crlf
                                ++ optional (codes "Content-Disposition: attachment; filename=\"")
                                    r.filename (b'"' ∷ crlf))))))))

abbrev pub is_head : Method → Bool
is_head head_method = true
is_head get_method = false
is_head post_method = false

abbrev pub bytes_of : Option Bytes → Bytes
bytes_of none = []
bytes_of (some content) = content

-- The content up to `len`: nothing is sent behind the header of a HEAD request.
unfoldable pub sent_content : Context → Response → Bytes
sent_content ctx r = if is_head ctx.method then [] else bytes_of r.content

-- The text in front of the content, and the flag `chunked` of the request behind it.
unfoldable pub response_head : Context → Bool → Bool → Response → Bytes × Bool
response_head ctx opened chunked r =
    let len = length (sent_content ctx r) in
    let size = (max_header_len + len) % 2 ^ 32 in
    let head = append_all size [] (head_pieces ctx r) in
    if chunked
    then if opened then (str_append_fmt size [] (show_hex len ++ crlf), not (len == 0)) else (
      str_append_fmt size head
          (header (codes "Transfer-Encoding: chunked") crlf ++ (show_hex len ++ crlf)),
      true,
    )
    else (
      str_append_fmt size head (header (codes "Content-Length: ") (show_u32 len ++ crlf)),
      opened,
    )

-- `chunked` is the argument, `opened` the flag of the request. What is handed to `write`; the buffer of `MAX_HEADER_LEN + len + 1` bytes may be too short for it.
unfoldable pub response : Bool → Context → Bool → Bool → Response → Option (Bytes × Bool)
response alloc ctx opened chunked r =
    let content = sent_content ctx r in
    let head = response_head ctx opened chunked r in
    let tail : Bytes = if chunked then crlf else [] in
    if alloc then some (head.0 ++ (content ++ tail), head.1) else none

abbrev pub plain_response : ℕ → Response
plain_response code = record {
  code = code;
  content = none;
  type = none;
  age = 0;
  location = none;
  encoding = none;
  filename = none;
}

-- `redirect`, `redirect_top` and `redirect_forever`.
unfoldable pub redirect : Bool → Context → Bool → Option Bytes → Option (Bytes × Bool)
redirect alloc ctx opened none = none
redirect alloc ctx opened (some location) =
    response alloc ctx opened false (record (plain_response 302) { location = some location })

unfoldable pub redirect_top : Bool → Context → Bool → Option Bytes → Option (Bytes × Bool)
redirect_top alloc ctx opened none = none
redirect_top alloc ctx opened (some location) =
    let script = codes "<script>top.location.href='" ++ (location ++ codes "';</script>") in
    response alloc ctx opened false (record (plain_response 200) {
      content = some (str_append_fmt 500 [] script);
      type = some (codes "text/html");
    })

abbrev pub secperyear : ℕ
secperyear = 3600 * 24 * 366

unfoldable pub redirect_forever : Bool → Context → Bool → Option Bytes → Option (Bytes × Bool)
redirect_forever alloc ctx opened none = none
redirect_forever alloc ctx opened (some location) =
    response alloc ctx opened false
      (record (plain_response 301) { age = secperyear; location = some location })

-- The text that `set_cookie` stores; a cookie of a negative age, here `none`, has no `Max-Age`.
unfoldable pub cookie_text : Bytes → Option ℕ → Bytes
cookie_text value age =
    let cookie = str_append_fmt 251 [] (value ++ codes "; HttpOnly; Path=/;") in
    elim age [
      | none ↦ cookie
      | some a ↦ str_append_fmt 251 cookie (codes " Max-Age=" ++ (show_u32 a ++ codes ";"))
    ]
