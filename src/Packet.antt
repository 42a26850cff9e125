-- ===== src/Packet.antt =====
-- server/packet.c: the texts of status codes, the decoding of URLs, methods and query pairs. The
-- children have the parsers.
pub mod Scan
pub mod Line
pub mod Fields
pub mod Headers
pub mod Url
pub mod Query
pub mod Multipart
pub mod Names
pub mod Parse
use holyhttp.Prelude.{
  ℕ, ◌+◌, ◌-◌, ◌*◌, ◌/◌, ◌%◌, ◌≡◌, List, [], ◌∷◌, Option, none, some, if◌then◌else◌, leb, ◌==◌,
  ◌&&◌, Bool, true, false, Bytes, codes, bytes_eq,
}
use Prim.Native.Nat.{bit_or}
use holyhttp.Text.Tokens.{tokens, char_is}
use holyhttp.Tlv.{c_str}

-- The texts of the status codes, by the numbers of `status_code_t`.
abbrev pub status_texts : List (ℕ × Bytes)
status_texts =
    (100, codes "Continue")
    ∷ (101, codes "Switching Protocols")
    ∷ (102, codes "Processing")
    ∷ (200, codes "OK")
    ∷ (201, codes "Created")
    ∷ (202, codes "Accepted")
    ∷ (203, codes "Non-Authoritative Information")
    ∷ (204, codes "No Content")
    ∷ (205, codes "Reset Content")
    ∷ (206, codes "Partial Content")
    ∷ (207, codes "Multi-Status")
    ∷ (300, codes "Multiple Choices")
    ∷ (301, codes "Moved Permanently")
    ∷ (302, codes "Move temporarily")
    ∷ (303, codes "See Other")
    ∷ (304, codes "Not Modified")
    ∷ (305, codes "Use Proxy")
    ∷ (306, codes "Switch Proxy")
    ∷ (307, codes "Temporary Redirect")
    ∷ (400, codes "Bad Request")
    ∷ (401, codes "Unauthorized")
    ∷ (402, codes "Payment Required")
    ∷ (403, codes "Forbidden")
    ∷ (404, codes "Not Found")
    ∷ (405, codes "Method Not Allowed")
    ∷ (406, codes "Not Acceptable")
    ∷ (407, codes "Proxy Authentication Required")
    ∷ (408, codes "Request Timeout")
    ∷ (409, codes "Conflict")
    ∷ (410, codes "Gone")
    ∷ (411, codes "Length Required")
    ∷ (412, codes "Precondition Failed")
    ∷ (413, codes "Request Entity Too Large")
    ∷ (414, codes "Request-URI Too Long")
    ∷ (415, codes "Unsupported Media Type")
    ∷ (416, codes "Requested Range Not Satisfiable")
    ∷ (417, codes "Expectation Failed")
    ∷ (421, codes "There are too many connections from your internet address")
    ∷ (422, codes "Unprocessable Entity")
    ∷ (423, codes "Locked")
    ∷ (424, codes "Failed Dependency")
    ∷ (425, codes "Unordered Collection")
    ∷ (426, codes "Upgrade Required")
    ∷ (449, codes "Retry With")
    ∷ (451, codes "Unavailable For Legal Reasons")
    ∷ (500, codes "Internal Server Error")
    ∷ (501, codes "Not Implemented")
    ∷ (502, codes "Bad Gateway")
    ∷ (503, codes "Service Unavailable")
    ∷ (504, codes "Gateway Timeout")
    ∷ (505, codes "HTTP Version Not Supported")
    ∷ (506, codes "Variant Also Negotiates")
    ∷ (507, codes "Insufficient Storage")
    ∷ (508, codes "Loop Detected")
    ∷ (509, codes "Bandwidth Limit Exceeded")
    ∷ (510, codes "Not Extended")
    ∷ (600, codes "Unparseable Response Headers")
    ∷ []

unfoldable pub text_of : List (ℕ × Bytes) → ℕ → Bytes
text_of [] code = codes "HOLY-XXX v_v"
text_of (row ∷ rows) code = if code == row.0 then row.1 else text_of rows code

unfoldable pub strstatus : ℕ → Bytes
unfolding text_of
strstatus code = text_of status_texts code

-- A `char` is the byte that it is stored as.
unfoldable pub hex2char : ℕ → ℕ
hex2char hex =
    if leb b'0' hex && leb hex b'9'
    then hex - b'0'
    else if leb b'A' hex && leb hex b'Z'
    then hex - b'A' + 0xA
    else if leb b'a' hex && leb hex b'z'
    then hex - b'a' + 0xa
    else hex

-- The byte of two hexadecimal digits; the `int` is cut to a `char`.
unfoldable pub hex_byte : ℕ → ℕ → ℕ
unfolding hex2char
hex_byte a b = bit_or (hex2char a * 16 % 256) (hex2char b)

-- A character that is no escape.
unfoldable pub plain_char : ℕ → ℕ
plain_char c = if c == b'+' then b' ' else c

-- The bytes that the loop writes; an escape needs two more characters behind it.
unfoldable pub url_decode : Bytes → Bytes
unfolding plain_char
url_decode [] = []
url_decode (c ∷ []) = plain_char c ∷ []
url_decode (c ∷ a ∷ []) = plain_char c ∷ url_decode (a ∷ [])
url_decode (c ∷ a ∷ b ∷ s) =
    let skip = url_decode s in
    let next = url_decode (a ∷ b ∷ s) in
    if c == b'%' then hex_byte a b ∷ skip else plain_char c ∷ next

-- The outcome of a parser: a refusal sets `*status` and makes it return 0.
pub data Parsed {ℓ} (A : Type ℓ) : Type ℓ where
  refused : ℕ → Parsed A
  parsed : A → Parsed A

infixl 5 ◌>>=◌
abbrev pub ◌>>=◌ {ℓ κ} : {A : Type ℓ} {B : Type κ} → Parsed A → (A → Parsed B) → Parsed B
refused status >>= f = refused status
parsed a >>= f = f a

-- What is missing is refused with a status.
abbrev pub required {ℓ} : {A : Type ℓ} → ℕ → Option A → Parsed A
required status none = refused status
required status (some a) = parsed a

-- `method_t`.
pub data Method : Type 0 where
  head_method get_method post_method : Method

-- `none` is the status `METHOD_NOT_ALLOWED`.
unfoldable pub parse_method : Bytes → Option Method
unfolding bytes_eq
parse_method method =
    if bytes_eq method (codes "HEAD")
    then some head_method
    else if bytes_eq method (codes "GET")
    then some get_method
    else if bytes_eq method (codes "POST")
    then some post_method
    else none

-- `strchr (name, '=')`: what stands before and behind the first one. The value may be absent.
unfoldable pub split_pair : Bytes → Bytes × Bytes
split_pair [] = ([], [])
split_pair (c ∷ s) = let rest = split_pair s in if c == b'=' then ([], s) else (c ∷ rest.0, rest.1)

-- The name and the value of one pair as C strings: a decoded NUL ends them.
unfoldable pub decode_pair : Bytes → Bytes × Bytes
decode_pair pair = (c_str (url_decode (split_pair pair).0), c_str (url_decode (split_pair pair).1))

unfoldable pub decode_pairs : List Bytes → List (Bytes × Bytes)
decode_pairs [] = []
decode_pairs (pair ∷ pairs) = decode_pair pair ∷ decode_pairs pairs

-- What `parse_query` stores in `args`, in order.
unfoldable pub query_pairs : Bytes → List (Bytes × Bytes)
query_pairs query = decode_pairs (tokens (char_is b'&') query)
