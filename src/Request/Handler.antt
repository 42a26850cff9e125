-- ===== src/Request/Handler.antt =====
-- What a handler reads from its request and sends as a whole: `get_header`, `get_cookie`, `get_arg`,
-- `send_file` and `send_html` of server/request.c. The fields, cookies and arguments are the lists of
-- their stores.
use holyhttp.Prelude.{
  ℕ, ◌≡◌, refl, List, [], ◌∷◌, ◌++◌, Option, none, some, if◌then◌else◌, Bool, true, false, Bytes,
  codes, bytes_eq_refl, ap,
}
use holyhttp.Text.Letters.{str2lower}
use holyhttp.Mime.{guess_mime_type}
use holyhttp.Packet.Fields.{stored}
use holyhttp.Packet.Headers.{lower_names}
use holyhttp.Request.{Context, Response, plain_response, response}

-- The copy of the name needs memory.
unfoldable pub get_header : Bool → List (Bytes × Bytes) → Option Bytes → Option Bytes
get_header room headers none = none
get_header room headers (some name) = if room then stored headers (str2lower name) else none

unfoldable pub get_cookie : List (Bytes × Bytes) → Option Bytes → Option Bytes
get_cookie cookies none = none
get_cookie cookies (some name) = stored cookies name

unfoldable pub get_arg : List (Bytes × Bytes) → Option Bytes → Option Bytes
get_arg args none = none
get_arg args (some name) = stored args name

-- `send_status` of the connection, or a response.
pub data Reply : Type 0 where
  status_reply : ℕ → Reply
  response_reply : Response → Reply

-- `file` is `holy_get_file`, and `fresh` tells whether the time of a text is not before the start of
-- the server.
unfoldable pub file_reply : (Bytes → Option Bytes) → ℕ → Bytes → Reply
file_reply file age filename = elim (file filename) [
  | none ↦ status_reply 404
  | some content ↦ response_reply (record (plain_response 200) {
    content = some content;
    type = guess_mime_type true (some filename);
    age = age;
  })
]

unfoldable pub send_file :
    (Bytes → Bool) → (Bytes → Option Bytes) → ℕ → List (Bytes × Bytes) → Option Bytes → Option Reply
send_file fresh file age headers none = none
send_file fresh file age headers (some filename) =
    elim (stored headers (codes "if-modified-since")) [
      | none ↦ some (file_reply file age filename)
      | some since ↦ some (if fresh since then status_reply 304 else file_reply file age filename)
    ]

unfoldable pub send_html : Bool → Context → Bool → Option Bytes → Option (Bytes × Bool)
send_html alloc ctx opened none = none
send_html alloc ctx opened (some html) =
    response alloc ctx opened false
      (record (plain_response 200) { content = some html; type = some (codes "text/html") })

stored-last :
    (ps : List (Bytes × Bytes)) (name value : Bytes)
    → stored (ps ++ (name, value) ∷ []) name ≡ some value
unfolding stored
stored-last [] name value = rw (bytes_eq_refl name) refl
stored-last (p ∷ ps) name value = rw (stored-last ps name value, stored) refl

lower_names-append :
    (ps : List (Bytes × Bytes)) (p : Bytes × Bytes)
    → lower_names (ps ++ p ∷ []) ≡ lower_names ps ++ (str2lower p.0, p.1) ∷ []
unfolding lower_names
lower_names-append [] p = refl
lower_names-append (q ∷ ps) p = ap (◌∷◌ (str2lower q.0, q.1)) (lower_names-append ps p)

-- The last field of a request is read back under its name, in whatever case the letters are written.
pub get_header-lower_names :
    (ps : List (Bytes × Bytes)) (p : Bytes × Bytes) (name : Bytes)
    → str2lower name ≡ str2lower p.0
    → get_header true (lower_names (ps ++ p ∷ [])) (some name) ≡ some p.1
unfolding get_header
get_header-lower_names ps p name e =
    rw (lower_names-append ps p, e) (stored-last (lower_names ps) (str2lower p.0) p.1)
