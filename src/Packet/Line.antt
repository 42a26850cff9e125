-- ===== src/Packet/Line.antt =====
-- The request line: `parse_requset_line` of server/packet.c.
use holyhttp.Prelude.{
  ℕ, suc, ◌+◌, ◌≤◌, ◌<◌, ◌≡◌, refl, ◌≢◌, [], ◌∷◌, ◌++◌, some, if◌then◌else◌, leb, ◌==◌, ◌&&◌, not,
  Bool, true, false, Bytes, codes, length, length-take, take, drop, All, ap, ◌∙◌, ◌⊎◌, inl, inr,
  Option-cases, arith,
}
use holyhttp.Packet.{
  Method, head_method, get_method, post_method, Parsed, refused, parsed, ◌>>=◌, required,
  parse_method,
}
use holyhttp.Text.Decimal.{isdigit}
use holyhttp.Packet.Scan.{
  is_space, skip_space, span, nonempty, scan_set, scan_word, literal, scan_u32, span-full,
  nonempty_lem, scan_set-stop,
}

-- `version_t`.
pub data Version : Type 0 where
  http_1_0 http_1_1 http_2_0 : Version

pub record RequestLine : Type 0 where
  pub method : Method
  pub url : Bytes
  pub version : Version

abbrev pub max_method_len : ℕ
max_method_len = 10

abbrev pub max_url_len : ℕ
max_url_len = 250

-- `sscanf (text, "%10s %250s HTTP/%u.%u\r\n", ...)`, which has to convert all four. This is its part
-- from " HTTP/" on.
unfoldable pub scan_version : Bytes → Parsed (ℕ × ℕ)
scan_version b = do
  c ← required 400 (literal (codes "HTTP/") (skip_space b))
  (major, d) ← required 400 (scan_u32 c)
  e ← required 400 (literal (codes ".") d)
  (sub, f) ← required 400 (scan_u32 e)
  parsed (major, sub)

unfoldable pub scan_line : Bytes → Parsed (Bytes × Bytes × ℕ × ℕ)
scan_line text = do
  (method, a) ← required 400 (scan_word max_method_len text)
  (url, b) ← required 400 (scan_word max_url_len (skip_space a))
  (major, sub) ← scan_version b
  parsed (method, url, major, sub)

unfoldable pub version_of : ℕ → ℕ → Parsed Version
version_of major sub =
    if major == 1 && sub == 0
    then parsed http_1_0
    else if major == 1 && sub == 1
    then parsed http_1_1
    else if major == 2 && sub == 0
    then parsed http_2_0
    else refused 505

-- The tests behind the scan, in their order.
unfoldable pub check_line : Bytes × Bytes × ℕ × ℕ → Parsed RequestLine
check_line (name, url, major, sub) = do
  method ← required 405 (parse_method name)
  version ← if leb max_url_len (length url) then refused 414 else version_of major sub
  parsed (record { method = method; url = url; version = version })

unfoldable pub parse_request_line : Bytes → Parsed RequestLine
parse_request_line text = do r ← scan_line text; check_line r

-- The texts of methods and versions.
abbrev pub method_name : Method → Bytes
method_name head_method = codes "HEAD"
method_name get_method = codes "GET"
method_name post_method = codes "POST"

abbrev pub version_name : Version → Bytes
version_name http_1_0 = codes "1.0"
version_name http_1_1 = codes "1.1"
version_name http_2_0 = codes "2.0"

-- A line with some version text, and what stands behind it.
abbrev pub line_text : Bytes → Bytes → Bytes → Bytes → Bytes
line_text method url version rest =
    method ++ b' ' ∷ (url ++ b' ' ∷ (codes "HTTP/" ++ (version ++ 13 ∷ 10 ∷ rest)))

abbrev pub IsUrl : Bytes → Type 0
IsUrl url = (url ≢ []) × All (λ c. is_space c ≡ false) url

scan_method :
    (m : Method) (rest : Bytes)
    → scan_word 10 (method_name m ++ b' ' ∷ rest) ≡ some (method_name m, b' ' ∷ rest)
unfolding scan_word scan_set span nonempty skip_space is_space
scan_method head_method rest = refl
scan_method get_method rest = refl
scan_method post_method rest = refl

parse_method-name : (m : Method) → parse_method (method_name m) ≡ some m
unfolding parse_method
parse_method-name head_method = refl
parse_method-name get_method = refl
parse_method-name post_method = refl

skip_nonspace : (s t : Bytes) → IsUrl s → skip_space (s ++ t) ≡ s ++ t
unfolding skip_space
skip_nonspace [] t h = absurd (h.0 refl)
skip_nonspace (c ∷ s) t h = rw (h.1.0) refl

not_spaces : (s : Bytes) → All (λ c. is_space c ≡ false) s → All (λ c. not (is_space c) ≡ true) s
not_spaces [] h = tt
not_spaces (c ∷ s) (h, hs) = (rw h refl, not_spaces s hs)

scan_url :
    (url rest : Bytes)
    → IsUrl url
    → length url ≤ 250
    → scan_word 250 (url ++ b' ' ∷ rest) ≡ some (url, b' ' ∷ rest)
unfolding scan_word
scan_url url rest h l =
    ap (scan_set 250 (λ c. not (is_space c))) (skip_nonspace url (b' ' ∷ rest) h)
    ∙ scan_set-stop 250 (λ c. not (is_space c)) url b' ' rest h.0 l (not_spaces url h.1) refl

abbrev version_numbers : Version → ℕ × ℕ
version_numbers http_1_0 = (1, 0)
version_numbers http_1_1 = (1, 1)
version_numbers http_2_0 = (2, 0)

scan_one :
    (v : Version) (rest : Bytes)
    → scan_u32 (version_name v ++ 13 ∷ 10 ∷ rest)
      ≡ some ((version_numbers v).0, b'.' ∷ ((version_numbers v).1 + b'0') ∷ 13 ∷ 10 ∷ rest)
unfolding scan_u32 isdigit
scan_one http_1_0 rest = refl
scan_one http_1_1 rest = refl
scan_one http_2_0 rest = refl

scan_two :
    (v : Version) (rest : Bytes)
    → scan_u32 (((version_numbers v).1 + b'0') ∷ 13 ∷ 10 ∷ rest)
      ≡ some ((version_numbers v).1, 13 ∷ 10 ∷ rest)
unfolding scan_u32 isdigit
scan_two http_1_0 rest = refl
scan_two http_1_1 rest = refl
scan_two http_2_0 rest = refl

scan_line-text :
    (m : Method) (url : Bytes) (v : Version) (rest : Bytes)
    → IsUrl url
    → length url ≤ 250
    → scan_line (line_text (method_name m) url (version_name v) rest)
      ≡ parsed (method_name m, url, (version_numbers v).0, (version_numbers v).1)
unfolding scan_line scan_version skip_space literal
scan_line-text m url v rest h l =
    let tail = codes "HTTP/" ++ (version_name v ++ 13 ∷ 10 ∷ rest) in
    rw
      (
        scan_method m (url ++ b' ' ∷ tail),
        skip_nonspace url (b' ' ∷ tail) h,
        scan_url url tail h l,
        scan_one v rest,
        scan_two v rest,
      )
      refl

version_of-numbers :
    (v : Version) → version_of (version_numbers v).0 (version_numbers v).1 ≡ parsed v
unfolding version_of
version_of-numbers http_1_0 = refl
version_of-numbers http_1_1 = refl
version_of-numbers http_2_0 = refl

-- A request line made of a method, a URL of 1 to 249 characters without white space and a version is
-- parsed to just these.
pub parse_request_line-line_text :
    (m : Method) (url : Bytes) (v : Version) (rest : Bytes)
    → IsUrl url
    → length url < 250
    → parse_request_line (line_text (method_name m) url (version_name v) rest)
      ≡ parsed (record { method = m; url = url; version = v })
unfolding parse_request_line check_line
parse_request_line-line_text m url v rest h l =
    let small : leb 250 (length url) ≡ false = ground arith in
    rw
      (
        scan_line-text m url v rest h (omega arith),
        parse_method-name m,
        small,
        version_of-numbers v,
      )
      refl

scan_version_cases :
    (b : Bytes) → (scan_version b ≡ refused 400) ⊎ ((v : ℕ × ℕ) × (scan_version b ≡ parsed v))
unfolding scan_version
scan_version_cases b = elim (Option-cases (literal (codes "HTTP/") (skip_space b))) [
  | inl e ↦ inl (rw e refl)
  | inr (c, e) ↦ elim (Option-cases (scan_u32 c)) [
    | inl f ↦ inl (rw (e, f) refl)
    | inr ((major, d), f) ↦ elim (Option-cases (literal (codes ".") d)) [
      | inl g ↦ inl (rw (e, f, g) refl)
      | inr (r, g) ↦ elim (Option-cases (scan_u32 r)) [
        | inl k ↦ inl (rw (e, f, g, k) refl)
        | inr ((sub, q), k) ↦ inr ((major, sub), rw (e, f, g, k) refl)
      ]
    ]
  ]
]

take_some : (n : ℕ) (s : Bytes) → suc n ≤ length s → take (suc n) s ≢ []
take_some n [] l = absurd (omega arith)
take_some n (c ∷ s) l = λ e. cc

scan_word_full :
    (n : ℕ) (url rest : Bytes)
    → IsUrl url
    → suc n ≤ length url
    → (w r : Bytes) × (scan_word (suc n) (url ++ rest) ≡ some (w, r)) × (length w ≡ suc n)
unfolding scan_word scan_set
scan_word_full n url rest h l =
    let p : ℕ → Bool = λ c. not (is_space c) in
    let e = span-full (suc n) p url rest l (not_spaces url h.1) in
    (
      take (suc n) url,
      drop (suc n) url ++ rest,
      ap (λ s. nonempty (span (suc n) p s)) (skip_nonspace url rest h)
          ∙ ap nonempty e
          ∙ nonempty_lem (take (suc n) url) (drop (suc n) url ++ rest) (take_some n url l),
      length-take (suc n) url ∙ omega (arith, l),
    )

-- A URL of 250 characters or more is refused, as too long or as a bad request, whatever stands behind
-- it.
pub parse_request_line_too_long :
    (m : Method) (url rest : Bytes)
    → IsUrl url
    → 250 ≤ length url
    → (parse_request_line (method_name m ++ b' ' ∷ (url ++ rest)) ≡ refused 414)
      ⊎ (parse_request_line (method_name m ++ b' ' ∷ (url ++ rest)) ≡ refused 400)
unfolding parse_request_line scan_line check_line skip_space
parse_request_line_too_long m url rest h l =
    let (w, r, e, k) = scan_word_full 249 url rest h l in
    let long : leb 250 (length w) ≡ true = ground (arith, k) in
    elim (scan_version_cases r) [
      | inl f ↦ inr (rw (scan_method m (url ++ rest), skip_nonspace url rest h, e, f) refl)
      | inr (v, f) ↦ inl (
          rw
            (scan_method m (url ++ rest), skip_nonspace url rest h, e, f, parse_method-name m, long)
            refl)
    ]
