-- ===== src/Mime.antt =====
-- `holy_guess_mime_type` of utils/file.c.
use holyhttp.Prelude.{
  ℕ, ◌+◌, ◌≡◌, refl, List, [], ◌∷◌, ◌++◌, Option, none, some, if◌then◌else◌, Bool, true, Bytes,
  codes, ap, ◌∙◌, arith,
}
use holyhttp.Text.Affix.{str_ends_with, str_ends_with_iff}
use holyhttp.Text.Letters.{str2upper, str2lower-str2upper, str2lower, is_upper}

-- The tests in their order, with the type that each gives.
abbrev pub mime_rules : List (Bytes × Bytes)
mime_rules =
    (codes ".html", codes "text/html")
    ∷ (codes ".htm", codes "text/html")
    ∷ (codes ".css", codes "text/css")
    ∷ (codes ".js", codes "application/x-javascript")
    ∷ (codes ".txt", codes "text")
    ∷ (codes ".text", codes "text")
    ∷ (codes ".log", codes "text")
    ∷ (codes ".ico", codes "image/x-icon")
    ∷ (codes ".gif", codes "image/gif")
    ∷ (codes ".jpg", codes "image/jpeg")
    ∷ (codes ".jpeg", codes "image/jpeg")
    ∷ (codes ".pdf", codes "application/pdf")
    ∷ (codes ".swf", codes "application/x-shockwave-flash")
    ∷ (codes ".svg", codes "image/svg+xml")
    ∷ (codes ".tiff", codes "mage/tiff")
    ∷ (codes ".tif", codes "mage/tiff")
    ∷ (codes ".swf", codes "application/x-shockwave-flash")
    ∷ []

unfoldable pub first_rule : List (Bytes × Bytes) → Bytes → Bytes
first_rule [] fname = codes "application/octet-stream"
first_rule (rule ∷ rules) fname =
    if str_ends_with (some fname) (some rule.0) then rule.1 else first_rule rules fname

-- `alloc` says that `strdup` succeeds.
unfoldable pub guess_mime_type : Bool → Option Bytes → Option Bytes
guess_mime_type alloc none = none
guess_mime_type alloc (some filename) =
    if alloc then some (first_rule mime_rules (str2lower filename)) else none

str2lower_twice : (s : Bytes) → str2lower (str2lower s) ≡ str2lower s
unfolding str2lower is_upper
str2lower_twice [] = refl
str2lower_twice (c ∷ s) = ground (arith, str2lower_twice s)

str2lower-cons :
    (c : ℕ) (s : Bytes) → str2lower (c ∷ s) ≡ (if is_upper c then c + 0x20 else c) ∷ str2lower s
unfolding str2lower
str2lower-cons c s = refl

first_rule-head :
    (suffix type : Bytes) (rules : List (Bytes × Bytes)) (s : Bytes)
    → str_ends_with (some s) (some suffix) ≡ true
    → first_rule ((suffix, type) ∷ rules) s ≡ type
unfolding first_rule
first_rule-head suffix type rules s h = rw h refl

str2lower-append : (s t : Bytes) → str2lower (s ++ t) ≡ str2lower s ++ str2lower t
unfolding str2lower
str2lower-append [] t = refl
str2lower-append (c ∷ s) t = ap (◌∷◌ (if is_upper c then c + 0x20 else c)) (str2lower-append s t)

-- The type of a file does not change when its name is put in upper or in lower case.
guess_mime_type-str2upper :
    (alloc : Bool) (s : Bytes)
    → (guess_mime_type alloc (some (str2upper s)) ≡ guess_mime_type alloc (some s))
      × (guess_mime_type alloc (some (str2lower s)) ≡ guess_mime_type alloc (some s))
unfolding guess_mime_type
guess_mime_type-str2upper alloc s = (
  ap (λ r. if alloc then some (first_rule mime_rules r) else none) ((str2lower-str2upper s).0),
  ap (λ r. if alloc then some (first_rule mime_rules r) else none) (str2lower_twice s),
)

-- A name that ends with `html` in any case and has a character before it, which need not be a dot,
-- is served as a web page.
guess_mime_type-html :
    (stem rest : Bytes) (c : ℕ)
    → str2lower rest ≡ codes "html"
    → guess_mime_type true (some (stem ++ c ∷ rest)) ≡ some (codes "text/html")
unfolding guess_mime_type
guess_mime_type-html stem rest c h =
    let d = if is_upper c then c + 0x20 else c in
    let e : str2lower (stem ++ c ∷ rest) ≡ str2lower stem ++ d ∷ codes "html" =
      str2lower-append stem (c ∷ rest)
      ∙ ap (λ r. str2lower stem ++ r) (str2lower-cons c rest ∙ ap (◌∷◌ d) h) in
    ap some (
      first_rule-head (codes ".html") (codes "text/html") _ (str2lower (stem ++ c ∷ rest)) (
        (str_ends_with_iff (str2lower (stem ++ c ∷ rest)) b'.' (codes "html")).1
          (str2lower stem, d, e)))
