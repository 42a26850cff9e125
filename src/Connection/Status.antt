-- ===== src/Connection/Status.antt =====
-- The page of a status: the texts of `send_status` of server/connection.c, in its two buffers.
use holyhttp.Prelude.{
  ℕ, zero, suc, ◌+◌, ◌-◌, ◌/◌, ◌%◌, ◌≤◌, ◌<◌, ◌≡◌, refl, List, [], ◌∷◌, ◌++◌, ltb, leb, ◌==◌, ◌&&◌,
  Bool, Bool-cases, inl, inr, true, Bytes, codes, length, length-append, replicate, take, take_all,
  ap, ◌∙◌, arith,
}
use holyhttp.Text.Path.{str_append_fmt}
use holyhttp.Packet.{status_texts, text_of, strstatus}
use holyhttp.Request.{show_3d, show_u32, decimal, digit_char}

-- `STATUS_BODY` in front of the status and behind it.
abbrev body_front : Bytes
body_front =
    codes "<html><head><style>h1{margin:100px auto;height:100px;line-height: 100px;"
    ++ codes "text-align:center;vertical-align:middle;color:#fff;background-color:#888;}</style>"
    ++ codes "</head><body><h1>"

abbrev body_end : Bytes
body_end = codes "</h1></body></html>"

abbrev pub body_text : ℕ → Bytes
body_text code = body_front ++ (show_3d code ++ b' ' ∷ (strstatus code ++ body_end))

-- `STATUS_PACKET` up to the length, and around it.
abbrev packet_front : ℕ → Bytes → Bytes
packet_front code date =
    codes "HTTP/1.1 "
    ++ (show_3d code
        ++ b' '
          ∷ (strstatus code
              ++ (codes "\r\nServer: HolyHttp/0.1\r\nConnection: close\r\nDate: "
                  ++ (date ++ codes "\r\nContent-Type: text/html; charset=utf8\r\n"))))

abbrev pub packet_text : ℕ → Bytes → Bytes → Bytes
packet_text code date body =
    packet_front code date
    ++ (codes "Content-Length: " ++ (show_u32 (length body) ++ (codes "\r\n\r\n" ++ body)))

-- `sizeof body` is twice the 197 bytes of the format.
unfoldable pub status_body : ℕ → Bytes
unfolding str_append_fmt
status_body code = str_append_fmt 394 [] (body_text code)

-- What `buffer` holds; `date` is the text of the clock's time.
unfoldable pub status_packet : Bytes → ℕ → Bytes
unfolding str_append_fmt
status_packet date code = str_append_fmt 4096 [] (packet_text code date (status_body code))

line_end : codes "\r\n" ≡ 13 ∷ 10 ∷ []
line_end = refl

length-decimal : (fuel n : ℕ) → length (decimal fuel n) ≤ fuel
unfolding decimal
length-decimal zero n = omega arith
length-decimal (suc fuel) n = elim (Bool-cases (ltb n 10)) [
  | inl e ↦ rw e (omega arith)
  | inr e ↦ rw e (
      omega (
        arith,
        length-decimal fuel (n / 10),
        length-append (decimal fuel (n / 10)) (digit_char (n % 10) ∷ []),
      ))
]

length-replicate : (n c : ℕ) → length (replicate n c) ≡ n
length-replicate zero c = refl
length-replicate (suc n) c = ap suc (length-replicate n c)

length-show_3d : (n : ℕ) → length (show_3d n) ≤ 13
unfolding show_3d
length-show_3d n = omega (
  arith,
  length-append (replicate (3 - length (show_u32 n)) b' ') (show_u32 n),
  length-replicate (3 - length (show_u32 n)) b' ',
  length-decimal 10 n,
)

-- Every text of a list of them is at most so long.
all_short : ℕ → List (ℕ × Bytes) → Bool
all_short n [] = true
all_short n (row ∷ rows) = leb (length row.1) n && all_short n rows

length-text_of :
    (n : ℕ) (rows : List (ℕ × Bytes)) (code : ℕ)
    → 12 ≤ n
    → all_short n rows ≡ true
    → length (text_of rows code) ≤ n
unfolding text_of all_short
length-text_of n [] code h e = omega arith
length-text_of n (row ∷ rows) code h e = elim (Bool-cases (code == row.0)) [
  | inl q ↦ rw q (ground arith)
  | inr q ↦ rw q (length-text_of n rows code h (ground arith))
]

length-strstatus : (code : ℕ) → length (strstatus code) ≤ 60
unfolding strstatus all_short
length-strstatus code = length-text_of 60 status_texts code (omega arith) refl

status_tail : (code : ℕ) → length (show_3d code ++ b' ' ∷ (strstatus code ++ body_end)) ≤ 94
status_tail code = omega (
  arith,
  length-append (show_3d code) (b' ' ∷ (strstatus code ++ body_end)),
  length-append (strstatus code) body_end,
  length-show_3d code,
  length-strstatus code,
)

length-body_text : (code : ℕ) → length (body_text code) ≤ 300
length-body_text code =
    let rest = show_3d code ++ b' ' ∷ (strstatus code ++ body_end) in
    let e : length body_front ≡ 171 = refl in
    omega (arith, e, length-append body_front rest, status_tail code)

length-packet_front :
    (code : ℕ) (date : Bytes) → length (packet_front code date) ≤ 200 + length date
length-packet_front code date =
    let a = codes "\r\nServer: HolyHttp/0.1\r\nConnection: close\r\nDate: " in
    let b = codes "\r\nContent-Type: text/html; charset=utf8\r\n" in
    let c = b' ' ∷ (strstatus code ++ (a ++ (date ++ b))) in
    omega (
      arith,
      length-append (codes "HTTP/1.1 ") (show_3d code ++ c),
      length-append (show_3d code) c,
      length-append (strstatus code) (a ++ (date ++ b)),
      length-append a (date ++ b),
      length-append date b,
      length-show_3d code,
      length-strstatus code,
    )

length-packet_text :
    (code : ℕ) (date body : Bytes)
    → length (packet_text code date body) ≤ 230 + length date + length body
length-packet_text code date body =
    let a = codes "Content-Length: " in
    let b = codes "\r\n\r\n" in
    omega (
      arith,
      length-append (packet_front code date) (a ++ (show_u32 (length body) ++ (b ++ body))),
      length-append a (show_u32 (length body) ++ (b ++ body)),
      length-append (show_u32 (length body)) (b ++ body),
      length-append b body,
      length-decimal 10 (length body),
      length-packet_front code date,
    )

-- The page of every status goes out whole, with the length of its body, when the text of the time
-- has at most 3000 bytes: neither of the two buffers cuts anything off.
pub status_packet-packet_text :
    (code : ℕ) (date : Bytes)
    → length date ≤ 3000
    → (status_packet date code ≡ packet_text code date (body_text code))
      × (length (status_packet date code) < 4096)
unfolding status_packet status_body
status_packet-packet_text code date h =
    let e : status_body code ≡ body_text code =
      take_all 393 (body_text code) (omega (arith, length-body_text code)) in
    let n = length-packet_text code date (body_text code) in
    let q : status_packet date code ≡ packet_text code date (body_text code) =
      ap (λ b. take 4095 (packet_text code date b)) e
      ∙ take_all 4095 (packet_text code date (body_text code))
          (omega (arith, h, n, length-body_text code)) in
    (q, omega (arith, ap length q, h, n, length-body_text code))

pub status_packet_filled : (code : ℕ) (date : Bytes) → 0 < length (status_packet date code)
unfolding status_packet
status_packet_filled code date = omega arith
