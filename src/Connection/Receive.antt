-- ===== src/Connection/Receive.antt =====
-- `recv_from_peer` of server/connection.c on sequences of packets.
use holyhttp.Prelude.{
  ℕ, ◌+◌, ◌-◌, ◌<◌, ◌≡◌, refl, List, [], ◌∷◌, ◌++◌, some, arith, ◌==◌, true, false, length, Bytes,
  flat, ap, sym, ◌∙◌, map, Bool-cases, inl, inr, append_assoc, append-nil, length-append,
}
use mathlib.Core.Path.{ap₂}
use holyhttp.Connection.{Buffer, received, waiting, handled, recv_rest}

-- The bytes of the packets, in order.
abbrev pub stream : List Bytes → Bytes
stream = flat (λ s. s)

empty_lem : (s : Bytes) → length s ≡ 0 → s ≡ []
empty_lem [] h = refl
empty_lem (c ∷ s) h = absurd (omega arith)

length-stream :
    (s : Bytes) (ps : List Bytes) → length (stream (s ∷ ps)) ≡ length s + length (stream ps)
length-stream s ps = length-append s (stream ps)

handled_eq : {s t : Bytes} {m n : ℕ} → s ≡ t → m ≡ n → handled s m ≡ handled t n
handled_eq p q = ap₂ handled p q

buffer_eq :
    {m n i j : ℕ} {s t : Bytes}
    → m ≡ n
    → i ≡ j
    → s ≡ t
    → ◌≡◌ {A = Buffer}
        (record { offset = m; left = i; content = s })
        (record { offset = n; left = j; content = t })
buffer_eq p q r = cc

waiting_eq :
    {m n i j : ℕ} {s t : Bytes}
    → m ≡ n
    → i ≡ j
    → s ≡ t
    → waiting (some (record { offset = m; left = i; content = s }))
      ≡ waiting (some (record { offset = n; left = j; content = t }))
waiting_eq p q r = ap (λ b. waiting (some b)) (buffer_eq p q r)

-- The buffer after a packet.
abbrev step : Bytes → Buffer → Buffer
step s buf = record {
  offset = buf.offset + length s;
  left = buf.left - length s;
  content = buf.content ++ s;
}

abbrev start : Bytes → ℕ → Buffer
start s total = record { offset = length s; left = total - length s; content = s }

is_zero : (n : ℕ) → (n == 0) ≡ true → n ≡ 0
is_zero n h = ground arith

not_zero : (n : ℕ) → (n == 0) ≡ false → 0 < n
not_zero n h = ground arith

-- However the missing bytes are split into packets, the handler gets the buffer's data with all of
-- them behind it and the whole length, when the packets bring the missing bytes and no more.
pub recv_rest-stream :
    (ps : List Bytes) (buf : Buffer)
    → length (stream ps) ≡ buf.left
    → recv_rest (map received ps) buf ≡ handled (buf.content ++ stream ps) (buf.offset + buf.left)
unfolding recv_rest
recv_rest-stream [] buf h =
    let e : (buf.left == 0) ≡ true = ground arith in
    rw (e, recv_rest) (handled_eq (sym (append-nil buf.content)) (omega arith))
recv_rest-stream (s ∷ ps) buf h = elim (Bool-cases (buf.left == 0)) [
  | inl e ↦
      rw (e, recv_rest)
        (let z : stream (s ∷ ps) ≡ [] = empty_lem (stream (s ∷ ps)) (h ∙ is_zero buf.left e) in
          let p : buf.content ++ stream (s ∷ ps) ≡ buf.content =
            ap (λ r. buf.content ++ r) z ∙ append-nil buf.content in
          handled_eq (sym p) (omega (arith, is_zero buf.left e)))
  | inr e ↦
      rw (e, recv_rest)
        (let k : length (stream ps) ≡ buf.left - length s = omega (arith, h, length-stream s ps) in
          recv_rest-stream ps (step s buf) k
          ∙ handled_eq (append_assoc buf.content s (stream ps))
              (omega (arith, h, length-stream s ps)))
]

-- While bytes are missing, nothing is handed on, however the packets split what has arrived.
recv_rest-waiting :
    (ps : List Bytes) (buf : Buffer)
    → length (stream ps) < buf.left
    → recv_rest (map received ps) buf
      ≡ waiting (
          some (record {
            offset = buf.offset + length (stream ps);
            left = buf.left - length (stream ps);
            content = buf.content ++ stream ps;
          }))
unfolding recv_rest
recv_rest-waiting [] buf h =
    let e : (buf.left == 0) ≡ false = ground arith in
    rw (e, recv_rest) (waiting_eq (omega arith) (omega arith) (sym (append-nil buf.content)))
recv_rest-waiting (s ∷ ps) buf h =
    let e : (buf.left == 0) ≡ false = ground arith in
    rw (e, recv_rest)
      (let k : length (stream ps) < buf.left - length s = omega (arith, h, length-stream s ps) in
        recv_rest-waiting ps (step s buf) k
        ∙ waiting_eq (omega (arith, length-stream s ps)) (omega (arith, length-stream s ps))
            (append_assoc buf.content s (stream ps)))
