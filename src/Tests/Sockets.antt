-- ===== src/Tests/Sockets.antt =====
-- The send queue, the reassembly of a request and the idle check.
use holyhttp.Prelude.{
  ℕ, ◌≡◌, ◌≢◌, ◌<◌, replicate, none, false, refl, [], ◌∷◌, ◌++◌, some, true, false, Bytes, codes,
  arith, length,
}
use holyhttp.Connection.{
  SendState, SendResult, sent, exited, send_to_peer, write_to_buf, queue_data, crlf2,
}
use holyhttp.Connection.Stream.{
  Traffic, Step, writes, flushes, Reach, here, next, quiet, Reach-stream, send_to_peer_drains,
}
use holyhttp.Connection.Status.{status_packet, packet_text, body_text, status_packet-packet_text}
use holyhttp.Connection.Write.{handed, write_to_buf_attempts}
use holyhttp.Connection.Send.{queued, IsSending, Takes}
use holyhttp.Connection.Close.{idle_rounds, close_now, check_timeout_never}

-- One buffer with `cd` to go.
abbrev busy : SendState
busy = record {
  send_buf = record { offset = 2; left = 2; content = codes "abcd" } ∷ [];
  send_buf_len = 2;
  reading = false;
}

busy-IsSending : IsSending busy
busy-IsSending = ((omega arith, tt), refl, omega arith)

abbrev one_byte : ℕ → SendResult
one_byte i = sent 1

one_byte-Takes : Takes one_byte 0 busy.send_buf
one_byte-Takes = ((λ n e. let q : 1 ≡ n = cc in omega (arith, q)), tt)

-- A header with a content of three bytes, of which one has come.
abbrev post : Bytes
post = codes "content-length: 3" ++ (crlf2 ++ codes "x")

check_timeout_never_example : idle_rounds 3 60 100 1000 ≢ close_now
check_timeout_never_example = check_timeout_never 3 60 100 1000 (omega arith) (omega arith)

-- Two bytes are accepted, and one of them goes out.
abbrev accepted_two : Traffic
accepted_two = record quiet { state = queue_data (codes "ab") quiet.state; accepted = codes "ab" }

abbrev sent_one : Traffic
sent_one = record accepted_two {
  state = (send_to_peer one_byte accepted_two.state).0;
  out = (send_to_peer one_byte accepted_two.state).1;
}

accepted_buffers :
    accepted_two.state.send_buf ≡ record { offset = 0; left = 2; content = codes "ab" } ∷ []
unfolding queue_data
accepted_buffers = refl

accepted-Takes : Takes one_byte 0 accepted_two.state.send_buf
accepted-Takes = rw accepted_buffers ((λ n e. let q : 1 ≡ n = cc in omega (arith, q)), tt)

accepted-Step : Step quiet accepted_two
unfolding write_to_buf handed
accepted-Step =
    writes quiet (true ∷ []) (codes "now") (codes "ab") (true, queue_data (codes "ab") quiet.state)
      refl (omega arith)

sent_one-Reach : Reach quiet sent_one
sent_one-Reach = next (next here accepted-Step) (flushes accepted_two one_byte accepted-Takes)

Reach-stream_example :
    (sent_one.out ++ queued sent_one.state.send_buf ≡ sent_one.accepted)
    × (sent_one.state.send_buf_len ≡ length (queued sent_one.state.send_buf))
Reach-stream_example = Reach-stream sent_one sent_one-Reach

abbrev two_bytes : ℕ → SendResult
two_bytes i = sent 2

send_to_peer_drains_example :
    ((send_to_peer two_bytes busy).0.send_buf ≡ [])
    × ((send_to_peer two_bytes busy).0.send_buf_len ≡ 0)
    × ((send_to_peer two_bytes busy).0.reading ≡ true)
    × ((send_to_peer two_bytes busy).1 ≡ queued busy.send_buf)
    × ((send_to_peer two_bytes busy).2 ≡ exited)
send_to_peer_drains_example = send_to_peer_drains two_bytes busy busy-IsSending (refl, tt)

write_to_buf_attempts_example :
    (write_to_buf (true ∷ []) (codes "now") (some (codes "ab")) busy
      ≡ some (true, queue_data (codes "ab") busy))
    × (write_to_buf (replicate 3 false ++ true ∷ []) (codes "now") (some (codes "ab")) busy
        ≡ some (false, queue_data (status_packet (codes "now") 507) busy))
    × (write_to_buf (replicate 2 false) (codes "now") (some (codes "ab")) busy ≡ none)
write_to_buf_attempts_example =
    write_to_buf_attempts 2 [] (codes "now") (codes "ab") busy (omega arith)

status_packet-packet_text_example :
    (status_packet (codes "now") 404 ≡ packet_text 404 (codes "now") (body_text 404))
    × (length (status_packet (codes "now") 404) < 4096)
status_packet-packet_text_example = status_packet-packet_text 404 (codes "now") (omega arith)
