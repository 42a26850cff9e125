-- ===== src/Connection.antt =====
-- server/connection.c: the send queue, the reassembly of a request, and closing. What the sockets
-- answer is an argument: one result for each call of `send` and `recv`.
pub mod Status
pub mod Send
pub mod Write
pub mod Stream
pub mod Receive
pub mod Close
pub mod Peer
use holyhttp.Prelude.{
  ℕ, zero, suc, ◌+◌, ◌-◌, ◌*◌, ◌%◌, ◌^◌, ◌≤◌, ◌<◌, min, ◌≡◌, List, [], ◌∷◌, ◌++◌, Option, none,
  some, if◌then◌else◌, ltb, leb, ◌==◌, ◌&&◌, ◌||◌, Bool, true, false, not, length, Bytes, take,
  drop, codes,
}
use mathlib.Core.Option
use Status.{status_packet}
use holyhttp.Tlv.{c_str}
use holyhttp.Text.Search.{memfind}
use holyhttp.Text.Letters.{str2lower}
use holyhttp.Text.Decimal.{isdigit}

-- `buffer_t`: `data` is what has been written to its array.
pub record Buffer : Type 0 where
  pub offset : ℕ
  pub left : ℕ
  pub content : Bytes

-- The queue of buffers is the list of its entries; `reading` says which event the descriptor is
-- registered for.
pub record SendState : Type 0 where
  pub send_buf : List Buffer
  pub send_buf_len : ℕ
  pub reading : Bool

-- The buffer is allocated: the data is queued behind everything else, and the descriptor is
-- registered for writing.
unfoldable pub queue_data : Bytes → SendState → SendState
queue_data content self = record {
  send_buf = self.send_buf ++ record { offset = 0; left = length content; content = content } ∷ [];
  send_buf_len = (self.send_buf_len + length content) % 2 ^ 32;
  reading = false;
}

-- `write_to_buf`, with one result of `malloc` for each call of it. Without memory `send_status` is
-- called, which writes the page of 507 by another `write_to_buf`. `none` stands for more calls than
-- there are results.
unfoldable pub write_to_buf :
    List Bool → Bytes → Option Bytes → SendState → Option (Bool × SendState)
unfolding queue_data
write_to_buf allocs date none self = some (false, self)
write_to_buf [] date (some content) self = if length content == 0 then some (false, self) else none
write_to_buf (true ∷ allocs) date (some content) self =
    if length content == 0 then some (false, self) else some (true, queue_data content self)
write_to_buf (false ∷ allocs) date (some content) self =
    let page = write_to_buf allocs date (some (status_packet date 507)) self in
    if length content == 0 then some (false, self) else Option.map (λ r. (false, r.1)) page

unfoldable pub send_status : List Bool → Bytes → ℕ → SendState → Option (Bool × SendState)
unfolding write_to_buf
send_status allocs date code self = write_to_buf allocs date (some (status_packet date code)) self

-- What `send` returns: a count, or an error that says to try later or that the peer is gone.
pub data SendResult : Type 0 where
  sent : ℕ → SendResult
  not_ready : SendResult
  broken : SendResult

-- How `send_to_peer` ends: at the end of the function, by a `return`, or with the connection closed.
pub data SendEnd : Type 0 where
  exited returned shut : SendEnd

-- The queue and its length, the bytes that went out, and how the loop ended: `drained` is the end of
-- the list.
pub record Sending : Type 0 where
  pub queue : List Buffer
  pub queue_len : ℕ
  pub out : Bytes
  pub drained : Bool
  pub ending : SendEnd

-- What `send` is given of a buffer.
abbrev pub pending : Buffer → Bytes
pending b = take b.left (drop b.offset b.content)

unfoldable pub prepend : Bytes → Sending → Sending
prepend s r = record r { out = s ++ r.out }

-- The loop; the `i`-th call of `send` answers `answer i`.
unfoldable pub send_loop : (ℕ → SendResult) → ℕ → List Buffer → ℕ → Sending
unfolding prepend
send_loop answer i [] len = record {
  queue = [];
  queue_len = len;
  out = [];
  drained = true;
  ending = exited;
}
send_loop answer i (b ∷ bs) len = elim (answer i) [
  | not_ready ↦ record {
    queue = b ∷ bs;
    queue_len = len;
    out = [];
    drained = false;
    ending = returned;
  }
  | broken ↦ record { queue = b ∷ bs; queue_len = len; out = []; drained = false; ending = shut }
  | sent n ↦
      let len' = (len + 2 ^ 32 - n) % 2 ^ 32 in
      let rest = prepend (take n (pending b)) (send_loop answer (i + 1) bs len') in
      if ltb n b.left
      then record {
        queue = record b { offset = b.offset + n; left = b.left - n } ∷ bs;
        queue_len = len';
        out = take n (pending b);
        drained = false;
        ending = exited;
      }
      else rest
]

-- The state after `send_to_peer`, the bytes that went out, and how it ended.
unfoldable pub send_to_peer : (ℕ → SendResult) → SendState → SendState × Bytes × SendEnd
unfolding send_loop
send_to_peer answer self =
    let r = send_loop answer 0 self.send_buf self.send_buf_len in
    (
      record {
        send_buf = r.queue;
        send_buf_len = r.queue_len;
        reading = if r.drained && r.queue_len == 0 then true else self.reading;
      },
      r.out,
      r.ending,
    )

-- What `recv` returns: some bytes, an error to try again, or the end of the connection, after which
-- `do_recv` has closed it.
pub data RecvResult : Type 0 where
  received : Bytes → RecvResult
  try_again : RecvResult
  gone : RecvResult

-- What `recv_from_peer` comes to: it waits with a buffer that is not full (or with none), the
-- connection is closed with the buffer that it had, a status is sent, or the handler is called on the buffer's data with a
-- length.
pub data RecvOutcome : Type 0 where
  waiting : Option Buffer → RecvOutcome
  closed : Option Buffer → RecvOutcome
  refused : ℕ → RecvOutcome
  handled : Bytes → ℕ → RecvOutcome

-- A later call with a buffer that is not full: one `recv`. When it fills the buffer, the handler is
-- given the offset from before.
unfoldable pub recv_continue : RecvResult → Buffer → RecvOutcome
recv_continue try_again buf = waiting (some buf)
recv_continue gone buf = closed (some buf)
recv_continue (received s) buf =
    if buf.left == length s
    then handled (buf.content ++ s) buf.offset
    else waiting (
        some (record {
          offset = buf.offset + length s;
          left = buf.left - length s;
          content = buf.content ++ s;
        }))

-- The loop that gets the rest within one call, over the results of `recv` that follow. Where they
-- end, nothing more has arrived.
unfoldable pub recv_rest : List RecvResult → Buffer → RecvOutcome
recv_rest [] buf = if buf.left == 0 then handled buf.content buf.offset else waiting (some buf)
recv_rest (try_again ∷ rs) buf =
    if buf.left == 0 then handled buf.content buf.offset else waiting (some buf)
recv_rest (gone ∷ rs) buf =
    if buf.left == 0 then handled buf.content buf.offset else RecvOutcome.closed (some buf)
recv_rest (received s ∷ rs) buf =
    let rest = recv_rest rs (record {
      offset = buf.offset + length s;
      left = buf.left - length s;
      content = buf.content ++ s;
    }) in
    if buf.left == 0 then handled buf.content buf.offset else rest

-- Up to ten digits as a `u32`, for `%10u`.
unfoldable pub scan_digits : ℕ → ℕ → Bytes → ℕ
unfolding isdigit
scan_digits zero n s = n % 2 ^ 32
scan_digits (suc k) n [] = n % 2 ^ 32
scan_digits (suc k) n (c ∷ s) =
    let more = scan_digits k (n * 10 + (c - b'0')) s in if isdigit c then more else n % 2 ^ 32

-- `sscanf (tmp, "%*[^0-9\r\n]%10u", &clen)` behind at least one other character; 0 where no digit
-- comes before the end of the line.
unfoldable pub scan_length : Bytes → ℕ
unfolding scan_digits isdigit
scan_length [] = 0
scan_length (c ∷ s) =
    if isdigit c then scan_digits 10 0 (c ∷ s) else if c == 13 || c == 10 then 0 else scan_length s

-- The length that the header names, from the first `Content-Length:` in any case, or 0.
unfoldable pub content_length : Bytes → ℕ
unfolding scan_length memfind str2lower c_str
content_length header =
    elim (memfind (some (str2lower (c_str header))) (some (codes "content-length:"))) [
      | none ↦ 0
      | some i ↦ scan_length (drop i (c_str header))
    ]

-- The blank line behind the header.
abbrev pub crlf2 : Bytes
crlf2 = 13 ∷ 10 ∷ 13 ∷ 10 ∷ []

-- The first packet `s`, the header's length `hlen` and the content's `clen`: what is too much is
-- dropped, and the buffer starts with the rest. The sum of the lengths is a `u32`.
unfoldable pub recv_start : ℕ → ℕ → Bytes → Buffer
recv_start hlen clen s =
    let total = (hlen + clen) % 2 ^ 32 in
    let n = min (length s) total in record { offset = n; left = total - n; content = take n s }

-- `recv_from_peer` with no buffer: the first packet, which must hold the whole header. `alloc` says
-- whether `malloc` gives the buffer. 400, 413 and 507 are `BAD_REQUEST`,
-- `REQUEST_ENTITY_TOO_LARGE` and `INSUFFICIENT_STORAGE`.
unfoldable pub recv_first : Bool → ℕ → Bytes → List RecvResult → RecvOutcome
recv_first alloc max_content_len s rs = elim (memfind (some (c_str s)) (some crlf2)) [
  | none ↦ refused 400
  | some i ↦
      if ltb max_content_len (content_length s)
      then refused 413
      else if not alloc
      then refused 507
      else recv_rest rs (recv_start (i + 4) (content_length s) s)
]
