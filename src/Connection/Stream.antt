-- ===== src/Connection/Stream.antt =====
-- A connection's output over any sequence of events: the application writes, the server sends a
-- status, and the descriptor becomes writable. `send_to_peer`, `write_to_buf` and `send_status` of
-- server/connection.c.
use holyhttp.Prelude.{
  ℕ, ◌+◌, ◌-◌, ◌%◌, ◌^◌, ◌≤◌, ◌<◌, ◌≡◌, refl, List, [], ◌∷◌, ◌++◌, some, arith, ltb, ◌==◌, Bool,
  true, false, length, Bytes, All, ap, sym, ◌∙◌, Bool-cases, inl, inr, append_assoc, append-nil,
  length-append,
}
use holyhttp.Connection.{
  Buffer, SendState, SendResult, sent, exited, prepend, send_loop, send_to_peer, write_to_buf,
  send_status,
}
use holyhttp.Connection.Status.{status_packet}
use holyhttp.Connection.Write.{handed, write_to_buf-handed}
use holyhttp.Connection.Send.{
  queued, IsBuffer, Takes, IsSending, answer_cases, send_loop-queued, send_loop-length,
  send_to_peer-queued,
}

IsBuffer-rest :
    (b : Buffer) (n : ℕ)
    → IsBuffer b
    → n ≤ b.left
    → IsBuffer (record b { offset = b.offset + n; left = b.left - n })
IsBuffer-rest b n v h = omega arith

send_loop-IsBuffer :
    (answer : ℕ → SendResult) (i : ℕ) (bs : List Buffer) (len : ℕ)
    → All IsBuffer bs
    → Takes answer i bs
    → All IsBuffer (send_loop answer i bs len).queue
unfolding send_loop prepend
send_loop-IsBuffer answer i [] len v t = tt
send_loop-IsBuffer answer i (b ∷ bs) len (v, vs) (t, ts) = elim (answer_cases (answer i)) [
  | inl (n, e) ↦ elim (Bool-cases (ltb n b.left)) [
    | inl f ↦ rw (e, f, send_loop) (IsBuffer-rest b n v (t n e), vs)
    | inr f ↦
        rw (e, f, send_loop)
          (send_loop-IsBuffer answer (i + 1) bs ((len + 2 ^ 32 - n) % 2 ^ 32) vs ts)
  ]
  | inr (inl e) ↦ rw (e, send_loop) (v, vs)
  | inr (inr e) ↦ rw (e, send_loop) (v, vs)
]

send_to_peer-IsSending :
    (answer : ℕ → SendResult) (self : SendState)
    → IsSending self
    → Takes answer 0 self.send_buf
    → IsSending (send_to_peer answer self).0
unfolding send_to_peer
send_to_peer-IsSending answer self (v, h, k) t =
    let r = send_loop answer 0 self.send_buf self.send_buf_len in
    let e = send_loop-length answer 0 self.send_buf self.send_buf_len v t h k in
    let q = send_loop-queued answer 0 self.send_buf self.send_buf_len v t in
    (
      send_loop-IsBuffer answer 0 self.send_buf self.send_buf_len v t,
      e,
      omega (arith, e, h, k, ap length q, length-append r.out (queued r.queue)),
    )

-- A connection with what the application has handed over and what the kernel has taken.
pub record Traffic : Type 0 where
  pub state : SendState
  pub accepted : Bytes
  pub out : Bytes

-- The application writes, the server sends a status, or the socket becomes writable and takes no
-- more of each buffer than it is offered. What is accepted of a write is the data, or the page of
-- 507 where there is no memory for it.
pub data Step : Traffic → Traffic → Type 0 where
  writes :
      (t : Traffic) (allocs : List Bool) (date content : Bytes) (r : Bool × SendState)
      → write_to_buf allocs date (some content) t.state ≡ some r
      → t.state.send_buf_len + length (handed allocs date content) < 2 ^ 32
      → Step t (record t { state = r.1; accepted = t.accepted ++ handed allocs date content })
  answers :
      (t : Traffic) (allocs : List Bool) (date : Bytes) (code : ℕ) (r : Bool × SendState)
      → send_status allocs date code t.state ≡ some r
      → t.state.send_buf_len + length (handed allocs date (status_packet date code)) < 2 ^ 32
      → Step t (record t {
        state = r.1;
        accepted = t.accepted ++ handed allocs date (status_packet date code);
      })
  flushes :
      (t : Traffic) (answer : ℕ → SendResult)
      → Takes answer 0 t.state.send_buf
      → Step t (record t {
        state = (send_to_peer answer t.state).0;
        out = t.out ++ (send_to_peer answer t.state).1;
      })

pub data Reach (s : Traffic) : Traffic → Type 0 where
  here : Reach s s
  next : {t u : Traffic} → Reach s t → Step t u → Reach s u

-- A new connection.
abbrev pub quiet : Traffic
quiet = record {
  state = record { send_buf = []; send_buf_len = 0; reading = true };
  accepted = [];
  out = [];
}

record IsStream (t : Traffic) : Type 0 where
  sending : IsSending t.state
  whole : t.out ++ queued t.state.send_buf ≡ t.accepted

quiet-IsStream : IsStream quiet
quiet-IsStream = record { sending = (tt, refl, omega arith); whole = refl }

writes-IsStream :
    (t : Traffic) (allocs : List Bool) (date content : Bytes) (r : Bool × SendState)
    → write_to_buf allocs date (some content) t.state ≡ some r
    → t.state.send_buf_len + length (handed allocs date content) < 2 ^ 32
    → IsStream t
    → IsStream (record t { state = r.1; accepted = t.accepted ++ handed allocs date content })
writes-IsStream t allocs date content r e h i =
    let (v, q) = write_to_buf-handed allocs date content t.state r e i.sending h in
    record {
      sending = v;
      whole =
          ap (λ s. t.out ++ s) q
          ∙ sym (append_assoc t.out (queued t.state.send_buf) (handed allocs date content))
          ∙ ap (λ s. s ++ handed allocs date content) i.whole;
    }

Step-IsStream : {t u : Traffic} → Step t u → IsStream t → IsStream u
unfolding send_status
Step-IsStream (writes t allocs date content r e h) i = writes-IsStream t allocs date content r e h i
Step-IsStream (answers t allocs date code r e h) i =
    writes-IsStream t allocs date (status_packet date code) r e h i
Step-IsStream (flushes t answer h) i = record {
  sending = send_to_peer-IsSending answer t.state i.sending h;
  whole =
      append_assoc t.out (send_to_peer answer t.state).1
        (queued (send_to_peer answer t.state).0.send_buf)
      ∙ ap (λ s. t.out ++ s) (send_to_peer-queued answer t.state i.sending h).0
      ∙ i.whole;
}

Reach-IsStream : {t : Traffic} → Reach quiet t → IsStream t
Reach-IsStream here = quiet-IsStream
Reach-IsStream (next r s) = Step-IsStream s (Reach-IsStream r)

-- After any sequence of events on a new connection in which the length of the queue stays below
-- 2 ^ 32 with each write, the bytes that went out and those that are still queued are together the bytes that were accepted, a page of 507 in place of each write that found
-- no memory at first, in order; and the length that the connection
-- keeps is the number of queued bytes.
pub Reach-stream :
    (t : Traffic)
    → Reach quiet t
    → (t.out ++ queued t.state.send_buf ≡ t.accepted)
      × (t.state.send_buf_len ≡ length (queued t.state.send_buf))
Reach-stream t r = let i = Reach-IsStream r in (i.whole, i.sending.1)

-- The kernel takes all of each buffer.
abbrev pub TakesAll : (ℕ → SendResult) → ℕ → List Buffer → Type 0
TakesAll answer i [] = Unit {0}
TakesAll answer i (b ∷ bs) = (answer i ≡ sent b.left) × TakesAll answer (i + 1) bs

send_loop_all :
    (answer : ℕ → SendResult) (i : ℕ) (bs : List Buffer) (len : ℕ)
    → TakesAll answer i bs
    → ((send_loop answer i bs len).queue ≡ [])
      × ((send_loop answer i bs len).drained ≡ true)
      × ((send_loop answer i bs len).ending ≡ exited)
unfolding send_loop prepend
send_loop_all answer i [] len t = (refl, refl, refl)
send_loop_all answer i (b ∷ bs) len (t, ts) =
    let f : ltb b.left b.left ≡ false = ground arith in
    rw (t, f, send_loop) (send_loop_all answer (i + 1) bs ((len + 2 ^ 32 - b.left) % 2 ^ 32) ts)

TakesAll-Takes :
    (answer : ℕ → SendResult) (i : ℕ) (bs : List Buffer) → TakesAll answer i bs → Takes answer i bs
TakesAll-Takes answer i [] t = tt
TakesAll-Takes answer i (b ∷ bs) (t, ts) =
    (λ n e. let q : b.left ≡ n = cc in omega (arith, q), TakesAll-Takes answer (i + 1) bs ts)

-- When the kernel takes all of each buffer, everything that was queued goes out, the queue and its
-- length are zero, and the descriptor is registered for reading again.
pub send_to_peer_drains :
    (answer : ℕ → SendResult) (self : SendState)
    → IsSending self
    → TakesAll answer 0 self.send_buf
    → ((send_to_peer answer self).0.send_buf ≡ [])
      × ((send_to_peer answer self).0.send_buf_len ≡ 0)
      × ((send_to_peer answer self).0.reading ≡ true)
      × ((send_to_peer answer self).1 ≡ queued self.send_buf)
      × ((send_to_peer answer self).2 ≡ exited)
unfolding send_to_peer
send_to_peer_drains answer self (v, h, k) t =
    let r = send_loop answer 0 self.send_buf self.send_buf_len in
    let (e, d, f) = send_loop_all answer 0 self.send_buf self.send_buf_len t in
    let ts = TakesAll-Takes answer 0 self.send_buf t in
    let l : r.queue_len ≡ 0 =
      send_loop-length answer 0 self.send_buf self.send_buf_len v ts h k
      ∙ ap (λ q. length (queued q)) e in
    let z : (r.queue_len == 0) ≡ true = ground arith in
    (
      e,
      l,
      rw (d, z) refl,
      sym (append-nil r.out)
          ∙ ap (λ q. r.out ++ queued q) (sym e)
          ∙ send_loop-queued answer 0 self.send_buf self.send_buf_len v ts,
      f,
    )
