-- ===== src/Connection/Send.antt =====
-- The send queue of server/connection.c as the bytes that are still to go out.
use holyhttp.Prelude.{
  drop-drop, ℕ, zero, suc, ◌+◌, ◌-◌, ◌%◌, ◌^◌, ◌≤◌, ◌<◌, ◌⊎◌, ◌≡◌, refl, List, [], ◌∷◌, ◌++◌, arith,
  ltb, false, length, Bytes, take, drop, flat, All, ap, sym, ◌∙◌, Bool-cases, inl, inr,
  append_assoc, append-nil, take_all, length-take, length-drop, length-append,
}
use holyhttp.Connection.{
  Buffer, SendState, SendResult, sent, not_ready, broken, Sending, pending, prepend, send_loop,
  send_to_peer,
}

-- The bytes that are still to go out, in order.
abbrev pub queued : List Buffer → Bytes
queued = flat pending

-- A buffer holds all the bytes that it counts.
abbrev pub IsBuffer : Buffer → Type 0
IsBuffer b = b.offset + b.left ≤ length b.content

-- The kernel takes no more than it is offered.
abbrev pub Takes : (ℕ → SendResult) → ℕ → List Buffer → Type 0
Takes answer i [] = Unit {0}
Takes answer i (b ∷ bs) = ((n : ℕ) → answer i ≡ sent n → n ≤ b.left) × Takes answer (i + 1) bs

take_nil : (n : ℕ) → take {A = ℕ} n [] ≡ []
take_nil zero = refl
take_nil (suc n) = refl

-- What `take` takes in two steps.
take_split : (n m : ℕ) (s : Bytes) → n ≤ m → take n (take m s) ++ take (m - n) (drop n s) ≡ take m s
take_split zero m s h = ap (λ k. take k s) (omega arith)
take_split (suc n) zero s h = absurd (omega arith)
take_split (suc n) (suc m) [] h = take_nil (suc m - suc n)
take_split (suc n) (suc m) (c ∷ s) h =
    let e : suc m - suc n ≡ m - n = omega arith in
    ap (◌∷◌ c) (ap (λ k. take n (take m s) ++ take k (drop n s)) e ∙ take_split n m s (omega arith))

split_pending :
    (b : Buffer) (n : ℕ)
    → n ≤ b.left
    → take n (pending b) ++ pending (record b { offset = b.offset + n; left = b.left - n })
      ≡ pending b
split_pending b n h =
    ap (λ s. take n (pending b) ++ take (b.left - n) s) (sym (drop-drop b.offset n b.content))
    ∙ take_split n b.left (drop b.offset b.content) h

-- All of a buffer goes out when the kernel does not take less.
pending_all :
    (b : Buffer) (n : ℕ) → IsBuffer b → n ≤ b.left → ¬ (n < b.left) → take n (pending b) ≡ pending b
pending_all b n v h k =
    take_all n (pending b) (omega (arith, length-take b.left (drop b.offset b.content)))

goes :
    (b : Buffer) (n : ℕ) (bs : List Buffer)
    → n ≤ b.left
    → take n (pending b) ++ queued (record b { offset = b.offset + n; left = b.left - n } ∷ bs)
      ≡ queued (b ∷ bs)
goes b n bs h =
    let c : Buffer = record b { offset = b.offset + n; left = b.left - n } in
    sym (append_assoc (take n (pending b)) (pending c) (queued bs))
    ∙ ap (λ s. s ++ queued bs) (split_pending b n h)

pub ltb-not : (n m : ℕ) → ltb n m ≡ false → ¬ (n < m)
ltb-not n m h = ground arith

pub answer_cases : (r : SendResult) → ((n : ℕ) × (r ≡ sent n)) ⊎ ((r ≡ not_ready) ⊎ (r ≡ broken))
answer_cases (sent n) = inl (n, refl)
answer_cases not_ready = inr (inl refl)
answer_cases broken = inr (inr refl)

-- What goes out, followed by what stays queued, is what was queued: no byte is lost, repeated or
-- reordered, however much of each buffer the kernel takes and however the loop ends, when it takes
-- no more of a buffer than it is offered.
pub send_loop-queued :
    (answer : ℕ → SendResult) (i : ℕ) (bs : List Buffer) (len : ℕ)
    → All IsBuffer bs
    → Takes answer i bs
    → (send_loop answer i bs len).out ++ queued (send_loop answer i bs len).queue ≡ queued bs
unfolding prepend send_loop
send_loop-queued answer i [] len v t = refl
send_loop-queued answer i (b ∷ bs) len (v, vs) (t, ts) = elim (answer_cases (answer i)) [
  | inl (n, e) ↦ elim (Bool-cases (ltb n b.left)) [
    | inl f ↦ rw (e, f, send_loop) (goes b n bs (t n e))
    | inr f ↦
        rw (e, f, send_loop)
          (let rest : Sending = send_loop answer (i + 1) bs ((len + 2 ^ 32 - n) % 2 ^ 32) in
            append_assoc (take n (pending b)) rest.out (queued rest.queue)
            ∙ ap (λ s. s ++ (rest.out ++ queued rest.queue))
                (pending_all b n v (t n e) (ltb-not n b.left f))
            ∙ ap (λ s. pending b ++ s)
                (send_loop-queued answer (i + 1) bs ((len + 2 ^ 32 - n) % 2 ^ 32) vs ts))
  ]
  | inr (inl e) ↦ rw (e, send_loop) refl
  | inr (inr e) ↦ rw (e, send_loop) refl
]

length-pending : (b : Buffer) → IsBuffer b → length (pending b) ≡ b.left
length-pending b v =
    omega (arith, length-take b.left (drop b.offset b.content), length-drop b.offset b.content)

length-queued :
    (b : Buffer) (bs : List Buffer)
    → IsBuffer b
    → length (queued (b ∷ bs)) ≡ b.left + length (queued bs)
length-queued b bs v = omega (arith, length-append (pending b) (queued bs), length-pending b v)

-- The count of what stays: the subtraction does not wrap.
count_left :
    (len n l q : ℕ) → len ≡ l + q → len < 2 ^ 32 → n ≤ l → (len + 2 ^ 32 - n) % 2 ^ 32 ≡ (l - n) + q
count_left len n l q h k g = omega arith

-- The number that the connection keeps stays the number of bytes that are queued, when it was so
-- before and the kernel takes no more of a buffer than it is offered.
pub send_loop-length :
    (answer : ℕ → SendResult) (i : ℕ) (bs : List Buffer) (len : ℕ)
    → All IsBuffer bs
    → Takes answer i bs
    → len ≡ length (queued bs)
    → len < 2 ^ 32
    → (send_loop answer i bs len).queue_len ≡ length (queued (send_loop answer i bs len).queue)
unfolding send_loop prepend
send_loop-length answer i [] len v t h k = h
send_loop-length answer i (b ∷ bs) len (v, vs) (t, ts) h k = elim (answer_cases (answer i)) [
  | inl (n, e) ↦ elim (Bool-cases (ltb n b.left)) [
    | inl f ↦
        rw (e, f, send_loop)
          (let c : Buffer = record b { offset = b.offset + n; left = b.left - n } in
            let w : IsBuffer c = omega (arith, v, t n e) in
            count_left len n b.left (length (queued bs)) (h ∙ length-queued b bs v) k (t n e)
            ∙ sym (length-queued c bs w))
    | inr f ↦
        rw (e, f, send_loop)
          (let len' : ℕ = (len + 2 ^ 32 - n) % 2 ^ 32 in
            let g : len' ≡ (b.left - n) + length (queued bs) =
              count_left len n b.left (length (queued bs)) (h ∙ length-queued b bs v) k (t n e) in
            let g' : len' ≡ length (queued bs) = omega (arith, g, t n e, ltb-not n b.left f) in
            send_loop-length answer (i + 1) bs len' vs ts g' (omega arith))
  ]
  | inr (inl e) ↦ rw (e, send_loop) h
  | inr (inr e) ↦ rw (e, send_loop) h
]

-- What holds of a connection's queue between two events.
abbrev pub IsSending : SendState → Type 0
IsSending self =
    All IsBuffer self.send_buf
    × (self.send_buf_len ≡ length (queued self.send_buf))
    × (self.send_buf_len < 2 ^ 32)

-- `send_to_peer` sends a prefix of what was queued and keeps the rest, with its length, when the
-- kernel takes no more of a buffer than it is offered.
pub send_to_peer-queued :
    (answer : ℕ → SendResult) (self : SendState)
    → IsSending self
    → Takes answer 0 self.send_buf
    → ((send_to_peer answer self).1 ++ queued (send_to_peer answer self).0.send_buf
        ≡ queued self.send_buf)
      × ((send_to_peer answer self).0.send_buf_len
          ≡ length (queued (send_to_peer answer self).0.send_buf))
unfolding send_to_peer
send_to_peer-queued answer self (v, h, k) t = (
  send_loop-queued answer 0 self.send_buf self.send_buf_len v t,
  send_loop-length answer 0 self.send_buf self.send_buf_len v t h k,
)

queued-append : (bs cs : List Buffer) → queued (bs ++ cs) ≡ queued bs ++ queued cs
queued-append [] cs = refl
queued-append (b ∷ bs) cs =
    ap (λ s. pending b ++ s) (queued-append bs cs)
    ∙ sym (append_assoc (pending b) (queued bs) (queued cs))

pub queued-new :
    (bs : List Buffer) (s : Bytes)
    → queued (bs ++ record { offset = 0; left = length s; content = s } ∷ []) ≡ queued bs ++ s
queued-new bs s =
    queued-append bs (record { offset = 0; left = length s; content = s } ∷ [])
    ∙ ap (λ r. queued bs ++ r)
        (append-nil (take (length s) s) ∙ take_all (length s) s (omega arith))
