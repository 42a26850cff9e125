-- ===== src/Connection/Write.antt =====
-- `write_to_buf` of server/connection.c over the results of `malloc`: what it queues, and when it
-- returns.
use holyhttp.Prelude.{
  ℕ, zero, suc, ◌+◌, ◌^◌, ◌<◌, ◌⊎◌, ◌≡◌, refl, List, [], ◌∷◌, ◌++◌, Option, none, some, arith,
  if◌then◌else◌, ◌==◌, Bool, true, false, length, Bytes, ap, sym, ◌∙◌, Bool-cases, subst, inl, inr,
  replicate, length-append, append-nil, All-append,
}
use mathlib.Core.Option
use mathlib.Core.Option.{none-ne-some, some_inj}
use holyhttp.Connection.{SendState, queue_data, write_to_buf}
use holyhttp.Connection.Status.{status_packet, status_packet_filled}
use holyhttp.Connection.Send.{IsBuffer, queued, IsSending, queued-new}

pub empty_lem : (s : Bytes) → (length s == 0) ≡ true → s ≡ []
empty_lem [] h = refl
empty_lem (c ∷ s) h = ground arith

filled : (s : Bytes) → 0 < length s → (length s == 0) ≡ false
filled s h = ground arith

page_filled : (date : Bytes) → (length (status_packet date 507) == 0) ≡ false
page_filled date = filled (status_packet date 507) (status_packet_filled 507 date)

write_fails :
    (allocs : List Bool) (date content : Bytes) (self : SendState)
    → (length content == 0) ≡ false
    → write_to_buf (false ∷ allocs) date (some content) self
      ≡ Option.map
          (λ r. (false, r.1))
          (write_to_buf allocs date (some (status_packet date 507)) self)
unfolding write_to_buf
write_fails allocs date content self e = rw e refl

pub write_empty :
    (allocs : List Bool) (date content : Bytes) (self : SendState)
    → (length content == 0) ≡ true
    → write_to_buf allocs date (some content) self ≡ some (false, self)
unfolding write_to_buf
write_empty [] date content self e = rw e refl
write_empty (true ∷ allocs) date content self e = rw e refl
write_empty (false ∷ allocs) date content self e = rw e refl

page_queued :
    (k : ℕ) (rest : List Bool) (date : Bytes) (self : SendState)
    → Option.map {B = Bool × SendState}
        (λ r. (false, r.1))
        (write_to_buf (replicate k false ++ true ∷ rest) date (some (status_packet date 507)) self)
      ≡ some (false, queue_data (status_packet date 507) self)
unfolding write_to_buf
page_queued zero rest date self = rw (page_filled date) refl
page_queued (suc k) rest date self =
    rw
      (
        write_fails (replicate k false ++ true ∷ rest) date (status_packet date 507) self
            (page_filled date),
        page_queued k rest date self,
      )
      refl

never_returns :
    (k : ℕ) (date content : Bytes) (self : SendState)
    → (length content == 0) ≡ false
    → write_to_buf (replicate k false) date (some content) self ≡ none
unfolding write_to_buf
never_returns zero date content self e = rw e refl
never_returns (suc k) date content self e =
    rw
      (
        write_fails (replicate k false) date content self e,
        never_returns k date (status_packet date 507) self (page_filled date),
      )
      refl

-- A write of some bytes returns after the first call of `malloc` that succeeds. When that is its
-- first call, the bytes are queued and it returns 1; otherwise one page of 507 is queued in their
-- place and it returns 0. While every call fails it does not return, however many there are.
pub write_to_buf_attempts :
    (k : ℕ) (rest : List Bool) (date content : Bytes) (self : SendState)
    → 0 < length content
    → (write_to_buf (true ∷ rest) date (some content) self ≡ some (true, queue_data content self))
      × (write_to_buf (replicate (suc k) false ++ true ∷ rest) date (some content) self
          ≡ some (false, queue_data (status_packet date 507) self))
      × (write_to_buf (replicate k false) date (some content) self ≡ none)
unfolding write_to_buf
write_to_buf_attempts k rest date content self h = (
  rw (filled content h) refl,
  write_fails (replicate k false ++ true ∷ rest) date content self (filled content h)
      ∙ page_queued k rest date self,
  never_returns k date content self (filled content h),
)

-- What a write queues: the data, or a page in its place.
unfoldable pub handed : List Bool → Bytes → Bytes → Bytes
handed [] date content = []
handed (true ∷ allocs) date content = content
handed (false ∷ allocs) date content = if length content == 0 then [] else status_packet date 507

handed_empty :
    (allocs : List Bool) (date content : Bytes)
    → (length content == 0) ≡ true
    → handed allocs date content ≡ []
unfolding handed
handed_empty [] date content f = refl
handed_empty (true ∷ allocs) date content f = empty_lem content f
handed_empty (false ∷ allocs) date content f = rw f refl

state_of : (p r : Bool × SendState) → some p ≡ some r → r.1 ≡ p.1
state_of p r e = sym (ap (λ q. q.1) (some_inj.0 e))

-- The result behind a failed allocation has the state of the page's write.
behind :
    (o : Option (Bool × SendState)) (r : Bool × SendState)
    → Option.map {B = Bool × SendState} (λ q. (false, q.1)) o ≡ some r
    → (p : Bool × SendState) × (o ≡ some p) × (r.1 ≡ p.1)
behind none r e = absurd (none-ne-some r e)
behind (some p) r e = (p, refl, state_of (false, p.1) r e)

write_true :
    (allocs : List Bool) (date content : Bytes) (self : SendState)
    → (length content == 0) ≡ false
    → write_to_buf (true ∷ allocs) date (some content) self ≡ some (true, queue_data content self)
unfolding write_to_buf
write_true allocs date content self f = rw f refl

-- Behind a first failure it is the page, however many more there are.
page_handed :
    (allocs : List Bool) (date : Bytes) (self : SendState) (r : Bool × SendState)
    → write_to_buf allocs date (some (status_packet date 507)) self ≡ some r
    → r.1 ≡ queue_data (status_packet date 507) self
page_handed [] date self r e =
    let page = status_packet date 507 in
    absurd (none-ne-some r (sym (never_returns 0 date page self (page_filled date)) ∙ e))
page_handed (true ∷ allocs) date self r e =
    let page = status_packet date 507 in
    state_of (true, queue_data page self) r
      (sym (write_true allocs date page self (page_filled date)) ∙ e)
page_handed (false ∷ allocs) date self r e =
    let page = status_packet date 507 in
    let (p, q, same) =
      behind (write_to_buf allocs date (some page) self) r
        (sym (write_fails allocs date page self (page_filled date)) ∙ e) in
    same ∙ page_handed allocs date self p q

write_filled :
    (allocs : List Bool) (date content : Bytes) (self : SendState) (r : Bool × SendState)
    → (length content == 0) ≡ false
    → write_to_buf allocs date (some content) self ≡ some r
    → r.1 ≡ queue_data (handed allocs date content) self
unfolding handed
write_filled [] date content self r f e =
    absurd (none-ne-some r (sym (never_returns 0 date content self f) ∙ e))
write_filled (true ∷ allocs) date content self r f e =
    state_of (true, queue_data content self) r (sym (write_true allocs date content self f) ∙ e)
write_filled (false ∷ allocs) date content self r f e =
    let page = status_packet date 507 in
    let (p, q, same) =
      behind (write_to_buf allocs date (some page) self) r
        (sym (write_fails allocs date content self f) ∙ e) in
    rw f (same ∙ page_handed allocs date self p q)

-- A write that returns has left the queue alone or has queued just this.
pub write_cases :
    (allocs : List Bool) (date content : Bytes) (self : SendState) (r : Bool × SendState)
    → write_to_buf allocs date (some content) self ≡ some r
    → ((r.1 ≡ self) × (handed allocs date content ≡ []))
      ⊎ (r.1 ≡ queue_data (handed allocs date content) self)
unfolding write_to_buf handed
write_cases allocs date content self r e = elim (Bool-cases (length content == 0)) [
  | inl f ↦
      let q = state_of (false, self) r (sym (write_empty allocs date content self f) ∙ e) in
      inl (q, handed_empty allocs date content f)
  | inr f ↦ inr (write_filled allocs date content self r f e)
]

pub queue_data-IsSending :
    (content : Bytes) (self : SendState)
    → IsSending self
    → self.send_buf_len + length content < 2 ^ 32
    → IsSending (queue_data content self)
unfolding queue_data
queue_data-IsSending content self (v, h, k) q = (
  All-append IsBuffer self.send_buf _ v (omega arith, tt),
  omega (
    arith,
    h,
    ap length (queued-new self.send_buf content),
    length-append (queued self.send_buf) content,
  ),
  omega arith,
)

pub queue_data-queued :
    (content : Bytes) (self : SendState)
    → queued (queue_data content self).send_buf ≡ queued self.send_buf ++ content
unfolding queue_data
queue_data-queued content self = queued-new self.send_buf content

-- A write that returns keeps the queue well formed and puts what is handed over behind it, as long
-- as the sum of the lengths is a `u32`.
pub write_to_buf-handed :
    (allocs : List Bool) (date content : Bytes) (self : SendState) (r : Bool × SendState)
    → write_to_buf allocs date (some content) self ≡ some r
    → IsSending self
    → self.send_buf_len + length (handed allocs date content) < 2 ^ 32
    → IsSending r.1 × (queued r.1.send_buf ≡ queued self.send_buf ++ handed allocs date content)
write_to_buf-handed allocs date content self r e v h =
    elim (write_cases allocs date content self r e) [
      | inl (q, n) ↦
          (subst IsSending (sym q) v, rw (q, n) (sym (append-nil (queued self.send_buf))))
      | inr q ↦
          let s = handed allocs date content in
          (
            subst IsSending (sym q) (queue_data-IsSending s self v h),
            rw q (queue_data-queued s self),
          )
    ]
