-- ===== src/Request/Life/Starts.antt =====
-- `holy_request_init` of server/request.c where there is memory.
use holyhttp.Prelude.{
  ℕ, ◌+◌, ◌%◌, ◌^◌, ◌<◌, ◌≡◌, refl, inl, inr, [], ◌∷◌, ◌++◌, codes, if◌then◌else◌, Option, none,
  some, ◌==◌, Option-cases, true, false, Bytes, length, take, ap, arith,
}
use mathlib.Core.Option.{none-ne-some, some_inj}
use holyhttp.ListHead.{ListHead}
use holyhttp.Tlv.{Tlv, TlvType, tlv_str, new_tlv, tlv_len}
use holyhttp.Dict.Chain.{Kv}
use holyhttp.Dict.{Dict, fresh, dict_set}
use holyhttp.Dict.Typed.{Allocs, set_kv, set_type_type, set_str_str}
use holyhttp.Packet.Fields.{stored}
use holyhttp.Packet.Parse.{Packet}
use holyhttp.Connection.Peer.{Peer}
use holyhttp.Request.{cookie_text}
use holyhttp.Request.Handler.{get_cookie}
use holyhttp.Request.Session.{Sessions, Steps, find_session, make_session, get_or_new_session}
use holyhttp.Request.Life.{
  Clock, InitRooms, Request, session_id_name, gen_session_id, known, set_cookie, start_request,
  init_end, request_init,
}

new_tlv-some :
    (t : TlvType) (n : ℕ) (v : Bytes) → 0 < n → (x : Tlv) × (new_tlv true t n (some v) ≡ some x)
unfolding new_tlv
new_tlv-some t n v h =
    let e : (n == 0) ≡ false = ground arith in
    (record { t = t; l = tlv_len t n v; v = take (tlv_len t n v) v }, rw e refl)

make_session-some :
    (steps : Steps) (timeout : ℕ) (id : Bytes) (ss : Sessions)
    → steps.dict ≡ true
    → steps.stored ≡ true
    → steps.reread ≡ true
    → steps.cookie ≡ true
    → (make_session steps timeout id ss).0 ≡ some id
unfolding make_session
make_session-some steps timeout id ss d s r c = rw (d, s, r, c) refl

get_or_new_session-some :
    (steps : Steps) (timeout : ℕ) (id : Bytes) (sid : Option Bytes) (ss : Sessions)
    → steps.dict ≡ true
    → steps.stored ≡ true
    → steps.reread ≡ true
    → steps.cookie ≡ true
    → (found : Bytes) × ((get_or_new_session steps timeout id sid ss).0 ≡ some found)
unfolding get_or_new_session
get_or_new_session-some steps timeout id none ss d s r c =
    (id, make_session-some steps timeout id ss d s r c)
get_or_new_session-some steps timeout id (some []) ss d s r c =
    (id, make_session-some steps timeout id ss d s r c)
get_or_new_session-some steps timeout id (some (x ∷ xs)) ss d s r c =
    elim (Option-cases (if steps.looked then find_session ss (x ∷ xs) else none)) [
      | inl e ↦ (id, rw (e, get_or_new_session) (make_session-some steps timeout id ss d s r c))
      | inr (found, e) ↦ (x ∷ xs, rw (e, get_or_new_session) refl)
    ]

-- Every allocation succeeds.
abbrev pub all_allocs : Allocs
all_allocs = record { key = true; value = true; entry = true }

abbrev pub init_rooms : InitRooms
init_rooms = record {
  cookies = true;
  asked = true;
  looked = true;
  agent = true;
  dict = true;
  stored = true;
  reread = true;
  cookie = all_allocs;
}

module _ (lists : ListHead Kv) where
  set_kv-true :
      (d : Dict lists) (o p : Option Tlv) (x y : Tlv)
      → o ≡ some x
      → p ≡ some y
      → (set_kv lists true d o p).0 ≡ true
  unfolding set_kv dict_set
  set_kv-true d o p x y e f = rw (e, f) refl

  set_str_str-true :
      (d : Dict lists) (k v : Bytes) → (set_str_str lists all_allocs d (some k) (some v)).0 ≡ true
  unfolding set_str_str set_type_type
  set_str_str-true d k v =
      let (x, e) = new_tlv-some tlv_str (length k + 1) (k ++ 0 ∷ []) (omega arith) in
      let (y, f) = new_tlv-some tlv_str (length v + 1) (v ++ 0 ∷ []) (omega arith) in
      set_kv-true d _ _ x y e f

  init_end-some :
      (now : ℕ) (pkt : Packet) (cookies : Dict lists) (code : ℕ) (conn : Peer) (found : Bytes)
      (r : Option Bytes × Sessions)
      → r.0 ≡ some found
      → let i = init_end lists now pkt cookies code conn r in
        (i.request
          ≡ some (record { pkt = pkt; session = found; cookies = cookies; opened = false }))
        × (i.peer ≡ record conn { refer = (conn.refer + 1) % 2 ^ 16 })
  unfolding init_end start_request
  init_end-some now pkt cookies code conn found (none, ss) e = absurd (none-ne-some found e)
  init_end-some now pkt cookies code conn found (some sid, ss) e =
      let q : sid ≡ found = some_inj.0 e in
      (
        ap (λ s. some (record { pkt = pkt; session = s; cookies = cookies; opened = false })) q,
        refl,
      )

  -- With memory, a request is started for every packet.
  pub request_init-some :
      (clock : Clock) (timeout age : ℕ) (pkt : Packet) (code : ℕ) (conn : Peer) (ss : Sessions)
      → let i = request_init lists init_rooms clock timeout age pkt code conn ss in
        (req : Request lists) × (i.request ≡ some req)
        × (req.pkt ≡ pkt)
        × (i.peer ≡ record conn { refer = (conn.refer + 1) % 2 ^ 16 })
  unfolding request_init set_cookie
  request_init-some clock timeout age pkt code conn ss =
      let sid = get_cookie pkt.cookies (some session_id_name) in
      let id =
        gen_session_id clock (stored pkt.headers.fields (codes "user-agent")) conn.port conn.ip in
      let set =
        set_cookie lists all_allocs (fresh lists) (some session_id_name) (some id) (some age) in
      let steps : Steps = record {
        looked = true;
        dict = true;
        stored = true;
        reread = true;
        cookie = set.0;
      } in
      let r = get_or_new_session steps timeout id sid ss in
      let cookies = if known sid ss then fresh lists else set.1 in
      let (found, e) =
        get_or_new_session-some steps timeout id sid ss refl refl refl
          (set_str_str-true (fresh lists) session_id_name (cookie_text id (some age))) in
      let i = init_end-some clock.uptime pkt cookies code conn found r e in
      (record { pkt = pkt; session = found; cookies = cookies; opened = false }, i.0, refl, i.1)
