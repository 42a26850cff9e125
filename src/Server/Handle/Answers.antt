-- ===== src/Server/Handle/Answers.antt =====
-- A request on its way through `handle_data` of server/server.c: from the bytes of the request to
-- those of the handler that the application has set for its path.
use holyhttp.Prelude.{
  ◌||◌, ℕ, ◌^◌, ◌<◌, ◌≡◌, refl, inl, inr, List, [], ◌∷◌, ◌++◌, none, some, if◌then◌else◌, ◌==◌,
  Bool, Bool-cases, true, false, Bytes, codes, bytes_eq, IsText, All, length, flat, ap, sym, ◌∙◌,
  arith, append_assoc, append-nil,
}
use holyhttp.ListHead.{ListHead}
use holyhttp.Dict.Chain.{Kv}
use holyhttp.Dict.{Dict}
use holyhttp.Dict.Invariant.{IsDict}
use holyhttp.Dict.Typed.{get_str_ptr}
use holyhttp.Text.Letters.{str2lower}
use holyhttp.Text.Trim.{trim}
use holyhttp.Text.Affix.{str_starts_with}
use holyhttp.Packet.{parsed}
use holyhttp.Packet.Line.{Version, IsUrl}
use holyhttp.Packet.Headers.{IsField}
use holyhttp.Packet.Query.{query_text}
use holyhttp.Packet.Parse.{Packet, new_req_pkt, all_rooms, get_text, new_req_pkt-get_text}
use holyhttp.Connection.{queue_data}
use holyhttp.Connection.Send.{queued}
use holyhttp.Connection.Write.{write_empty, write_to_buf_attempts, empty_lem, queue_data-queued}
use holyhttp.Connection.Peer.{Peer, write}
use holyhttp.Request.Session.{Sessions}
use holyhttp.Request.Life.{Request, request_init, free_request}
use holyhttp.Request.Life.Starts.{all_allocs, init_rooms, request_init-some}
use holyhttp.Server.{Answer, called, set_route, handle_dynamic, handle_uri}
use holyhttp.Server.Routes.{set_route-handle_dynamic}
use holyhttp.Server.Handle.{
  Writing, write_all, Site, Moment, Handled, acts_of, perform, ask, finish, serve, handle_data,
}
use holyhttp.Server.Handle.Steps.{write_all_next, serve_next, handle_started, start}

-- The first call of `malloc` in a write succeeds.
abbrev pub AtOnce : Writing → Type 0
AtOnce w = (rest : List Bool) × (w.allocs ≡ true ∷ rest)

-- What a list of writes hands over.
abbrev pub texts : List Writing → Bytes
texts = flat (λ w. w.text)

write-queued :
    (w : Writing) (date : Bytes) (self : Peer)
    → AtOnce w
    → (p : Peer) × (write w.allocs date (some w.text) self ≡ some p)
      × (queued p.sending.send_buf ≡ queued self.sending.send_buf ++ w.text)
unfolding write
write-queued w date self (rest, a) = elim (Bool-cases (length w.text == 0)) [
  | inl z ↦ (
    record self { sending = self.sending },
    rw (write_empty w.allocs date w.text self.sending z) refl,
    rw (empty_lem w.text z) (sym (append-nil (queued self.sending.send_buf))),
  )
  | inr n ↦ (
    record self { sending = queue_data w.text self.sending },
    rw (a, (write_to_buf_attempts 0 rest date w.text self.sending (ground arith)).0) refl,
    queue_data-queued w.text self.sending,
  )
]

write_all-queued :
    (ws : List Writing) (date : Bytes) (self : Peer)
    → All AtOnce ws
    → (p : Peer) × (write_all date ws self ≡ some p)
      × (queued p.sending.send_buf ≡ queued self.sending.send_buf ++ texts ws)
unfolding write_all
write_all-queued [] date self h = (self, refl, sym (append-nil (queued self.sending.send_buf)))
write_all-queued (w ∷ ws) date self (h, hs) =
    let (q, e, s) = write-queued w date self h in
    let (p, f, t) = write_all-queued ws date q hs in
    (
      p,
      write_all_next date w ws self q e ∙ f,
      t ∙ ap (λ x. x ++ texts ws) s ∙ append_assoc (queued self.sending.send_buf) w.text (texts ws),
    )

module _ (lists : ListHead Kv) where
  finish-sending :
      (b : Bool) (req : Request lists) (p : Peer) (ss : Sessions)
      → (finish lists b req p ss).peer.sending ≡ p.sending
  unfolding finish free_request
  finish-sending true req p ss = refl
  finish-sending false req p ss = refl

  finish-kept :
      (b : Bool) (req : Request lists) (p : Peer) (ss : Sessions)
      → (finish lists b req p ss).kept ≡ (if b then some req else none)
  unfolding finish
  finish-kept true req p ss = refl
  finish-kept false req p ss = refl

  -- Without `prerouting` a request whose answer is a handler gets what the handler does.
  acts_of-called :
      (site : Site lists) (m : Moment lists) (req : Request lists) (n : ℕ)
      → site.prerouting ≡ none
      → handle_uri lists m.dup site.static_path site.prefix none site.whiteroutes site.routes
          req.pkt.uri
        ≡ called n
      → ((acts_of lists site m req).0.writes ≡ [])
        × ((acts_of lists site m req).0.incomplete ≡ false)
        × ((acts_of lists site m req).1 ≡ site.handler n req)
  unfolding acts_of perform ask
  acts_of-called site m req n e f = (rw e refl, rw e refl, rw (e, f) refl)

  serve-called :
      (site : Site lists) (m : Moment lists) (req : Request lists) (n : ℕ) (conn : Peer)
      (ss : Sessions)
      → site.prerouting ≡ none
      → handle_uri lists m.dup site.static_path site.prefix none site.whiteroutes site.routes
          req.pkt.uri
        ≡ called n
      → All AtOnce (site.handler n req).writes
      → (h : Handled lists) × (serve lists site m req conn ss ≡ some h)
        × (queued h.peer.sending.send_buf
            ≡ queued conn.sending.send_buf ++ texts (site.handler n req).writes)
        × (h.kept ≡ (if (site.handler n req).incomplete then some req else none))
  serve-called site m req n conn ss e f a =
      let acts = acts_of lists site m req in
      let (none_before, settled, does) = acts_of-called site m req n e f in
      let ws : acts.0.writes ++ acts.1.writes ≡ (site.handler n req).writes =
        ap (λ x. x ++ acts.1.writes) none_before ∙ ap (λ x. x.writes) does in
      let (p, w, q) = write_all-queued (site.handler n req).writes (site.gmt m.now) conn a in
      let done =
        serve_next lists site m req conn p ss
          (ap (λ x. write_all (site.gmt m.now) x conn) ws ∙ w) in
      let marks : acts.0.incomplete || acts.1.incomplete ≡ (site.handler n req).incomplete =
        ap (λ b. b || acts.1.incomplete) settled ∙ ap (λ x. x.incomplete) does in
      (
        _,
        done,
        ap (λ x. queued x.send_buf) (finish-sending _ req p _) ∙ q,
        finish-kept _ req p _ ∙ ap (λ b. if b then some req else none) marks,
      )

  not_static :
      (dup : Bool) (static_path prefix uri : Bytes) (whiteroutes routes : Dict lists)
      → str_starts_with (some uri) (some prefix) ≡ false
      → handle_uri lists dup static_path prefix none whiteroutes routes uri
        ≡ handle_dynamic lists dup prefix none whiteroutes routes uri
  unfolding handle_uri
  not_static dup static_path prefix uri whiteroutes routes e = rw (e, handle_uri) refl

  abbrev answer_at : Site lists → Moment lists → Packet → Answer
  answer_at site m pkt =
      handle_uri lists m.dup site.static_path site.prefix none site.whiteroutes site.routes pkt.uri

  -- A packet whose answer is a handler.
  handle_data-called :
      (site : Site lists) (m : Moment lists) (code : ℕ) (text : Bytes) (pkt : Packet) (n : ℕ)
      (conn : Peer) (ss : Sessions)
      → new_req_pkt m.fuel m.inner code m.rooms (some text) ≡ some (parsed pkt)
      → m.init ≡ init_rooms
      → site.prerouting ≡ none
      → handle_uri lists m.dup site.static_path site.prefix none site.whiteroutes site.routes
          pkt.uri
        ≡ called n
      → ((req : Request lists) → All AtOnce (site.handler n req).writes)
      → (req : Request lists) × (h : Handled lists) × (handle_data lists site m code text conn ss
          ≡ some h)
        × (req.pkt ≡ pkt)
        × (queued h.peer.sending.send_buf
            ≡ queued conn.sending.send_buf ++ texts (site.handler n req).writes)
        × (h.kept ≡ (if (site.handler n req).incomplete then some req else none))
  handle_data-called site m code text pkt n conn ss parses init pre answer once =
      let age = site.session_timeout in
      let (req, found, same, peer) = request_init-some lists m.clock age site.age pkt 200 conn ss in
      let r = start lists site m pkt conn ss in
      let begun : r.request ≡ some req =
        ap (λ i. (request_init lists i m.clock age site.age pkt 200 conn ss).request) init
        ∙ found in
      let conn_begun =
        ap (λ i. (request_init lists i m.clock age site.age pkt 200 conn ss).peer) init ∙ peer in
      let (h, e, q, k) =
        serve-called site m req n r.peer r.sessions pre (ap (answer_at site m) same ∙ answer)
          (once req) in
      (
        req,
        h,
        handle_started lists site m code text pkt conn ss req parses begun ∙ e,
        same,
        q ∙ ap (λ c. queued c.sending.send_buf ++ texts (site.handler n req).writes) conn_begun,
        k,
      )

  -- The bytes of a GET request for the path of a route, up to slashes at the ends, get to the
  -- handler that was set for the route, with the path and the arguments of the request; and what the
  -- handler writes is queued behind what was queued before, in order. The request is freed unless
  -- the handler marks it as incomplete. Every allocation succeeds at
  -- once, the path is not for the icon or a static file, no white route matches, there is no
  -- `prerouting`, and the request is written out as one that parses: its URL is shorter than 250
  -- characters and holds no white space, the path has no question mark, the text has no NUL, and
  -- every field has a name of 1 to 50 characters without a colon and a value of 1 to 250 characters
  -- that does not begin with a blank, neither with a line end.
  pub handle_data-set_route :
      (site : Site lists) (m : Moment lists) (code : ℕ) (conn : Peer) (ss : Sessions)
      (routes : Dict lists) (uri : Bytes) (n : ℕ) (path : Bytes) (args : List (Bytes × Bytes))
      (v : Version) (p : Bytes × Bytes) (ps : List (Bytes × Bytes))
      → IsDict lists routes
      → site.routes ≡ (set_route lists true all_allocs routes (some uri) n).1
      → 0 < n
      → n < 2 ^ 64
      → IsText uri
      → IsText path
      → bytes_eq (trim uri b'/') (trim path b'/') ≡ true
      → str_starts_with (some path) (some site.prefix) ≡ false
      → bytes_eq (str2lower path) (codes "/favicon.ico") ≡ false
      → get_str_ptr lists true site.whiteroutes (some (trim path b'/')) ≡ 0
      → site.prerouting ≡ none
      → m.rooms ≡ all_rooms
      → m.init ≡ init_rooms
      → m.dup ≡ true
      → ((req : Request lists) → All AtOnce (site.handler n req).writes)
      → IsUrl (path ++ b'?' ∷ query_text args)
      → length (path ++ b'?' ∷ query_text args) < 250
      → All (λ c. (c == b'?') ≡ false) path
      → All (λ (a : Bytes × Bytes). IsText a.0 × IsText a.1) args
      → All IsField (p ∷ ps)
      → IsText (get_text path args v (p ∷ ps))
      → (req : Request lists) × (h : Handled lists) × (handle_data lists site m code
            (get_text path args v (p ∷ ps))
            conn
            ss
          ≡ some h)
        × (req.pkt.uri ≡ path)
        × (req.pkt.args ≡ args)
        × (queued h.peer.sending.send_buf
            ≡ queued conn.sending.send_buf ++ texts (site.handler n req).writes)
        × (h.kept ≡ (if (site.handler n req).incomplete then some req else none))
  handle_data-set_route site m code conn ss routes uri n path args v p ps inv set h0 h1 hu hp same
        static icon white pre rooms init dup once url short mark texts_ok fields text =
      let bytes = get_text path args v (p ∷ ps) in
      let routed =
        set_route-handle_dynamic lists routes site.whiteroutes all_allocs uri path n site.prefix
          none inv hu hp h0 h1 icon white refl in
      let answer =
        not_static m.dup site.static_path site.prefix path site.whiteroutes site.routes static
        ∙ ap (λ b. handle_dynamic lists b site.prefix none site.whiteroutes site.routes path) dup
        ∙ ap (λ r. handle_dynamic lists true site.prefix none site.whiteroutes r path) set
        ∙ routed.2
        ∙ ap
            (λ b.
              if b
              then called n
              else handle_dynamic lists true site.prefix none site.whiteroutes routes path)
            same in
      let parses =
        ap (λ r. new_req_pkt m.fuel m.inner code r (some (get_text path args v (p ∷ ps)))) rooms
        ∙ new_req_pkt-get_text m.fuel m.inner code path args v p ps url short mark texts_ok fields
            text in
      let (req, h, done, pkt, sends, kept) =
        handle_data-called site m code (get_text path args v (p ∷ ps)) _ n conn ss parses init pre
          answer once in
      (req, h, done, ap (λ x. x.uri) pkt, ap (λ x. x.args) pkt, sends, kept)
