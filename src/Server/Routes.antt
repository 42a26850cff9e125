-- ===== src/Server/Routes.antt =====
-- The routes that `set_route` and `set_whiteroute` of server/server.c set, as `handle_dynamic` reads
-- them.
use holyhttp.Prelude.{
  ℕ, zero, suc, ◌^◌, ◌<◌, ◌≡◌, refl, [], ◌∷◌, Option, some, if◌then◌else◌, ◌==◌, ◌&&◌, Bool, true,
  false, Bytes, codes, bytes_eq, take, length, inl, inr, Bool-cases, arith, IsText, ap, ◌∙◌,
}
use holyhttp.ListHead.{ListHead}
use holyhttp.Dict.Chain.{Kv}
use holyhttp.Dict.{Dict}
use holyhttp.Dict.Invariant.{IsDict}
use holyhttp.Dict.Access.{all_ok}
use holyhttp.Dict.Typed.{Allocs, set_str_ptr, get_str_ptr}
use holyhttp.Dict.Strings.{set_str_ptr-get_str_ptr}
use holyhttp.Text.Letters.{str2lower}
use holyhttp.Text.Trim.{trim, trim_left, trim_right, trim_right_loop}
use holyhttp.Server.{passes, call_handler, called, set_route, set_whiteroute, handle_dynamic}

trim_left-IsText : (s : Bytes) (c : ℕ) → IsText s → IsText (trim_left s c)
unfolding trim_left
trim_left-IsText [] c h = tt
trim_left-IsText (d ∷ s) c (h, hs) = elim (Bool-cases (d == c)) [
  | inl e ↦ rw e (trim_left-IsText s c hs)
  | inr e ↦ rw e (h, hs)
]

take-IsText : (n : ℕ) (s : Bytes) → IsText s → IsText (take n s)
take-IsText zero s h = tt
take-IsText (suc n) [] h = tt
take-IsText (suc n) (c ∷ s) (h, hs) = (h, take-IsText n s hs)

trim-IsText : (s : Bytes) (c : ℕ) → IsText s → IsText (trim s c)
unfolding trim trim_right
trim-IsText s c h =
    take-IsText (trim_right_loop (trim_left s c) c (length (trim_left s c))) (trim_left s c)
      (trim_left-IsText s c h)

call_if :
    (b : Bool) (p x : ℕ)
    → 0 < p
    → call_handler (if b then p else x) ≡ (if b then called p else call_handler x)
unfolding call_handler
call_if true p x h = ground arith
call_if false p x h = refl

is_not_zero : (n : ℕ) → 0 < n → (n == 0) ≡ false
is_not_zero n h = ground arith

module _ (lists : ListHead Kv) where
  set_route_lem :
      (routes : Dict lists) (a : Allocs) (uri : Bytes) (handler : ℕ)
      → 0 < handler
      → set_route lists true a routes (some uri) handler
        ≡ set_str_ptr lists a routes (some (trim uri b'/')) handler
  unfolding set_route
  set_route_lem routes a uri handler h = rw (set_route, is_not_zero handler h) refl

  handle_dynamic_lem :
      (whiteroutes routes : Dict lists) (prefix : Bytes) (prerouting : Option Bool) (v : Bytes)
      → bytes_eq (str2lower v) (codes "/favicon.ico") ≡ false
      → get_str_ptr lists true whiteroutes (some (trim v b'/')) ≡ 0
      → passes prerouting ≡ true
      → handle_dynamic lists true prefix prerouting whiteroutes routes v
        ≡ call_handler (get_str_ptr lists true routes (some (trim v b'/')))
  unfolding handle_dynamic
  handle_dynamic_lem whiteroutes routes prefix prerouting v e w p =
      rw (handle_dynamic, e, w, p) refl

  -- Setting a route succeeds exactly when every allocation does. Then a request is answered by the
  -- new handler when its path is the route's up to slashes at the ends, and as before otherwise, where
  -- it is not for the icon, no white route matches and `prerouting` agrees. Otherwise every request
  -- is answered as before. The routes stay well formed.
  pub set_route-handle_dynamic :
      (routes whiteroutes : Dict lists) (a : Allocs) (uri v : Bytes) (handler : ℕ)
      → (prefix : Bytes) (prerouting : Option Bool) → IsDict lists routes
      → IsText uri
      → IsText v
      → 0 < handler
      → handler < 2 ^ 64
      → bytes_eq (str2lower v) (codes "/favicon.ico") ≡ false
      → get_str_ptr lists true whiteroutes (some (trim v b'/')) ≡ 0
      → passes prerouting ≡ true
      → let r = set_route lists true a routes (some uri) handler in
        (r.0 ≡ all_ok a)
        × IsDict lists r.1
        × (handle_dynamic lists true prefix prerouting whiteroutes r.1 v ≡ (
            if all_ok a && bytes_eq (trim uri b'/') (trim v b'/')
            then called handler
            else handle_dynamic lists true prefix prerouting whiteroutes routes v))
  set_route-handle_dynamic routes whiteroutes a uri v handler prefix prerouting inv hu hv h0 h1 e w
        p =
      rw (set_route_lem routes a uri handler h0) (
        let s =
          set_str_ptr-get_str_ptr lists routes (trim uri b'/') inv (trim-IsText uri b'/' hu) a
            handler (trim v b'/') h1 (trim-IsText v b'/' hv) in
        let after = (set_str_ptr lists a routes (some (trim uri b'/')) handler).1 in
        (
          s.0,
          s.1,
          handle_dynamic_lem whiteroutes after prefix prerouting v e w p
              ∙ ap call_handler s.2
              ∙ call_if (all_ok a && bytes_eq (trim uri b'/') (trim v b'/')) handler
                  (get_str_ptr lists true routes (some (trim v b'/'))) h0
              ∙ rw (handle_dynamic_lem whiteroutes routes prefix prerouting v e w p) refl,
        ))

  set_whiteroute_lem :
      (whiteroutes : Dict lists) (a : Allocs) (uri : Bytes) (handler : ℕ)
      → 0 < handler
      → set_whiteroute lists true a whiteroutes (some uri) handler
        ≡ set_str_ptr lists a whiteroutes (some (trim uri b'/')) handler
  unfolding set_whiteroute
  set_whiteroute_lem whiteroutes a uri handler h = rw (set_whiteroute, is_not_zero handler h) refl

  white_answer :
      (whiteroutes routes : Dict lists) (prefix : Bytes) (prerouting : Option Bool) (v : Bytes)
      → (handler : ℕ) → bytes_eq (str2lower v) (codes "/favicon.ico") ≡ false
      → get_str_ptr lists true whiteroutes (some (trim v b'/')) ≡ handler
      → 0 < handler
      → handle_dynamic lists true prefix prerouting whiteroutes routes v ≡ called handler
  unfolding handle_dynamic
  white_answer whiteroutes routes prefix prerouting v handler e w h =
      rw (handle_dynamic, e, w, is_not_zero handler h) refl

  -- Once a white route is set, with memory for it, every request for its path up to slashes at the
  -- ends is answered by its handler, whatever `prerouting` says and whatever the other routes are,
  -- unless it is for the icon.
  pub set_whiteroute-handle_dynamic :
      (routes whiteroutes : Dict lists) (a : Allocs) (uri v : Bytes) (handler : ℕ)
      → (prefix : Bytes) (prerouting : Option Bool) → IsDict lists whiteroutes
      → IsText uri
      → IsText v
      → 0 < handler
      → handler < 2 ^ 64
      → all_ok a ≡ true
      → bytes_eq (str2lower v) (codes "/favicon.ico") ≡ false
      → bytes_eq (trim uri b'/') (trim v b'/') ≡ true
      → handle_dynamic lists true prefix prerouting
          (set_whiteroute lists true a whiteroutes (some uri) handler).1
          routes
          v
        ≡ called handler
  set_whiteroute-handle_dynamic routes whiteroutes a uri v handler prefix prerouting inv hu hv h0 h1
        ok e same =
      rw (set_whiteroute_lem whiteroutes a uri handler h0) (
        let s =
          set_str_ptr-get_str_ptr lists whiteroutes (trim uri b'/') inv (trim-IsText uri b'/' hu) a
            handler (trim v b'/') h1 (trim-IsText v b'/' hv) in
        let after = (set_str_ptr lists a whiteroutes (some (trim uri b'/')) handler).1 in
        white_answer after routes prefix prerouting v handler e (s.2 ∙ rw (ok, same) refl) h0)
