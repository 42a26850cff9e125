-- ===== src/Server/Loop/Invariant.antt =====
-- The table of connections of server/server.c and the connections that it leads to, under every
-- event.
use holyhttp.Prelude.{
  ℕ, ◌^◌, ◌<◌, ◌≡◌, ◌≢◌, refl, ◌⊎◌, inl, inr, Option, none, some, if◌then◌else◌, ◌==◌, ◌&&◌, Bool,
  Bool-cases, true, false, ap, sym, subst, ◌∙◌, arith, ==_iff,
}
use mathlib.Core.Option.{none-ne-some, some_inj}
use holyhttp.ListHead.{ListHead}
use holyhttp.Dict.Chain.{Kv}
use holyhttp.Dict.Invariant.{IsDict}
use holyhttp.Dict.Access.{all_ok}
use holyhttp.Dict.Typed.{get_int_ptr}
use holyhttp.Dict.Numbers.{set_int_ptr-get_int_ptr, del_by_int-get_int_ptr}
use holyhttp.Connection.Close.{Closing, retry, freed, close_conn}
use holyhttp.Connection.Peer.{Peer, new_conn, put_off}
use holyhttp.Server.Loop.{
  CloseRooms, set_check, drop_check, kill_check, Accepted, put, Server, accept_connection, update,
  closing, close_at,
}

pub put_here : (heap : ℕ → Option Peer) (a : ℕ) (p : Option Peer) → put heap a p a ≡ p
unfolding put
put_here heap a p = let e : (a == a) ≡ true = ground arith in rw e refl

pub put_other :
    (heap : ℕ → Option Peer) (a b : ℕ) (p : Option Peer) → b ≢ a → put heap a p b ≡ heap b
unfolding put
put_other heap a b p n = let e : (b == a) ≡ false = ground (arith, n) in rw e refl

same_or : (a b : ℕ) → (a ≡ b) ⊎ (a ≢ b)
same_or a b = elim (Bool-cases (a == b)) [
  | inl e ↦ inl ((==_iff a b).0 e)
  | inr e ↦ inr (ground arith)
]

true-ne-false : true ≢ false
true-ne-false e = cc

-- The descriptor and the pointer to the timer stay.
abbrev pub SameEnds : Peer → Peer → Type 0
SameEnds old conn = (conn.fd ≡ old.fd) × (conn.armed ≡ old.armed)

-- A close whose key finds memory.
abbrev pub keyed : Bool → CloseRooms
keyed room = record { key = true; timer = room }

-- A descriptor that can be stored and deleted.
abbrev pub IsFd : ℕ → Type 0
IsFd fd = (0 < fd) × (fd < 2 ^ 64)

-- Every timer in the tree checks a connection that is not freed and points to it.
abbrev pub HasChecked : (ℕ → Bool) → (ℕ → Option Peer) → Type 0
HasChecked checks heap =
    (a : ℕ) → checks a ≡ true → (conn : Peer) × (heap a ≡ some conn) × (conn.armed ≡ true)

-- The connection at one address changes, and no timer of another is set.
pub put-HasChecked :
    (checks after : ℕ → Bool) (heap : ℕ → Option Peer) (address : ℕ) (p : Option Peer)
    → ((a : ℕ) → a ≢ address → after a ≡ checks a)
    → (after address ≡ true → (conn : Peer) × (p ≡ some conn) × (conn.armed ≡ true))
    → HasChecked checks heap
    → HasChecked after (put heap address p)
put-HasChecked checks after heap address p others here h a e = elim (same_or a address) [
  | inl q ↦
      let (conn, f, armed) = here (sym (ap after q) ∙ e) in
      (conn, ap (put heap address p) q ∙ put_here heap address p ∙ f, armed)
  | inr n ↦
      let (conn, f, armed) = h a (sym (others a n) ∙ e) in
      (conn, put_other heap address a p n ∙ f, armed)
]

pub set_check_other :
    (set : Bool) (address : ℕ) (checks : ℕ → Bool) (a : ℕ)
    → a ≢ address
    → set_check set address checks a ≡ checks a
unfolding set_check
set_check_other set address checks a n =
    let e : (a == address) ≡ false = ground (arith, n) in rw e refl

pub drop_check_other :
    (address : ℕ) (checks : ℕ → Bool) (a : ℕ) → a ≢ address → drop_check address checks a ≡ checks a
unfolding drop_check
drop_check_other address checks a n =
    let e : (a == address) ≡ false = ground (arith, n) in rw e refl

kill_check_other :
    (armed : Bool) (address : ℕ) (checks : ℕ → Bool) (a : ℕ)
    → a ≢ address
    → kill_check armed address checks a ≡ checks a
unfolding kill_check
kill_check_other true address checks a n = drop_check_other address checks a n
kill_check_other false address checks a n = refl

-- Where nothing was set, what is set is what there is memory for.
pub set_check_here :
    (set : Bool) (address : ℕ) (checks : ℕ → Bool)
    → checks address ≡ false
    → set_check set address checks address ≡ true
    → set ≡ true
unfolding set_check
set_check_here true address checks e h = refl
set_check_here false address checks e h =
    let same : (address == address) ≡ true = ground arith in
    let kept : set_check false address checks address ≡ checks address =
      rw (set_check, same) refl in
    absurd (true-ne-false (sym h ∙ kept ∙ e))

pub drop_check_here : (address : ℕ) (checks : ℕ → Bool) → drop_check address checks address ≡ false
unfolding drop_check
drop_check_here address checks =
    let same : (address == address) ≡ true = ground arith in rw same refl

-- No timer checks memory that is not in use.
unchecked :
    (checks : ℕ → Bool) (heap : ℕ → Option Peer) (address : ℕ)
    → HasChecked checks heap
    → heap address ≡ none
    → checks address ≡ false
unchecked checks heap address h e = elim (Bool-cases (checks address)) [
  | inl c ↦ let (conn, f, armed) = h address c in absurd (none-ne-some conn (sym e ∙ f))
  | inr c ↦ c
]

-- The timer of a connection is killed when it is closed.
killed :
    (checks : ℕ → Bool) (heap : ℕ → Option Peer) (address : ℕ) (old : Peer) (armed : Bool)
    → HasChecked checks heap
    → heap address ≡ some old
    → armed ≡ old.armed
    → kill_check armed address checks address ≡ false
unfolding kill_check
killed checks heap address old true h e same = drop_check_here address checks
killed checks heap address old false h e same = elim (Bool-cases (checks address)) [
  | inl c ↦
      let (conn, f, armed) = h address c in
      let q : conn ≡ old = some_inj.0 (sym f ∙ e) in
      absurd (true-ne-false (sym armed ∙ ap (λ x. x.armed) q ∙ sym same))
  | inr c ↦ c
]

-- Nothing, or a connection of a descriptor that is not freed.
abbrev pub Leads : (ℕ → Option Peer) → ℕ → ℕ → Type 0
Leads heap fd a = (a ≡ 0) ⊎ ((conn : Peer) × (heap a ≡ some conn) × (conn.fd ≡ fd))

module _ (lists : ListHead Kv) where
  -- The table is well formed, every descriptor leads to a connection of its own that is not freed,
  -- every connection has a descriptor that can be deleted from the table, and every timer checks a
  -- connection that is not freed.
  pub record IsServer (s : Server lists) : Type 0 where
    pub dict : IsDict lists s.conns
    pub leads : (fd : ℕ) → fd < 2 ^ 64 → Leads s.heap fd (get_int_ptr lists true s.conns fd)
    pub fds : (a : ℕ) (conn : Peer) → s.heap a ≡ some conn → IsFd conn.fd
    pub checked : HasChecked s.checks s.heap

  pub update-Leads :
      (heap : ℕ → Option Peer) (address fd a : ℕ) (old conn : Peer)
      → heap address ≡ some old
      → conn.fd ≡ old.fd
      → Leads heap fd a
      → Leads (put heap address (some conn)) fd a
  update-Leads heap address fd a old conn e same (inl z) = inl z
  update-Leads heap address fd a old conn e same (inr (found, f, g)) = elim (same_or a address) [
    | inl q ↦
        let found_old : found ≡ old = some_inj.0 (sym f ∙ ap heap q ∙ e) in
        inr (
          conn,
          ap (put heap address (some conn)) q ∙ put_here heap address (some conn),
          same ∙ sym (ap (λ x. x.fd) found_old) ∙ g,
        )
    | inr n ↦ inr (found, put_other heap address a (some conn) n ∙ f, g)
  ]

  pub update-fds :
      (heap : ℕ → Option Peer) (address : ℕ) (conn : Peer)
      → IsFd conn.fd
      → ((a : ℕ) (c : Peer) → heap a ≡ some c → IsFd c.fd)
      → (a : ℕ) (c : Peer) → put heap address (some conn) a ≡ some c
      → IsFd c.fd
  update-fds heap address conn v h a c e = elim (same_or a address) [
    | inl q ↦
        let same : conn ≡ c = some_inj.0 (
          sym (put_here heap address (some conn))
          ∙ sym (ap (put heap address (some conn)) q)
          ∙ e) in
        subst (λ x. IsFd x.fd) same v
    | inr n ↦ h a c (sym (put_other heap address a (some conn) n) ∙ e)
  ]

  pub update-IsServer :
      (s : Server lists) (address : ℕ) (old conn : Peer)
      → IsServer s
      → s.heap address ≡ some old
      → SameEnds old conn
      → IsServer (update lists address conn s)
  update-IsServer s address old conn i e same = record {
    dict = i.dict;
    leads = λ fd h. update-Leads s.heap address fd _ old conn e same.0 (i.leads fd h);
    fds = update-fds s.heap address conn (subst IsFd (sym same.0) (i.fds address old e)) i.fds;
    checked =
        put-HasChecked s.checks s.checks s.heap address (some conn) (λ a n. refl)
          (λ t.
            let (found, f, armed) = i.checked address t in
            let q : found ≡ old = some_inj.0 (sym f ∙ e) in
            (conn, refl, same.1 ∙ sym (ap (λ x. x.armed) q) ∙ armed))
          i.checked;
  }

  freed-Leads :
      (heap : ℕ → Option Peer) (address fd a : ℕ) (old : Peer)
      → heap address ≡ some old
      → old.fd ≢ fd
      → Leads heap fd a
      → Leads (put heap address none) fd a
  freed-Leads heap address fd a old e n (inl z) = inl z
  freed-Leads heap address fd a old e n (inr (found, f, g)) = elim (same_or a address) [
    | inl q ↦
        let found_old : found ≡ old = some_inj.0 (sym f ∙ ap heap q ∙ e) in
        absurd (n (sym (ap (λ x. x.fd) found_old) ∙ g))
    | inr k ↦ inr (found, put_other heap address a none k ∙ f, g)
  ]

  freed-fds :
      (heap : ℕ → Option Peer) (address : ℕ)
      → ((a : ℕ) (c : Peer) → heap a ≡ some c → IsFd c.fd)
      → (a : ℕ) (c : Peer) → put heap address none a ≡ some c
      → IsFd c.fd
  freed-fds heap address h a c e = elim (same_or a address) [
    | inl q ↦
        absurd (
          none-ne-some c
            (sym (put_here heap address none) ∙ sym (ap (put heap address none) q) ∙ e))
    | inr n ↦ h a c (sym (put_other heap address a none n) ∙ e)
  ]

  closing-IsServer :
      (s : Server lists) (room : Bool) (address : ℕ) (old conn : Peer) (c : Closing)
      → IsServer s
      → s.heap address ≡ some old
      → SameEnds old conn
      → IsServer (closing lists (keyed room) address conn c s)
  unfolding closing put_off
  closing-IsServer s room address old conn (retry seconds tries) i e same =
      let next = put_off room conn in
      let dead = killed s.checks s.heap address old conn.armed i.checked e same.1 in
      record {
        dict = i.dict;
        leads = λ fd h. update-Leads s.heap address fd _ old next e same.0 (i.leads fd h);
        fds = update-fds s.heap address next (subst IsFd (sym same.0) (i.fds address old e)) i.fds;
        checked =
            put-HasChecked s.checks
              (set_check room address (kill_check conn.armed address s.checks)) s.heap address
              (some next)
              (λ a n.
                set_check_other room address (kill_check conn.armed address s.checks) a n
                ∙ kill_check_other conn.armed address s.checks a n)
              (λ t. (
                next,
                refl,
                set_check_here room address (kill_check conn.armed address s.checks) dead t,
              ))
              i.checked;
      }
  closing-IsServer s room address old conn freed i e same =
      let dead = killed s.checks s.heap address old conn.armed i.checked e same.1 in
      let v : IsFd conn.fd = subst IsFd (sym same.0) (i.fds address old e) in
      let del0 = del_by_int-get_int_ptr lists s.conns i.dict conn.fd 0 v.1 (omega arith) v.0 in
      record {
        dict = del0.0;
        leads = λ fd h. elim (same_or conn.fd fd) [
          | inl q ↦
              let k : (conn.fd == fd) ≡ true = (==_iff conn.fd fd).1 q in
              inl (
                (del_by_int-get_int_ptr lists s.conns i.dict conn.fd fd v.1 h v.0).2
                ∙ ap (λ b. if b then 0 else get_int_ptr lists true s.conns fd) k)
          | inr n ↦
              let k : (conn.fd == fd) ≡ false = ground (arith, n) in
              let other =
                (del_by_int-get_int_ptr lists s.conns i.dict conn.fd fd v.1 h v.0).2
                ∙ ap (λ b. if b then 0 else get_int_ptr lists true s.conns fd) k in
              subst (Leads (put s.heap address none) fd) (sym other) (
                freed-Leads s.heap address fd (get_int_ptr lists true s.conns fd) old e
                  (λ f. n (same.0 ∙ f)) (i.leads fd h))
        ];
        fds = freed-fds s.heap address i.fds;
        checked =
            put-HasChecked s.checks (kill_check conn.armed address s.checks) s.heap address none
              (kill_check_other conn.armed address s.checks)
              (λ t. absurd (true-ne-false (sym t ∙ dead))) i.checked;
      }

  pub close_at-IsServer :
      (s : Server lists) (room : Bool) (timeout address : ℕ) (old conn : Peer)
      → IsServer s
      → s.heap address ≡ some old
      → SameEnds old conn
      → IsServer (close_at lists timeout (keyed room) address conn s)
  unfolding close_at
  close_at-IsServer s room timeout address old conn i e same =
      closing-IsServer s room address old conn (close_conn timeout conn.refer conn.try_close) i e
        same

  -- What the kernel and `malloc` give for a new connection: a descriptor that is not 0 and memory
  -- that is not in use.
  pub record IsNew (s : Server lists) (a : Accepted) : Type 0 where
    pub descriptor : IsFd a.fd
    pub room : a.address < 2 ^ 64
    pub unused : s.heap a.address ≡ none

  new-Leads :
      (heap : ℕ → Option Peer) (address fd a : ℕ) (conn : Peer)
      → heap address ≡ none
      → Leads heap fd a
      → Leads (put heap address (some conn)) fd a
  new-Leads heap address fd a conn e (inl z) = inl z
  new-Leads heap address fd a conn e (inr (found, f, g)) = elim (same_or a address) [
    | inl q ↦ absurd (none-ne-some found (sym e ∙ ap heap (sym q) ∙ f))
    | inr n ↦ inr (found, put_other heap address a (some conn) n ∙ f, g)
  ]

  accept-Leads :
      (heap : ℕ → Option Peer) (address new_fd fd a : ℕ) (b : Bool) (conn : Peer)
      → heap address ≡ none
      → conn.fd ≡ new_fd
      → Leads heap fd a
      → Leads (put heap address (some conn)) fd (if b && new_fd == fd then address else a)
  accept-Leads heap address new_fd fd a false conn e same l = new-Leads heap address fd a conn e l
  accept-Leads heap address new_fd fd a true conn e same l = elim (same_or new_fd fd) [
    | inl q ↦
        let k : (new_fd == fd) ≡ true = (==_iff new_fd fd).1 q in
        rw k (inr (conn, put_here heap address (some conn), same ∙ q))
    | inr n ↦
        let k : (new_fd == fd) ≡ false = ground (arith, n) in
        rw k (new-Leads heap address fd a conn e l)
  ]

  pub accept_connection-IsServer :
      (s : Server lists) (a : Accepted)
      → IsServer s
      → IsNew s a
      → IsServer (accept_connection lists (some a) s)
  unfolding accept_connection new_conn
  accept_connection-IsServer s a i n = elim (Bool-cases (a.address == 0)) [
    | inl z ↦ rw z i
    | inr p ↦
        let conn = new_conn a.fd a.ip a.port a.now a.timer in
        rw p (record {
          dict =
              (set_int_ptr-get_int_ptr lists s.conns i.dict a.fd a.entry a.address 0 n.descriptor.1
                n.room (omega arith)).1;
          leads = λ fd h.
              subst (Leads (put s.heap a.address (some conn)) fd)
                (sym
                  (set_int_ptr-get_int_ptr lists s.conns i.dict a.fd a.entry a.address fd
                    n.descriptor.1 n.room h).2)
                (accept-Leads s.heap a.address a.fd fd (get_int_ptr lists true s.conns fd)
                  (all_ok a.entry) conn n.unused refl (i.leads fd h));
          fds = update-fds s.heap a.address conn n.descriptor i.fds;
          checked =
              put-HasChecked s.checks (set_check a.timer a.address s.checks) s.heap a.address
                (some conn) (set_check_other a.timer a.address s.checks)
                (λ t. (
                  conn,
                  refl,
                  set_check_here a.timer a.address s.checks
                      (unchecked s.checks s.heap a.address i.checked n.unused) t,
                ))
                i.checked;
        })
  ]
