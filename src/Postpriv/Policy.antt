-- ===== src/Postpriv/Policy.antt =====
-- postprivparent.c: what the privileged process lets a child do, whatever the child sends.
use checkedc_vsftpd.Base.{
  ℕ, zero, suc, ◌%◌, ◌≤◌, ◌≡◌, ◌≢◌, refl, ◌⊎◌, inl, inr, Bool, true, false, not, ◌&&◌, ◌||◌, Option,
  none, some, List, [], ◌∷◌, arith, ltb, ◌==◌, if◌then◌else◌, Bool-cases, Bytes, codes,
}
use checkedc_vsftpd.Run.{Run, Fault, ok, fault, ◌>>=◌, map_run}
use checkedc_vsftpd.Parseconf.{Tunables}
use checkedc_vsftpd.Sockaddr.{Sockaddr, vsf_sysutil_sockaddr_addr_equal}
use checkedc_vsftpd.Privsock.{priv_sock_get_cmd, priv_sock_get_int, priv_sock_recv_fd}
use checkedc_vsftpd.Privops.{
  Effect, closes, binds, connects, chowns, Peer, System, Bind, Round, minus_one, bind_twice,
  bound_port, connect_sock, min_port, max_port, scaled_port, round_ends, listen_loop, admit,
  vsf_privop_get_ftp_port_sock, vsf_privop_pasv_cleanup, vsf_privop_pasv_listen,
  vsf_privop_accept_pasv, vsf_privop_do_file_chown,
}
use checkedc_vsftpd.Privops.Ports.{scaled_port-Between}
use checkedc_vsftpd.Postpriv.{
  Served, chown_reply, data_sock_reply, listen_reply, accept_reply, cmd_process_chown,
  cmd_process_get_data_sock, cmd_process_pasv_cleanup, cmd_process_pasv_active,
  cmd_process_pasv_listen, cmd_process_pasv_accept, dispatch, cmd_chown, cmd_get_data_sock,
  cmd_pasv_cleanup, cmd_pasv_active, cmd_pasv_listen, cmd_pasv_accept, process_post_login_req,
}

abbrev pub All {ℓ κ} : {A : Type ℓ} → (A → Type κ) → List A → Type κ
All P [] = Unit
All P (x ∷ xs) = P x × All P xs

-- A run that ends in `die()`, or in a value of which `P` holds.
abbrev pub DiesOr {ℓ} : {A : Type ℓ} → (A → Type 0) → Run A → Type 0
DiesOr P (ok a) = P a
DiesOr P (fault e) = e ≡ Fault.die

-- What may be done to the outside for one request, where `passed` is the descriptor that came with
-- it: a port is bound that the configuration says, a connection is made to the client's own address
-- and no reserved port, and a file is given to the user of the configuration if it is regular and
-- belongs to the anonymous or the guest user.
abbrev pub Permitted : Tunables → Peer → System → Option ℕ → Effect → Type 0
Permitted t p s passed (closes fd) = Unit
Permitted t p s passed (binds port) =
    (port ≡ bound_port t) ⊎ (min_port t ≤ port) × (port ≤ max_port t)
Permitted t p s passed (connects addr port) = (addr ≡ p.remote_addr) × (1024 ≤ port)
Permitted t p s passed (chowns fd uid) =
    (t.bools (codes "chown_uploads") ≡ true)
    × (passed ≡ some fd)
    × (uid ≡ p.anon_upload_chown_uid)
    × (uid ≢ minus_one)
    × (s.is_regfile ≡ true)
    × ((s.file_uid ≡ p.anon_ftp_uid) ⊎ (s.file_uid ≡ p.guest_user_uid))

-- A descriptor that the child gets is the socket of that connection, or a client that connected
-- from the address of the control connection, unless the configuration lets any in.
abbrev pub Handed : Tunables → Peer → System → Option ℕ → Type 0
Handed t p s none = Unit
Handed t p s (some fd) =
    (fd ≡ s.new_sock)
    ⊎ ((addr : Sockaddr) × (s.accepted ≡ some (fd, addr))
        × ((t.bools (codes "pasv_promiscuous") ≡ true)
            ⊎ (vsf_sysutil_sockaddr_addr_equal p.remote_addr addr ≡ true)))

abbrev pub Obeys : Tunables → Peer → System → Option ℕ → Served → Type 0
Obeys t p s passed sv = All (Permitted t p s passed) sv.done × Handed t p s sv.sent_fd

pub DiesOr->>= {ℓ κ} :
    {A : Type ℓ} {B : Type κ} (P : A → Type 0) (Q : B → Type 0) (r : Run A) (f : A → Run B)
    → DiesOr P r
    → ((a : A) → P a → DiesOr Q (f a))
    → DiesOr Q (r >>= f)
DiesOr->>= P Q (ok a) f p k = k a p
DiesOr->>= P Q (fault e) f p k = p

pub DiesOr-map {ℓ κ} :
    {A : Type ℓ} {B : Type κ} (P : A → Type 0) (Q : B → Type 0) (r : Run A) (f : A → B)
    → DiesOr P r
    → ((a : A) → P a → Q (f a))
    → DiesOr Q (map_run f r)
DiesOr-map P Q (ok a) f p k = k a p
DiesOr-map P Q (fault e) f p k = p

abbrev pub Any {ℓ} : {A : Type ℓ} → A → Type 0
Any a = Unit

recv_fd-passed :
    (passed : Option ℕ) (stream : Bytes)
    → DiesOr (λ r. passed ≡ some r.0) (priv_sock_recv_fd passed stream)
unfolding priv_sock_recv_fd
recv_fd-passed passed [] = refl
recv_fd-passed none (c ∷ stream) = refl
recv_fd-passed (some fd) (c ∷ stream) = refl

pub get_int_dies : (stream : Bytes) → DiesOr Any (priv_sock_get_int stream)
unfolding priv_sock_get_int
get_int_dies [] = refl
get_int_dies (a ∷ []) = refl
get_int_dies (a ∷ b ∷ []) = refl
get_int_dies (a ∷ b ∷ c ∷ []) = refl
get_int_dies (a ∷ b ∷ c ∷ d ∷ stream) = tt

abbrev refused : ℕ → ℕ → ℕ → ℕ → Bool → Bool
refused to uid anon guest regular =
    to == minus_one || (not regular || not (uid == anon) && not (uid == guest))

not_refused :
    (to uid anon guest : ℕ) (regular : Bool)
    → refused to uid anon guest regular ≡ false
    → (to ≢ minus_one) × (regular ≡ true) × ((uid ≡ anon) ⊎ (uid ≡ guest))
not_refused to uid anon guest regular h = ground arith

bind_dies : (first second : Bind) → DiesOr Any (bind_twice first second)
unfolding bind_twice
bind_dies Bind.bound second = tt
bind_dies Bind.addrinuse Bind.bound = tt
bind_dies Bind.addrinuse Bind.addrinuse = refl
bind_dies Bind.addrinuse Bind.acces = refl
bind_dies Bind.addrinuse Bind.failed = refl
bind_dies Bind.acces second = refl
bind_dies Bind.failed second = refl

module _ (t : Tunables) (p : Peer) (s : System) (passed : Option ℕ) where
  chown-Permitted :
      (fd : ℕ)
      → t.bools (codes "chown_uploads") ≡ true
      → passed ≡ some fd
      → DiesOr (All (Permitted t p s passed)) (vsf_privop_do_file_chown p s fd)
  unfolding vsf_privop_do_file_chown
  chown-Permitted fd on from = elim (Bool-cases (s.file_uid == p.anon_upload_chown_uid)) [
    | inl e ↦ rw e tt
    | inr other ↦
        rw other
          (elim (Bool-cases (
            refused p.anon_upload_chown_uid s.file_uid p.anon_ftp_uid p.guest_user_uid
              s.is_regfile)) [
                | inl e ↦ rw e refl
                | inr e ↦
                    let (there, regular, owner) =
                      not_refused p.anon_upload_chown_uid s.file_uid p.anon_ftp_uid p.guest_user_uid
                        s.is_regfile e in
                    rw e ((on, from, refl, there, regular, owner), tt)
              ])
  ]

  chown-Obeys :
      (listening : Option ℕ) (stream : Bytes)
      → t.bools (codes "chown_uploads") ≡ true
      → DiesOr (Obeys t p s passed) (cmd_process_chown p s passed listening stream)
  unfolding cmd_process_chown
  chown-Obeys listening stream on =
      DiesOr->>= _ (Obeys t p s passed) (priv_sock_recv_fd passed stream) _
        (recv_fd-passed passed stream)
        λ r from.
          DiesOr-map _ (Obeys t p s passed) (vsf_privop_do_file_chown p s r.0)
            (chown_reply listening r.0 r.1) (chown-Permitted r.0 on from)
            (λ done all. ((tt, all), tt))

  data_sock-Permitted :
      (listening : Option ℕ) (port : ℕ)
      → DiesOr
          (λ r. All (Permitted t p s passed) r.1 × ((r.0 ≡ none) ⊎ (r.0 ≡ some s.new_sock)))
          (vsf_privop_get_ftp_port_sock t p s listening port false)
  unfolding vsf_privop_get_ftp_port_sock
  data_sock-Permitted (some l) port = refl
  data_sock-Permitted none port = elim (Bool-cases (ltb port 1024)) [
    | inl e ↦ rw e refl
    | inr e ↦ rw e (
        DiesOr-map Any Given (bind_twice s.first_bind s.second_bind)
          (λ _. connect_sock s (binds (bound_port t) ∷ connects p.remote_addr port ∷ []))
          (bind_dies s.first_bind s.second_bind) (λ _ _. connected (not_reserved port e)))
  ]
    where
      Given : Option ℕ × List Effect → Type 0
      Given r = All (Permitted t p s passed) r.1 × ((r.0 ≡ none) ⊎ (r.0 ≡ some s.new_sock))

      not_reserved : (port : ℕ) → ltb port 1024 ≡ false → 1024 ≤ port
      not_reserved port e = ground arith

      connected :
          1024 ≤ port
          → Given (connect_sock s (binds (bound_port t) ∷ connects p.remote_addr port ∷ []))
      connected free = elim (Bool-cases s.is_connected) [
        | inl e ↦ rw e ((inl refl, ((refl, free), tt)), inr refl)
        | inr e ↦ rw e ((tt, (inl refl, ((refl, free), tt))), inl refl)
      ]

  data_sock-Obeys :
      (listening : Option ℕ) (stream : Bytes)
      → DiesOr (Obeys t p s passed) (cmd_process_get_data_sock t p s listening stream)
  unfolding cmd_process_get_data_sock
  data_sock-Obeys listening stream =
      DiesOr->>= Any (Obeys t p s passed) (priv_sock_get_int stream) _ (get_int_dies stream) λ r _.
        DiesOr-map _ (Obeys t p s passed)
          (vsf_privop_get_ftp_port_sock t p s listening (r.0 % 65536) false)
          (data_sock_reply listening r.1) (data_sock-Permitted listening (r.0 % 65536)) (given r.1)
    where
      given :
          (rest : Bytes) (o : Option ℕ × List Effect)
          → All (Permitted t p s passed) o.1 × ((o.0 ≡ none) ⊎ (o.0 ≡ some s.new_sock))
          → Obeys t p s passed (data_sock_reply listening rest o)
      given rest (none, done) (all, _) = (all, tt)
      given rest (some fd, done) (all, inl e) = cc
      given rest (some fd, done) (all, inr e) = ((tt, all), inl (ground (arith, e)))

  listen-Permitted :
      (rounds : ℕ → Round) (n : ℕ) (done : List Effect)
      → All (Permitted t p s passed) done
      → DiesOr (λ r. All (Permitted t p s passed) r.2) (listen_loop t rounds n done)
  unfolding listen_loop
  listen-Permitted rounds zero done all = refl
  listen-Permitted rounds (suc n) done all =
      go (rounds n).outcome (listen_loop t rounds n (closes (rounds n).sock ∷ done))
        (listen-Permitted rounds n (closes (rounds n).sock ∷ done) (tt, all))
    where
      go :
          (o : Bind) (rest : Run (ℕ × ℕ × List Effect))
          → DiesOr (λ r. All (Permitted t p s passed) r.2) rest
          → DiesOr
              (λ r. All (Permitted t p s passed) r.2)
              (round_ends o
                (ok (
                  (rounds n).sock,
                  scaled_port t (rounds n),
                  binds (scaled_port t (rounds n)) ∷ done,
                ))
                rest)
      go Bind.bound rest later = (inr (scaled_port-Between t (rounds n)), all)
      go Bind.addrinuse rest later = later
      go Bind.acces rest later = later
      go Bind.failed rest later = refl

  listen-Obeys :
      (listening : Option ℕ) (stream : Bytes)
      → DiesOr (Obeys t p s passed) (cmd_process_pasv_listen t s listening stream)
  unfolding cmd_process_pasv_listen vsf_privop_pasv_listen
  listen-Obeys (some l) stream = refl
  listen-Obeys none stream =
      DiesOr-map (λ r. All (Permitted t p s passed) r.2) (Obeys t p s passed)
        (listen_loop t s.rounds 9 []) (listen_reply stream) (listen-Permitted s.rounds 9 [] tt)
        (λ r all. (all, tt))

  accept-Obeys :
      (listening : Option ℕ) (stream : Bytes)
      → DiesOr (Obeys t p s passed) (cmd_process_pasv_accept t p s listening stream)
  unfolding cmd_process_pasv_accept vsf_privop_accept_pasv
  accept-Obeys none stream = refl
  accept-Obeys (some l) stream = admitted s.accepted refl
    where
      admitted :
          (o : Option (ℕ × Sockaddr))
          → s.accepted ≡ o
          → Obeys t p s passed (accept_reply (some l) stream (admit t p o))
      admitted none e = (tt, tt)
      admitted (some (fd, addr)) e = elim (Bool-cases (t.bools (codes "pasv_promiscuous"))) [
        | inl any_client ↦ rw any_client ((tt, tt), inr (addr, e, inl any_client))
        | inr checked ↦
            rw checked (elim (Bool-cases (vsf_sysutil_sockaddr_addr_equal p.remote_addr addr)) [
              | inl same ↦ rw same ((tt, tt), inr (addr, e, inr same))
              | inr other ↦ rw other ((tt, tt), tt)
            ])
      ]

  cleanup-Obeys :
      (listening : Option ℕ) (stream : Bytes)
      → DiesOr (Obeys t p s passed) (cmd_process_pasv_cleanup listening stream)
  unfolding cmd_process_pasv_cleanup vsf_privop_pasv_cleanup
  cleanup-Obeys none stream = (tt, tt)
  cleanup-Obeys (some l) stream = ((tt, tt), tt)

  dispatch-Obeys :
      (listening : Option ℕ) (cmd : ℕ) (stream : Bytes)
      → DiesOr (Obeys t p s passed) (dispatch t p s passed listening (cmd, stream))
  unfolding dispatch
  dispatch-Obeys listening cmd stream =
      elim (Bool-cases (t.bools (codes "chown_uploads") && cmd == cmd_chown)) [
        | inl e ↦ rw e (
            chown-Obeys listening stream
              (left (t.bools (codes "chown_uploads")) (cmd == cmd_chown) e))
        | inr e ↦ rw e (
            pick (cmd == cmd_get_data_sock) _ _ (data_sock-Obeys listening stream) (
              pick (cmd == cmd_pasv_cleanup) _ _ (cleanup-Obeys listening stream) (
                pick (cmd == cmd_pasv_active) _ _ active_obeys (
                  pick (cmd == cmd_pasv_listen) _ _ (listen-Obeys listening stream)
                    (pick (cmd == cmd_pasv_accept) _ _ (accept-Obeys listening stream) refl)))))
      ]
    where
      left : (a b : Bool) → (a && b) ≡ true → a ≡ true
      left a b h = ground arith

      active_obeys : DiesOr (Obeys t p s passed) (cmd_process_pasv_active listening stream)
      active_obeys = unfold cmd_process_pasv_active in (tt, tt)

      pick :
          (b : Bool) (x y : Run Served)
          → DiesOr (Obeys t p s passed) x
          → DiesOr (Obeys t p s passed) y
          → DiesOr (Obeys t p s passed) (if b then x else y)
      pick true x y h k = h
      pick false x y h k = k

-- Whatever bytes and whatever descriptor the child sends, and whatever the system answers, the
-- privileged process dies, or does what the configuration permits and nothing else: it binds the
-- data port or a port of the passive range, connects to the client's own address and no reserved
-- port, and gives a regular file of the anonymous or guest user, the one that was passed, to the
-- user of the configuration; and it hands out that connection or a client from the same host
-- only, unless the configuration lets any in.
pub request-Obeys :
    (t : Tunables) (p : Peer) (s : System) (passed listening : Option ℕ) (stream : Bytes)
    → DiesOr (Obeys t p s passed) (process_post_login_req t p s passed listening stream)
unfolding process_post_login_req priv_sock_get_cmd
request-Obeys t p s passed listening [] = refl
request-Obeys t p s passed listening (c ∷ stream) = dispatch-Obeys t p s passed listening c stream
