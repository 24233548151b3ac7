-- ===== src/Privops/Ports.antt =====
-- privops.c, vsf_privop_pasv_listen: the port that it chooses, and its rounds.
use native.Mathlib.Nat.{mul-le-mul_right}
use checkedc_vsftpd.Base.{
  ℕ, zero, suc, ◌+◌, ◌-◌, ◌*◌, ◌/◌, ◌%◌, ◌≤◌, ◌<◌, ◌≡◌, refl, subst, ◌&&◌, none, List, [], ◌∷◌,
  arith, ltb, leb, if◌then◌else◌, codes,
}
use checkedc_vsftpd.Run.{Run, Fault, ok, fault}
use checkedc_vsftpd.Parseconf.{Tunables}
use checkedc_vsftpd.Privops.{
  Effect, closes, binds, round_ends, Bind, Round, System, min_port, max_port, scaled_port,
  listen_loop, vsf_privop_pasv_listen,
}

range_lem :
    (a b : ℕ)
    → let low = if ltb 1024 a && leb a 65535 then a else 1024 in
      let high = if leb low b && ltb b 65535 then b else 65535 in
      (1024 ≤ low) × (low ≤ high) × (high ≤ 65535)
range_lem a b = ground arith

-- The bounds are ordered and lie above the reserved ports.
bounds_lem : (t : Tunables) → (1024 ≤ min_port t) × (min_port t ≤ max_port t) × (max_port t ≤ 65535)
unfolding min_port max_port
bounds_lem t = range_lem (t.uints (codes "pasv_min_port")) (t.uints (codes "pasv_max_port"))

scale_lem : (low high r : ℕ) → low ≤ high → r < 65536 → low + r * (high - low + 1) / 65536 ≤ high
scale_lem low high r h k =
    let small : r * (high - low + 1) ≤ 65535 * (high - low + 1) =
      mul-le-mul_right (high - low + 1) (omega arith) in
    divided (r * (high - low + 1)) small
  where
    divided : (m : ℕ) → m ≤ 65535 * (high - low + 1) → low + m / 65536 ≤ high
    divided m small = omega arith

pub scaled_port-Between :
    (t : Tunables) (r : Round) → (min_port t ≤ scaled_port t r) × (scaled_port t r ≤ max_port t)
unfolding scaled_port
scaled_port-Between t r = (
  omega arith,
  scale_lem (min_port t) (max_port t) (r.high % 256 * 256 + r.low % 256) (bounds_lem t).1
      (omega arith),
)

abbrev pub Chosen : Tunables → (ℕ → Round) → ℕ → Run (ℕ × ℕ × List Effect) → Type 0
Chosen t rounds n (fault e) = e ≡ Fault.die
Chosen t rounds n (ok (fd, port, done)) =
    (i : ℕ) × (i < n)
    × ((rounds i).outcome ≡ Bind.bound)
    × (fd ≡ (rounds i).sock)
    × (port ≡ scaled_port t (rounds i))

Chosen-more :
    (t : Tunables) (rounds : ℕ → Round) (n : ℕ) (r : Run (ℕ × ℕ × List Effect))
    → Chosen t rounds n r
    → Chosen t rounds (suc n) r
Chosen-more t rounds n (fault e) c = c
Chosen-more t rounds n (ok (fd, port, done)) (i, low, is_bound, same, at) =
    (i, omega arith, is_bound, same, at)

listen_loop-Chosen :
    (t : Tunables) (rounds : ℕ → Round) (n : ℕ) (done : List Effect)
    → Chosen t rounds n (listen_loop t rounds n done)
unfolding listen_loop
listen_loop-Chosen t rounds zero done = refl
listen_loop-Chosen t rounds (suc n) done =
    let r = rounds n in
    go r.outcome refl (binds (scaled_port t r) ∷ done)
      (listen_loop t rounds n (closes r.sock ∷ done))
      (listen_loop-Chosen t rounds n (closes r.sock ∷ done))
  where
    go :
        (o : Bind)
        → (rounds n).outcome ≡ o
        → (acts : List Effect) (rest : Run (ℕ × ℕ × List Effect)) → Chosen t rounds n rest
        → Chosen t rounds
            (suc n)
            (round_ends o (ok ((rounds n).sock, scaled_port t (rounds n), acts)) rest)
    go Bind.bound e acts rest c = (n, omega arith, e, refl, refl)
    go Bind.addrinuse e acts rest c = Chosen-more t rounds n rest c
    go Bind.acces e acts rest c = Chosen-more t rounds n rest c
    go Bind.failed e acts rest c = refl

-- A passive listener that is set up listens on a port between the bounds of the configuration,
-- which are ordered and never among the reserved ports; its socket and its port are those of one
-- of at most nine rounds, which the system let bind and listen.
pub pasv_listen-Between :
    (t : Tunables) (s : System) (fd port : ℕ) (done : List Effect)
    → vsf_privop_pasv_listen t s none ≡ ok (fd, port, done)
    → (1024 ≤ min_port t)
      × (min_port t ≤ port)
      × (port ≤ max_port t)
      × (max_port t ≤ 65535)
      × ((i : ℕ) × (i < 9)
          × ((s.rounds i).outcome ≡ Bind.bound)
          × (fd ≡ (s.rounds i).sock)
          × (port ≡ scaled_port t (s.rounds i)))
unfolding vsf_privop_pasv_listen
pasv_listen-Between t s fd port done run =
    let (i, low, is_bound, same, at) : Chosen t s.rounds 9 (ok (fd, port, done)) =
      subst (Chosen t s.rounds 9) run (listen_loop-Chosen t s.rounds 9 []) in
    let (above, below) = scaled_port-Between t (s.rounds i) in
    let (reserved, _, top) = bounds_lem t in
    (reserved, rw at above, rw at below, top, (i, low, is_bound, same, at))
