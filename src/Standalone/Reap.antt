-- ===== src/Standalone/Reap.antt =====
-- standalone.c, handle_sigchld: a child that has ended.
use checkedc_vsftpd.Base.{
  ℕ, suc, ◌+◌, ◌<◌, ◌≡◌, refl, sym, ap, ◌∙◌, inl, inr, false, Option, none, some, [], ◌∷◌, arith,
  ◌==◌, if◌then◌else◌, Bool-cases, length,
}
use checkedc_vsftpd.Run.{Returns}
use checkedc_vsftpd.Str.{sub32, u32_mod}
use checkedc_vsftpd.Hash.Laws.{view, update, hash_lookup_entry-view, hash_free_entry-Models}
use checkedc_vsftpd.Standalone.{Ip, Pid, ip_key, pid_key, Listener, reap_one}
use checkedc_vsftpd.Standalone.Accounts.{
  Sessions, sessions_of, address_of, ended, counted, Distinct, Accounts, sessions_of-le,
  ip_key_refl, drop_ip_count-Models,
}

some_eq : (a b : Ip) → some a ≡ some b → a ≡ b
some_eq a b e = cc

sessions_of-ended :
    (pid : Pid) (ip q : Ip) (live : Sessions)
    → address_of pid live ≡ some ip
    → (if ip_key.beq q ip then 1 else 0) + sessions_of q (ended pid live) ≡ sessions_of q live
sessions_of-ended pid ip q [] e = cc
sessions_of-ended pid ip q (s ∷ live) e = elim (Bool-cases (pid == s.0)) [
  | inl here ↦
      let e' : s.1 ≡ ip = some_eq s.1 ip (rw here at e) in
      rw here (ap (λ i. (if ip_key.beq q i then 1 else 0) + sessions_of q live) (sym e'))
  | inr later ↦ rw later (omega (arith, sessions_of-ended pid ip q live (rw later at e)))
]

address_of-ended :
    (pid q : Pid) (live : Sessions)
    → Distinct live
    → address_of q (ended pid live) ≡ (if q == pid then none else address_of q live)
address_of-ended pid q [] d = ground arith
address_of-ended pid q (s ∷ live) d = ground (arith, address_of-ended pid q live d.1, d.0)

flip : (a b : ℕ) → (a == b) ≡ false → (b == a) ≡ false
flip a b h = ground arith

Distinct-ended : (pid : Pid) (live : Sessions) → Distinct live → Distinct (ended pid live)
Distinct-ended pid [] d = tt
Distinct-ended pid (s ∷ live) d = elim (Bool-cases (pid == s.0)) [
  | inl here ↦ rw here d.1
  | inr later ↦
      rw later (
        address_of-ended pid s.0 live d.1 ∙ rw (flip pid s.0 later) d.0,
        Distinct-ended pid live d.1,
      )
]

length-ended :
    (pid : Pid) (live : Sessions) {ip : Ip}
    → address_of pid live ≡ some ip
    → length (ended pid live) + 1 ≡ length live
length-ended pid [] e = cc
length-ended pid (s ∷ live) {ip = ip} e = ground (arith, length-ended pid live {ip = ip})

one_less :
    (pid : Pid) (ip : Ip) (live : Sessions)
    → address_of pid live ≡ some ip
    → suc (sessions_of ip (ended pid live)) ≡ sessions_of ip live
one_less pid ip live e =
    let s : 1 + sessions_of ip (ended pid live) ≡ sessions_of ip live =
      rw (ip_key_refl ip) at (sessions_of-ended pid ip ip live e) in
    omega arith

less :
    (f : Ip → Option ℕ) (pid : Pid) (ip q : Ip) (live : Sessions)
    → address_of pid live ≡ some ip
    → f q ≡ counted (sessions_of q live)
    → update f ip (counted (sessions_of ip (ended pid live))) q
      ≡ counted (sessions_of q (ended pid live))
less f pid ip q live e e' = elim (Bool-cases (ip_key.beq q ip)) [
  | inl same ↦
      rw same
        (ap (λ i. counted (sessions_of i (ended pid live))) (sym ((ip_key.beq_iff q ip).0 same)))
  | inr other ↦
      let s : 0 + sessions_of q (ended pid live) ≡ sessions_of q live =
        rw other at (sessions_of-ended pid ip q live e) in
      rw other (e' ∙ ap counted (omega arith))
]

-- Where the accounts are those of the sessions that live, fewer than 2 ^ 32, reaping a child that
-- lives takes exactly its session off the accounts.
pub reap_one-Accounts :
    (live : Sessions) (l : Listener) (pid : Pid) (ip : Ip)
    → Accounts live l
    → address_of pid live ≡ some ip
    → length live < u32_mod
    → Returns (reap_one l pid) (Accounts (ended pid live))
unfolding reap_one
reap_one-Accounts live l pid ip a there small =
    let n = sessions_of ip (ended pid live) in
    let split : suc n ≡ sessions_of ip live = one_less pid ip live there in
    let (h', run, (v', m)) =
      drop_ip_count-Models l.s_p_ip_count_hash ip n a.ip_valid
        (a.ip_counts ip ∙ ap counted (sym split)) (omega (arith, sessions_of-le ip live)) in
    let known = a.pid_ips pid ∙ there in
    let (g', run', (w', m')) = hash_free_entry-Models l.s_p_pid_ip_hash pid a.pid_valid known in
    rw (hash_lookup_entry-view l.s_p_pid_ip_hash pid a.pid_valid, known, run, run')
      (
        record { s_children = sub32 l.s_children 1; s_p_ip_count_hash = h'; s_p_pid_ip_hash = g' },
        refl,
        record {
          ip_valid = v';
          ip_counts =
              λ q. m q ∙ less (view l.s_p_ip_count_hash) pid ip q live there (a.ip_counts q);
          pid_valid = w';
          pid_ips = λ q. m' q ∙ rw (a.pid_ips q, address_of-ended pid q live a.distinct) refl;
          children = omega (arith, a.children, length-ended pid live there);
          distinct = Distinct-ended pid live a.distinct;
        },
      )
