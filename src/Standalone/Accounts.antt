-- ===== src/Standalone/Accounts.antt =====
-- standalone.c, the accounts and the sessions that live: for each process its address, for each
-- address the number of its sessions.
use checkedc_vsftpd.Base.{
  ℕ, zero, suc, ◌+◌, ◌≤◌, ◌<◌, ◌≡◌, refl, ap, ◌∙◌, inl, inr, true, false, Option, none, some, List,
  [], ◌∷◌, arith, ◌==◌, if◌then◌else◌, Bool-cases, length,
}
use checkedc_vsftpd.Run.{ok, Returns}
use checkedc_vsftpd.Str.{add32, sub32, u32_mod}
use checkedc_vsftpd.Hash.{Hash}
use checkedc_vsftpd.Hash.Laws.{
  IsValid, Models, view, update, hash_lookup_entry-view, hash_add_entry-Models,
  hash_free_entry-Models, hash_store-Models,
}
use checkedc_vsftpd.Standalone.{
  Ip, Pid, ip_key, pid_key, Listener, child, failed, handle_ip_count, drop_ip_count, accept_client,
}

-- The sessions that live: process and address.
abbrev pub Sessions : Type 0
Sessions = List (Pid × Ip)

abbrev pub sessions_of : Ip → Sessions → ℕ
sessions_of ip [] = 0
sessions_of ip (s ∷ live) = (if ip_key.beq ip s.1 then 1 else 0) + sessions_of ip live

abbrev pub address_of : Pid → Sessions → Option Ip
address_of pid [] = none
address_of pid (s ∷ live) = if pid_key.beq pid s.0 then some s.1 else address_of pid live

abbrev pub ended : Pid → Sessions → Sessions
ended pid [] = []
ended pid (s ∷ live) = if pid_key.beq pid s.0 then live else s ∷ ended pid live

-- No entry stands for a count of 0.
abbrev pub counted : ℕ → Option ℕ
counted n = if n == 0 then none else some n

-- A process is in the list once.
abbrev pub Distinct : Sessions → Type 0
Distinct [] = Unit {0}
Distinct (s ∷ live) = (address_of s.0 live ≡ none) × Distinct live

pub record Accounts (live : Sessions) (l : Listener) : Type 0 where
  pub ip_valid : IsValid l.s_p_ip_count_hash
  pub ip_counts : (ip : Ip) → view l.s_p_ip_count_hash ip ≡ counted (sessions_of ip live)
  pub pid_valid : IsValid l.s_p_pid_ip_hash
  pub pid_ips : (pid : Pid) → view l.s_p_pid_ip_hash pid ≡ address_of pid live
  pub children : l.s_children ≡ length live
  pub distinct : Distinct live

pub sessions_of-le : (ip : Ip) (live : Sessions) → sessions_of ip live ≤ length live
sessions_of-le ip [] = omega arith
sessions_of-le ip (s ∷ live) = ground (arith, sessions_of-le ip live)

-- Counting one more session of an address, in a table that has `n` of it.
handle_ip_count-Models :
    (h : Hash Ip ℕ) (ip : Ip) (n : ℕ)
    → IsValid h
    → view h ip ≡ counted n
    → n + 1 < u32_mod
    → (h' : Hash Ip ℕ) × (handle_ip_count h ip ≡ ok (n + 1, h'))
      × Models (update (view h) ip (some (n + 1))) h'
unfolding handle_ip_count
handle_ip_count-Models h ip zero v e small =
    let (h', run, m) = hash_add_entry-Models h ip 1 v e in
    (h', rw (hash_lookup_entry-view h ip v, e, run) refl, m)
handle_ip_count-Models h ip (suc n) v e small =
    let e' : view h ip ≡ some (suc n) = e ∙ ground arith in
    let a : add32 (suc n) 1 ≡ suc n + 1 = omega arith in
    let (h', run, m) = hash_store-Models h ip (suc n + 1) (suc n) v e' in
    (h', rw (hash_lookup_entry-view h ip v, e', a, run) refl, m)

update-update :
    (f : Ip → Option ℕ) (ip : Ip) (v w : Option ℕ) (q : Ip)
    → update (update f ip v) ip w q ≡ update f ip w q
update-update f ip v w q = ground arith

pub ip_key_refl : (ip : Ip) → ip_key.beq ip ip ≡ true
ip_key_refl ip = (ip_key.beq_iff ip ip).1 refl

nonzero : (n : ℕ) → (suc n == 0) ≡ false
nonzero n = ground arith

-- Dropping one of `n + 1` sessions of an address.
pub drop_ip_count-Models :
    (h : Hash Ip ℕ) (ip : Ip) (n : ℕ)
    → IsValid h
    → view h ip ≡ counted (suc n)
    → suc n < u32_mod
    → Returns (drop_ip_count h ip) (Models (update (view h) ip (counted n)))
unfolding drop_ip_count
drop_ip_count-Models h ip zero v e small =
    let (h', run, (v', m)) = hash_store-Models h ip 0 1 v e in
    let there : view h' ip ≡ some 0 = m ip ∙ rw (ip_key_refl ip) refl in
    let (h'', run', (v'', m')) = hash_free_entry-Models h' ip {old = 0} v' there in
    (h'', rw (hash_lookup_entry-view h ip v, e, run) run', (v'', λ q. m' q ∙ ground (arith, m q)))
drop_ip_count-Models h ip (suc n) v e small =
    let e' : view h ip ≡ some (suc (suc n)) = e ∙ ground arith in
    let a : sub32 (suc (suc n)) 1 ≡ suc n = omega arith in
    let (h', run, (v', m)) = hash_store-Models h ip (suc n) (suc (suc n)) v e' in
    (
      h',
      rw (hash_lookup_entry-view h ip v, e', nonzero (suc n), a, run, nonzero n) refl,
      (v', λ q. m q ∙ rw (nonzero n) refl),
    )

update_congr :
    {A : Type 0} (f g : Ip → Option A) (ip : Ip) (v : Option A)
    → ((q : Ip) → f q ≡ g q)
    → (q : Ip) → update f ip v q ≡ update g ip v q
update_congr f g ip v h q = rw (h q) refl

one_more :
    (f : Ip → Option ℕ) (live : Sessions) (s : Pid × Ip) (q : Ip)
    → f q ≡ counted (sessions_of q live)
    → update f s.1 (some (sessions_of s.1 live + 1)) q ≡ counted (sessions_of q (s ∷ live))
one_more f live s q e = elim (Bool-cases (ip_key.beq q s.1)) [
  | inl same ↦
      let e' : sessions_of q live ≡ sessions_of s.1 live =
        ap (λ i. sessions_of i live) ((ip_key.beq_iff q s.1).0 same) in
      rw (same, nonzero_one (sessions_of q live)) (ap some (omega arith))
  | inr other ↦
      rw (other, e, let z : 0 + sessions_of q live ≡ sessions_of q live = omega arith in z) refl
]
  where
    nonzero_one : (n : ℕ) → (1 + n == 0) ≡ false
    nonzero_one n = ground arith

-- Where the accounts are those of the sessions that live, fewer than 2 ^ 32 - 1, a client whose
-- process is new is accounted for, and the child is told its true numbers: all sessions and those
-- of its address, itself among them.
pub accept_client-child :
    (live : Sessions) (l : Listener) (ip : Ip) (pid : Pid)
    → Accounts live l
    → address_of pid live ≡ none
    → length live + 1 < u32_mod
    → Returns (accept_client l ip (child pid)) λ r.
      Accounts ((pid, ip) ∷ live) r.1
      × (r.0.num_children ≡ length live + 1)
      × (r.0.num_this_ip ≡ sessions_of ip live + 1)
unfolding accept_client
accept_client-child live l ip pid a new small =
    let n = sessions_of ip live in
    let (h', run, (v', m)) =
      handle_ip_count-Models l.s_p_ip_count_hash ip n a.ip_valid (a.ip_counts ip)
        (omega (arith, sessions_of-le ip live)) in
    let (g', run', (w', m')) =
      hash_add_entry-Models l.s_p_pid_ip_hash pid ip a.pid_valid (a.pid_ips pid ∙ new) in
    let more : add32 l.s_children 1 ≡ length live + 1 = omega (arith, a.children) in
    rw (run, run', more)
      (
        (
          record { num_children = length live + 1; num_this_ip = n + 1 },
          record { s_children = length live + 1; s_p_ip_count_hash = h'; s_p_pid_ip_hash = g' },
        ),
        refl,
        (
          record {
            ip_valid = v';
            ip_counts =
                λ q. m q ∙ one_more (view l.s_p_ip_count_hash) live (pid, ip) q (a.ip_counts q);
            pid_valid = w';
            pid_ips = λ q. m' q ∙ update_congr_pid q;
            children = omega arith;
            distinct = (new, a.distinct);
          },
          refl,
          refl,
        ),
      )
  where
    update_congr_pid :
        (q : Pid)
        → (if q == pid then some ip else view l.s_p_pid_ip_hash q)
          ≡ (if q == pid then some ip else address_of q live)
    update_congr_pid q = rw (a.pid_ips q) refl

-- Where the accounts are those of the sessions that live, fewer than 2 ^ 32 - 1, a client whose
-- fork fails leaves the accounts as they were.
pub accept_client-failed :
    (live : Sessions) (l : Listener) (ip : Ip)
    → Accounts live l
    → length live + 1 < u32_mod
    → Returns (accept_client l ip failed) λ r. Accounts live r.1
unfolding accept_client
accept_client-failed live l ip a small =
    let n = sessions_of ip live in
    let le = sessions_of-le ip live in
    let (h', run, (v', m)) =
      handle_ip_count-Models l.s_p_ip_count_hash ip n a.ip_valid (a.ip_counts ip) (omega arith) in
    let (h'', run', (v'', m')) =
      drop_ip_count-Models h' ip n v' (m ip ∙ rw (ip_key_refl ip) (some_suc n)) (omega arith) in
    let same : sub32 (add32 l.s_children 1) 1 ≡ length live = omega (arith, a.children) in
    rw (run, run', same)
      (
        (
          record { num_children = add32 l.s_children 1; num_this_ip = n + 1 },
          record {
            s_children = length live;
            s_p_ip_count_hash = h'';
            s_p_pid_ip_hash = l.s_p_pid_ip_hash;
          },
        ),
        refl,
        record {
          ip_valid = v'';
          ip_counts =
              λ q. m' q ∙ back (view l.s_p_ip_count_hash) (view h') live ip q (m q) (a.ip_counts q);
          pid_valid = a.pid_valid;
          pid_ips = a.pid_ips;
          children = refl;
          distinct = a.distinct;
        },
      )
  where
    some_suc : (n : ℕ) → some (n + 1) ≡ counted (suc n)
    some_suc n = ground arith

    back :
        (f g : Ip → Option ℕ) (live : Sessions) (ip q : Ip)
        → g q ≡ update f ip (some (sessions_of ip live + 1)) q
        → f q ≡ counted (sessions_of q live)
        → update g ip (counted (sessions_of ip live)) q ≡ counted (sessions_of q live)
    back f g live ip q e e' = elim (Bool-cases (ip_key.beq q ip)) [
      | inl same ↦ rw (same, (ip_key.beq_iff q ip).0 same) refl
      | inr other ↦ rw other (e ∙ rw other e')
    ]
