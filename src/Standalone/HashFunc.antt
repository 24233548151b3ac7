-- ===== src/Standalone/HashFunc.antt =====
-- standalone.c, the two hash functions and the tables that they are used for.
use Prim.Native.Nat.{bit_xor}
use checkedc_vsftpd.Base.{ℕ, ◌-◌, ◌*◌, ◌%◌, ◌^◌, refl, [], ◌∷◌, arith, ltb, if◌then◌else◌, Bytes}
use checkedc_vsftpd.Str.{u32_mod}
use checkedc_vsftpd.Hash.{hash_alloc}
use checkedc_vsftpd.Hash.Laws.{hash_alloc-Models}
use checkedc_vsftpd.Standalone.{Listener, Ip, Pid, ip_key, pid_key}
use checkedc_vsftpd.Standalone.Accounts.{Accounts}

-- `val ^ (unsigned int)(p_raw_ip[i] << shift)`, with `shift` going 24, 16, 8, 0 and round again.
unfoldable pub hash_ip_loop : ℕ → ℕ → Bytes → ℕ
hash_ip_loop val shift [] = val
hash_ip_loop val shift (b ∷ raw) =
    hash_ip_loop (bit_xor val (b * 2 ^ shift % u32_mod)) (if ltb shift 8 then 24 else shift - 8) raw

unfoldable pub hash_ip : ℕ → Ip → ℕ
unfolding hash_ip_loop
hash_ip buckets raw = hash_ip_loop 0 24 raw % buckets

unfoldable pub hash_pid : ℕ → Pid → ℕ
hash_pid buckets pid = pid % buckets

-- The tables as `vsf_standalone_main` allocates them.
unfoldable pub start_listener : Listener
start_listener = record {
  s_children = 0;
  s_p_ip_count_hash = hash_alloc 256 hash_ip;
  s_p_pid_ip_hash = hash_alloc 256 hash_pid;
}

-- At the start the accounts are those of no session.
pub start-Accounts : Accounts [] start_listener
unfolding start_listener hash_ip hash_pid
start-Accounts =
    let (v, m) = hash_alloc-Models {K = Ip} {V = ℕ} 256 hash_ip (λ k. omega arith) in
    let (w, n) = hash_alloc-Models {K = Pid} {V = Ip} 256 hash_pid (λ k. omega arith) in
    record {
      ip_valid = v;
      ip_counts = m;
      pid_valid = w;
      pid_ips = n;
      children = refl;
      distinct = tt;
    }
