-- ===== src/Standalone.antt =====
-- standalone.c: the listener's accounts of its children. `p_raw_addr` is the raw address of a
-- client, and a process id is a number. Sockets, the fork and the signal set-up are the system's:
-- what they return comes in as an argument.
pub mod Accounts
pub mod Reap
pub mod HashFunc
pub mod History
pub mod Reload
use checkedc_vsftpd.Base.{
  ℕ, zero, suc, ◌+◌, ◌-◌, ◌==◌, ==_iff, if◌then◌else◌, Option, none, some, Bytes,
}
use checkedc_vsftpd.Run.{Run, Fault, ok, fault, ◌>>=◌}
use checkedc_vsftpd.Str.{add32, sub32}
use checkedc_vsftpd.Text.{str_equal}
use checkedc_vsftpd.Text.Order.{str_equal_iff}
use checkedc_vsftpd.Hash.{Key, Hash, hash_lookup_entry, hash_add_entry, hash_free_entry, hash_store}

-- A raw address, and a process id.
abbrev pub Ip : Type 0
Ip = Bytes

abbrev pub Pid : Type 0
Pid = ℕ

-- Raw addresses are all `s_ipaddr_size` long, so that memcmp tells whether they are the same.
instance abbrev pub ip_key : Key Ip
ip_key = record { beq = str_equal; beq_iff = str_equal_iff }

instance abbrev pub pid_key : Key Pid
pid_key = record { beq = ◌==◌; beq_iff = ==_iff }

-- The counted addresses and the increased count, which is stored.
unfoldable pub handle_ip_count : Hash Ip ℕ → Ip → Run (ℕ × Hash Ip ℕ)
handle_ip_count h p_ipaddr = hash_lookup_entry h p_ipaddr >>= λ p_count. elim p_count [
  | none ↦ hash_add_entry h p_ipaddr 1 >>= λ h'. ok (1, h')
  | some count ↦ hash_store h p_ipaddr (add32 count 1) >>= λ h'. ok (add32 count 1, h')
]

unfoldable pub drop_ip_count : Hash Ip ℕ → Ip → Run (Hash Ip ℕ)
drop_ip_count h p_raw_addr = hash_lookup_entry h p_raw_addr >>= λ p_count. elim p_count [
  | none ↦ fault Fault.bug
  | some count ↦
      if count == 0
      then fault Fault.bug
      else hash_store h p_raw_addr (sub32 count 1) >>= λ h'.
          if sub32 count 1 == 0 then hash_free_entry h' p_raw_addr else ok h'
]

-- The static variables of standalone.c.
pub record Listener : Type 0 where
  pub s_children : ℕ
  pub s_p_ip_count_hash : Hash Ip ℕ
  pub s_p_pid_ip_hash : Hash Pid Ip

-- What vsf_sysutil_fork_failok gives to the parent.
pub data Fork : Type 0 where
  child : Pid → Fork
  failed : Fork

-- struct vsf_client_launch, handed to the child.
pub record ClientLaunch : Type 0 where
  pub num_children : ℕ
  pub num_this_ip : ℕ

-- The accept loop of `vsf_standalone_main` on one client, in the parent.
unfoldable pub accept_client : Listener → Ip → Fork → Run (ClientLaunch × Listener)
accept_client l p_raw_addr new_child =
    let children = add32 l.s_children 1 in
    handle_ip_count l.s_p_ip_count_hash p_raw_addr >>= λ (num_this_ip, ip_count).
    let info : ClientLaunch = record { num_children = children; num_this_ip = num_this_ip } in
    elim new_child [
      | child pid ↦ hash_add_entry l.s_p_pid_ip_hash pid p_raw_addr >>= λ pid_ip. ok (
        info,
        record { s_children = children; s_p_ip_count_hash = ip_count; s_p_pid_ip_hash = pid_ip },
      )
      | failed ↦ drop_ip_count ip_count p_raw_addr >>= λ dropped. ok (
        info,
        record {
          s_children = sub32 children 1;
          s_p_ip_count_hash = dropped;
          s_p_pid_ip_hash = l.s_p_pid_ip_hash;
        },
      )
    ]

-- One round of `handle_sigchld`, for a child that has ended. The lookup of a process that is not
-- in the table is a null pointer, which the next lookup reads.
unfoldable pub reap_one : Listener → Pid → Run (Listener)
reap_one l pid = hash_lookup_entry l.s_p_pid_ip_hash pid >>= λ result. elim result [
  | none ↦ fault Fault.bounds
  | some ip ↦ drop_ip_count l.s_p_ip_count_hash ip >>= λ ip_count.
      hash_free_entry l.s_p_pid_ip_hash pid >>= λ pid_ip. ok (record {
        s_children = sub32 l.s_children 1;
        s_p_ip_count_hash = ip_count;
        s_p_pid_ip_hash = pid_ip;
      })
]
