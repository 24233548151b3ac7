-- ===== src/Tests/Listener.antt =====
-- hash.c and standalone.c: a table of two addresses, and a day of the listener.
use checkedc_vsftpd.Base.{◌+◌, ◌≡◌, refl, ◌∙◌, none, some, List, [], ◌∷◌, arith}
use checkedc_vsftpd.Run.{Fault, fault, Returns, Returns-value, value}
use checkedc_vsftpd.Hash.{Hash, hash_alloc, hash_add_entry, hash_free_entry, hash_store, find}
use checkedc_vsftpd.Hash.Laws.{
  IsValid, Models, view, update, hash_alloc-Models, hash_add_entry-Models, hash_add_entry-duplicate,
  hash_free_entry-Models, hash_free_entry-absent, hash_store-Models,
}
use checkedc_vsftpd.Standalone.{
  Ip, Pid, pid_key, Listener, child, failed, ClientLaunch, accept_client, reap_one,
}
use checkedc_vsftpd.Standalone.Accounts.{Accounts, accept_client-child, accept_client-failed}
use checkedc_vsftpd.Standalone.Reap.{reap_one-Accounts}
use checkedc_vsftpd.Standalone.HashFunc.{start_listener, start-Accounts, hash_pid}
use checkedc_vsftpd.Standalone.History.{
  Event, client, child_ended, run, History, none_yet, then_on, forked, not_forked, reaped,
  listener-Accounts,
}

abbrev pids : Hash Pid Ip
pids = hash_alloc 4 hash_pid

abbrev home_ip : Ip
home_ip = 127 ∷ 0 ∷ 0 ∷ 1 ∷ []

abbrev far_ip : Ip
far_ip = 10 ∷ 0 ∷ 0 ∷ 9 ∷ []

hash_alloc-Models_test : Models (λ _. none) pids
unfolding hash_pid
hash_alloc-Models_test = hash_alloc-Models 4 hash_pid (λ k. omega arith)

pids-IsValid : IsValid pids
pids-IsValid = hash_alloc-Models_test.0

hash_add_entry-Models_example :
    Returns (hash_add_entry pids 5 home_ip) (Models (update (view pids) 5 (some home_ip)))
unfolding view find
hash_add_entry-Models_example =
    hash_add_entry-Models pids 5 home_ip pids-IsValid (hash_alloc-Models_test.1 5)

-- The table with process 5.
abbrev one_entry : Hash Pid Ip
one_entry = value pids (hash_add_entry pids 5 home_ip)

one_entry-Models : Models (update (view pids) 5 (some home_ip)) one_entry
one_entry-Models = Returns-value (hash_add_entry pids 5 home_ip) pids hash_add_entry-Models_example

five : view one_entry 5 ≡ some home_ip
five = one_entry-Models.1 5

six : view one_entry 6 ≡ none
six = one_entry-Models.1 6 ∙ hash_alloc-Models_test.1 6

hash_add_entry-duplicate_test : hash_add_entry one_entry 5 far_ip ≡ fault Fault.bug
hash_add_entry-duplicate_test =
    hash_add_entry-duplicate one_entry 5 far_ip (one_entry-Models.0) five

hash_free_entry-Models_test :
    Returns (hash_free_entry one_entry 5) (Models (update (view one_entry) 5 none))
hash_free_entry-Models_test = hash_free_entry-Models one_entry 5 (one_entry-Models.0) five

hash_free_entry-absent_example : hash_free_entry one_entry 6 ≡ fault Fault.bug
hash_free_entry-absent_example = hash_free_entry-absent one_entry 6 (one_entry-Models.0) six

hash_store-Models_test :
    Returns (hash_store one_entry 5 far_ip) (Models (update (view one_entry) 5 (some far_ip)))
hash_store-Models_test = hash_store-Models one_entry 5 far_ip home_ip (one_entry-Models.0) five

accept_client-child_test :
    Returns
      (accept_client start_listener home_ip (child 7))
      λ r. Accounts ((7, home_ip) ∷ []) r.1 × (r.0.num_children ≡ 0 + 1) × (r.0.num_this_ip ≡ 0 + 1)
accept_client-child_test =
    accept_client-child [] start_listener home_ip 7 start-Accounts refl (omega arith)

abbrev no_info : ClientLaunch × Listener
no_info = (record { num_children = 0; num_this_ip = 0 }, start_listener)

-- The listener that serves process 7.
abbrev busy : Listener
busy = (value no_info (accept_client start_listener home_ip (child 7))).1

busy-Accounts : Accounts ((7, home_ip) ∷ []) busy
busy-Accounts =
    (Returns-value (accept_client start_listener home_ip (child 7)) no_info
      accept_client-child_test).0

-- A second client from the same address.
accept_client-child_example : Returns (accept_client busy home_ip (child 8)) λ r.
    Accounts ((8, home_ip) ∷ (7, home_ip) ∷ []) r.1
    × (r.0.num_children ≡ 1 + 1)
    × (r.0.num_this_ip ≡ 1 + 1)
unfolding checkedc_vsftpd.Text.str_equal checkedc_vsftpd.Text.str_equal_internal
accept_client-child_example =
    accept_client-child ((7, home_ip) ∷ []) busy home_ip 8 busy-Accounts refl (omega arith)

accept_client-failed_test :
    Returns (accept_client busy far_ip failed) λ r. Accounts ((7, home_ip) ∷ []) r.1
accept_client-failed_test =
    accept_client-failed ((7, home_ip) ∷ []) busy far_ip busy-Accounts (omega arith)

reap_one-Accounts_test : Returns (reap_one busy 7) (Accounts [])
reap_one-Accounts_test =
    reap_one-Accounts ((7, home_ip) ∷ []) busy 7 home_ip busy-Accounts refl (omega arith)

-- Two clients from one address, a fork that fails, and the first one leaves.
abbrev events : List Event
events =
    client home_ip (child 7) ∷ client home_ip (child 8) ∷ client far_ip failed ∷ child_ended 7 ∷ []

events-History : History [] events ((8, home_ip) ∷ [])
events-History = then_on (forked home_ip 7 refl (omega arith)) (
    then_on (forked home_ip 8 refl (omega arith)) (
      then_on (not_forked far_ip (omega arith))
        (then_on (reaped 7 home_ip refl (omega arith)) none_yet)))

listener-Accounts_example : Returns (run start_listener events) (Accounts ((8, home_ip) ∷ []))
listener-Accounts_example = listener-Accounts events-History
