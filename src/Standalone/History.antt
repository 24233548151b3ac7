-- ===== src/Standalone/History.antt =====
-- The listener over its whole life: any order of clients, failed forks and children that end.
use checkedc_vsftpd.Base.{◌+◌, ◌<◌, ◌≡◌, refl, none, some, List, [], ◌∷◌, length}
use checkedc_vsftpd.Run.{Run, ok, Returns, ◌>>=◌}
use checkedc_vsftpd.Str.{u32_mod}
use checkedc_vsftpd.Standalone.{Ip, Pid, Listener, Fork, child, failed, accept_client, reap_one}
use checkedc_vsftpd.Standalone.Accounts.{
  Sessions, Accounts, address_of, ended, accept_client-child, accept_client-failed,
}
use checkedc_vsftpd.Standalone.Reap.{reap_one-Accounts}
use checkedc_vsftpd.Standalone.HashFunc.{start_listener, start-Accounts}

pub data Event : Type 0 where
  client : Ip → Fork → Event
  child_ended : Pid → Event

unfoldable pub step : Listener → Event → Run Listener
step l (client ip fork) = accept_client l ip fork >>= λ r. ok r.1
step l (child_ended pid) = reap_one l pid

unfoldable pub run : Listener → List Event → Run Listener
unfolding step
run l [] = ok l
run l (e ∷ es) = step l e >>= λ l'. run l' es

-- What the system can do while these sessions live: it gives a new process an id that is not in
-- use, and reports the end of processes that live.
pub data Happens (live : Sessions) : Event → Sessions → Type 0 where
  forked :
      (ip : Ip) (pid : Pid)
      → address_of pid live ≡ none
      → length live + 1 < u32_mod
      → Happens live (client ip (child pid)) ((pid, ip) ∷ live)
  not_forked : (ip : Ip) → length live + 1 < u32_mod → Happens live (client ip failed) live
  reaped :
      (pid : Pid) (ip : Ip)
      → address_of pid live ≡ some ip
      → length live < u32_mod
      → Happens live (child_ended pid) (ended pid live)

pub data History : Sessions → List Event → Sessions → Type 0 where
  none_yet : {live : Sessions} → History live [] live
  then_on :
      {live later last : Sessions} {e : Event} {es : List Event}
      → Happens live e later
      → History later es last
      → History live (e ∷ es) last

step-Accounts :
    {live later : Sessions} {e : Event} (l : Listener)
    → Accounts live l
    → Happens live e later
    → Returns (step l e) (Accounts later)
unfolding step
step-Accounts {live} l a (forked ip pid new small) =
    let (r, run, (a', _, _)) = accept_client-child live l ip pid a new small in
    (r.1, rw run refl, a')
step-Accounts {live} l a (not_forked ip small) =
    let (r, run, a') = accept_client-failed live l ip a small in (r.1, rw run refl, a')
step-Accounts {live} l a (reaped pid ip there small) = reap_one-Accounts live l pid ip a there small

run-Accounts :
    {live last : Sessions} {es : List Event} (l : Listener)
    → Accounts live l
    → History live es last
    → Returns (run l es) (Accounts last)
unfolding run
run-Accounts l a none_yet = (l, refl, a)
run-Accounts l a (then_on h hs) =
    let (l', stepped, a') = step-Accounts l a h in rw stepped (run-Accounts l' a' hs)

-- Whatever clients come, forks fail and children end, in any order that the system can produce
-- with fewer than 2 ^ 32 sessions at a time, the listener never stops in a `bug()`, and its
-- accounts are those of the sessions that live.
pub listener-Accounts :
    {last : Sessions} {es : List Event}
    → History [] es last
    → Returns (run start_listener es) (Accounts last)
listener-Accounts h = run-Accounts start_listener start-Accounts h
