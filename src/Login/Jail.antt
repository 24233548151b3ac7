-- ===== src/Login/Jail.antt =====
-- twoprocess.c, what a login sets up for the process of the session: the user, the directories and
-- the options that vsf_secutil_change_credentials of secutil.c is given.
use checkedc_vsftpd.Base.{
  ◌≡◌, refl, sym, subst, inl, inr, Bool, true, false, not, ◌&&◌, ◌||◌, Option, none, some, [],
  if◌then◌else◌, Bool-cases, Bytes, codes,
}
use checkedc_vsftpd.Run.{Run, Fault, ok, fault}
use checkedc_vsftpd.Text.{str_locate_text, c_text}
use checkedc_vsftpd.Text.Split.{str_split_text}
use checkedc_vsftpd.Text.Replace.{str_replace_text}
use checkedc_vsftpd.Text.Replace.Ends.{str_replace_text-ends}
use checkedc_vsftpd.Parseconf.{Tunables}
use checkedc_vsftpd.Postpriv.Policy.{Any}
use checkedc_vsftpd.Login.{name_or_empty}
use checkedc_vsftpd.Login.UserConfig.{
  Host, ◌>>=?◌, handle_per_user_config, Ends, Ends->>=?, per_user_config-Ends,
}

-- The user's directory, the root and the directory to change to.
pub record Dirs : Type 0 where
  pub userdir : Bytes
  pub chroot_dir : Bytes
  pub chdir_dir : Bytes

-- `none` is fuel run out in str_replace_text.
abbrev pub substitute_user : Tunables → Bytes → Bytes → Run (Option Bytes)
substitute_user t orig_user text = elim (t.strs (codes "user_sub_token")) [
  | none ↦ ok (some text)
  | some token ↦ ok (str_replace_text text token (c_text orig_user))
]

abbrev pub root_of : Tunables → Bytes → Run (Option Bytes)
root_of t orig_user = elim (t.strs (codes "local_root")) [
  | none ↦ ok (some [])
  | some root ↦ substitute_user t orig_user root
]

-- The place in the home directory that splits root and start, if the configuration has it.
abbrev pub split_home : Bytes × Bytes → Dirs
split_home (root, start) = record { userdir = root; chroot_dir = root; chdir_dir = start }

unfoldable pub with_home_split : Tunables → Bytes → Bytes → Dirs
with_home_split t userdir chroot =
    if t.bools (codes "passwd_chroot_enable") && (str_locate_text userdir (codes "/./")).found
    then split_home (str_split_text userdir (codes "/./"))
    else record { userdir = userdir; chroot_dir = chroot; chdir_dir = [] }

-- For an anonymous login, and for a local one with its entry in the password file.
unfoldable pub calculate_chdir_dir : Tunables → Bool → Option Bytes → Bytes → Run (Option Dirs)
calculate_chdir_dir t true home orig_user = ok (
    some (record {
      userdir = [];
      chroot_dir = name_or_empty (t.strs (codes "anon_root"));
      chdir_dir = [];
    }))
calculate_chdir_dir t false none orig_user = fault Fault.die
calculate_chdir_dir t false (some home) orig_user = substitute_user t orig_user home >>=? λ userdir.
    root_of t orig_user >>=? λ chroot. ok (some (with_home_split t userdir chroot))

-- The user and the options of secutil.c.
pub record Rights : Type 0 where
  pub user : Bytes
  pub is_guest : Bool
  pub is_anonymous : Bool
  pub chroot : Bool
  pub change_euid : Bool
  pub allow_writeable_root : Bool

abbrev pub as_user : Tunables → Bytes → Bool → Bool → Bool → Rights
as_user t user was_anon anon do_chroot = record {
  user = user;
  is_guest = false;
  is_anonymous = anon;
  chroot = do_chroot;
  change_euid = not anon;
  allow_writeable_root = not was_anon && t.bools (codes "allow_writeable_chroot");
}

-- The part behind the fork that maps a guest to its user.
unfoldable pub rights_of : Tunables → Bytes → Bool → Bool → Rights
rights_of t user do_chroot anon =
    let guest = name_or_empty (t.strs (codes "guest_username")) in
    if t.bools (codes "guest_enable") && not anon
    then (let rights : Rights =
          if t.bools (codes "virtual_use_local_privs")
          then as_user t guest anon anon do_chroot
          else as_user t guest anon true true in
        record rights { is_guest = true })
    else as_user t user anon anon do_chroot

pub record Jail : Type 0 where
  pub rights : Rights
  pub dirs : Dirs

abbrev pub settle : Host → Bytes → Bool → Tunables → Rights → Run (Option Jail)
settle w user anon t rights = calculate_chdir_dir t anon (w.homedir rights.user) user >>=? λ dirs.
    ok (some (record { rights = rights; dirs = dirs }))

-- The settings of the user hold for all that follows.
unfoldable pub common_do_login : Host → Tunables → Bytes → Bool → Bool → Run (Option Jail)
common_do_login w t user do_chroot anon =
    handle_per_user_config w t user >>=? λ u. settle w user anon u (rights_of u user do_chroot anon)

-- A session that stands for anonymous users is shut in and does not keep its rights aside.
abbrev pub Confined : Rights → Type 0
Confined r = ((r.chroot || not r.is_anonymous) ≡ true) × (r.change_euid ≡ not r.is_anonymous)

rights-Confined :
    (t : Tunables) (user : Bytes) (do_chroot anon : Bool)
    → (do_chroot || not anon) ≡ true
    → Confined (rights_of t user do_chroot anon)
unfolding rights_of
rights-Confined t user do_chroot anon h =
    elim (Bool-cases (t.bools (codes "guest_enable") && not anon)) [
      | inr e ↦ rw e (h, refl)
      | inl e ↦ rw e (elim (Bool-cases (t.bools (codes "virtual_use_local_privs"))) [
        | inl e' ↦ rw e' (h, refl)
        | inr e' ↦ rw e' (refl, refl)
      ])
    ]

substitute-Ends :
    (t : Tunables) (orig_user text : Bytes) → Ends Any (substitute_user t orig_user text)
substitute-Ends t orig_user text = of_token (t.strs (codes "user_sub_token"))
  where
    of_token :
        (o : Option Bytes)
        → Ends Any (elim o as (λ _. Run (Option Bytes)) [
          | none ↦ ok (some text)
          | some token ↦ ok (str_replace_text text token (c_text orig_user))
        ])
    of_token none = tt
    of_token (some token) =
        let (out, run) = str_replace_text-ends text token (c_text orig_user) in
        subst (λ o. Ends Any (ok o)) (sym run) tt

root-Ends : (t : Tunables) (orig_user : Bytes) → Ends Any (root_of t orig_user)
root-Ends t orig_user = of_root (t.strs (codes "local_root"))
  where
    of_root :
        (o : Option Bytes)
        → Ends Any (elim o as (λ _. Run (Option Bytes)) [
          | none ↦ ok (some [])
          | some root ↦ substitute_user t orig_user root
        ])
    of_root none = tt
    of_root (some root) = substitute-Ends t orig_user root

-- The directories are found, or the process ends, and not in a bug.
dirs-Ends :
    (t : Tunables) (anon : Bool) (home : Option Bytes) (user : Bytes)
    → Ends Any (calculate_chdir_dir t anon home user)
unfolding calculate_chdir_dir
dirs-Ends t true home user = tt
dirs-Ends t false none user = λ h. cc
dirs-Ends t false (some home) user =
    Ends->>=? Any Any (substitute_user t user home)
      (λ userdir. root_of t user >>=? λ chroot. ok (some (with_home_split t userdir chroot)))
      (substitute-Ends t user home)
      λ userdir _.
        Ends->>=? Any Any (root_of t user) (λ chroot. ok (some (with_home_split t userdir chroot)))
          (root-Ends t user) (λ chroot _. tt)

-- A login that may start a session gives one that is confined, if the process does not end, and that
-- is not in a bug.
pub common_do_login-Ends :
    (w : Host) (t : Tunables) (user : Bytes) (do_chroot anon : Bool)
    → (do_chroot || not anon) ≡ true
    → Ends (λ j. Confined j.rights) (common_do_login w t user do_chroot anon)
unfolding common_do_login
common_do_login-Ends w t user do_chroot anon h =
    Ends->>=? Any (λ j. Confined j.rights) (handle_per_user_config w t user)
      (λ u. settle w user anon u (rights_of u user do_chroot anon)) (per_user_config-Ends w t user)
      λ u _.
        Ends->>=? Any (λ j. Confined j.rights)
          (calculate_chdir_dir u anon (w.homedir (rights_of u user do_chroot anon).user) user)
          (λ dirs. ok (some (record { rights = rights_of u user do_chroot anon; dirs = dirs })))
          (dirs-Ends u anon (w.homedir (rights_of u user do_chroot anon).user) user)
          (λ dirs _. rights-Confined u user do_chroot anon h)
