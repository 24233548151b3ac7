-- ===== src/Postlogin/Checked.antt =====
-- postlogin.c, the commands on names: every name that reaches the system was checked.
use checkedc_vsftpd.Base.{
  ℕ, ◌≡◌, refl, ◌⊎◌, inl, inr, Bool, true, false, Option, none, some, List, [], ◌∷◌, if◌then◌else◌,
  Bytes, codes,
}
use checkedc_vsftpd.Text.{str_isempty}
use checkedc_vsftpd.Parseconf.{Tunables}
use checkedc_vsftpd.Prelogin.{reply}
use checkedc_vsftpd.Postpriv.Policy.{All}
use checkedc_vsftpd.Postlogin.Files.{
  Answers, Call, mkdir, rmdir, unlink, chdir, rename, Names, Outcome, resolve_tilde, says, calls,
  check, if_allowed, no_source, handle_mkd, handle_rmd, handle_dele, handle_cwd, handle_cdup,
  handle_rnfr, handle_rnto, Command, mkd_cmd, rmd_cmd, dele_cmd, cwd_cmd, rnfr_cmd, rnto_cmd,
  cdup_cmd, on_command,
}

-- Some command of the past was answered in a way that satisfies `P`.
abbrev pub Some : (Answers → Type 0) → List Answers → Type 0
Some P [] = ⊥
Some P (a ∷ past) = P a ⊎ Some P past

module _ (fuel : ℕ) (t : Tunables) where
  abbrev pub Allowed : Answers → Bytes → Type 0
  Allowed a name = check fuel t a name ≡ some true

  -- A name that RNFR found allowed, and there.
  abbrev pub Source : List Answers → Bytes → Type 0
  Source past name = Some (λ a. Allowed a name × (a.exists name ≡ true)) past

  -- What a command may ask of the system, with the answers during it and before.
  abbrev pub MayCall : List Answers → Answers → Call → Type 0
  MayCall past a (mkdir name) = Allowed a name
  MayCall past a (rmdir name) = Allowed a name
  MayCall past a (unlink name) = Allowed a name
  MayCall past a (chdir name) = Allowed a name
  MayCall past a (rename from to) = Source past from × Allowed a to

  -- What RNFR left is nothing, or such a name.
  abbrev pub Sound : List Answers → Names → Type 0
  Sound past n = (str_isempty n.rnfr_filename_str ≡ true) ⊎ Source past n.rnfr_filename_str

  -- One command after the other, as long as the filter ends.
  abbrev pub AllMayCall : List Answers → Names → List (Answers × Command) → Type 0
  AllMayCall past n [] = Unit
  AllMayCall past n ((a, c) ∷ cs) = elim (on_command fuel t a n c) as (λ _. Type 0) [
    | none ↦ Unit
    | some o ↦ All (MayCall past a) o.calls × AllMayCall (a ∷ past) o.names cs
  ]

  abbrev Fine : List Answers → Answers → Option Outcome → Type 0
  Fine past a none = Unit
  Fine past a (some o) = All (MayCall past a) o.calls × Sound (a ∷ past) o.names

  later : (past : List Answers) (a : Answers) (n : Names) → Sound past n → Sound (a ∷ past) n
  later past a n (inl none_left) = inl none_left
  later past a n (inr source) = inr (inr source)

  -- A command that checks its name first.
  guarded :
      (past : List Answers) (a : Answers) (n : Names) (name : Bytes) (o : Outcome)
      → Sound (a ∷ past) n
      → (Allowed a name → Fine past a (some o))
      → Fine past a (if_allowed (check fuel t a name) n o)
  guarded past a n name o h k = of_check (check fuel t a name) refl
    where
      of_check : (r : Option Bool) → check fuel t a name ≡ r → Fine past a (if_allowed r n o)
      of_check none e = tt
      of_check (some false) e = (tt, h)
      of_check (some true) e = k e

  step-Fine :
      (past : List Answers) (a : Answers) (n : Names) (c : Command)
      → Sound past n
      → Fine past a (on_command fuel t a n c)
  unfolding on_command handle_mkd handle_rmd handle_dele handle_cwd handle_cdup handle_rnfr
      handle_rnto
  step-Fine past a n (mkd_cmd arg) h =
      guarded past a n _ _ (later past a n h) λ ok. ((ok, tt), later past a n h)
  step-Fine past a n (rmd_cmd arg) h =
      guarded past a n _ _ (later past a n h) λ ok. ((ok, tt), later past a n h)
  step-Fine past a n (dele_cmd arg) h =
      guarded past a n _ _ (later past a n h) λ ok. ((ok, tt), later past a n h)
  step-Fine past a n (cwd_cmd arg) h =
      guarded past a n _ _ (later past a n h) λ ok. ((ok, tt), later past a n h)
  step-Fine past a n cdup_cmd h =
      guarded past a n _ _ (later past a n h) λ ok. ((ok, tt), later past a n h)
  step-Fine past a n (rnfr_cmd arg) h =
      guarded past a (no_source n) name _ (inl refl) λ ok. of_exists (a.exists name) refl ok
    where
      name : Bytes
      name = resolve_tilde t a n.home_str arg

      of_exists :
          (b : Bool)
          → a.exists name ≡ b
          → Allowed a name
          → Fine past a (
              some (
                if b
                then says (record n { rnfr_filename_str = name }) 350 (codes "Ready for RNTO.")
                else says (no_source n) 550 (codes "RNFR command failed.")))
      of_exists true e ok = (tt, inr (inl (ok, e)))
      of_exists false e ok = (tt, inl refl)
  step-Fine past a n (rnto_cmd arg) h = of_source (str_isempty n.rnfr_filename_str) refl
    where
      source : str_isempty n.rnfr_filename_str ≡ false → Source past n.rnfr_filename_str
      source e = elim h [ inl none_left ↦ absurd (apart none_left e) | inr found ↦ found ]
        where
          apart : {b : Bool} → b ≡ true → b ≡ false → ⊥
          apart h k = cc

      of_source :
          (b : Bool)
          → str_isempty n.rnfr_filename_str ≡ b
          → Fine past a (
              if b
              then some (says n 503 (codes "RNFR required first."))
              else if_allowed (check fuel t a (resolve_tilde t a n.home_str arg)) n (
                  calls a
                    (no_source n)
                    (rename n.rnfr_filename_str (resolve_tilde t a n.home_str arg))
                    (reply 250 (codes "Rename successful."))
                    (reply 550 (codes "Rename failed."))))
      of_source true e = (tt, later past a n h)
      of_source false e =
          guarded past a n _ _ (later past a n h) λ ok. (((source e, ok), tt), inl refl)

  -- Over all commands on names, as long as the name filter ends: every name that is made,
  -- removed, changed into or renamed to passed the check of access.c in the same command, and the
  -- source of a rename passed it, and was there, in an RNFR before.
  pub commands-AllMayCall :
      (cs : List (Answers × Command)) (past : List Answers) (n : Names)
      → Sound past n
      → AllMayCall past n cs
  commands-AllMayCall [] past n h = tt
  commands-AllMayCall ((a, c) ∷ cs) past n h =
      go (on_command fuel t a n c) (step-Fine past a n c h)
        (λ o k. commands-AllMayCall cs (a ∷ past) o.names k)
    where
      go :
          (r : Option Outcome)
          → Fine past a r
          → ((o : Outcome) → Sound (a ∷ past) o.names → AllMayCall (a ∷ past) o.names cs)
          → elim r as (λ _. Type 0) [
            | none ↦ Unit
            | some o ↦ All (MayCall past a) o.calls × AllMayCall (a ∷ past) o.names cs
          ]
      go none h k = tt
      go (some o) (may, sound) k = (may, k o sound)
