-- ===== src/Ipaddrparse/Length.antt =====
-- ipaddrparse.c, vsf_sysutil_parse_ipv6: its rounds, and the bytes of its answer.
use checkedc_vsftpd.Base.{
  ℕ, zero, suc, ◌+◌, ◌-◌, ◌<◌, ◌≡◌, ◌≢◌, refl, sym, ap, subst, inl, inr, false, Option, none, some,
  [], ◌∷◌, ◌++◌, arith, ltb, if◌then◌else◌, Bool-cases, Bytes, length, replicate, length-take,
}
use checkedc_vsftpd.Run.{Run, Fault, ok, fault}
use checkedc_vsftpd.Str.{add32}
use checkedc_vsftpd.Text.{str_isempty, str_locate_char}
use checkedc_vsftpd.Text.Split.{str_split_text, str_split_char, str_split_char_lem, after}
use checkedc_vsftpd.Ipaddrparse.{
  ipv6_parse_main, ipv4_parse_dotquad, ipv6_parse_hex, join_sides, left_side, right_side,
  vsf_sysutil_parse_ipv6,
}

abbrev colon : ℕ
colon = b':'

colon_not_0 : colon ≢ 0
colon_not_0 = omega arith

length-after : (c : ℕ) (s : Bytes) → str_isempty s ≡ false → length (after c s) < length s
length-after c [] h = ground arith
length-after c (x ∷ []) h = ground arith
length-after c (x ∷ (y ∷ s)) h = ground (arith, length-after c (y ∷ s) (ground arith))

shorter : (s : Bytes) → str_isempty s ≡ false → length (str_split_char s colon).1 < length s
shorter s h =
    rw (ap (λ p. length p.1) (str_split_char_lem s colon colon_not_0)) (length-after colon s h)

part_ends :
    (fuel : ℕ) (out rhs : Bytes)
    → ((bytes : Bytes) → (r : Option Bytes) × (ipv6_parse_main fuel (out ++ bytes) rhs ≡ some r))
    → (o : Option Bytes)
    → (r : Option Bytes) × ((elim o as (λ _. Option (Option Bytes)) [
      | none ↦ some none
      | some bytes ↦ ipv6_parse_main fuel (out ++ bytes) rhs
    ])
        ≡ some r)
part_ends fuel out rhs each none = (none, refl)
part_ends fuel out rhs each (some bytes) = each bytes

-- The loop over the groups of a side takes at most one round for each byte and one more.
parse_main_ends :
    (fuel : ℕ) (out s : Bytes)
    → length s < fuel
    → (r : Option Bytes) × (ipv6_parse_main fuel out s ≡ some r)
unfolding ipv6_parse_main
parse_main_ends zero out s h = elim h [ ]
parse_main_ends (suc fuel) out s h =
    let lhs = (str_split_char s colon).0 in
    let rhs = (str_split_char s colon).1 in
    elim (Bool-cases (str_isempty s)) [
      | inl e ↦ rw e (some out, refl)
      | inr e ↦ rw e (elim (Bool-cases (str_isempty lhs)) [
        | inl d ↦ rw d (none, refl)
        | inr d ↦ rw d (
            part_ends fuel out rhs
              (λ bytes. parse_main_ends fuel (out ++ bytes) rhs (omega (arith, shorter s e)))
              (if (str_locate_char lhs b'.').found
                then ipv4_parse_dotquad lhs
                else ipv6_parse_hex lhs))
      ])
    ]

-- 0 for a refusal, 16 bytes, or a failing bounds cast; never fuel that ran out.
abbrev pub Address : Option (Run (Option Bytes)) → Type 0
Address none = ⊥
Address (some (ok none)) = Unit {0}
Address (some (ok (some a))) = length a ≡ 16
Address (some (fault e)) = e ≡ Fault.bounds

join_sides-Address : (lhs rhs : Bytes) → Address (some (join_sides lhs rhs))
unfolding join_sides
join_sides-Address lhs rhs = elim (Bool-cases (ltb 16 (add32 (length lhs) (length rhs)))) [
  | inl e ↦ rw e tt
  | inr e ↦
      let ret =
        if ltb 0 (length rhs)
        then lhs ++ replicate (16 - (length lhs + length rhs)) 0 ++ rhs
        else lhs in
      rw e (elim (Bool-cases (ltb (length ret) 16)) [
        | inl d ↦ rw d refl
        | inr d ↦ rw d (length-take 16 ret (ground arith))
      ])
]

right_side-Address : (left : Bytes) (r : Option Bytes) → Address (right_side left (some r))
right_side-Address left none = tt
right_side-Address left (some right) = join_sides-Address left right

left_side-Address : (rhs : Bytes) (l : Option Bytes) → Address (left_side rhs (some l))
left_side-Address rhs none = tt
left_side-Address rhs (some left) =
    let (r, e) = parse_main_ends (length rhs + 1) [] rhs (omega arith) in
    subst (λ x. Address (right_side left x)) (sym e) (right_side-Address left r)

-- The IPv6 parser ends on every string: it refuses it, or gives 16 bytes, or fails at the bounds
-- cast of the address.
pub parse_ipv6-Address : (s : Bytes) → Address (vsf_sysutil_parse_ipv6 s)
unfolding vsf_sysutil_parse_ipv6
parse_ipv6-Address s =
    let lhs = (str_split_text s (b':' ∷ b':' ∷ [])).0 in
    let rhs = (str_split_text s (b':' ∷ b':' ∷ [])).1 in
    let (l, e) = parse_main_ends (length lhs + 1) [] lhs (omega arith) in
    subst (λ x. Address (left_side rhs x)) (sym e) (left_side-Address rhs l)
