-- ===== src/Number/Octal.antt =====
-- sysutil.c, vsf_sysutil_octal_to_uint on texts that begin with 0.
use checkedc_vsftpd.Base.{◌≡◌, refl, false, [], ◌∷◌, Bytes}
use checkedc_vsftpd.Number.{octal_loop, vsf_sysutil_octal_to_uint}

zero_loop : (s : Bytes) → octal_loop b'0' s (0, false) ≡ 0
unfolding octal_loop
zero_loop [] = refl
zero_loop (c ∷ s) = zero_loop s

-- Every text that begins with the digit 0 is read as 0, whatever follows.
pub octal_to_uint_zero : (s : Bytes) → vsf_sysutil_octal_to_uint (b'0' ∷ s) ≡ 0
unfolding vsf_sysutil_octal_to_uint
octal_to_uint_zero s = zero_loop (b'0' ∷ s)
