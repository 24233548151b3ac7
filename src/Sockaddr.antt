-- ===== src/Sockaddr.antt =====
-- sysutil.c, the comparison of two socket addresses: the family and the bytes of the address.
pub mod Host
use checkedc_vsftpd.Base.{
  Bool, true, false, Option, none, some, [], ◌∷◌, if◌then◌else◌, Bytes, drop,
}
use checkedc_vsftpd.Text.{has_prefix}

-- 4 bytes, or 16.
pub data Sockaddr : Type 0 where
  in4 in6 : Bytes → Sockaddr

abbrev pub mapped_pattern : Bytes
mapped_pattern = 0 ∷ 0 ∷ 0 ∷ 0 ∷ 0 ∷ 0 ∷ 0 ∷ 0 ∷ 0 ∷ 0 ∷ 255 ∷ 255 ∷ []

unfoldable pub vsf_sysutil_sockaddr_ipv6_v4 : Sockaddr → Option Bytes
vsf_sysutil_sockaddr_ipv6_v4 (in4 a) = none
vsf_sysutil_sockaddr_ipv6_v4 (in6 a) =
    if has_prefix mapped_pattern a then some (drop 12 a) else none

abbrev pub same_ipv4 : Option Bytes → Bytes → Bool
same_ipv4 none b = false
same_ipv4 (some a) b = has_prefix a b

unfoldable pub vsf_sysutil_sockaddr_addr_equal : Sockaddr → Sockaddr → Bool
unfolding vsf_sysutil_sockaddr_ipv6_v4
vsf_sysutil_sockaddr_addr_equal (in4 a) (in6 b) = same_ipv4 (vsf_sysutil_sockaddr_ipv6_v4 (in6 b)) a
vsf_sysutil_sockaddr_addr_equal (in6 a) (in4 b) = same_ipv4 (vsf_sysutil_sockaddr_ipv6_v4 (in6 a)) b
vsf_sysutil_sockaddr_addr_equal (in4 a) (in4 b) = has_prefix a b
vsf_sysutil_sockaddr_addr_equal (in6 a) (in6 b) = has_prefix a b
