-- ===== src/Network/Address.antt =====
-- isPublicIP of pkg/network/policy.go, and the tests of net/netip that it calls.
use Prim.Native.Nat.{bit_and}
use gash.Prelude.{
  ℕ, ◌/◌, ◌%◌, Bool, true, false, not, ◌&&◌, ◌||◌, [], ◌∷◌, leb, ◌==◌, all, if◌then◌else◌, beq,
  is_empty, Bytes,
}

-- A netip.Addr: the zero Addr, the four bytes of an IPv4 address, the eight 16-bit groups of an IPv6
-- address with its zone, empty for none.
pub data Addr : Type 0 where
  zero_addr : Addr
  v4 : ℕ → ℕ → ℕ → ℕ → Addr
  v6 : ℕ → ℕ → ℕ → ℕ → ℕ → ℕ → ℕ → ℕ → Bytes → Addr

-- ip.Is4In6() and ip.Unmap()
unfoldable pub unmap : Addr → Addr
unmap (v6 a b c d e f g h zone) =
    if beq (a ∷ b ∷ c ∷ d ∷ e ∷ f ∷ []) (0 ∷ 0 ∷ 0 ∷ 0 ∷ 0 ∷ 0xffff ∷ [])
    then v4 (g / 256) (g % 256) (h / 256) (h % 256)
    else v6 a b c d e f g h zone
unmap ip = ip

abbrev is_valid_addr : Addr → Bool
is_valid_addr zero_addr = false
is_valid_addr _ = true

-- ip.IsPrivate()
abbrev private_unmapped : Addr → Bool
private_unmapped zero_addr = false
private_unmapped (v4 a b c d) =
    a == 10 || (a == 172 && bit_and b 0xf0 == 16) || (a == 192 && b == 168)
private_unmapped (v6 a _ _ _ _ _ _ _ _) = bit_and a 0xfe00 == 0xfc00

-- ip.IsLoopback()
abbrev loopback_unmapped : Addr → Bool
loopback_unmapped zero_addr = false
loopback_unmapped (v4 a b c d) = a == 127
loopback_unmapped (v6 a b c d e f g h zone) =
    all (λ x. x == 0) (a ∷ b ∷ c ∷ d ∷ e ∷ f ∷ g ∷ []) && h == 1

-- ip.IsLinkLocalUnicast()
abbrev link_local_unicast_unmapped : Addr → Bool
link_local_unicast_unmapped zero_addr = false
link_local_unicast_unmapped (v4 a b c d) = a == 169 && b == 254
link_local_unicast_unmapped (v6 a _ _ _ _ _ _ _ _) = bit_and a 0xffc0 == 0xfe80

-- ip.IsLinkLocalMulticast()
abbrev link_local_multicast_unmapped : Addr → Bool
link_local_multicast_unmapped zero_addr = false
link_local_multicast_unmapped (v4 a b c d) = a == 224 && b == 0 && c == 0
link_local_multicast_unmapped (v6 a _ _ _ _ _ _ _ _) = bit_and a 0xff0f == 0xff02

-- ip.IsMulticast()
abbrev multicast_unmapped : Addr → Bool
multicast_unmapped zero_addr = false
multicast_unmapped (v4 a b c d) = bit_and a 0xf0 == 0xe0
multicast_unmapped (v6 a _ _ _ _ _ _ _ _) = a / 256 == 0xff

-- ip.IsUnspecified(), which does not unmap, and which an address with a zone is not
abbrev is_unspecified : Addr → Bool
is_unspecified zero_addr = false
is_unspecified (v4 a b c d) = all (λ x. x == 0) (a ∷ b ∷ c ∷ d ∷ [])
is_unspecified (v6 a b c d e f g h zone) =
    all (λ x. x == 0) (a ∷ b ∷ c ∷ d ∷ e ∷ f ∷ g ∷ h ∷ []) && is_empty zone

-- The second test of isPublicIP, under ip.Is4().
abbrev reserved_v4 : Addr → Bool
reserved_v4 (v4 a b c d) =
    a == 0
    || a == 10
    || a == 127
    || (a == 169 && b == 254)
    || (a == 172 && leb 16 b && leb b 31)
    || (a == 192 && b == 168)
reserved_v4 _ = false

-- isPublicIP(ip)
unfoldable pub is_public_ip : Addr → Bool
is_public_ip ip =
    let four = unmap ip in
    if not (is_valid_addr ip)
      || private_unmapped four
      || loopback_unmapped four
      || link_local_unicast_unmapped four
      || link_local_multicast_unmapped four
      || multicast_unmapped four
      || is_unspecified ip
    then false
    else not (reserved_v4 ip)
