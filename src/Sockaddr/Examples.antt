-- ===== src/Sockaddr/Examples.antt =====
-- Addresses of each family.
use my_study.Base.{
  ◌+◌, ◌*◌, ◌/◌, ℕ, ◌≡◌, refl, ◌%◌, ◌<◌, arith, Bool, true, false, some, [], ◌∷◌, length,
  if◌then◌else◌, subst,
}
use my_study.Base.Int.{pos, negsuc}
use my_study.Base.Bytes.{Bytes}
use my_study.Sockaddr.{
  Address, Texts, sock_cmp_addr, sock_cmp_port, sock_get_port, sock_set_addr, sock_set_port,
  sock_set_wild, sock_ntop,
}
use my_study.Sockaddr.Laws.{
  SameAddress, sock_cmp_addr-SameAddress, Documented, FitsStr, sock_ntop-FitsStr,
}

abbrev loopback : Address
loopback = Address.inet 80 (127 ∷ 0 ∷ 0 ∷ 1 ∷ [])

abbrev other_port : Address
other_port = Address.inet 8080 (127 ∷ 0 ∷ 0 ∷ 1 ∷ [])

sock_cmp_addr-SameAddress_example :
    (sock_cmp_addr loopback other_port ≡ pos 0 → SameAddress loopback other_port)
    × (SameAddress loopback other_port → sock_cmp_addr loopback other_port ≡ pos 0)
sock_cmp_addr-SameAddress_example = sock_cmp_addr-SameAddress loopback other_port

abbrev dotted : Bytes
dotted = b'1' ∷ b'2' ∷ b'7' ∷ b'.' ∷ b'0' ∷ b'.' ∷ b'0' ∷ b'.' ∷ b'1' ∷ []

abbrev texts : Texts
texts = record {
  ntohs = λ n. n % 256 * 256 + n / 256;
  inet_ntop = λ v6 a size. some (if v6 then b':' ∷ b':' ∷ b'1' ∷ [] else dotted);
}

texts-Documented : Documented texts
texts-Documented = record { short = short }
  where
    short :
        (v6 : Bool) (a : Bytes) (size : ℕ) (s : Bytes)
        → texts.inet_ntop v6 a size ≡ some s
        → length s < 46
    short true a size s e =
        let same : (b':' ∷ b':' ∷ b'1' ∷ []) ≡ s = cc in
        subst (λ t. length t < 46) same (omega arith)
    short false a size s e =
        let same : dotted ≡ s = cc in subst (λ t. length t < 46) same (omega arith)

sock_ntop-FitsStr_example : FitsStr (sock_ntop texts other_port 16)
sock_ntop-FitsStr_example = sock_ntop-FitsStr texts other_port 16 texts-Documented

-- An int goes to 16 bits.
ports_set :
    (sock_set_port loopback (pos 65616) ≡ loopback)
    × (sock_get_port (sock_set_port loopback (negsuc 0)) ≡ pos 65535)
unfolding sock_set_port sock_get_port
ports_set = (refl, refl)

wildcard : sock_set_wild loopback ≡ Address.inet 80 (0 ∷ 0 ∷ 0 ∷ 0 ∷ [])
unfolding sock_set_wild sock_set_addr
wildcard = refl

same_ports : (sock_cmp_port loopback loopback ≡ pos 1) × (sock_cmp_port loopback other_port ≡ pos 0)
unfolding sock_cmp_port
same_ports = (refl, refl)
