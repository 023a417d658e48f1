-- ===== src/Sockaddr.antt =====
-- The functions of unpv13e/lib on socket addresses of any family: sock_cmp_addr, sock_cmp_port,
-- sock_get_port, sock_set_addr, sock_set_port, sock_set_wild, sock_ntop_host and sock_ntop, compiled
-- with IPv6 and Unix domain sockets and without AF_LINK.
pub mod Laws
mod Examples
use my_study.Base.{
  ℕ, zero, suc, ◌+◌, ◌-◌, ◌/◌, ◌%◌, ◌^◌, ◌==◌, ltb, Bool, true, false, Option, none, some, List, [],
  ◌∷◌, ◌++◌, take, replicate, if◌then◌else◌,
}
use my_study.Base.Int.{ℤ, pos, negsuc}
use my_study.Base.Bytes.{Bytes, decimal}

-- The families with their fields; the port is the value of the field `sin_port`, in network byte order.
pub data Address : Type 0 where
  inet inet6 : ℕ → Bytes → Address
  unix : Bytes → Address
  other : ℕ → Address

-- The sign of memcmp, on as many bytes on both sides, and of strcmp on two strings.
unfoldable pub compare_bytes : Bytes → Bytes → ℤ
compare_bytes [] [] = pos 0
compare_bytes [] (d ∷ t) = negsuc 0
compare_bytes (c ∷ s) [] = pos 1
compare_bytes (c ∷ s) (d ∷ t) =
    let rest = compare_bytes s t in if c == d then rest else if ltb c d then negsuc 0 else pos 1

-- `sock_cmp_addr`
unfoldable pub sock_cmp_addr : Address → Address → ℤ
sock_cmp_addr (Address.inet p a) (Address.inet q b) = compare_bytes a b
sock_cmp_addr (Address.inet6 p a) (Address.inet6 q b) = compare_bytes a b
sock_cmp_addr (Address.unix a) (Address.unix b) = compare_bytes a b
sock_cmp_addr _ _ = negsuc 0

-- The value of a comparison.
abbrev pub int_of : Bool → ℤ
int_of true = pos 1
int_of false = pos 0

-- `sock_cmp_port`
unfoldable pub sock_cmp_port : Address → Address → ℤ
sock_cmp_port (Address.inet p a) (Address.inet q b) = int_of (p == q)
sock_cmp_port (Address.inet6 p a) (Address.inet6 q b) = int_of (p == q)
sock_cmp_port _ _ = negsuc 0

-- `sock_get_port`
unfoldable pub sock_get_port : Address → ℤ
sock_get_port (Address.inet p a) = pos p
sock_get_port (Address.inet6 p a) = pos p
sock_get_port _ = negsuc 0

-- An int in a field of 16 bits.
abbrev pub to_uint16 : ℤ → ℕ
to_uint16 (pos n) = n % 2 ^ 16
to_uint16 (negsuc n) = 2 ^ 16 - 1 - n % 2 ^ 16

-- `sock_set_port`
unfoldable pub sock_set_port : Address → ℤ → Address
sock_set_port (Address.inet p a) port = Address.inet (to_uint16 port) a
sock_set_port (Address.inet6 p a) port = Address.inet6 (to_uint16 port) a
sock_set_port (Address.unix a) port = Address.unix a
sock_set_port (Address.other n) port = Address.other n

-- `sock_set_addr` copies 4 or 16 bytes.
unfoldable pub sock_set_addr : Address → Bytes → Address
sock_set_addr (Address.inet p a) addr = Address.inet p (take 4 addr)
sock_set_addr (Address.inet6 p a) addr = Address.inet6 p (take 16 addr)
sock_set_addr (Address.unix a) addr = Address.unix a
sock_set_addr (Address.other n) addr = Address.other n

-- `sock_set_wild`
unfoldable pub sock_set_wild : Address → Address
sock_set_wild (Address.inet p a) = sock_set_addr (Address.inet p a) (replicate 4 0)
sock_set_wild (Address.inet6 p a) = sock_set_addr (Address.inet6 p a) (replicate 16 0)
sock_set_wild (Address.unix a) = Address.unix a
sock_set_wild (Address.other n) = Address.other n

-- What the system gives: ntohs, and inet_ntop for the two families (true is AF_INET6).
pub record Texts : Type 0 where
  pub ntohs : ℕ → ℕ
  pub inet_ntop : Bool → Bytes → ℕ → Option Bytes

-- The size of `str`.
abbrev pub str_size : ℕ
str_size = 128

-- "(no pathname bound)"
abbrev pub no_pathname : Bytes
no_pathname =
    b'(' ∷ b'n' ∷ b'o' ∷ b' ' ∷ b'p' ∷ b'a' ∷ b't' ∷ b'h' ∷ b'n' ∷ b'a' ∷ b'm' ∷ b'e' ∷ b' ' ∷ b'b'
    ∷ b'o' ∷ b'u' ∷ b'n' ∷ b'd' ∷ b')' ∷ []

-- The path of a Unix domain socket.
unfoldable pub path_text : Bytes → Bytes
path_text [] = no_pathname
path_text (c ∷ s) = take (str_size - 1) (c ∷ s)

-- `%d`: of an int, the value and its sign.
unfoldable pub int_text : ℕ → Bytes
int_text n = let k = n % 2 ^ 32 in if ltb k (2 ^ 31) then decimal k else b'-' ∷ decimal (2 ^ 32 - k)

-- "sock_ntop"
abbrev pub ntop_name : Bytes
ntop_name = b's' ∷ b'o' ∷ b'c' ∷ b'k' ∷ b'_' ∷ b'n' ∷ b't' ∷ b'o' ∷ b'p' ∷ []

-- "sock_ntop_host"
abbrev pub ntop_host_name : Bytes
ntop_host_name =
    b's' ∷ b'o' ∷ b'c' ∷ b'k' ∷ b'_' ∷ b'n' ∷ b't' ∷ b'o' ∷ b'p' ∷ b'_' ∷ b'h' ∷ b'o' ∷ b's' ∷ b't'
    ∷ []

-- ": unknown AF_xxx: "
abbrev pub unknown_family : Bytes
unknown_family =
    b':' ∷ b' ' ∷ b'u' ∷ b'n' ∷ b'k' ∷ b'n' ∷ b'o' ∷ b'w' ∷ b'n' ∷ b' ' ∷ b'A' ∷ b'F' ∷ b'_' ∷ b'x'
    ∷ b'x' ∷ b'x' ∷ b':' ∷ b' ' ∷ []

-- ", len "
abbrev pub len_text : Bytes
len_text = b',' ∷ b' ' ∷ b'l' ∷ b'e' ∷ b'n' ∷ b' ' ∷ []

-- The text of the default case, behind `snprintf`.
unfoldable pub unknown_text : Bytes → ℕ → ℕ → Bytes
unfolding int_text
unknown_text name family salen =
    take (str_size - 1)
      (name ++ (unknown_family ++ (int_text family ++ (len_text ++ int_text salen))))

-- `sock_ntop_host`
unfoldable pub sock_ntop_host : Texts → Address → ℕ → Option Bytes
sock_ntop_host texts (Address.inet p a) salen = texts.inet_ntop false a str_size
sock_ntop_host texts (Address.inet6 p a) salen = texts.inet_ntop true a str_size
sock_ntop_host texts (Address.unix a) salen = some (path_text a)
sock_ntop_host texts (Address.other n) salen = some (unknown_text ntop_host_name n salen)

-- `portstr`, of 8 bytes, behind `snprintf`.
abbrev pub port_text : Bytes → ℕ → Bytes
port_text prefix p = take 7 (prefix ++ decimal p)

-- The text of an IPv4 or IPv6 address with its port.
abbrev pub inet_text : ℕ → Option Bytes → Option Bytes
inet_text p none = none
inet_text p (some s) = some (if p == 0 then s else s ++ port_text (b':' ∷ []) p)

abbrev pub inet6_text : ℕ → Option Bytes → Option Bytes
inet6_text p none = none
inet6_text p (some s) = some (if p == 0 then s else (b'[' ∷ s) ++ port_text (b']' ∷ b':' ∷ []) p)

-- `sock_ntop`
unfoldable pub sock_ntop : Texts → Address → ℕ → Option Bytes
sock_ntop texts (Address.inet p a) salen =
    inet_text (texts.ntohs p) (texts.inet_ntop false a str_size)
sock_ntop texts (Address.inet6 p a) salen =
    inet6_text (texts.ntohs p) (texts.inet_ntop true a (str_size - 1))
sock_ntop texts (Address.unix a) salen = some (path_text a)
sock_ntop texts (Address.other n) salen = some (unknown_text ntop_name n salen)
