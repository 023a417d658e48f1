-- ===== src/Gai.antt =====
-- The getaddrinfo of unpv13e/libgai, compiled with IPv4, IPv6 and Unix domain sockets: its types, and
-- what it asks of the system.
pub mod Agree
pub mod Arguments
pub mod Cloned
pub mod Doubles
pub mod Entries
pub mod Ports
pub mod Printed
pub mod Returns
pub mod Quits
pub mod Services
pub mod Sound
mod Examples
pub mod Lookup
pub mod Names
use my_study.Base.{
  ℕ, zero, suc, ◌+◌, ◌-◌, ◌*◌, ◌/◌, ◌%◌, ◌^◌, Bool, true, false, ◌&&◌, ◌||◌, not, Option, none,
  some, List, [], ◌∷◌, leb, ◌==◌, if◌then◌else◌,
}
use my_study.Base.Int.{ℤ, pos, negsuc}
use my_study.Base.Bytes.{Bytes, atol, is_digit}

-- AF_UNSPEC, AF_INET, AF_INET6, AF_LOCAL, and any other value.
pub data Family : Type 0 where
  unspec inet inet6 local : Family
  other : ℕ → Family

-- 0, SOCK_STREAM, SOCK_DGRAM, SOCK_RAW, and any other value.
pub data SockType : Type 0 where
  any stream dgram raw : SockType
  other : ℕ → SockType

-- The EAI_ values that are not 0.
pub data Eai : Type 0 where
  addrfamily again badflags fail family memory nodata noname service socktype system : Eai

unfoldable pub family_eq : Family → Family → Bool
family_eq Family.unspec Family.unspec = true
family_eq Family.inet Family.inet = true
family_eq Family.inet6 Family.inet6 = true
family_eq Family.local Family.local = true
family_eq (Family.other a) (Family.other b) = a == b
family_eq _ _ = false

unfoldable pub type_eq : SockType → SockType → Bool
type_eq SockType.any SockType.any = true
type_eq SockType.stream SockType.stream = true
type_eq SockType.dgram SockType.dgram = true
type_eq SockType.raw SockType.raw = true
type_eq (SockType.other a) (SockType.other b) = a == b
type_eq _ _ = false

abbrev pub is_any : SockType → Bool
is_any t = type_eq t SockType.any

-- The caller's `hints`. The flags are AI_PASSIVE, AI_CANONNAME, and whether any other bit is set.
pub record Hints : Type 0 where
  pub passive : Bool
  pub canonname : Bool
  pub other_flags : Bool
  pub family : Family
  pub socktype : SockType
  pub protocol : ℕ

-- A port in network byte order, as its two bytes in memory.
abbrev pub Port : Type 0
Port = ℕ × ℕ

unfoldable pub htons : ℕ → Port
htons n = (n / 256 % 256, n % 256)

unfoldable pub ntohs : Port → ℕ
ntohs (high, low) = high * 256 + low

-- The conversion of an int to 16 bits.
abbrev pub to_uint16 : ℤ → ℕ
to_uint16 (pos n) = n % 2 ^ 16
to_uint16 (negsuc n) = 2 ^ 16 - 1 - n % 2 ^ 16

-- `atoi`, as far as htons looks at it. A number that no int holds is undefined in C; the low bits of
-- strtol's result are taken.
unfoldable pub port_number : Bytes → ℕ
port_number s = to_uint16 (atol s)

-- A socket address: of a Unix domain socket it is the path.
pub record SockAddr : Type 0 where
  pub sa_family : Family
  pub address : Bytes
  pub port : Port

-- `ai_clone` is the bit AI_CLONE of `ai_flags`. The lengths of addresses follow from the family.
pub record AddrInfo : Type 0 where
  pub ai_clone : Bool
  pub ai_family : Family
  pub ai_socktype : SockType
  pub ai_protocol : ℕ
  pub ai_canonname : Option Bytes
  pub ai_addr : Option SockAddr

-- What is allocated and done while a result is built: the list at `aihead`, the copy at `canon`, and
-- the paths that were unlinked.
pub record Work : Type 0 where
  pub entries : List AddrInfo
  pub canon : Option Bytes
  pub unlinked : List Bytes

abbrev pub no_work : Work
no_work = record { entries = []; canon = none; unlinked = [] }

-- An error leaves what was allocated before it. `quit` is err_quit.
pub data Outcome : Type 0 where
  ok : Work → Outcome
  err : Eai → Work → Outcome
  quit : Outcome

infixl 5 ◌>>=◌
abbrev pub ◌>>=◌ : Outcome → (Work → Outcome) → Outcome
ok a >>= k = k a
err e a >>= k = err e a
quit >>= k = quit

pub record HostEnt : Type 0 where
  pub h_name : Bytes
  pub h_addrtype : Family
  pub h_addr_list : List Bytes

-- `h_errno`
pub data HErrno : Type 0 where
  host_not_found try_again no_recovery no_data other_error : HErrno

pub data HostLookup : Type 0 where
  found : HostEnt → HostLookup
  failed : HErrno → HostLookup

-- What the code calls: inet_pton for the two families, the resolver, the services, uname, inet_ntop
-- and the reverse lookups; and the size of `sun_path`. The first argument of `gethostbyname` is
-- whether RES_USE_INET6 is set.
pub record System : Type 0 where
  pub inet_pton : Family → Bytes → Option Bytes
  pub gethostbyname : Bool → Bytes → HostLookup
  pub gethostbyname2 : Bytes → Family → HostLookup
  pub getservbyname : Bytes → Bytes → Option Port
  pub uname : Option Bytes
  pub sun_path_size : ℕ
  pub inet_ntop : Family → Bytes → ℕ → Option Bytes
  pub gethostbyaddr : Bytes → Family → Option (Option Bytes)
  pub getservbyport : Port → Option Bytes → Option (Option Bytes)

-- The entry of `search[]`.
pub record Search : Type 0 where
  pub host : Bytes
  pub family : Family

-- A string argument that is NULL or empty.
abbrev pub missing : Option Bytes → Bool
missing none = true
missing (some []) = true
missing (some (c ∷ s)) = false

abbrev pub starts_with : (ℕ → Bool) → Bytes → Bool
starts_with test [] = false
starts_with test (c ∷ s) = test c
