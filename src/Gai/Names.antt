-- ===== src/Gai/Names.antt =====
-- From addresses back to names: getnameinfo.c, gn_ipv46.c and gai_strerror.c of unpv13e/libgai.
use my_study.Base.{ℕ, zero, suc, Bool, Option, none, some, take, if◌then◌else◌}
use my_study.Base.Bytes.{Bytes, split_at, decimal}
use my_study.Gai.{Family, Port, ntohs, SockAddr, System}
use my_study.Gai.Arguments.{slash_local}
use my_study.Gai.Services.{udp}

-- The flags of getnameinfo.
pub record NameFlags : Type 0 where
  pub numeric_host : Bool
  pub numeric_serv : Bool
  pub no_fqdn : Bool
  pub name_reqd : Bool
  pub dgram : Bool

-- What a buffer of `size` bytes holds behind `snprintf(buf, size, "%s", s)`: none if it has no room
-- and is not written.
unfoldable pub snprintf : ℕ → Bytes → Option Bytes
snprintf zero s = none
snprintf (suc n) s = some (take n s)

-- The name up to the first dot, which NI_NOFQDN overwrites.
unfoldable pub up_to_dot : Bytes → Bytes
up_to_dot name = elim (split_at b'.' name) [ none ↦ name | some p ↦ p.0 ]

abbrev pub numeric_name : System → Family → Bytes → ℕ → Option (Option Bytes)
numeric_name sys f addr size = elim (sys.inet_ntop f addr size) [
  | none ↦ none
  | some s ↦ some (some s)
]

-- The name that gethostbyaddr gave, or its absence.
unfoldable pub named :
    System → NameFlags → Family → Bytes → ℕ → Option (Option Bytes) → Option (Option Bytes)
unfolding up_to_dot
named sys flags f addr size (some (some name)) =
    some (snprintf size (if flags.no_fqdn then up_to_dot name else name))
named sys flags f addr size _ = if flags.name_reqd then none else numeric_name sys f addr size

-- What `host` holds: none is an error, some none a buffer that is not written.
unfoldable pub host_name : System → NameFlags → Family → Bytes → ℕ → Option (Option Bytes)
unfolding named
host_name sys flags f addr zero = some none
host_name sys flags f addr (suc n) =
    if flags.numeric_host
    then numeric_name sys f addr (suc n)
    else named sys flags f addr (suc n) (sys.gethostbyaddr addr f)

-- The number, as `%d` writes it.
abbrev pub port_text : Port → Bytes
port_text port = decimal (ntohs port)

abbrev pub serv_text : Port → Option (Option Bytes) → Bytes
serv_text port (some (some name)) = name
serv_text port _ = port_text port

-- What `serv` holds.
unfoldable pub serv_name : System → NameFlags → Port → ℕ → Option Bytes
serv_name sys flags port size =
    if flags.numeric_serv
    then snprintf size (port_text port)
    else snprintf size
        (serv_text port (sys.getservbyport port (if flags.dgram then some udp else none)))

-- `gn_ipv46`: the two buffers, or none where it returns 1.
unfoldable pub gn_ipv46 :
    System → ℕ → ℕ → Bytes → Family → Port → NameFlags → Option (Option Bytes × Option Bytes)
gn_ipv46 sys hostlen servlen addr f port flags = elim (host_name sys flags f addr hostlen) [
  | none ↦ none
  | some host ↦ some (host, serv_name sys flags port servlen)
]

-- `getnameinfo` with the sizes of the two buffers.
unfoldable pub getnameinfo :
    System → SockAddr → ℕ → ℕ → NameFlags → Option (Option Bytes × Option Bytes)
getnameinfo sys sa hostlen servlen flags = elim sa.sa_family [
  | Family.inet ↦ gn_ipv46 sys hostlen servlen sa.address Family.inet sa.port flags
  | Family.inet6 ↦ gn_ipv46 sys hostlen servlen sa.address Family.inet6 sa.port flags
  | Family.local ↦ some (snprintf hostlen slash_local, snprintf servlen sa.address)
  | Family.unspec ↦ none
  | Family.other n ↦ none
]
