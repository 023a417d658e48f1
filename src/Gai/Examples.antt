-- ===== src/Gai/Examples.antt =====
-- Name resolution on a small system: one host with two addresses.
use my_study.Base.{
  ℕ, zero, suc, true, false, Option, none, some, List, [], ◌∷◌, ◌≡◌, refl, ◌<◌, take, length,
  length-take, arith, subst, if◌then◌else◌,
}
use my_study.Base.Bytes.{Bytes, str_eq, decimal}
use my_study.Gai.{
  Family, SockType, Outcome, Hints, HostLookup, HErrno, SockAddr, System, htons, port_number,
}
use my_study.Gai.Arguments.{default_hints, ga_echeck, type_check, local_path}
use my_study.Gai.Lookup.{getaddrinfo, as_literal}
use my_study.Gai.Agree.{Yields}
use my_study.Gai.Ports.{Sound}
use my_study.Gai.Sound.{getaddrinfo-Sound}
use my_study.Gai.Cloned.{doubled}
use my_study.Gai.Doubles.{open_hints, getaddrinfo-doubled}
use my_study.Gai.Quits.{NotServed, getaddrinfo-quits}
use my_study.Gai.Names.{NameFlags, getnameinfo}
use my_study.Gai.Printed.{BothFit, Bounded, getnameinfo-BothFit, ServIs, getnameinfo-port}

abbrev solo : Bytes
solo = b's' ∷ b'o' ∷ b'l' ∷ b'o' ∷ []

abbrev two_addresses : List Bytes
two_addresses = (10 ∷ 0 ∷ 0 ∷ 1 ∷ []) ∷ (10 ∷ 0 ∷ 0 ∷ 2 ∷ []) ∷ []

abbrev solo_entry : HostLookup
solo_entry =
    HostLookup.found
      (record { h_name = solo; h_addrtype = Family.inet; h_addr_list = two_addresses })

abbrev addresses_of : Bytes → Family → HostLookup
addresses_of host Family.inet =
    if str_eq host solo then solo_entry else HostLookup.failed HErrno.host_not_found
addresses_of host _ = HostLookup.failed HErrno.no_data

abbrev no_literal : Family → Bytes → Option Bytes
no_literal f s = none

abbrev printed_bytes : Family → Bytes → ℕ → Option Bytes
printed_bytes f addr zero = none
printed_bytes f addr (suc n) = some (take n addr)

abbrev small_system : System
small_system = record {
  inet_pton = no_literal;
  gethostbyname = λ v6 host. addresses_of host (if v6 then Family.inet6 else Family.inet);
  gethostbyname2 = addresses_of;
  getservbyname = λ name proto. none;
  uname = some solo;
  sun_path_size = 108;
  inet_ntop = printed_bytes;
  gethostbyaddr = λ addr f. some (some solo);
  getservbyport = λ port proto. none;
}

abbrev http_port : Bytes
http_port = b'8' ∷ b'0' ∷ []

abbrev stream_hints : Hints
stream_hints = record default_hints { family = Family.inet; socktype = SockType.stream }

getaddrinfo-Sound_example :
    Yields
      (λ w. Sound stream_hints w.entries)
      (getaddrinfo small_system (some solo) (some http_port) (some stream_hints))
getaddrinfo-Sound_example =
    getaddrinfo-Sound small_system (some solo) (some http_port) (some stream_hints)

getaddrinfo-doubled_example :
    getaddrinfo small_system (some solo) (some http_port) (some (open_hints false 0))
    ≡ Outcome.ok (record {
      entries = doubled 0 (htons (port_number http_port)) Family.inet two_addresses;
      canon = none;
      unlinked = [];
    })
unfolding as_literal str_eq
getaddrinfo-doubled_example =
    getaddrinfo-doubled small_system false 0 b's' b'8' (b'o' ∷ b'l' ∷ b'o' ∷ []) (b'0' ∷ [])
      (HostLookup.failed HErrno.no_data) solo_entry [] two_addresses refl refl refl refl refl refl
      (refl, refl) (omega arith)

abbrev local_hints : Hints
local_hints = record default_hints { family = Family.local }

getaddrinfo-quits_example :
    (getaddrinfo small_system (some solo) none (some local_hints) ≡ Outcome.quit
      → NotServed (some solo) none local_hints)
    × (NotServed (some solo) none local_hints
        → getaddrinfo small_system (some solo) none (some local_hints) ≡ Outcome.quit)
getaddrinfo-quits_example = getaddrinfo-quits small_system (some solo) none (some local_hints)

-- The process ends on these arguments.
host_for_local : getaddrinfo small_system (some solo) none (some local_hints) ≡ Outcome.quit
unfolding ga_echeck type_check local_path
host_for_local =
    (getaddrinfo-quits small_system (some solo) none (some local_hints)).1 (refl, refl, refl)

abbrev numeric : NameFlags
numeric = record {
  numeric_host = true;
  numeric_serv = true;
  no_fqdn = false;
  name_reqd = false;
  dgram = false;
}

abbrev solo_address : SockAddr
solo_address = record {
  sa_family = Family.inet;
  address = 10 ∷ 0 ∷ 0 ∷ 1 ∷ [];
  port = htons (port_number (decimal 8080));
}

printed_bytes-Bounded : Bounded small_system
printed_bytes-Bounded f addr zero s e = ground arith
printed_bytes-Bounded f addr (suc n) s e =
    subst (λ o. HostShort (suc n) o) e (ground (arith, length-take n addr))
  where
    HostShort : ℕ → Option Bytes → Type 0
    HostShort size none = Unit
    HostShort size (some s) = length s < size

getnameinfo-BothFit_example : BothFit 3 16 (getnameinfo small_system solo_address 3 16 numeric)
getnameinfo-BothFit_example =
    getnameinfo-BothFit small_system solo_address 3 16 numeric printed_bytes-Bounded

getnameinfo-port_example :
    ServIs 16 (decimal 8080) (getnameinfo small_system solo_address 16 16 numeric)
getnameinfo-port_example =
    getnameinfo-port small_system numeric solo_address 8080 16 16 (omega arith) (omega arith) refl
      refl refl
