-- ===== src/Gai/Printed.antt =====
-- What getnameinfo writes: how much of it, and the port of a socket address.
use my_study.Base.{
  ℕ, zero, suc, ◌≡◌, refl, ap, ◌^◌, ◌≤◌, ◌<◌, Bool, true, false, Option, none, some, [], ◌∷◌,
  length, take, length-take, arith, if◌then◌else◌,
}
use my_study.Base.Bytes.{Bytes, decimal}
use my_study.Base.Bytes.Decimal.{atol-decimal, length-decimal}
use my_study.Gai.{Family, Port, htons, ntohs, port_number, SockAddr, System}
use my_study.Gai.Arguments.{slash_local}
use my_study.Gai.Services.{udp, has_port}
use my_study.Gai.Names.{
  NameFlags, snprintf, named, numeric_name, host_name, serv_name, gn_ipv46, getnameinfo, port_text,
  serv_text,
}

-- The C string in a buffer of `size` bytes leaves room for its NUL.
abbrev pub FitsIn : ℕ → Option Bytes → Type 0
FitsIn size none = Unit
FitsIn size (some s) = length s < size

snprintf-FitsIn : (size : ℕ) (s : Bytes) → FitsIn size (snprintf size s)
unfolding snprintf
snprintf-FitsIn zero s = tt
snprintf-FitsIn (suc n) s = let e = length-take n s in omega arith

-- Both buffers hold what fits.
abbrev pub BothFit : ℕ → ℕ → Option (Option Bytes × Option Bytes) → Type 0
BothFit hostlen servlen none = Unit
BothFit hostlen servlen (some (host, serv)) = FitsIn hostlen host × FitsIn servlen serv

-- inet_ntop writes no more than the buffer that it is given.
abbrev pub Bounded : System → Type 0
Bounded sys =
    (f : Family) (addr : Bytes) (size : ℕ) (s : Bytes)
    → sys.inet_ntop f addr size ≡ some s
    → length s < size

abbrev HostFits : ℕ → Option (Option Bytes) → Type 0
HostFits size none = Unit
HostFits size (some host) = FitsIn size host

module _ (sys : System) (flags : NameFlags) (bounded : Bounded sys) where
  numeric_name-Fits :
      (f : Family) (addr : Bytes) (size : ℕ) → HostFits size (numeric_name sys f addr size)
  numeric_name-Fits f addr size = on (sys.inet_ntop f addr size) refl
    where
      on :
          (o : Option Bytes)
          → sys.inet_ntop f addr size ≡ o
          → HostFits size (elim o [ none ↦ none | some s ↦ some (some s) ])
      on none e = tt
      on (some s) e = bounded f addr size s e

  if-Fits :
      (size : ℕ) (b : Bool) (x y : Option (Option Bytes))
      → HostFits size x
      → HostFits size y
      → HostFits size (if b then x else y)
  if-Fits size true x y h h' = h
  if-Fits size false x y h h' = h'

  named-Fits :
      (f : Family) (addr : Bytes) (size : ℕ) (r : Option (Option Bytes))
      → HostFits size (named sys flags f addr size r)
  unfolding named
  named-Fits f addr size (some (some name)) = snprintf-FitsIn size _
  named-Fits f addr size (some none) =
      if-Fits size flags.name_reqd none _ tt (numeric_name-Fits f addr size)
  named-Fits f addr size none =
      if-Fits size flags.name_reqd none _ tt (numeric_name-Fits f addr size)

  host_name-Fits :
      (f : Family) (addr : Bytes) (size : ℕ) → HostFits size (host_name sys flags f addr size)
  unfolding host_name
  host_name-Fits f addr zero = tt
  host_name-Fits f addr (suc n) =
      if-Fits (suc n) flags.numeric_host _ _ (numeric_name-Fits f addr (suc n))
        (named-Fits f addr (suc n) (sys.gethostbyaddr addr f))

  serv_name-FitsIn : (port : Port) (size : ℕ) → FitsIn size (serv_name sys flags port size)
  unfolding serv_name
  serv_name-FitsIn port size = either flags.numeric_serv
    where
      either :
          (b : Bool)
          → FitsIn size (
              if b
              then snprintf size (port_text port)
              else snprintf size (
                  serv_text port (sys.getservbyport port (if flags.dgram then some udp else none))))
      either true = snprintf-FitsIn size _
      either false = snprintf-FitsIn size _

  gn_ipv46-BothFit :
      (hostlen servlen : ℕ) (addr : Bytes) (f : Family) (port : Port)
      → BothFit hostlen servlen (gn_ipv46 sys hostlen servlen addr f port flags)
  unfolding gn_ipv46
  gn_ipv46-BothFit hostlen servlen addr f port =
      on (host_name sys flags f addr hostlen) (host_name-Fits f addr hostlen)
    where
      on :
          (o : Option (Option Bytes))
          → HostFits hostlen o
          → BothFit hostlen servlen
              (elim o [ none ↦ none | some host ↦ some (host, serv_name sys flags port servlen) ])
      on none h = tt
      on (some host) h = (h, serv_name-FitsIn port servlen)

-- getnameinfo leaves in each buffer a string that fits with its NUL, and does not write to a buffer
-- without room, for names of any length, where inet_ntop keeps to the size that it is given.
pub getnameinfo-BothFit :
    (sys : System) (sa : SockAddr) (hostlen servlen : ℕ) (flags : NameFlags)
    → Bounded sys
    → BothFit hostlen servlen (getnameinfo sys sa hostlen servlen flags)
unfolding getnameinfo
getnameinfo-BothFit sys sa hostlen servlen flags bounded = on sa.sa_family
  where
    on :
        (f : Family)
        → BothFit hostlen servlen (elim f [
          | Family.inet ↦ gn_ipv46 sys hostlen servlen sa.address Family.inet sa.port flags
          | Family.inet6 ↦ gn_ipv46 sys hostlen servlen sa.address Family.inet6 sa.port flags
          | Family.local ↦ some (snprintf hostlen slash_local, snprintf servlen sa.address)
          | Family.unspec ↦ none
          | Family.other n ↦ none
        ])
    on Family.inet =
        gn_ipv46-BothFit sys flags bounded hostlen servlen sa.address Family.inet sa.port
    on Family.inet6 =
        gn_ipv46-BothFit sys flags bounded hostlen servlen sa.address Family.inet6 sa.port
    on Family.local = (snprintf-FitsIn hostlen slash_local, snprintf-FitsIn servlen sa.address)
    on Family.unspec = tt
    on (Family.other n) = tt

port_number-decimal : (n : ℕ) → n < 2 ^ 16 → port_number (decimal n) ≡ n
unfolding port_number
port_number-decimal n h = rw (atol-decimal n (omega arith)) (omega arith)

ntohs-htons : (n : ℕ) → n < 2 ^ 16 → ntohs (htons n) ≡ n
unfolding ntohs htons
ntohs-htons n h = omega arith

take-all : (m : ℕ) (s : Bytes) → length s ≤ m → take m s ≡ s
take-all zero [] h = refl
take-all zero (c ∷ s) h = absurd (omega arith)
take-all (suc m) [] h = refl
take-all (suc m) (c ∷ s) h = ap (λ r. c ∷ r) (take-all m s (omega arith))

serv_name-decimal :
    (sys : System) (flags : NameFlags) (n servlen : ℕ)
    → n < 2 ^ 16
    → 5 < servlen
    → flags.numeric_serv ≡ true
    → serv_name sys flags (htons (port_number (decimal n))) servlen ≡ some (decimal n)
unfolding serv_name snprintf
serv_name-decimal sys flags n zero small room numeric = absurd (omega arith)
serv_name-decimal sys flags n (suc m) small room numeric =
    let short = length-decimal 4 n (omega arith) in
    rw (
      numeric,
      port_number-decimal n small,
      ntohs-htons n small,
      take-all m (decimal n) (omega (arith, short)),
    )

-- The service is the text; without a result, a host was asked for.
abbrev pub ServIs : ℕ → Bytes → Option (Option Bytes × Option Bytes) → Type 0
ServIs hostlen text none = 0 < hostlen
ServIs hostlen text (some (host, serv)) = serv ≡ some text

ServIs-with_host :
    (sys : System) (flags : NameFlags) (addr : Bytes) (serv : Option Bytes) (text : Bytes)
    (f : Family) (size : ℕ) (o : Option (Option Bytes))
    → host_name sys flags f addr size ≡ o
    → serv ≡ some text
    → ServIs size text (elim o [ none ↦ none | some host ↦ some (host, serv) ])
unfolding host_name
ServIs-with_host sys flags addr serv text f zero none e printed = cc
ServIs-with_host sys flags addr serv text f (suc k) none e printed = omega arith
ServIs-with_host sys flags addr serv text f size (some host) e printed = printed

-- The port that ga_serv makes of the decimal digits of a number below 2^16, getnameinfo prints as
-- these digits with NI_NUMERICSERV in a buffer of six bytes or more, whatever becomes of the host:
-- where it gives no result, a host was asked for as well.
pub getnameinfo-port :
    (sys : System) (flags : NameFlags) (sa : SockAddr) (n hostlen servlen : ℕ)
    → n < 2 ^ 16
    → 5 < servlen
    → flags.numeric_serv ≡ true
    → has_port sa.sa_family ≡ true
    → sa.port ≡ htons (port_number (decimal n))
    → ServIs hostlen (decimal n) (getnameinfo sys sa hostlen servlen flags)
unfolding getnameinfo gn_ipv46
getnameinfo-port sys flags sa n hostlen servlen small room numeric inet port = on sa.sa_family inet
  where
    printed : serv_name sys flags sa.port servlen ≡ some (decimal n)
    printed = rw port (serv_name-decimal sys flags n servlen small room numeric)

    on :
        (f : Family)
        → has_port f ≡ true
        → ServIs hostlen (decimal n) (elim f [
          | Family.inet ↦ gn_ipv46 sys hostlen servlen sa.address Family.inet sa.port flags
          | Family.inet6 ↦ gn_ipv46 sys hostlen servlen sa.address Family.inet6 sa.port flags
          | Family.local ↦ some (snprintf hostlen slash_local, snprintf servlen sa.address)
          | Family.unspec ↦ none
          | Family.other n ↦ none
        ])
    on Family.inet h =
        ServIs-with_host sys flags sa.address (serv_name sys flags sa.port servlen) (decimal n)
          Family.inet hostlen (host_name sys flags Family.inet sa.address hostlen) refl printed
    on Family.inet6 h =
        ServIs-with_host sys flags sa.address (serv_name sys flags sa.port servlen) (decimal n)
          Family.inet6 hostlen (host_name sys flags Family.inet6 sa.address hostlen) refl printed
    on _ h = cc
