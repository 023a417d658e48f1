-- ===== src/Gai/Arguments.antt =====
-- The checks of the arguments and the searches that they ask for: ga_echeck.c and ga_nsearch.c of
-- unpv13e/libgai, and the first part of getaddrinfo.c.
use my_study.Base.{
  ◌==◌, leb, Bool, true, false, ◌||◌, ◌&&◌, Option, none, some, List, [], ◌∷◌, length,
  if◌then◌else◌,
}
use my_study.Base.Bytes.{Bytes, str_eq}
use my_study.Gai.{Family, SockType, Eai, Hints, Search, missing, starts_with}

-- The socket types that AF_INET and AF_INET6 take.
abbrev pub inet_type : SockType → Bool
inet_type (SockType.other n) = false
inet_type _ = true

-- The socket types that AF_LOCAL takes.
abbrev pub local_type : SockType → Bool
local_type SockType.raw = false
local_type (SockType.other n) = false
local_type _ = true

-- The switch of `ga_echeck`; none is 0.
unfoldable pub type_check : Family → SockType → Option Eai
type_check Family.unspec t = none
type_check Family.inet t = if inet_type t then none else some Eai.socktype
type_check Family.inet6 t = if inet_type t then none else some Eai.socktype
type_check Family.local t = if local_type t then none else some Eai.socktype
type_check (Family.other n) t = some Eai.family

-- `ga_echeck`
unfoldable pub ga_echeck : Option Bytes → Option Bytes → Hints → Option Eai
unfolding type_check
ga_echeck host serv hints =
    if hints.other_flags
    then some Eai.badflags
    else if missing host && missing serv
    then some Eai.noname
    else type_check hints.family hints.socktype

-- The searches for one family, or for both with IPv6 first.
abbrev pub searches : Family → Bytes → Bytes → List Search
searches Family.inet v4 v6 = record { host = v4; family = Family.inet } ∷ []
searches Family.inet6 v4 v6 = record { host = v6; family = Family.inet6 } ∷ []
searches Family.unspec v4 v6 =
    record { host = v6; family = Family.inet6 } ∷ record { host = v4; family = Family.inet } ∷ []
searches _ v4 v6 = []

abbrev pub wildcard4 : Bytes
wildcard4 = b'0' ∷ b'.' ∷ b'0' ∷ b'.' ∷ b'0' ∷ b'.' ∷ b'0' ∷ []

abbrev pub wildcard6 : Bytes
wildcard6 = b'0' ∷ b':' ∷ b':' ∷ b'0' ∷ []

abbrev pub loopback6 : Bytes
loopback6 = b'0' ∷ b':' ∷ b':' ∷ b'1' ∷ []

abbrev pub localhost : Bytes
localhost = b'l' ∷ b'o' ∷ b'c' ∷ b'a' ∷ b'l' ∷ b'h' ∷ b'o' ∷ b's' ∷ b't' ∷ []

-- The searches without a host name.
unfoldable pub own_searches : Hints → List Search
own_searches hints =
    if hints.passive
    then searches hints.family wildcard4 wildcard6
    else searches hints.family localhost loopback6

-- `search[]` as `ga_nsearch` fills it; its length is `nsearch`.
unfoldable pub search_list : Option Bytes → Hints → List Search
unfolding own_searches
search_list none hints = own_searches hints
search_list (some []) hints = own_searches hints
search_list (some (c ∷ s)) hints = searches hints.family (c ∷ s) (c ∷ s)

-- `ga_nsearch`; none is err_quit.
unfoldable pub ga_nsearch : Option Bytes → Hints → Option (List Search)
ga_nsearch host hints =
    let found = search_list host hints in
    if leb 1 (length found) && leb (length found) 2 then some found else none

abbrev pub slash_local : Bytes
slash_local = b'/' ∷ b'l' ∷ b'o' ∷ b'c' ∷ b'a' ∷ b'l' ∷ []

abbrev pub slash_unix : Bytes
slash_unix = b'/' ∷ b'u' ∷ b'n' ∷ b'i' ∷ b'x' ∷ []

-- Whether the arguments are those of a Unix domain socket: the host that says so, and a path.
unfoldable pub local_path : Option Bytes → Option Bytes → Option Bytes
local_path none serv = none
local_path (some host) none = none
local_path (some host) (some path) =
    if (str_eq host slash_local || str_eq host slash_unix) && starts_with (λ c. c == b'/') path
    then some path
    else none

abbrev pub default_hints : Hints
default_hints = record {
  passive = false;
  canonname = false;
  other_flags = false;
  family = Family.unspec;
  socktype = SockType.any;
  protocol = 0;
}

abbrev pub given_hints : Option Hints → Hints
given_hints none = default_hints
given_hints (some h) = h
