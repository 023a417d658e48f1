-- ===== src/Gai/Lookup.antt =====
-- The searches: getaddrinfo.c and freeaddrinfo.c of unpv13e/libgai.
use my_study.Base.{
  ℕ, ◌==◌, leb, Bool, true, false, ◌||◌, ◌&&◌, not, Option, none, some, List, [], ◌∷◌, length,
  if◌then◌else◌,
}
use my_study.Base.Bytes.{Bytes, is_digit}
use my_study.Gai.{
  Family, Eai, Work, no_work, Outcome, ◌>>=◌, family_eq, Hints, AddrInfo, HostEnt, HErrno,
  HostLookup, System, Search, missing, starts_with,
}
use my_study.Gai.Entries.{ga_aistruct, ga_unix, name_first}
use my_study.Gai.Services.{ga_serv}
use my_study.Gai.Arguments.{ga_echeck, ga_nsearch, local_path, given_hints}

-- The end of either check for a literal address, once inet_pton has read it.
unfoldable pub literal : System → Hints → Family → Search → Bytes → Work → Outcome
literal sys hints f s addr w =
    if not (family_eq hints.family Family.unspec) && not (family_eq hints.family f)
    then Outcome.err Eai.addrfamily w
    else if not (family_eq s.family f)
    then Outcome.ok w
    else ga_aistruct sys hints addr f w

-- One `addrinfo` for each address of the host.
unfoldable pub add_all : System → Hints → Family → List Bytes → Work → Outcome
add_all sys hints f [] w = Outcome.ok w
add_all sys hints f (addr ∷ addrs) w = ga_aistruct sys hints addr f w >>= add_all sys hints f addrs

-- Whether the canonical name is asked for, and there is a host to have one.
abbrev pub wants_name : Option Bytes → Hints → Bool
wants_name host hints = not (missing host) && hints.canonname

abbrev pub save_canon : Bool → Bytes → Option Bytes → Option Bytes
save_canon wanted name (some c) = some c
save_canon wanted name none = if wanted then some name else none

-- What follows a call of the resolver that found the host.
unfoldable pub use_host : System → Option Bytes → Hints → HostEnt → Work → Outcome
use_host sys host hints h w =
    if not (family_eq hints.family Family.unspec) && not (family_eq hints.family h.h_addrtype)
    then Outcome.err Eai.addrfamily w
    else add_all sys hints h.h_addrtype h.h_addr_list
        (record w { canon = save_canon (wants_name host hints) h.h_name w.canon })

-- The switch on `h_errno`.
abbrev pub host_error : HErrno → Eai
host_error HErrno.host_not_found = Eai.noname
host_error HErrno.try_again = Eai.again
host_error HErrno.no_recovery = Eai.fail
host_error HErrno.no_data = Eai.nodata
host_error HErrno.other_error = Eai.noname

-- The call of the resolver; `both` is `nsearch == 2`.
abbrev pub ask : System → Bool → Search → HostLookup
ask sys both s =
    if both
    then sys.gethostbyname2 s.host s.family
    else sys.gethostbyname (family_eq s.family Family.inet6) s.host

unfoldable pub resolved : System → Option Bytes → Hints → Bool → HostLookup → Work → Outcome
resolved sys host hints both (HostLookup.found h) w = use_host sys host hints h w
resolved sys host hints both (HostLookup.failed e) w =
    if both then Outcome.ok w else Outcome.err (host_error e) w

-- `isxdigit`
abbrev pub is_hex : ℕ → Bool
is_hex c = is_digit c || (leb b'a' c && leb c b'f') || (leb b'A' c && leb c b'F')

-- `strchr(s, c) != NULL`
abbrev pub has_byte : ℕ → Bytes → Bool
has_byte c [] = false
has_byte c (d ∷ s) = d == c || has_byte c s

-- The text that the code gives to inet_pton for the family.
abbrev pub may_be : Family → Bytes → Bool
may_be Family.inet s = starts_with is_digit s
may_be Family.inet6 s = starts_with (λ c. is_hex c || c == b':') s && has_byte b':' s
may_be _ s = false

unfoldable pub as_literal : System → Family → Bytes → Option Bytes
as_literal sys f s = if may_be f s then sys.inet_pton f s else none

-- One round of the loop, behind what inet_pton said of an IPv4 and of an IPv6 address.
unfoldable pub round_on :
    System → Option Bytes → Hints → Bool → Search → Option Bytes → Option Bytes → Work → Outcome
round_on sys host hints both s (some a) v6 w = literal sys hints Family.inet s a w
round_on sys host hints both s none (some a) w = literal sys hints Family.inet6 s a w
round_on sys host hints both s none none w = resolved sys host hints both (ask sys both s) w

-- One round of the loop over `search[]`.
unfoldable pub search_round : System → Option Bytes → Hints → Bool → Search → Work → Outcome
search_round sys host hints both s w =
    round_on sys host hints both s (as_literal sys Family.inet s.host)
      (as_literal sys Family.inet6 s.host) w

-- The loop.
unfoldable pub search_loop : System → Option Bytes → Hints → Bool → List Search → Work → Outcome
search_loop sys host hints both [] w = Outcome.ok w
search_loop sys host hints both (s ∷ ss) w =
    search_round sys host hints both s w >>= search_loop sys host hints both ss

abbrev pub first_host : List Search → Bytes
first_host [] = []
first_host (s ∷ ss) = s.host

-- The canonical name goes to the first entry.
abbrev pub or_else : Option Bytes → Bytes → Bytes
or_else none b = b
or_else (some a) b = a

abbrev pub give_name : Bool → Bytes → Work → Work
give_name wanted fallback w =
    if wanted
    then record w { entries = name_first (or_else w.canon fallback) w.entries; canon = none }
    else w

abbrev pub give_service : System → Hints → Option Bytes → Work → Outcome
give_service sys hints none w = Outcome.ok w
give_service sys hints (some []) w = Outcome.ok w
give_service sys hints (some (c ∷ s)) w = ga_serv sys hints (c ∷ s) w

abbrev pub is_empty : List AddrInfo → Bool
is_empty [] = true
is_empty (ai ∷ ais) = false

-- The code behind the loop.
unfoldable pub finish : System → Option Bytes → Option Bytes → Hints → List Search → Work → Outcome
finish sys host serv hints ss w =
    if is_empty w.entries
    then Outcome.err Eai.noname w
    else give_service sys hints serv (give_name (wants_name host hints) (first_host ss) w)

-- `freeaddrinfo`, at `bad`.
abbrev pub free_entries : Outcome → Outcome
free_entries (Outcome.ok w) = Outcome.ok w
free_entries (Outcome.err e w) = Outcome.err e (record w { entries = [] })
free_entries Outcome.quit = Outcome.quit

-- The code behind the case of Unix domain sockets.
unfoldable pub for_inet :
    System → Option Bytes → Option Bytes → Hints → Option (List Search) → Outcome
for_inet sys host serv hints none = Outcome.quit
for_inet sys host serv hints (some ss) =
    free_entries
      (search_loop sys host hints (length ss == 2) ss no_work >>= finish sys host serv hints ss)

unfoldable pub behind_check :
    System → Option Bytes → Option Bytes → Hints → Option Bytes → Option Eai → Outcome
behind_check sys host serv hints path (some e) = Outcome.err e no_work
behind_check sys host serv hints (some path) none = ga_unix sys hints path
behind_check sys host serv hints none none = for_inet sys host serv hints (ga_nsearch host hints)

-- `getaddrinfo`: `*result` is the list of entries of what is returned.
unfoldable pub getaddrinfo : System → Option Bytes → Option Bytes → Option Hints → Outcome
getaddrinfo sys host serv hints =
    let h = given_hints hints in
    behind_check sys host serv h (local_path host serv) (ga_echeck host serv h)
