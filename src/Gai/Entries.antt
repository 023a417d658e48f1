-- ===== src/Gai/Entries.antt =====
-- The entries of a result: ga_aistruct.c, ga_clone.c and ga_unix.c of unpv13e/libgai. The memory that
-- they ask for is always given.
use my_study.Base.{
  false, ◌&&◌, not, Option, none, some, List, [], ◌∷◌, ◌++◌, leb, length, if◌then◌else◌,
}
use my_study.Base.Bytes.{Bytes}
use my_study.Gai.{
  Family, SockType, Eai, Work, no_work, Outcome, ◌>>=◌, family_eq, is_any, Hints, SockAddr,
  AddrInfo, System,
}

-- The entry that `ga_aistruct` links in, with the address that its family gives it.
abbrev pub entry : Hints → Family → Option SockAddr → AddrInfo
entry hints family addr = record {
  ai_clone = is_any hints.socktype;
  ai_family = family;
  ai_socktype = hints.socktype;
  ai_protocol = hints.protocol;
  ai_canonname = none;
  ai_addr = addr;
}

abbrev pub link_entry : AddrInfo → Work → Work
link_entry ai w = record w { entries = w.entries ++ (ai ∷ []) }

-- The socket address that is filled in, the port still 0.
abbrev pub sock_addr : Family → Bytes → SockAddr
sock_addr family addr = record { sa_family = family; address = addr; port = (0, 0) }

-- AF_LOCAL: the path is copied where it fits, and unlinked for a passive socket.
unfoldable pub local_entry : System → Hints → Bytes → Work → Outcome
local_entry sys hints path w =
    let linked = link_entry (entry hints Family.local (some (sock_addr Family.local path))) w in
    if leb sys.sun_path_size (length path)
    then Outcome.err Eai.service (link_entry (entry hints Family.local none) w)
    else if hints.passive
    then Outcome.ok (record linked { unlinked = linked.unlinked ++ (path ∷ []) })
    else Outcome.ok linked

-- `ga_aistruct`
unfoldable pub ga_aistruct : System → Hints → Bytes → Family → Work → Outcome
unfolding local_entry
ga_aistruct sys hints addr Family.inet w =
    Outcome.ok (link_entry (entry hints Family.inet (some (sock_addr Family.inet addr))) w)
ga_aistruct sys hints addr Family.inet6 w =
    Outcome.ok (link_entry (entry hints Family.inet6 (some (sock_addr Family.inet6 addr))) w)
ga_aistruct sys hints addr Family.local w = local_entry sys hints addr w
ga_aistruct sys hints addr Family.unspec w =
    Outcome.ok (link_entry (entry hints Family.unspec none) w)
ga_aistruct sys hints addr (Family.other n) w =
    Outcome.ok (link_entry (entry hints (Family.other n) none) w)

-- `ga_clone`: the new entry, which stands behind the given one.
unfoldable pub ga_clone : AddrInfo → AddrInfo
ga_clone ai = record ai { ai_clone = false; ai_canonname = none }

-- `aihead->ai_canonname = name`
abbrev pub name_first : Bytes → List AddrInfo → List AddrInfo
name_first name [] = []
name_first name (ai ∷ ais) = record ai { ai_canonname = some name } ∷ ais

-- What `ga_unix` does with the last entry linked in: the name of this host goes to the first entry.
unfoldable pub name_host : System → Hints → Work → Outcome
name_host sys hints w =
    if hints.canonname
    then elim sys.uname [
      | none ↦ Outcome.err Eai.system w
      | some name ↦ Outcome.ok (record w { entries = name_first name w.entries })
    ]
    else Outcome.ok w

-- `ga_unix` on the socket types that it tries, in order.
abbrev pub unix_entries : System → Hints → Bytes → List SockType → Work → Outcome
unix_entries sys hints path [] w = Outcome.ok w
unix_entries sys hints path (t ∷ ts) w =
    ga_aistruct sys (record hints { socktype = t }) path Family.local w
    >>= unix_entries sys hints path ts

abbrev pub unix_types : SockType → List SockType
unix_types t = if is_any t then SockType.stream ∷ SockType.dgram ∷ [] else t ∷ []

-- `ga_unix`
unfoldable pub ga_unix : System → Hints → Bytes → Outcome
ga_unix sys hints path =
    if not (family_eq hints.family Family.unspec) && not (family_eq hints.family Family.local)
    then Outcome.err Eai.addrfamily no_work
    else unix_entries sys hints path (unix_types hints.socktype) no_work >>= name_host sys hints
