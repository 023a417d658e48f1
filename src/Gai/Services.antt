-- ===== src/Gai/Services.antt =====
-- The service argument: ga_port.c and ga_serv.c of unpv13e/libgai.
use my_study.Base.{
  ℕ, suc, ◌+◌, ◌==◌, Bool, true, false, ◌||◌, Option, none, some, List, [], ◌∷◌, ◌++◌,
  if◌then◌else◌,
}
use my_study.Base.Bytes.{Bytes, is_digit}
use my_study.Gai.{
  Family, SockType, Eai, Work, Outcome, type_eq, is_any, Hints, Port, htons, port_number, SockAddr,
  AddrInfo, System, starts_with,
}
use my_study.Gai.Entries.{ga_clone}

-- `sin_port = port` or `sin6_port = port`
abbrev pub set_port : Port → Option SockAddr → Option SockAddr
set_port port none = none
set_port port (some a) = some (record a { port = port })

abbrev pub has_port : Family → Bool
has_port Family.inet = true
has_port Family.inet6 = true
has_port _ = false

-- The end of the loop's body, on the entry that `ai` points to.
unfoldable pub fill_port : Port → SockType → AddrInfo → AddrInfo
fill_port port t ai = record ai {
  ai_socktype = t;
  ai_addr = if has_port ai.ai_family then set_port port ai.ai_addr else ai.ai_addr;
}

-- What the loop makes of one entry: it and its clone, and whether the address is counted.
unfoldable pub visit : Port → SockType → AddrInfo → List AddrInfo × Bool
unfolding fill_port
visit port t ai =
    if ai.ai_clone
    then (if is_any ai.ai_socktype
        then (fill_port port t ai ∷ [], has_port ai.ai_family)
        else (ai ∷ fill_port port t (ga_clone ai) ∷ [], has_port ai.ai_family))
    else if type_eq ai.ai_socktype t
    then (fill_port port t ai ∷ [], has_port ai.ai_family)
    else (ai ∷ [], false)

-- `ga_port`: the list afterwards, and `nfound`.
unfoldable pub ga_port : List AddrInfo → Port → SockType → List AddrInfo × ℕ
unfolding visit
ga_port [] port t = ([], 0)
ga_port (ai ∷ ais) port t =
    let here = visit port t ai in
    let later = ga_port ais port t in (here.0 ++ later.0, (if here.1 then suc later.1 else later.1))

-- `ga_port` once more, with the count so far.
abbrev pub more_port : Port → SockType → List AddrInfo × ℕ → List AddrInfo × ℕ
more_port port t (ais, n) = let r = ga_port ais port t in (r.0, n + r.1)

-- The service by its name for one socket type, unless the caller wants another.
abbrev pub by_name :
    System → Hints → Bytes → SockType → Bytes → List AddrInfo × ℕ → List AddrInfo × ℕ
by_name sys hints serv t proto r =
    if is_any hints.socktype || type_eq hints.socktype t
    then elim (sys.getservbyname serv proto) [ none ↦ r | some port ↦ more_port port t r ]
    else r

abbrev pub tcp : Bytes
tcp = b't' ∷ b'c' ∷ b'p' ∷ []

abbrev pub udp : Bytes
udp = b'u' ∷ b'd' ∷ b'p' ∷ []

-- The entries with their ports, and `nfound`.
unfoldable pub serve : System → Hints → Bytes → List AddrInfo → List AddrInfo × ℕ
serve sys hints serv ais =
    if starts_with is_digit serv
    then (if is_any hints.socktype
        then more_port (htons (port_number serv)) SockType.dgram
            (more_port (htons (port_number serv)) SockType.stream (ais, 0))
        else more_port (htons (port_number serv)) hints.socktype (ais, 0))
    else by_name sys hints serv SockType.dgram udp
        (by_name sys hints serv SockType.stream tcp (ais, 0))

-- `ga_serv`
unfoldable pub ga_serv : System → Hints → Bytes → Work → Outcome
ga_serv sys hints serv w =
    let r = serve sys hints serv w.entries in
    let w' = record w { entries = r.0 } in
    if r.1 == 0
    then Outcome.err (if is_any hints.socktype then Eai.noname else Eai.service) w'
    else Outcome.ok w'
