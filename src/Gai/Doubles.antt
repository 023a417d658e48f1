-- ===== src/Gai/Doubles.antt =====
-- The comment of ga_port.c: without a socket type, every address of the host becomes an entry for
-- SOCK_STREAM and one for SOCK_DGRAM.
use my_study.Base.{
  ℕ, ◌≡◌, refl, ◌+◌, ◌==◌, Bool, true, false, none, some, List, [], ◌∷◌, ◌++◌, append_assoc,
  append-nil, length, if◌then◌else◌, arith, ne→==, ◌<◌, ◌&&◌, ◌||◌,
}
use native.Mathlib.Nat.{zero-add}
use my_study.Base.Bytes.{Bytes, is_digit, str_eq}
use my_study.Gai.{
  Family, SockType, Work, Outcome, Hints, htons, port_number, AddrInfo, HostLookup, System,
  starts_with, type_eq, family_eq,
}
use my_study.Gai.Arguments.{
  ga_echeck, ga_nsearch, search_list, local_path, type_check, slash_local, slash_unix,
}
use my_study.Gai.Entries.{ga_aistruct}
use my_study.Gai.Services.{serve, ga_serv, has_port}
use my_study.Gai.Lookup.{
  add_all, resolved, use_host, search_round, round_on, search_loop, as_literal, finish, for_inet,
  behind_check, getaddrinfo, is_empty,
}
use my_study.Gai.Cloned.{made, doubled, mades, ga_port-fresh, ga_port-stream, ga_port-append}

-- Hints that leave the family and the socket type open.
abbrev pub open_hints : Bool → ℕ → Hints
open_hints passive protocol = record {
  passive = passive;
  canonname = false;
  other_flags = false;
  family = Family.unspec;
  socktype = SockType.any;
  protocol = protocol;
}

-- The work behind the searches, where no name was asked for.
abbrev work : List AddrInfo → Work
work ais = record { entries = ais; canon = none; unlinked = [] }

-- What the resolver says of a host with the given addresses of the family; a host without one may
-- also be an error.
abbrev pub Gives : Family → List Bytes → HostLookup → Type 0
Gives f addrs (HostLookup.found h) = (h.h_addrtype ≡ f) × (h.h_addr_list ≡ addrs)
Gives f addrs (HostLookup.failed e) = addrs ≡ []

module _ (sys : System) (passive : Bool) (protocol : ℕ) where
  abbrev hints : Hints
  hints = open_hints passive protocol

  abbrev fresh : Family → List Bytes → List AddrInfo
  fresh = mades SockType.any protocol (0, 0)

  ga_aistruct-fresh :
      (f : Family) (a : Bytes) (ais : List AddrInfo)
      → has_port f ≡ true
      → ga_aistruct sys hints a f (work ais)
        ≡ Outcome.ok (work (ais ++ (made true SockType.any protocol f (0, 0) a ∷ [])))
  unfolding ga_aistruct type_eq
  ga_aistruct-fresh Family.inet a ais h = refl
  ga_aistruct-fresh Family.inet6 a ais h = refl
  ga_aistruct-fresh Family.unspec a ais h = cc
  ga_aistruct-fresh Family.local a ais h = cc
  ga_aistruct-fresh (Family.other n) a ais h = cc

  add_all-fresh :
      (f : Family) (addrs : List Bytes) (ais : List AddrInfo)
      → has_port f ≡ true
      → add_all sys hints f addrs (work ais) ≡ Outcome.ok (work (ais ++ fresh f addrs))
  unfolding add_all
  add_all-fresh f [] ais h = rw (append-nil ais)
  add_all-fresh f (a ∷ addrs) ais h = rw (
    ga_aistruct-fresh f a ais h,
    add_all-fresh f addrs (ais ++ (made true SockType.any protocol f (0, 0) a ∷ [])) h,
    append_assoc ais (made true SockType.any protocol f (0, 0) a ∷ []) (fresh f addrs),
  )

  resolved-fresh :
      (c : ℕ) (s : Bytes) (f : Family) (addrs : List Bytes) (answer : HostLookup)
      (ais : List AddrInfo)
      → has_port f ≡ true
      → Gives f addrs answer
      → resolved sys (some (c ∷ s)) hints true answer (work ais)
        ≡ Outcome.ok (work (ais ++ fresh f addrs))
  unfolding resolved use_host family_eq
  resolved-fresh c s f addrs (HostLookup.found h) ais inet (same, list) =
      rw (same, list) (add_all-fresh f addrs ais inet)
  resolved-fresh c s f addrs (HostLookup.failed e) ais inet none_there =
      rw (none_there, append-nil ais)

  serve-doubled :
      (serv : Bytes) (as6 as4 : List Bytes)
      → starts_with is_digit serv ≡ true
      → serve sys hints serv (fresh Family.inet6 as6 ++ fresh Family.inet as4) ≡ (
        doubled protocol (htons (port_number serv)) Family.inet6 as6
            ++ doubled protocol (htons (port_number serv)) Family.inet as4,
        length as6 + length as4 + (length as6 + length as4),
      )
  unfolding serve type_eq
  serve-doubled serv as6 as4 digit =
      let port = htons (port_number serv) in
      rw (
        digit,
        ga_port-append (fresh Family.inet6 as6) (fresh Family.inet as4) port SockType.stream,
        ga_port-fresh protocol port Family.inet6 as6 refl,
        ga_port-fresh protocol port Family.inet as4 refl,
        ga_port-append (mades SockType.stream protocol port Family.inet6 as6)
            (mades SockType.stream protocol port Family.inet as4) port SockType.dgram,
        ga_port-stream protocol port Family.inet6 as6 refl,
        ga_port-stream protocol port Family.inet as4 refl,
        zero-add (length as6 + length as4),
      )

  ga_serv-doubled :
      (serv : Bytes) (as6 as4 : List Bytes)
      → starts_with is_digit serv ≡ true
      → 0 < length as6 + length as4
      → ga_serv sys hints serv (work (fresh Family.inet6 as6 ++ fresh Family.inet as4))
        ≡ Outcome.ok (
            work (
              doubled protocol (htons (port_number serv)) Family.inet6 as6
              ++ doubled protocol (htons (port_number serv)) Family.inet as4))
  unfolding ga_serv
  ga_serv-doubled serv as6 as4 digit some_there = rw (
    serve-doubled serv as6 as4 digit,
    ne→== (length as6 + length as4 + (length as6 + length as4)) 0 (λ e. omega arith),
  )

  is_empty-fresh :
      (as6 as4 : List Bytes)
      → 0 < length as6 + length as4
      → is_empty (fresh Family.inet6 as6 ++ fresh Family.inet as4) ≡ false
  is_empty-fresh [] [] some_there = ground arith
  is_empty-fresh [] (a ∷ as4) some_there = refl
  is_empty-fresh (a ∷ as6) as4 some_there = refl

no_path :
    (d : ℕ) (b : Bool) (path : Bytes)
    → is_digit d ≡ true
    → (if b && d == b'/' then some path else none) ≡ none
no_path d b path digit = ground arith

-- For a host name with a port number and neither a family nor a socket type asked for, getaddrinfo
-- returns for each address, the IPv6 addresses before the IPv4 ones and each group in the resolver's
-- order, an entry for SOCK_STREAM and one for SOCK_DGRAM, with that port. The hints leave out
-- AI_CANONNAME, the host is no literal address, the resolver finds an address, and an address has the
-- family that was asked for.
pub getaddrinfo-doubled :
    (sys : System) (passive : Bool) (protocol c d : ℕ) (s t : Bytes) (answer6 answer4 : HostLookup)
    (as6 as4 : List Bytes)
    → is_digit d ≡ true
    → as_literal sys Family.inet (c ∷ s) ≡ none
    → as_literal sys Family.inet6 (c ∷ s) ≡ none
    → sys.gethostbyname2 (c ∷ s) Family.inet6 ≡ answer6
    → sys.gethostbyname2 (c ∷ s) Family.inet ≡ answer4
    → Gives Family.inet6 as6 answer6
    → Gives Family.inet as4 answer4
    → 0 < length as6 + length as4
    → getaddrinfo sys (some (c ∷ s)) (some (d ∷ t)) (some (open_hints passive protocol))
      ≡ Outcome.ok (record {
        entries =
            doubled protocol (htons (port_number (d ∷ t))) Family.inet6 as6
            ++ doubled protocol (htons (port_number (d ∷ t))) Family.inet as4;
        canon = none;
        unlinked = [];
      })
unfolding getaddrinfo behind_check local_path ga_echeck type_check ga_nsearch search_list for_inet
    search_loop search_round round_on finish
getaddrinfo-doubled sys passive protocol c d s t answer6 answer4 as6 as4 digit no4 no6 asked6 asked4
      gives6 gives4 some_there =
    rw (
      no_path d (str_eq (c ∷ s) slash_local || str_eq (c ∷ s) slash_unix) (d ∷ t) digit,
      no4,
      no6,
      asked6,
      asked4,
      resolved-fresh sys passive protocol c s Family.inet6 as6 answer6 [] refl gives6,
      resolved-fresh sys passive protocol c s Family.inet as4 answer4
          (mades SockType.any protocol (0, 0) Family.inet6 as6) refl gives4,
      is_empty-fresh sys passive protocol as6 as4 some_there,
      ga_serv-doubled sys passive protocol (d ∷ t) as6 as4 digit some_there,
    )
