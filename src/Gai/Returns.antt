-- ===== src/Gai/Returns.antt =====
-- Which parts of getaddrinfo return whatever happens.
use my_study.Base.{
  ◌==◌, Bool, true, false, Option, none, some, List, [], ◌∷◌, length, if◌then◌else◌, ◌&&◌, not, leb,
}
use my_study.Base.Bytes.{Bytes}
use my_study.Gai.{
  Family, SockType, Eai, Work, no_work, Outcome, ◌>>=◌, Hints, HostLookup, System, Search,
  family_eq,
}
use my_study.Gai.Arguments.{}
use my_study.Gai.Entries.{
  name_first, ga_aistruct, local_entry, ga_unix, unix_entries, unix_types, name_host,
}
use my_study.Gai.Services.{serve, ga_serv}
use my_study.Gai.Lookup.{
  add_all, literal, resolved, ask, use_host, search_round, round_on, search_loop, as_literal,
  give_service, finish, for_inet, free_entries, is_empty,
}

abbrev pub Returns : Outcome → Type 0
Returns (Outcome.ok w) = Unit
Returns (Outcome.err e w) = Unit
Returns Outcome.quit = ⊥

bind-Returns :
    (m : Outcome) (k : Work → Outcome)
    → Returns m
    → ((w : Work) → Returns (k w))
    → Returns (m >>= k)
bind-Returns (Outcome.ok w) k h next = next w
bind-Returns (Outcome.err e w) k h next = tt
bind-Returns Outcome.quit k h next = h

if-Returns : (b : Bool) (m n : Outcome) → Returns m → Returns n → Returns (if b then m else n)
if-Returns true m n h h' = h
if-Returns false m n h h' = h'

ga_aistruct-Returns :
    (sys : System) (hints : Hints) (addr : Bytes) (f : Family) (w : Work)
    → Returns (ga_aistruct sys hints addr f w)
unfolding ga_aistruct local_entry
ga_aistruct-Returns sys hints addr Family.inet w = tt
ga_aistruct-Returns sys hints addr Family.inet6 w = tt
ga_aistruct-Returns sys hints addr Family.local w =
    if-Returns (leb sys.sun_path_size (length addr)) _ _ tt (if-Returns hints.passive _ _ tt tt)
ga_aistruct-Returns sys hints addr Family.unspec w = tt
ga_aistruct-Returns sys hints addr (Family.other n) w = tt

module _ (sys : System) (host : Option Bytes) (hints : Hints) where
  unix_entries-Returns :
      (path : Bytes) (ts : List SockType) (w : Work) → Returns (unix_entries sys hints path ts w)
  unix_entries-Returns path [] w = tt
  unix_entries-Returns path (t ∷ ts) w =
      bind-Returns _ _ (ga_aistruct-Returns sys (record hints { socktype = t }) path Family.local w)
        (unix_entries-Returns path ts)

  name_host-Returns : (w : Work) → Returns (name_host sys hints w)
  unfolding name_host
  name_host-Returns w = on hints.canonname sys.uname
    where
      on :
          (b : Bool) (n : Option Bytes)
          → Returns (
              if b
              then elim n [
                | none ↦ Outcome.err Eai.system w
                | some name ↦ Outcome.ok (record w { entries = name_first name w.entries })
              ]
              else Outcome.ok w)
      on true none = tt
      on true (some name) = tt
      on false n = tt

  pub ga_unix-Returns : (path : Bytes) → Returns (ga_unix sys hints path)
  unfolding ga_unix
  ga_unix-Returns path =
      if-Returns
        (not (family_eq hints.family Family.unspec) && not (family_eq hints.family Family.local)) _
        _ tt
        (bind-Returns _ _ (unix_entries-Returns path (unix_types hints.socktype) no_work)
          name_host-Returns)

  literal-Returns :
      (f : Family) (s : Search) (a : Bytes) (w : Work) → Returns (literal sys hints f s a w)
  unfolding literal
  literal-Returns f s a w =
      if-Returns (not (family_eq hints.family Family.unspec) && not (family_eq hints.family f)) _ _
        tt (if-Returns (not (family_eq s.family f)) _ _ tt (ga_aistruct-Returns sys hints a f w))

  add_all-Returns :
      (f : Family) (addrs : List Bytes) (w : Work) → Returns (add_all sys hints f addrs w)
  unfolding add_all
  add_all-Returns f [] w = tt
  add_all-Returns f (a ∷ addrs) w =
      bind-Returns _ _ (ga_aistruct-Returns sys hints a f w) (add_all-Returns f addrs)

  resolved-Returns :
      (both : Bool) (r : HostLookup) (w : Work) → Returns (resolved sys host hints both r w)
  unfolding resolved use_host
  resolved-Returns both (HostLookup.found h) w =
      if-Returns
        (not (family_eq hints.family Family.unspec) && not (family_eq hints.family h.h_addrtype)) _
        _ tt (add_all-Returns h.h_addrtype h.h_addr_list _)
  resolved-Returns true (HostLookup.failed e) w = tt
  resolved-Returns false (HostLookup.failed e) w = tt

  round_on-Returns :
      (both : Bool) (s : Search) (v4 v6 : Option Bytes) (w : Work)
      → Returns (round_on sys host hints both s v4 v6 w)
  unfolding round_on
  round_on-Returns both s (some a) v6 w = literal-Returns Family.inet s a w
  round_on-Returns both s none (some a) w = literal-Returns Family.inet6 s a w
  round_on-Returns both s none none w = resolved-Returns both (ask sys both s) w

  search_loop-Returns :
      (both : Bool) (ss : List Search) (w : Work) → Returns (search_loop sys host hints both ss w)
  unfolding search_loop search_round
  search_loop-Returns both [] w = tt
  search_loop-Returns both (s ∷ ss) w =
      bind-Returns _ _
        (round_on-Returns both s (as_literal sys Family.inet s.host)
          (as_literal sys Family.inet6 s.host) w)
        (search_loop-Returns both ss)

  give_service-Returns : (serv : Option Bytes) (w : Work) → Returns (give_service sys hints serv w)
  unfolding ga_serv
  give_service-Returns none w = tt
  give_service-Returns (some []) w = tt
  give_service-Returns (some (c ∷ s)) w =
      if-Returns ((serve sys hints (c ∷ s) w.entries).1 == 0) _ _ tt tt

  finish-Returns :
      (serv : Option Bytes) (ss : List Search) (w : Work)
      → Returns (finish sys host serv hints ss w)
  unfolding finish
  finish-Returns serv ss w = if-Returns (is_empty w.entries) _ _ tt (give_service-Returns serv _)

  free_entries-Returns : (m : Outcome) → Returns m → Returns (free_entries m)
  free_entries-Returns (Outcome.ok w) h = tt
  free_entries-Returns (Outcome.err e w) h = tt
  free_entries-Returns Outcome.quit h = h

  pub for_inet-Returns :
      (serv : Option Bytes) (ss : List Search) → Returns (for_inet sys host serv hints (some ss))
  unfolding for_inet
  for_inet-Returns serv ss =
      free_entries-Returns _ (
        bind-Returns _ _ (search_loop-Returns (length ss == 2) ss no_work) (finish-Returns serv ss))
