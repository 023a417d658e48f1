-- ===== src/Gai/Sound.antt =====
-- What getaddrinfo returns, behind the searches: its services and its list as a whole.
use my_study.Base.{
  ◌≡◌, refl, ◌==◌, Bool, true, false, ◌&&◌, not, Option, none, some, List, [], ◌∷◌, ◌++◌,
  if◌then◌else◌, length, leb,
}
use my_study.Base.Bytes.{Bytes}
use my_study.Gai.{
  Family, SockType, Eai, Work, no_work, Outcome, family_eq, is_any, Hints, AddrInfo, System, Search,
}
use my_study.Gai.Arguments.{ga_echeck, ga_nsearch, local_path, given_hints}
use my_study.Gai.Entries.{
  ga_aistruct, ga_unix, local_entry, name_first, link_entry, unix_entries, unix_types, name_host,
}
use my_study.Gai.Services.{}
use my_study.Gai.Lookup.{
  wants_name, is_empty, give_name, give_service, finish, free_entries, for_inet, behind_check,
  getaddrinfo, first_host,
}
use my_study.Gai.Agree.{
  AllAgree, Yields, bind-Yields, if-Yields, guard-Fits, unix_entries-AllAgree, unix_types-Fits,
  name_first-All, search_loop-AllAgree,
}
use my_study.Gai.Ports.{Sound, Result, ga_serv-Sound}

module _ (hints : Hints) where
  give_service-Sound :
      (sys : System) (serv : Option Bytes) (w : Work)
      → (Result hints) w
      → Yields (Result hints) (give_service sys hints serv w)
  give_service-Sound sys none w h = h
  give_service-Sound sys (some []) w h = h
  give_service-Sound sys (some (c ∷ s)) w h = ga_serv-Sound hints sys (c ∷ s) w h

  name_first-Sound :
      (name : Bytes) (ais : List AddrInfo) → Sound hints ais → Sound hints (name_first name ais)
  name_first-Sound name [] h = h
  name_first-Sound name (ai ∷ ais) h = (refl, name_first-All hints name (ai ∷ ais) h.1)

  give_name-Sound :
      (wanted : Bool) (fallback : Bytes) (w : Work)
      → (Result hints) w
      → (Result hints) (give_name wanted fallback w)
  give_name-Sound true fallback w h = name_first-Sound _ w.entries h
  give_name-Sound false fallback w h = h

  finish-Sound :
      (sys : System) (host serv : Option Bytes) (ss : List Search) (w : Work)
      → AllAgree hints w
      → Yields (Result hints) (finish sys host serv hints ss w)
  unfolding finish
  finish-Sound sys host serv ss w h =
      if-Yields (Result hints) (is_empty w.entries) _ _ (λ e. tt)
        (λ e.
          give_service-Sound sys serv _
            (give_name-Sound (wants_name host hints) (first_host ss) w (e, h)))

  free_entries-Yields :
      (m : Outcome) → Yields (Result hints) m → Yields (Result hints) (free_entries m)
  free_entries-Yields (Outcome.ok w) h = h
  free_entries-Yields (Outcome.err e w) h = tt
  free_entries-Yields Outcome.quit h = tt

  for_inet-Sound :
      (sys : System) (host serv : Option Bytes) (ss : Option (List Search))
      → Yields (Result hints) (for_inet sys host serv hints ss)
  unfolding for_inet
  for_inet-Sound sys host serv none = tt
  for_inet-Sound sys host serv (some ss) = free_entries-Yields _ (
      bind-Yields (AllAgree hints) (Result hints) _ _
        (search_loop-AllAgree sys hints host (length ss == 2) ss no_work tt)
        (finish-Sound sys host serv ss))

  name_host-Sound :
      (sys : System) (w : Work) → (Result hints) w → Yields (Result hints) (name_host sys hints w)
  unfolding name_host
  name_host-Sound sys w h = on hints.canonname sys.uname
    where
      on :
          (b : Bool) (n : Option Bytes)
          → Yields (Result hints) (
              if b
              then elim n [
                | none ↦ Outcome.err Eai.system w
                | some name ↦ Outcome.ok (record w { entries = name_first name w.entries })
              ]
              else Outcome.ok w)
      on true none = tt
      on true (some name) = name_first-Sound name w.entries h
      on false n = h

  -- The list has an entry.
  abbrev Occupied : Work → Type 0
  Occupied w = is_empty w.entries ≡ false

  link-Occupied : (ai : AddrInfo) (w : Work) → Occupied (link_entry ai w)
  link-Occupied ai w = behind w.entries
    where
      behind : (ais : List AddrInfo) → is_empty (ais ++ (ai ∷ [])) ≡ false
      behind [] = refl
      behind (b ∷ ais) = refl

  local_entry-Occupied :
      (sys : System) (asked : Hints) (path : Bytes) (w : Work)
      → Yields Occupied (local_entry sys asked path w)
  unfolding local_entry
  local_entry-Occupied sys asked path w =
      if-Yields Occupied (leb sys.sun_path_size (length path)) _ _ (λ e. tt)
        (λ e.
          if-Yields Occupied asked.passive _ _ (λ p. link-Occupied _ w) (λ p. link-Occupied _ w))

  unix_entries-Occupied :
      (sys : System) (path : Bytes) (ts : List SockType) (w : Work)
      → Occupied w
      → Yields Occupied (unix_entries sys hints path ts w)
  unfolding ga_aistruct
  unix_entries-Occupied sys path [] w h = h
  unix_entries-Occupied sys path (t ∷ ts) w h =
      bind-Yields Occupied Occupied _ _
        (local_entry-Occupied sys (record hints { socktype = t }) path w)
        (unix_entries-Occupied sys path ts)

  unix-Occupied :
      (sys : System) (path : Bytes) (b : Bool)
      → Yields Occupied (
          unix_entries sys hints path
            (if b then SockType.stream ∷ SockType.dgram ∷ [] else hints.socktype ∷ [])
            no_work)
  unfolding ga_aistruct
  unix-Occupied sys path true =
      bind-Yields Occupied Occupied _ _
        (local_entry-Occupied sys (record hints { socktype = SockType.stream }) path no_work)
        (unix_entries-Occupied sys path (SockType.dgram ∷ []))
  unix-Occupied sys path false =
      bind-Yields Occupied Occupied _ _ (local_entry-Occupied sys hints path no_work)
        (unix_entries-Occupied sys path [])

  both-Yields :
      (m : Outcome) → Yields Occupied m → Yields (AllAgree hints) m → Yields (Result hints) m
  both-Yields (Outcome.ok w) x y = (x, y)
  both-Yields (Outcome.err e w) x y = tt
  both-Yields Outcome.quit x y = tt

  ga_unix-Sound : (sys : System) (path : Bytes) → Yields (Result hints) (ga_unix sys hints path)
  unfolding ga_unix
  ga_unix-Sound sys path =
      if-Yields (Result hints)
        (not (family_eq hints.family Family.unspec) && not (family_eq hints.family Family.local)) _
        _ (λ e. tt)
        (λ e.
          bind-Yields (Result hints) (Result hints) _ _
            (both-Yields (unix_entries sys hints path (unix_types hints.socktype) no_work)
              (unix-Occupied sys path (is_any hints.socktype))
              (unix_entries-AllAgree sys hints path (unix_types hints.socktype) no_work
                (guard-Fits hints Family.local e) (unix_types-Fits sys hints) tt))
            (name_host-Sound sys))

  behind_check-Sound :
      (sys : System) (host serv path : Option Bytes) (e : Option Eai)
      → Yields (Result hints) (behind_check sys host serv hints path e)
  unfolding behind_check
  behind_check-Sound sys host serv path (some e) = tt
  behind_check-Sound sys host serv (some path) none = ga_unix-Sound sys path
  behind_check-Sound sys host serv none none = for_inet-Sound sys host serv (ga_nsearch host hints)

-- Whatever the resolver and the other parts of the system answer: a list that getaddrinfo returns has
-- an entry, and every entry has the protocol of the hints and, where the hints ask for a family or
-- a socket type, that family and that socket type.
pub getaddrinfo-Sound :
    (sys : System) (host serv : Option Bytes) (hints : Option Hints)
    → Yields (λ w. Sound (given_hints hints) w.entries) (getaddrinfo sys host serv hints)
unfolding getaddrinfo
getaddrinfo-Sound sys host serv hints =
    let h = given_hints hints in
    behind_check-Sound h sys host serv (local_path host serv) (ga_echeck host serv h)
