-- ===== src/Gai/Quits.antt =====
-- When getaddrinfo ends the process instead of returning.
use my_study.Base.{
  ℕ, ◌≡◌, ◌≢◌, refl, sym, Bool, true, false, Option, none, some, [], ◌∷◌, length, if◌then◌else◌,
  arith, subst, ◌&&◌, leb,
}
use my_study.Base.Bytes.{Bytes}
use my_study.Gai.{Family, Eai, Outcome, Hints, System, missing}
use my_study.Gai.Arguments.{
  ga_echeck, ga_nsearch, search_list, own_searches, searches, local_path, type_check, given_hints,
  wildcard4, wildcard6, localhost, loopback6,
}
use my_study.Gai.Entries.{}
use my_study.Gai.Lookup.{for_inet, behind_check, getaddrinfo}
use my_study.Gai.Returns.{Returns, ga_unix-Returns, for_inet-Returns}

-- `nsearch`
abbrev families : Family → ℕ
families Family.unspec = 2
families Family.inet = 1
families Family.inet6 = 1
families Family.local = 0
families (Family.other n) = 0

length-searches : (f : Family) (v4 v6 : Bytes) → length (searches f v4 v6) ≡ families f
length-searches Family.unspec v4 v6 = refl
length-searches Family.inet v4 v6 = refl
length-searches Family.inet6 v4 v6 = refl
length-searches Family.local v4 v6 = refl
length-searches (Family.other n) v4 v6 = refl

length-own_searches : (hints : Hints) → length (own_searches hints) ≡ families hints.family
unfolding own_searches
length-own_searches hints = on hints.passive
  where
    on :
        (b : Bool)
        → length (
            if b
            then searches hints.family wildcard4 wildcard6
            else searches hints.family localhost loopback6)
          ≡ families hints.family
    on true = length-searches hints.family wildcard4 wildcard6
    on false = length-searches hints.family localhost loopback6

length-search_list :
    (host : Option Bytes) (hints : Hints) → length (search_list host hints) ≡ families hints.family
unfolding search_list
length-search_list none hints = length-own_searches hints
length-search_list (some []) hints = length-own_searches hints
length-search_list (some (c ∷ s)) hints = length-searches hints.family (c ∷ s) (c ∷ s)

-- The number of searches is right, or the process ends.
ga_nsearch-families :
    (host : Option Bytes) (hints : Hints)
    → ga_nsearch host hints ≡ (
        if leb 1 (families hints.family) && leb (families hints.family) 2
        then some (search_list host hints)
        else none)
unfolding ga_nsearch
ga_nsearch-families host hints = rw (length-search_list host hints)

-- The arguments that getaddrinfo does not return on: they pass its checks, ask for AF_LOCAL, and are
-- not the host and the path of a Unix domain socket.
abbrev pub NotServed : Option Bytes → Option Bytes → Hints → Type 0
NotServed host serv hints =
    (ga_echeck host serv hints ≡ none)
    × (local_path host serv ≡ none)
    × (hints.family ≡ Family.local)

other_family :
    (host serv : Option Bytes) (hints : Hints) (n : ℕ)
    → hints.family ≡ Family.other n
    → ga_echeck host serv hints ≢ none
unfolding ga_echeck type_check
other_family host serv hints n e checked =
    on hints.other_flags (missing host && missing serv)
      (subst (λ f. after hints.other_flags (missing host && missing serv) f ≡ none) e checked)
  where
    after : Bool → Bool → Family → Option Eai
    after a b f =
        if a then some Eai.badflags else if b then some Eai.noname else type_check f hints.socktype

    on : (a b : Bool) → after a b (Family.other n) ≢ none
    on a b c = ground arith

module _ (sys : System) (host serv : Option Bytes) (hints : Hints) where
  no_quit : (m : Outcome) → Returns m → m ≢ Outcome.quit
  no_quit m h e = subst Returns e h

  found-no_quit :
      ga_nsearch host hints ≡ some (search_list host hints)
      → for_inet sys host serv hints (ga_nsearch host hints) ≢ Outcome.quit
  found-no_quit e = no_quit _ (
      subst (λ r. Returns (for_inet sys host serv hints r)) (sym e)
        (for_inet-Returns sys host hints serv (search_list host hints)))

  searched :
      (f : Family)
      → hints.family ≡ f
      → ga_echeck host serv hints ≡ none
      → for_inet sys host serv hints (ga_nsearch host hints) ≡ Outcome.quit
      → f ≡ Family.local
  searched Family.unspec e checked quits =
      absurd (found-no_quit (rw (ga_nsearch-families host hints, e)) quits)
  searched Family.inet e checked quits =
      absurd (found-no_quit (rw (ga_nsearch-families host hints, e)) quits)
  searched Family.inet6 e checked quits =
      absurd (found-no_quit (rw (ga_nsearch-families host hints, e)) quits)
  searched Family.local e checked quits = refl
  searched (Family.other n) e checked quits = absurd (other_family host serv hints n e checked)

  behind_check-quits :
      (path : Option Bytes) (e : Option Eai)
      → ga_echeck host serv hints ≡ e
      → local_path host serv ≡ path
      → behind_check sys host serv hints path e ≡ Outcome.quit
      → NotServed host serv hints
  unfolding behind_check
  behind_check-quits path (some e) checked local quits = absurd (no_quit _ tt quits)
  behind_check-quits (some path) none checked local quits =
      absurd (no_quit _ (ga_unix-Returns sys host hints path) quits)
  behind_check-quits none none checked local quits =
      (checked, local, searched hints.family refl checked quits)

  NotServed-quits :
      NotServed host serv hints
      → behind_check sys host serv hints (local_path host serv) (ga_echeck host serv hints)
        ≡ Outcome.quit
  unfolding behind_check for_inet
  NotServed-quits (checked, local, family) =
      rw (local, checked, ga_nsearch-families host hints, family)

-- Whatever the system answers, getaddrinfo ends the process exactly if its arguments pass the checks
-- of ga_echeck, ask for AF_LOCAL, and are not those of a Unix domain socket, the host "/local" or
-- "/unix" with a path for the service. On all other arguments it returns.
pub getaddrinfo-quits :
    (sys : System) (host serv : Option Bytes) (hints : Option Hints)
    → (getaddrinfo sys host serv hints ≡ Outcome.quit → NotServed host serv (given_hints hints))
      × (NotServed host serv (given_hints hints) → getaddrinfo sys host serv hints ≡ Outcome.quit)
unfolding getaddrinfo
getaddrinfo-quits sys host serv hints =
    let h = given_hints hints in
    (
      behind_check-quits sys host serv h (local_path host serv) (ga_echeck host serv h) refl refl,
      NotServed-quits sys host serv h,
    )
