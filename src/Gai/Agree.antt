-- ===== src/Gai/Agree.antt =====
-- That what getaddrinfo returns agrees with the caller's hints.
use my_study.Base.{
  ◌≡◌, refl, ◌∙◌, sym, ap, Bool, true, false, ◌&&◌, not, Option, none, some, List, [], ◌∷◌,
  if◌then◌else◌, All, All-append, length, arith, leb,
}
use my_study.Base.Bytes.{Bytes}
use my_study.Gai.{
  Family, SockType, Work, Outcome, ◌>>=◌, family_eq, type_eq, is_any, Hints, SockAddr, AddrInfo,
  HostEnt, HostLookup, System, Search,
}
use my_study.Gai.Entries.{
  ga_aistruct, local_entry, name_first, entry, link_entry, unix_entries, unix_types,
}
use my_study.Gai.Lookup.{
  literal, add_all, use_host, resolved, ask, round_on, as_literal, search_round, search_loop,
}

-- An entry agrees with the hints: it has the protocol of the hints, and the family and the socket
-- type that they ask for, if they do.
pub record Agrees (hints : Hints) (ai : AddrInfo) : Type 0 where
  pub family : family_eq hints.family Family.unspec ≡ false → ai.ai_family ≡ hints.family
  pub socktype :
      is_any hints.socktype ≡ false → (ai.ai_clone ≡ false) × (ai.ai_socktype ≡ hints.socktype)
  pub protocol : ai.ai_protocol ≡ hints.protocol

abbrev pub AllAgree : Hints → Work → Type 0
AllAgree hints w = All (Agrees hints) w.entries

-- If the code succeeds, its work has the property.
abbrev pub Yields : (Work → Type 0) → Outcome → Type 0
Yields P (Outcome.ok w) = P w
Yields P _ = Unit

pub bind-Yields :
    (P Q : Work → Type 0) (m : Outcome) (k : Work → Outcome)
    → Yields P m
    → ((w : Work) → P w → Yields Q (k w))
    → Yields Q (m >>= k)
bind-Yields P Q (Outcome.ok w) k h next = next w h
bind-Yields P Q (Outcome.err e w) k h next = tt
bind-Yields P Q Outcome.quit k h next = tt

pub if-Yields :
    (P : Work → Type 0) (b : Bool) (m n : Outcome)
    → (b ≡ true → Yields P m)
    → (b ≡ false → Yields P n)
    → Yields P (if b then m else n)
if-Yields P true m n t f = t refl
if-Yields P false m n t f = f refl

family_eq→eq : (f g : Family) → family_eq f g ≡ true → f ≡ g
unfolding family_eq
family_eq→eq f g h = ground arith

pub type_eq→eq : (s t : SockType) → type_eq s t ≡ true → s ≡ t
unfolding type_eq
type_eq→eq s t h = ground arith

pub type_eq_refl : (s : SockType) → type_eq s s ≡ true
unfolding type_eq
type_eq_refl s = ground arith

-- An address of family `f` may be returned.
abbrev pub Fits : Hints → Family → Type 0
Fits hints f = family_eq hints.family Family.unspec ≡ false → f ≡ hints.family

-- An entry for the socket type `t` may be returned.
abbrev FitsType : Hints → SockType → Type 0
FitsType hints t = is_any hints.socktype ≡ false → t ≡ hints.socktype

module _ (hints : Hints) (t : SockType) (fits_type : FitsType hints t) where
  abbrev asked : Hints
  asked = record hints { socktype = t }

  link-AllAgree :
      (f : Family) (addr : Option SockAddr) (w : Work)
      → Fits hints f
      → AllAgree hints w
      → AllAgree hints (link_entry (entry asked f addr) w)
  link-AllAgree f addr w fits h = All-append (Agrees hints) w.entries _ h (
    record {
      family = fits;
      socktype = λ e. (ap is_any (fits_type e) ∙ e, fits_type e);
      protocol = refl;
    },
    tt,
  )

  local_entry-AllAgree :
      (sys : System) (path : Bytes) (w : Work)
      → Fits hints Family.local
      → AllAgree hints w
      → Yields (AllAgree hints) (local_entry sys asked path w)
  unfolding local_entry
  local_entry-AllAgree sys path w fits h =
      if-Yields (AllAgree hints) (leb sys.sun_path_size (length path)) _ _ (λ e. tt)
        (λ e.
          if-Yields (AllAgree hints) hints.passive _ _ (λ p. link-AllAgree Family.local _ w fits h)
            (λ p. link-AllAgree Family.local _ w fits h))

  ga_aistruct-AllAgree :
      (sys : System) (addr : Bytes) (f : Family) (w : Work)
      → Fits hints f
      → AllAgree hints w
      → Yields (AllAgree hints) (ga_aistruct sys asked addr f w)
  unfolding ga_aistruct
  ga_aistruct-AllAgree sys addr Family.inet w fits h = link-AllAgree Family.inet _ w fits h
  ga_aistruct-AllAgree sys addr Family.inet6 w fits h = link-AllAgree Family.inet6 _ w fits h
  ga_aistruct-AllAgree sys addr Family.local w fits h = local_entry-AllAgree sys addr w fits h
  ga_aistruct-AllAgree sys addr Family.unspec w fits h = link-AllAgree Family.unspec _ w fits h
  ga_aistruct-AllAgree sys addr (Family.other n) w fits h =
      link-AllAgree (Family.other n) _ w fits h

-- What the code tests before it takes an address of family `f`.
pub guard-Fits :
    (hints : Hints) (f : Family)
    → (not (family_eq hints.family Family.unspec) && not (family_eq hints.family f)) ≡ false
    → Fits hints f
guard-Fits hints f e known =
    sym (family_eq→eq hints.family f (same (family_eq hints.family Family.unspec) _ e known))
  where
    same : (a b : Bool) → (not a && not b) ≡ false → a ≡ false → b ≡ true
    same a b e known = ground arith

pub name_first-All :
    (hints : Hints) (name : Bytes) (ais : List AddrInfo)
    → All (Agrees hints) ais
    → All (Agrees hints) (name_first name ais)
name_first-All hints name [] h = tt
name_first-All hints name (ai ∷ ais) h =
    (record { family = h.0.family; socktype = h.0.socktype; protocol = h.0.protocol }, h.1)

module _ (sys : System) (hints : Hints) where
  pub unix_entries-AllAgree :
      (path : Bytes) (ts : List SockType) (w : Work)
      → Fits hints Family.local
      → All (FitsType hints) ts
      → AllAgree hints w
      → Yields (AllAgree hints) (unix_entries sys hints path ts w)
  unix_entries-AllAgree path [] w fits types h = h
  unix_entries-AllAgree path (t ∷ ts) w fits types h =
      bind-Yields (AllAgree hints) (AllAgree hints) _ _
        (ga_aistruct-AllAgree hints t types.0 sys path Family.local w fits h)
        (λ w'. unix_entries-AllAgree path ts w' fits types.1)

  pub unix_types-Fits : All (FitsType hints) (unix_types hints.socktype)
  unix_types-Fits = on (is_any hints.socktype) refl
    where
      on :
          (b : Bool)
          → is_any hints.socktype ≡ b
          → All
              (FitsType hints)
              (if b then SockType.stream ∷ SockType.dgram ∷ [] else hints.socktype ∷ [])
      on true e = ((λ q. cc), ((λ q. cc), tt))
      on false e = ((λ q. refl), tt)

  literal-AllAgree :
      (f : Family) (s : Search) (addr : Bytes) (w : Work)
      → AllAgree hints w
      → Yields (AllAgree hints) (literal sys hints f s addr w)
  unfolding literal
  literal-AllAgree f s addr w h =
      if-Yields (AllAgree hints) _ _ _ (λ e. tt)
        (λ e.
          if-Yields (AllAgree hints) (not (family_eq s.family f)) _ _ (λ p. h)
            (λ p.
              ga_aistruct-AllAgree hints hints.socktype (λ q. refl) sys addr f w
                (guard-Fits hints f e) h))

  add_all-AllAgree :
      (f : Family) (addrs : List Bytes) (w : Work)
      → Fits hints f
      → AllAgree hints w
      → Yields (AllAgree hints) (add_all sys hints f addrs w)
  unfolding add_all
  add_all-AllAgree f [] w fits h = h
  add_all-AllAgree f (addr ∷ addrs) w fits h =
      bind-Yields (AllAgree hints) (AllAgree hints) _ _
        (ga_aistruct-AllAgree hints hints.socktype (λ q. refl) sys addr f w fits h)
        (λ w'. add_all-AllAgree f addrs w' fits)

  use_host-AllAgree :
      (host : Option Bytes) (h : HostEnt) (w : Work)
      → AllAgree hints w
      → Yields (AllAgree hints) (use_host sys host hints h w)
  unfolding use_host
  use_host-AllAgree host h w agree =
      if-Yields (AllAgree hints) _ _ _ (λ e. tt)
        (λ e. add_all-AllAgree h.h_addrtype h.h_addr_list _ (guard-Fits hints h.h_addrtype e) agree)

  resolved-AllAgree :
      (host : Option Bytes) (both : Bool) (r : HostLookup) (w : Work)
      → AllAgree hints w
      → Yields (AllAgree hints) (resolved sys host hints both r w)
  unfolding resolved
  resolved-AllAgree host both (HostLookup.found h) w agree = use_host-AllAgree host h w agree
  resolved-AllAgree host true (HostLookup.failed e) w agree = agree
  resolved-AllAgree host false (HostLookup.failed e) w agree = tt

  round_on-AllAgree :
      (host : Option Bytes) (both : Bool) (s : Search) (v4 v6 : Option Bytes) (w : Work)
      → AllAgree hints w
      → Yields (AllAgree hints) (round_on sys host hints both s v4 v6 w)
  unfolding round_on
  round_on-AllAgree host both s (some a) v6 w h = literal-AllAgree Family.inet s a w h
  round_on-AllAgree host both s none (some a) w h = literal-AllAgree Family.inet6 s a w h
  round_on-AllAgree host both s none none w h = resolved-AllAgree host both (ask sys both s) w h

  pub search_loop-AllAgree :
      (host : Option Bytes) (both : Bool) (ss : List Search) (w : Work)
      → AllAgree hints w
      → Yields (AllAgree hints) (search_loop sys host hints both ss w)
  unfolding search_loop search_round
  search_loop-AllAgree host both [] w h = h
  search_loop-AllAgree host both (s ∷ ss) w h =
      bind-Yields (AllAgree hints) (AllAgree hints) _ _
        (round_on-AllAgree host both s (as_literal sys Family.inet s.host)
          (as_literal sys Family.inet6 s.host) w h)
        (search_loop-AllAgree host both ss)
