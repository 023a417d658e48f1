-- ===== src/Gai/Ports.antt =====
-- That the code for the service argument keeps what was agreed.
use my_study.Base.{
  ℕ, ◌≡◌, refl, ◌==◌, sym, Bool, true, false, ◌||◌, Option, none, some, List, [], ◌∷◌, ◌++◌,
  if◌then◌else◌, All, All-append, arith,
}
use my_study.Base.Bytes.{Bytes, is_digit}
use my_study.Gai.{
  SockType, Work, type_eq, is_any, Hints, Port, AddrInfo, System, htons, port_number, starts_with,
}
use my_study.Gai.Entries.{ga_clone}
use my_study.Gai.Services.{visit, fill_port, ga_port, more_port, by_name, serve, ga_serv, tcp, udp}
use my_study.Gai.Lookup.{is_empty}
use my_study.Gai.Agree.{Agrees, Yields, if-Yields, type_eq→eq}

-- A result: it has an entry, and all of them agree with the hints.
abbrev pub Sound : Hints → List AddrInfo → Type 0
Sound hints ais = (is_empty ais ≡ false) × All (Agrees hints) ais

module _ (hints : Hints) where
  -- `ga_port` is called with a socket type that the hints allow.
  abbrev Allows : SockType → Type 0
  Allows t = is_any hints.socktype ≡ false → t ≡ hints.socktype

  fill_port-Agrees :
      (port : Port) (t : SockType) (ai : AddrInfo)
      → Allows t
      → Agrees hints ai
      → Agrees hints (fill_port port t ai)
  unfolding fill_port
  fill_port-Agrees port t ai allow h = record {
    family = h.family;
    socktype = λ e. ((h.socktype e).0, allow e);
    protocol = h.protocol;
  }

  ga_clone-Agrees : (ai : AddrInfo) → Agrees hints ai → Agrees hints (ga_clone ai)
  unfolding ga_clone
  ga_clone-Agrees ai h = record {
    family = h.family;
    socktype = λ e. (refl, (h.socktype e).1);
    protocol = h.protocol;
  }

  visit-All :
      (port : Port) (t : SockType) (ai : AddrInfo)
      → Allows t
      → Agrees hints ai
      → All (Agrees hints) (visit port t ai).0
  unfolding visit
  visit-All port t ai allow h =
      either ai.ai_clone _ _ (either (is_any ai.ai_socktype) _ _ (filled, tt) (h, (cloned, tt)))
        (either (type_eq ai.ai_socktype t) _ _ (filled, tt) (h, tt))
    where
      filled : Agrees hints (fill_port port t ai)
      filled = fill_port-Agrees port t ai allow h

      cloned : Agrees hints (fill_port port t (ga_clone ai))
      cloned = fill_port-Agrees port t (ga_clone ai) allow (ga_clone-Agrees ai h)

      either :
          (b : Bool) (r s : List AddrInfo × Bool)
          → All (Agrees hints) r.0
          → All (Agrees hints) s.0
          → All (Agrees hints) (if◌then◌else◌ {A = List AddrInfo × Bool} b r s).0
      either true r s x y = x
      either false r s x y = y

  ga_port-All :
      (ais : List AddrInfo) (port : Port) (t : SockType)
      → Allows t
      → All (Agrees hints) ais
      → All (Agrees hints) (ga_port ais port t).0
  unfolding ga_port
  ga_port-All [] port t allow h = tt
  ga_port-All (ai ∷ ais) port t allow h =
      All-append (Agrees hints) (visit port t ai).0 _ (visit-All port t ai allow h.0)
        (ga_port-All ais port t allow h.1)

  visit-nonempty :
      (port : Port) (t : SockType) (ai : AddrInfo) (ais : List AddrInfo)
      → is_empty ((visit port t ai).0 ++ ais) ≡ false
  unfolding visit
  visit-nonempty port t ai ais = ground arith

  ga_port-Sound :
      (ais : List AddrInfo) (port : Port) (t : SockType)
      → Allows t
      → Sound hints ais
      → Sound hints (ga_port ais port t).0
  unfolding ga_port
  ga_port-Sound [] port t allow h = h
  ga_port-Sound (ai ∷ ais) port t allow h =
      (visit-nonempty port t ai (ga_port ais port t).0, ga_port-All (ai ∷ ais) port t allow h.1)

  more_port-Sound :
      (port : Port) (t : SockType) (r : List AddrInfo × ℕ)
      → Allows t
      → Sound hints r.0
      → Sound hints (more_port port t r).0
  more_port-Sound port t (ais, n) allow h = ga_port-Sound ais port t allow h

  by_name-Sound :
      (sys : System) (serv : Bytes) (t : SockType) (proto : Bytes) (r : List AddrInfo × ℕ)
      → Sound hints r.0
      → Sound hints (by_name sys hints serv t proto r).0
  by_name-Sound sys serv t proto r h =
      asked (is_any hints.socktype) (type_eq hints.socktype t) refl refl
        (sys.getservbyname serv proto)
    where
      asked :
          (a b : Bool)
          → is_any hints.socktype ≡ a
          → type_eq hints.socktype t ≡ b
          → (p : Option Port)
          → Sound hints
              (if◌then◌else◌ {A = List AddrInfo × ℕ}
                (a || b)
                (elim p [ none ↦ r | some port ↦ more_port port t r ])
                r).0
      asked true b e e' none = h
      asked true b e e' (some port) = more_port-Sound port t r (λ q. cc) h
      asked false true e e' none = h
      asked false true e e' (some port) =
          more_port-Sound port t r (λ q. sym (type_eq→eq hints.socktype t e')) h
      asked false false e e' p = h

  serve-Sound :
      (sys : System) (serv : Bytes) (ais : List AddrInfo)
      → Sound hints ais
      → Sound hints (serve sys hints serv ais).0
  unfolding serve
  serve-Sound sys serv ais h = on (starts_with is_digit serv) (is_any hints.socktype) refl
    where
      port : Port
      port = htons (port_number serv)

      on :
          (a b : Bool)
          → is_any hints.socktype ≡ b
          → Sound hints
              (if◌then◌else◌ {A = List AddrInfo × ℕ} a
                (if b
                  then more_port port SockType.dgram (more_port port SockType.stream (ais, 0))
                  else more_port port hints.socktype (ais, 0))
                (by_name sys hints serv SockType.dgram udp
                  (by_name sys hints serv SockType.stream tcp (ais, 0)))).0
      on true true e =
          more_port-Sound port SockType.dgram (more_port port SockType.stream (ais, 0)) (λ q. cc)
            (more_port-Sound port SockType.stream (ais, 0) (λ q. cc) h)
      on true false e = more_port-Sound port hints.socktype (ais, 0) (λ q. refl) h
      on false b e =
          by_name-Sound sys serv SockType.dgram udp
            (by_name sys hints serv SockType.stream tcp (ais, 0))
            (by_name-Sound sys serv SockType.stream tcp (ais, 0) h)

  abbrev pub Result : Work → Type 0
  Result w = Sound hints w.entries

  pub ga_serv-Sound :
      (sys : System) (serv : Bytes) (w : Work) → Result w → Yields Result (ga_serv sys hints serv w)
  unfolding ga_serv
  ga_serv-Sound sys serv w h =
      if-Yields Result ((serve sys hints serv w.entries).1 == 0) _ _ (λ e. tt)
        (λ e. serve-Sound sys serv w.entries h)
