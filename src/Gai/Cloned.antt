-- ===== src/Gai/Cloned.antt =====
-- How two calls of ga_port double fresh entries.
use my_study.Base.{
  ℕ, suc, ◌≡◌, refl, ◌+◌, Bool, true, false, none, some, List, [], ◌∷◌, ◌++◌, append_assoc, length,
  if◌then◌else◌, arith,
}
use native.Mathlib.Nat.{zero-add}
use my_study.Base.Bytes.{Bytes}
use my_study.Gai.{Family, SockType, Port, AddrInfo, type_eq}
use my_study.Gai.Arguments.{}
use my_study.Gai.Entries.{ga_clone}
use my_study.Gai.Services.{visit, fill_port, ga_port, has_port}
use my_study.Gai.Lookup.{}

abbrev pub made : Bool → SockType → ℕ → Family → Port → Bytes → AddrInfo
made clone t protocol f port addr = record {
  ai_clone = clone;
  ai_family = f;
  ai_socktype = t;
  ai_protocol = protocol;
  ai_canonname = none;
  ai_addr = some (record { sa_family = f; address = addr; port = port });
}

-- The entries for the addresses of one family, in their order: two for each.
abbrev pub doubled : ℕ → Port → Family → List Bytes → List AddrInfo
doubled protocol port f [] = []
doubled protocol port f (a ∷ addrs) =
    made true SockType.stream protocol f port a
    ∷ made false SockType.dgram protocol f port a
    ∷ doubled protocol port f addrs

abbrev pub mades : SockType → ℕ → Port → Family → List Bytes → List AddrInfo
mades t protocol port f [] = []
mades t protocol port f (a ∷ addrs) = made true t protocol f port a ∷ mades t protocol port f addrs

module _ (protocol : ℕ) (port : Port) where
  visit-fresh :
      (f : Family) (a : Bytes)
      → has_port f ≡ true
      → visit port SockType.stream (made true SockType.any protocol f (0, 0) a)
        ≡ (made true SockType.stream protocol f port a ∷ [], true)
  unfolding visit fill_port type_eq
  visit-fresh Family.inet a h = refl
  visit-fresh Family.inet6 a h = refl
  visit-fresh Family.unspec a h = cc
  visit-fresh Family.local a h = cc
  visit-fresh (Family.other n) a h = cc

  visit-stream :
      (f : Family) (a : Bytes)
      → has_port f ≡ true
      → visit port SockType.dgram (made true SockType.stream protocol f port a) ≡ (
        made true SockType.stream protocol f port a
            ∷ made false SockType.dgram protocol f port a
            ∷ [],
        true,
      )
  unfolding visit fill_port type_eq ga_clone
  visit-stream Family.inet a h = refl
  visit-stream Family.inet6 a h = refl
  visit-stream Family.unspec a h = cc
  visit-stream Family.local a h = cc
  visit-stream (Family.other n) a h = cc

  pub ga_port-fresh :
      (f : Family) (addrs : List Bytes)
      → has_port f ≡ true
      → ga_port (mades SockType.any protocol (0, 0) f addrs) port SockType.stream
        ≡ (mades SockType.stream protocol port f addrs, length addrs)
  unfolding ga_port
  ga_port-fresh f [] h = refl
  ga_port-fresh f (a ∷ addrs) h = rw (visit-fresh f a h, ga_port-fresh f addrs h)

  pub ga_port-stream :
      (f : Family) (addrs : List Bytes)
      → has_port f ≡ true
      → ga_port (mades SockType.stream protocol port f addrs) port SockType.dgram
        ≡ (doubled protocol port f addrs, length addrs)
  unfolding ga_port
  ga_port-stream f [] h = refl
  ga_port-stream f (a ∷ addrs) h = rw (visit-stream f a h, ga_port-stream f addrs h)

count_one : (b : Bool) (m n : ℕ) → (if b then suc (m + n) else m + n) ≡ (if b then suc m else m) + n
count_one b m n = ground arith

pub ga_port-append :
    (xs ys : List AddrInfo) (port : Port) (t : SockType)
    → ga_port (xs ++ ys) port t ≡ (
      (ga_port xs port t).0 ++ (ga_port ys port t).0,
      (ga_port xs port t).1 + (ga_port ys port t).1,
    )
unfolding ga_port
ga_port-append [] ys port t = rw (zero-add (ga_port ys port t).1)
ga_port-append (x ∷ xs) ys port t = rw (
  ga_port-append xs ys port t,
  append_assoc (visit port t x).0 (ga_port xs port t).0 (ga_port ys port t).0,
  count_one (visit port t x).1 (ga_port xs port t).1 (ga_port ys port t).1,
)
