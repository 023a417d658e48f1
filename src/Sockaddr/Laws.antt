-- ===== src/Sockaddr/Laws.antt =====
-- What the functions on socket addresses have to do with each other.
use my_study.Base.{
  ℕ, ◌≡◌, refl, ◌-◌, ◌<◌, ◌≤◌, ◌==◌, ==_refl, Bool, true, false, Option, none, some, [], ◌∷◌, ◌++◌,
  length, length-append, length-take, if◌then◌else◌, arith,
}
use my_study.Base.Int.{pos, negsuc}
use my_study.Base.Bytes.{Bytes, decimal}
use my_study.Sockaddr.{
  Address, compare_bytes, sock_cmp_addr, Texts, str_size, path_text, sock_ntop, port_text,
  unknown_text, unknown_family, int_text, len_text, ntop_name, inet_text, inet6_text,
}

compare_bytes_refl : (s : Bytes) → compare_bytes s s ≡ pos 0
unfolding compare_bytes
compare_bytes_refl [] = refl
compare_bytes_refl (c ∷ s) = rw (==_refl c, compare_bytes_refl s)

compare_bytes→eq : (s t : Bytes) → compare_bytes s t ≡ pos 0 → s ≡ t
unfolding compare_bytes
compare_bytes→eq [] [] h = refl
compare_bytes→eq [] (d ∷ t) h = let wrong : ⊥ = ground arith in absurd wrong
compare_bytes→eq (c ∷ s) [] h = let wrong : ⊥ = ground arith in absurd wrong
compare_bytes→eq (c ∷ s) (d ∷ t) h =
    let same : c ≡ d = ground arith in
    let rest : compare_bytes s t ≡ pos 0 = ground arith in
    let others = compare_bytes→eq s t rest in cc

-- The two have one family and one address; a port does not matter.
abbrev pub SameAddress : Address → Address → Type 0
SameAddress (Address.inet p a) (Address.inet q b) = a ≡ b
SameAddress (Address.inet6 p a) (Address.inet6 q b) = a ≡ b
SameAddress (Address.unix a) (Address.unix b) = a ≡ b
SameAddress _ _ = ⊥

never : (negsuc 0 ≡ pos 0 → ⊥) × (⊥ → negsuc 0 ≡ pos 0)
never = (λ e. ground arith, λ x. absurd x)

-- sock_cmp_addr is 0 exactly for two addresses of one family with the same bytes, whatever their
-- ports. Two addresses of a family that it does not know are never the same.
pub sock_cmp_addr-SameAddress :
    (x y : Address)
    → (sock_cmp_addr x y ≡ pos 0 → SameAddress x y) × (SameAddress x y → sock_cmp_addr x y ≡ pos 0)
unfolding sock_cmp_addr
sock_cmp_addr-SameAddress (Address.inet p a) (Address.inet q b) =
    (compare_bytes→eq a b, λ e. rw e (compare_bytes_refl b))
sock_cmp_addr-SameAddress (Address.inet6 p a) (Address.inet6 q b) =
    (compare_bytes→eq a b, λ e. rw e (compare_bytes_refl b))
sock_cmp_addr-SameAddress (Address.unix a) (Address.unix b) =
    (compare_bytes→eq a b, λ e. rw e (compare_bytes_refl b))
sock_cmp_addr-SameAddress _ _ = never

-- What the manual of inet_ntop says of the text of an address, INET6_ADDRSTRLEN with its NUL.
pub record Documented (texts : Texts) : Type 0 where
  pub short :
      (v6 : Bool) (a : Bytes) (size : ℕ) (s : Bytes)
      → texts.inet_ntop v6 a size ≡ some s
      → length s < 46

-- The text fits `str` with its NUL.
abbrev pub FitsStr : Option Bytes → Type 0
FitsStr none = Unit
FitsStr (some s) = length s < str_size

port_text-length : (prefix : Bytes) (p : ℕ) → length (port_text prefix p) ≤ 7
port_text-length prefix p = omega (arith, length-take 7 (prefix ++ decimal p))

inet_text-FitsStr :
    (p : ℕ) (o : Option Bytes)
    → ((s : Bytes) → o ≡ some s → length s < 46)
    → FitsStr (inet_text p o)
inet_text-FitsStr p none h = tt
inet_text-FitsStr p (some s) h = on (p == 0)
  where
    on : (b : Bool) → length (if b then s else s ++ port_text (b':' ∷ []) p) < str_size
    on true = let k = h s refl in omega arith
    on false =
        omega (
          arith,
          h s refl,
          length-append s (port_text (b':' ∷ []) p),
          port_text-length (b':' ∷ []) p,
        )

inet6_text-FitsStr :
    (p : ℕ) (o : Option Bytes)
    → ((s : Bytes) → o ≡ some s → length s < 46)
    → FitsStr (inet6_text p o)
inet6_text-FitsStr p none h = tt
inet6_text-FitsStr p (some s) h = on (p == 0)
  where
    on :
        (b : Bool)
        → length (if b then s else (b'[' ∷ s) ++ port_text (b']' ∷ b':' ∷ []) p) < str_size
    on true = let k = h s refl in omega arith
    on false = omega (
      arith,
      h s refl,
      length-append (b'[' ∷ s) (port_text (b']' ∷ b':' ∷ []) p),
      port_text-length (b']' ∷ b':' ∷ []) p,
    )

path_text-length : (s : Bytes) → length (path_text s) < str_size
unfolding path_text
path_text-length [] = omega arith
path_text-length (c ∷ s) = omega (arith, length-take 127 (c ∷ s))

unknown_text-length :
    (name : Bytes) (family salen : ℕ) → length (unknown_text name family salen) < str_size
unfolding unknown_text
unknown_text-length name family salen = omega (
  arith,
  length-take 127 (name ++ (unknown_family ++ (int_text family ++ (len_text ++ int_text salen)))),
)

-- For an address of any family, one that it does not know included, with any port and a path of any
-- length, the text that sock_ntop builds in `str` fits its 128 bytes, also where it appends the port,
-- where inet_ntop keeps to the length that its manual gives.
pub sock_ntop-FitsStr :
    (texts : Texts) (x : Address) (salen : ℕ) → Documented texts → FitsStr (sock_ntop texts x salen)
unfolding sock_ntop
sock_ntop-FitsStr texts (Address.inet p a) salen d =
    inet_text-FitsStr (texts.ntohs p) _ (d.short false a str_size)
sock_ntop-FitsStr texts (Address.inet6 p a) salen d =
    inet6_text-FitsStr (texts.ntohs p) _ (d.short true a (str_size - 1))
sock_ntop-FitsStr texts (Address.unix a) salen d = path_text-length a
sock_ntop-FitsStr texts (Address.other n) salen d = unknown_text-length ntop_name n salen
