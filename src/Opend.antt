-- ===== src/Opend.antt =====
-- The table of clients of the open server, apue.3e/ipc2/opend/client.c.
pub mod Added
pub mod Deleted
pub mod Request
pub mod Asked
mod Examples
use my_study.Base.{
  ℕ, zero, suc, Bool, true, false, Option, none, some, List, [], ◌∷◌, ◌++◌, length, ◌==◌,
  if◌then◌else◌, replicate,
}
use my_study.Base.Int.{ℤ, pos, negsuc}

-- An entry of `client[]`.
pub record Client : Type 0 where
  pub fd : ℤ
  pub uid : ℕ

-- `a == b` on int
unfoldable pub int_eq : ℤ → ℤ → Bool
int_eq (pos a) (pos b) = a == b
int_eq (negsuc a) (negsuc b) = a == b
int_eq (pos a) (negsuc b) = false
int_eq (negsuc a) (pos b) = false

-- The descriptor of a free entry, -1.
abbrev pub no_fd : ℤ
no_fd = negsuc 0

-- NALLOC
abbrev pub nalloc : ℕ
nalloc = 10

-- `client_alloc` on the table of `client_size` entries; `client` is NULL while it is empty. The
-- `uid` of a new entry is not set; 0 stands for it.
unfoldable pub client_alloc : List Client → List Client
client_alloc clients = clients ++ replicate nalloc (record { fd = no_fd; uid = 0 })

-- What an entry before the free one adds to the result of the for loop.
abbrev pub one_later : Client → Option (ℕ × List Client) → Option (ℕ × List Client)
one_later c none = none
one_later c (some (i, cs)) = some (suc i, c ∷ cs)

-- The for loop of `client_add`: the index of the first free entry, and the table with it taken.
unfoldable pub add_loop : List Client → ℤ → ℕ → Option (ℕ × List Client)
add_loop [] fd uid = none
add_loop (c ∷ cs) fd uid =
    let later = one_later c (add_loop cs fd uid) in
    if int_eq c.fd no_fd then some (0, record { fd = fd; uid = uid } ∷ cs) else later

-- The code from `again` on, where the loop has left `found`; after one more allocation the search
-- finds an entry, so that a second `goto` does not happen.
unfoldable pub add_again : List Client → ℤ → ℕ → Option (ℕ × List Client) → Option (ℕ × List Client)
add_again cs fd uid (some r) = some r
add_again cs fd uid none = add_loop (client_alloc cs) fd uid

-- `client_add`; none would be the second `goto again`.
unfoldable pub client_add : List Client → ℤ → ℕ → Option (ℕ × List Client)
client_add [] fd uid = add_again (client_alloc []) fd uid (add_loop (client_alloc []) fd uid)
client_add (c ∷ cs) fd uid = add_again (c ∷ cs) fd uid (add_loop (c ∷ cs) fd uid)

abbrev pub behind : Client → Option (List Client) → Option (List Client)
behind c none = none
behind c (some cs) = some (c ∷ cs)

-- `client_del`; none is log_quit.
unfoldable pub client_del : List Client → ℤ → Option (List Client)
client_del [] fd = none
client_del (c ∷ cs) fd =
    let later = behind c (client_del cs fd) in
    if int_eq c.fd fd then some (record c { fd = no_fd } ∷ cs) else later
