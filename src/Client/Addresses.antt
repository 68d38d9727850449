-- ===== src/Client/Addresses.antt =====
-- Addresses and names of targets: normalize_connect_addr, normalize_target_addr, display_addr and
-- default_name (crates/rsdb-cli/src/main.rs). The address types of the standard library are parameters.
use rsdb.Base.{
  ℕ, ◌+◌, ◌*◌, ◌-◌, ◌^◌, Bool, true, false, not, ◌||◌, ◌&&◌, Option, none, some, [], ◌∷◌, ◌++◌,
  Result, ok, err, ltb, leb, ◌==◌, if◌then◌else◌,
}
use rsdb.Base.Texts.{Text, codes, decimal, is_empty, text_eq}
use rsdb.Daemon.Error.{Error, bail}

-- `SocketAddr` and `IpAddr`: `parse`, `SocketAddr::new`, `to_string`, `ip()` and `port()`.
pub record Net (A I : Type 0) : Type 0 where
  pub parse_socket : Text → Option A
  pub parse_ip : Text → Option I
  pub socket : I → ℕ → A
  pub show_socket : A → Text
  pub show_ip : I → Text
  pub ip : A → I
  pub port : A → ℕ

abbrev pub default_rsdb_port : ℕ
default_rsdb_port = 27101

-- The digits of a number below 2^16, after those that were read.
abbrev is_port_digits : ℕ → Text → Bool
is_port_digits n [] = true
is_port_digits n (c ∷ cs) =
    let next = is_port_digits (n * 10 + (c - 48)) cs in
    leb 48 c && (leb c 57 && (ltb (n * 10 + (c - 48)) (2 ^ 16) && next))

-- `parse::<u16>().is_ok()`: decimal digits, with a plus sign or not.
abbrev pub is_u16 : Text → Bool
is_u16 [] = false
is_u16 (c ∷ cs) =
    if c == b'+' then not (is_empty cs) && is_port_digits 0 cs else is_port_digits 0 (c ∷ cs)

-- `rsplit_once(':')`
abbrev pub rsplit_once_colon : Text → Option (Text × Text)
rsplit_once_colon [] = none
rsplit_once_colon (c ∷ cs) = elim (rsplit_once_colon cs) [
  | some (host, port) ↦ some (c ∷ host, port)
  | none ↦ if c == b':' then some ([], cs) else none
]

unfoldable pub has_port_suffix : Text → Bool
has_port_suffix value = elim (rsplit_once_colon value) [
  | none ↦ false
  | some (host, port) ↦ not (is_empty host) && is_u16 port
]

abbrev is_alphanumeric : ℕ → Bool
is_alphanumeric c = (leb 97 c && leb c 122) || (leb 65 c && leb c 90) || (leb 48 c && leb c 57)

-- A byte of a character after its first is none of its own.
abbrev is_continuation : ℕ → Bool
is_continuation c = leb 128 c && ltb c 192

unfoldable pub default_name : Text → Text
default_name [] = []
default_name (c ∷ addr) =
    let rest = default_name addr in
    if is_continuation c then rest else if is_alphanumeric c then c ∷ rest else b'-' ∷ rest

unfoldable pub is_legacy_auto_name : Text → Text → Bool
unfolding default_name
is_legacy_auto_name name addr = text_eq name (default_name addr)

module _ {A I : Type 0} (net : Net A I) where
  unfoldable pub normalize_connect_addr : Text → Text
  unfolding has_port_suffix
  normalize_connect_addr value = elim (net.parse_socket value) [
    | some addr ↦ net.show_socket addr
    | none ↦ elim (net.parse_ip value) [
      | some ip ↦ net.show_socket (net.socket ip default_rsdb_port)
      | none ↦
          if has_port_suffix value then value else value ++ (codes ":" ++ decimal default_rsdb_port)
    ]
  ]

  unfoldable pub normalize_target_addr : Text → Result Error Text
  unfolding has_port_suffix
  normalize_target_addr value = elim (net.parse_socket value) [
    | some addr ↦ ok (net.show_socket addr)
    | none ↦ elim (net.parse_ip value) [
      | some ip ↦ ok (net.show_socket (net.socket ip default_rsdb_port))
      | none ↦
          if has_port_suffix value
          then ok value
          else err (bail (codes "target must be an address like <ip> or <ip>:<port>"))
    ]
  ]

  unfoldable pub display_socket_addr : A → Text
  display_socket_addr addr =
      if net.port addr == default_rsdb_port then net.show_ip (net.ip addr) else net.show_socket addr

  unfoldable pub display_addr : Text → Text
  unfolding display_socket_addr
  display_addr addr = elim (net.parse_socket addr) [
    | some parsed ↦ display_socket_addr parsed
    | none ↦ addr
  ]
