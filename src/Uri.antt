-- ===== src/Uri.antt =====
-- lib/uri.c, lib/uri.h: the parts of an address.
--
-- A decoded path or host is the bytes written up to `j`. Allocation succeeds.
pub mod Split
mod Address
mod Tests
use libvarlink.Prelude.{
  ℕ, zero, suc, ◌%◌, List, [], ◌∷◌, Bool, true, false, Option, none, some, Result, ok, err, ◌>>=◌,
  map_ok, ◌==◌, ltb, if◌then◌else◌, length, drop,
}
use libvarlink.Error.{VarlinkError, invalid_address, invalid_identifier}
use libvarlink.Scanner.{starts_with}

-- VARLINK_URI_PROTOCOL_*
pub data UriProtocol : Type 0 where
  no_protocol device_protocol tcp_protocol unix_protocol : UriProtocol

-- `VarlinkURI`; `protocol` is the name of `type`, and not kept twice.
pub record VarlinkUri : Type 0 where
  pub type : UriProtocol
  pub host : Option (List ℕ)
  pub path : Option (List ℕ)
  pub qualified_member : Option (List ℕ)
  pub interface : Option (List ℕ)
  pub member : Option (List ℕ)
  pub query : Option (List ℕ)
  pub fragment : Option (List ℕ)

abbrev pub device_prefix : List ℕ
device_prefix = b'd' ∷ b'e' ∷ b'v' ∷ b'i' ∷ b'c' ∷ b'e' ∷ b':' ∷ []

abbrev pub unix_prefix : List ℕ
unix_prefix = b'u' ∷ b'n' ∷ b'i' ∷ b'x' ∷ b':' ∷ []

abbrev pub tcp_prefix : List ℕ
tcp_prefix = b't' ∷ b'c' ∷ b'p' ∷ b':' ∷ []

-- The protocol, and the text behind it.
unfoldable pub uri_parse_protocol : List ℕ → UriProtocol × List ℕ
uri_parse_protocol address =
    if starts_with address device_prefix
    then (device_protocol, drop 7 address)
    else if starts_with address unix_prefix
    then (unix_protocol, drop 5 address)
    else if starts_with address tcp_prefix
    then (tcp_protocol, drop 4 address)
    else (no_protocol, address)

abbrev pub in_front : ℕ → Option (List ℕ × List ℕ) → Option (List ℕ × List ℕ)
in_front c none = none
in_front c (some (a, b)) = some (c ∷ a, b)

-- `strchr`: what stands in front of the first such byte, and behind it.
unfoldable pub split_first : ℕ → List ℕ → Option (List ℕ × List ℕ)
split_first c [] = none
split_first c (x ∷ xs) = if x == c then some ([], xs) else in_front x (split_first c xs)

-- `strrchr`: what stands in front of the last such byte, and behind it.
abbrev pub or_here : ℕ → ℕ → List ℕ → Option (List ℕ × List ℕ) → Option (List ℕ × List ℕ)
or_here c x xs none = if x == c then some ([], xs) else none
or_here c x xs (some (a, b)) = some (x ∷ a, b)

unfoldable pub split_last : ℕ → List ℕ → Option (List ℕ × List ℕ)
split_last c [] = none
split_last c (x ∷ xs) = or_here c x xs (split_last c xs)

-- A fragment or a query is split off, if there is one.
abbrev pub split_off : Option (List ℕ × List ℕ) → List ℕ → List ℕ × Option (List ℕ)
split_off none s = (s, none)
split_off (some (a, b)) s = (a, some b)

-- `interface`, `member`, `qualified_member`
pub record Names : Type 0 where
  pub names_interface : Option (List ℕ)
  pub names_member : Option (List ℕ)
  pub names_qualified : Option (List ℕ)

unfoldable pub split_member : Bool → List ℕ → Result VarlinkError Names
split_member has_member whole = elim (split_last b'.' whole) [
  | none ↦ err invalid_identifier
  | some (a, b) ↦
      if has_member
      then ok
          (record { names_interface = some a; names_member = some b; names_qualified = some whole })
      else if length b == 0
      then ok (record { names_interface = some a; names_member = none; names_qualified = none })
      else ok (record { names_interface = some whole; names_member = none; names_qualified = none })
]

-- The text left in front of the interface (NULL if there is no slash), and the names.
unfoldable pub split_interface :
    Bool → Bool → List ℕ → Result VarlinkError (Option (List ℕ) × Names)
split_interface false has_member s =
    ok (some s, record { names_interface = none; names_member = none; names_qualified = none })
split_interface true has_member s = elim (split_last b'/' s) [
  | none ↦ map_ok (λ n. (none, n)) (split_member has_member s)
  | some (a, b) ↦ map_ok (λ n. (some a, n)) (split_member has_member b)
]

-- `sscanf (.., "%02lx", ..)`, the number it stores or none, is a parameter.
module _ (scan_hex : List ℕ → Option ℕ) where
  -- The loop of `string_percent_decode`; the number counts the bytes that `i += 2` still skips.
  unfoldable pub decode : ℕ → List ℕ → Result VarlinkError (List ℕ)
  decode skip [] = ok []
  decode (suc skip) (c ∷ cs) = decode skip cs
  decode zero (c ∷ cs) =
      let behind = decode 2 cs in
      let next = decode 0 cs in
      if c == b'%'
      then if ltb (length cs) 2 then err invalid_address else elim (scan_hex cs) [
        | none ↦ err invalid_address
        | some hex ↦ map_ok (λ out. hex % 256 ∷ out) behind
      ]
      else map_ok (λ out. c ∷ out) next

  unfoldable pub string_percent_decode : List ℕ → Result VarlinkError (List ℕ)
  string_percent_decode s = decode 0 s

  -- The `switch`: the host and the path.
  unfoldable pub place :
      UriProtocol → Bool → Option (List ℕ) → Result VarlinkError (Option (List ℕ) × Option (List ℕ))
  place device_protocol i none = err invalid_address
  place device_protocol i (some s) = map_ok (λ p. (none, some p)) (string_percent_decode s)
  place unix_protocol i none = err invalid_address
  place unix_protocol i (some s) = map_ok (λ p. (none, some p)) (string_percent_decode s)
  place tcp_protocol i none = err invalid_address
  place tcp_protocol i (some s) = elim (split_first b'/' s) [
    | some _ ↦ err invalid_address
    | none ↦ map_ok (λ h. (some h, none)) (string_percent_decode s)
  ]
  place no_protocol i s = if i then ok (none, none) else err invalid_address

  unfoldable pub varlink_uri_new : List ℕ → Bool → Bool → Result VarlinkError VarlinkUri
  varlink_uri_new address has_interface has_member =
      let (type, string) = uri_parse_protocol address in
      let (string, fragment) = split_off (split_first b'#' string) string in
      let (string, query) = split_off (split_first b'?' string) string in
      do
        (rest, names) ← split_interface has_interface has_member string
        (host, path) ← place type has_interface rest
        ok (record {
          type = type;
          host = host;
          path = path;
          qualified_member = names.names_qualified;
          interface = names.names_interface;
          member = names.names_member;
          query = query;
          fragment = fragment;
        })
