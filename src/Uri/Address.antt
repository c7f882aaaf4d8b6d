-- ===== src/Uri/Address.antt =====
-- lib/uri.c: an address that is put together from its parts is split into them again.
use libvarlink.Prelude.{
  ℕ, ◌≡◌, refl, ap, List, [], ◌∷◌, ◌++◌, append-nil, true, false, Option, none, some, ok, ◌==◌,
  All-append,
}
use libvarlink.Scanner.{starts_with}
use libvarlink.Uri.{
  UriProtocol, no_protocol, device_protocol, unix_protocol, tcp_protocol, device_prefix,
  unix_prefix, tcp_prefix, uri_parse_protocol, split_first, split_off, split_member,
  split_interface, place, varlink_uri_new,
}
use libvarlink.Uri.Split.{Lacks, split_first-at, split_first-none, split_last-at, decode_plain}

-- An address with a member, as the comment on `varlink_uri_new` lays it out.
pub record Parts : Type 0 where
  pub location : List ℕ
  pub interface_part : List ℕ
  pub member_part : List ℕ
  pub query_part : Option (List ℕ)
  pub fragment_part : Option (List ℕ)

abbrev marked : ℕ → Option (List ℕ) → List ℕ
marked c none = []
marked c (some s) = c ∷ s

abbrev member_text : Parts → List ℕ
member_text p = p.interface_part ++ b'.' ∷ p.member_part

abbrev located_text : Parts → List ℕ
located_text p = p.location ++ b'/' ∷ member_text p

abbrev pub prefix_of : UriProtocol → List ℕ
prefix_of no_protocol = []
prefix_of device_protocol = device_prefix
prefix_of tcp_protocol = tcp_prefix
prefix_of unix_protocol = unix_prefix

abbrev pub print_address : UriProtocol → Parts → List ℕ
print_address protocol p =
    prefix_of protocol
    ++ ((located_text p ++ marked b'?' p.query_part) ++ marked b'#' p.fragment_part)

abbrev pub LacksIn : ℕ → Option (List ℕ) → Type 0
LacksIn c none = Unit
LacksIn c (some s) = Lacks c s

-- No part holds a byte that ends it. A fragment may hold any byte.
pub record IsClean (p : Parts) : Type 0 where
  pub location_fragment : Lacks b'#' p.location
  pub location_query : Lacks b'?' p.location
  pub location_percent : Lacks b'%' p.location
  pub interface_fragment : Lacks b'#' p.interface_part
  pub interface_query : Lacks b'?' p.interface_part
  pub interface_slash : Lacks b'/' p.interface_part
  pub member_fragment : Lacks b'#' p.member_part
  pub member_query : Lacks b'?' p.member_part
  pub member_slash : Lacks b'/' p.member_part
  pub member_dot : Lacks b'.' p.member_part
  pub query_fragment : LacksIn b'#' p.query_part

-- An address has a protocol, and a TCP location has no slash.
abbrev pub IsLocation : UriProtocol → List ℕ → Type 0
IsLocation no_protocol s = ⊥
IsLocation tcp_protocol s = Lacks b'/' s
IsLocation _ s = Unit

split_marked :
    (c : ℕ) (s : List ℕ) (m : Option (List ℕ))
    → Lacks c s
    → split_off (split_first c (s ++ marked c m)) (s ++ marked c m) ≡ (s, m)
split_marked c s none h = rw (append-nil s) (ap (λ x. split_off x s) (split_first-none c s h))
split_marked c s (some m) h = ap (λ x. split_off x (s ++ c ∷ m)) (split_first-at c s m h)

located_text-Lacks :
    (c : ℕ) (p : Parts)
    → (b'/' == c) ≡ false
    → (b'.' == c) ≡ false
    → Lacks c p.location
    → Lacks c p.interface_part
    → Lacks c p.member_part
    → Lacks c (located_text p)
located_text-Lacks c p slash dot l i m =
    All-append _ p.location _ l (slash, All-append _ p.interface_part _ i (dot, m))

marked-Lacks :
    (c d : ℕ) (m : Option (List ℕ)) → (d == c) ≡ false → LacksIn c m → Lacks c (marked d m)
marked-Lacks c d none e h = tt
marked-Lacks c d (some s) e h = (e, h)

parse_protocol-print :
    (protocol : UriProtocol) (s rest : List ℕ)
    → IsLocation protocol s
    → uri_parse_protocol (prefix_of protocol ++ rest) ≡ (protocol, rest)
unfolding uri_parse_protocol starts_with
parse_protocol-print no_protocol s rest h = elim h [ ]
parse_protocol-print device_protocol s rest h = refl
parse_protocol-print tcp_protocol s rest h = refl
parse_protocol-print unix_protocol s rest h = refl

abbrev host_of : UriProtocol → List ℕ → Option (List ℕ)
host_of tcp_protocol s = some s
host_of _ s = none

abbrev path_of : UriProtocol → List ℕ → Option (List ℕ)
path_of device_protocol s = some s
path_of unix_protocol s = some s
path_of _ s = none

module _ (scan_hex : List ℕ → Option ℕ) where
  place_plain :
      (protocol : UriProtocol) (s : List ℕ)
      → IsLocation protocol s
      → Lacks b'%' s
      → place scan_hex protocol true (some s) ≡ ok (host_of protocol s, path_of protocol s)
  unfolding place
  place_plain no_protocol s h d = elim h [ ]
  place_plain device_protocol s h d = rw (decode_plain scan_hex s d) refl
  place_plain unix_protocol s h d = rw (decode_plain scan_hex s d) refl
  place_plain tcp_protocol s h d =
      rw (split_first-none b'/' s h, place, decode_plain scan_hex s d) refl

  split_interface-located :
      (p : Parts)
      → IsClean p
      → split_interface true true (located_text p)
        ≡ ok (
          some p.location,
          record {
            names_interface = some p.interface_part;
            names_member = some p.member_part;
            names_qualified = some (member_text p);
          },
        )
  unfolding split_interface split_member
  split_interface-located p h =
      let behind =
        All-append _ p.interface_part (b'.' ∷ p.member_part) h.interface_slash
          (refl, h.member_slash) in
      rw
        (
          split_last-at b'/' p.location (member_text p) behind,
          split_interface,
          split_last-at b'.' p.interface_part p.member_part h.member_dot,
          split_member,
        )
        refl

  -- The address put together of a protocol, a location, an interface, a member, and perhaps a query and a fragment,
  -- where no part holds a byte that ends it and the location holds no percent sign, is split into these parts again:
  -- the location is the host of a TCP address and the path of any other, and the qualified member is the interface and
  -- the member with their dot.
  pub uri_new-print_address :
      (protocol : UriProtocol) (p : Parts)
      → IsLocation protocol p.location
      → IsClean p
      → varlink_uri_new scan_hex (print_address protocol p) true true
        ≡ ok (record {
          type = protocol;
          host = host_of protocol p.location;
          path = path_of protocol p.location;
          qualified_member = some (member_text p);
          interface = some p.interface_part;
          member = some p.member_part;
          query = p.query_part;
          fragment = p.fragment_part;
        })
  unfolding varlink_uri_new
  uri_new-print_address protocol p l h =
      let queried = located_text p ++ marked b'?' p.query_part in
      let in_queried =
        All-append _ (located_text p) (marked b'?' p.query_part)
          (located_text-Lacks b'#' p refl refl h.location_fragment h.interface_fragment
            h.member_fragment)
          (marked-Lacks b'#' b'?' p.query_part refl h.query_fragment) in
      let in_located =
        located_text-Lacks b'?' p refl refl h.location_query h.interface_query h.member_query in
      rw
        (
          parse_protocol-print protocol p.location (queried ++ marked b'#' p.fragment_part) l,
          split_marked b'#' queried p.fragment_part in_queried,
          split_marked b'?' (located_text p) p.query_part in_located,
          split_interface-located p h,
          place_plain protocol p.location l h.location_percent,
        )
        refl
