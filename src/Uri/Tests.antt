-- ===== src/Uri/Tests.antt =====
-- lib/uri.c on concrete addresses.
use libvarlink.Prelude.{ℕ, ◌≡◌, refl, List, [], ◌∷◌, ◌++◌, true, false, Option, none, some, ok, err}
use libvarlink.Error.{invalid_address, invalid_identifier}
use libvarlink.Scanner.{starts_with}
use libvarlink.Uri.{
  unix_protocol, unix_prefix, tcp_prefix, uri_parse_protocol, split_first, split_last, split_member,
  split_interface, decode, string_percent_decode, place, varlink_uri_new,
}
use libvarlink.Uri.Address.{Parts, IsClean, print_address, uri_new-print_address}

-- One byte for every pair of digits.
abbrev always_slash : List ℕ → Option ℕ
always_slash s = some b'/'

-- "/a", "io.b", "C", "q=1"
abbrev parts : Parts
parts = record {
  location = b'/' ∷ b'a' ∷ [];
  interface_part = b'i' ∷ b'.' ∷ b'b' ∷ [];
  member_part = b'C' ∷ [];
  query_part = some (b'q' ∷ []);
  fragment_part = none;
}

-- A percent sign stands for two digits; with one digit behind it, the text is refused.
percent :
    (string_percent_decode always_slash (b'a' ∷ b'%' ∷ b'2' ∷ b'f' ∷ b'b' ∷ [])
      ≡ ok (b'a' ∷ b'/' ∷ b'b' ∷ []))
    × (string_percent_decode always_slash (b'a' ∷ b'%' ∷ b'2' ∷ []) ≡ err invalid_address)
unfolding string_percent_decode decode
percent = (refl, refl)

-- An interface without a dot, a TCP host with a slash, an address with no protocol.
refused_addresses :
    (varlink_uri_new always_slash (unix_prefix ++ b'/' ∷ b'a' ∷ []) true false
      ≡ err invalid_identifier)
    × (varlink_uri_new always_slash (tcp_prefix ++ b'a' ∷ b'/' ∷ []) false false
        ≡ err invalid_address)
    × (varlink_uri_new always_slash (b'a' ∷ []) false false ≡ err invalid_address)
unfolding varlink_uri_new uri_parse_protocol starts_with split_first split_last split_member
    split_interface place string_percent_decode decode
refused_addresses = (refl, refl, refl)

parts-IsClean : IsClean parts
parts-IsClean = record {
  location_fragment = (refl, (refl, tt));
  location_query = (refl, (refl, tt));
  location_percent = (refl, (refl, tt));
  interface_fragment = (refl, (refl, (refl, tt)));
  interface_query = (refl, (refl, (refl, tt)));
  interface_slash = (refl, (refl, (refl, tt)));
  member_fragment = (refl, tt);
  member_query = (refl, tt);
  member_slash = (refl, tt);
  member_dot = (refl, tt);
  query_fragment = (refl, tt);
}

uri_new-print_address_example :
    varlink_uri_new always_slash (print_address unix_protocol parts) true true
    ≡ ok (record {
      type = unix_protocol;
      host = none;
      path = some (b'/' ∷ b'a' ∷ []);
      qualified_member = some (b'i' ∷ b'.' ∷ b'b' ∷ b'.' ∷ b'C' ∷ []);
      interface = some (b'i' ∷ b'.' ∷ b'b' ∷ []);
      member = some (b'C' ∷ []);
      query = some (b'q' ∷ []);
      fragment = none;
    })
uri_new-print_address_example =
    uri_new-print_address always_slash unix_protocol parts tt parts-IsClean
