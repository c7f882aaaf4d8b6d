-- ===== src/Interface.antt =====
-- lib/interface.c, lib/interface.h: an interface, and the members it is asked for.
--
-- `C` is the type of the callbacks of methods. `members` keeps the order of the description, which
-- nothing here depends on.
pub mod Reading
pub mod Known
mod Ending
pub mod Total
mod Tests
use libvarlink.Prelude.{ℕ, List, Option, none, some}
use libvarlink.KeyOrder.{string_order}
use libvarlink.Avl.{AvlTree, avl_tree_find}
use libvarlink.Types.{VarlinkType}

-- `struct VarlinkMethod`
pub record VarlinkMethod (C : Type 0) : Type 0 where
  pub type_in : VarlinkType
  pub type_out : VarlinkType
  pub callback : Option C

-- `VarlinkMemberType` with the union that it tags
pub data MemberType (C : Type 0) : Type 0 where
  member_alias member_error : VarlinkType → MemberType C
  member_method : VarlinkMethod C → MemberType C

-- `struct VarlinkInterfaceMember`
pub record VarlinkInterfaceMember (C : Type 0) : Type 0 where
  pub name : List ℕ
  pub description : Option (List ℕ)
  pub type : MemberType C

-- `struct VarlinkInterface`
pub record VarlinkInterface (C : Type 0) : Type 0 where
  pub name : List ℕ
  pub description : Option (List ℕ)
  pub members : List (VarlinkInterfaceMember C)
  pub member_tree : AvlTree (VarlinkInterfaceMember C)

module _ {C : Type 0} where
  abbrev pub member_name : VarlinkInterfaceMember C → List ℕ
  member_name m = m.name

  abbrev pub as_method : Option (VarlinkInterfaceMember C) → Option (VarlinkMethod C)
  as_method none = none
  as_method (some m) = elim m.type [
    | member_method f ↦ some f
    | member_alias t ↦ none
    | member_error t ↦ none
  ]

  abbrev pub as_type : Option (VarlinkInterfaceMember C) → Option VarlinkType
  as_type none = none
  as_type (some m) = elim m.type [
    | member_alias t ↦ some t
    | member_method f ↦ none
    | member_error t ↦ none
  ]

  abbrev pub as_error : Option (VarlinkInterfaceMember C) → Option VarlinkType
  as_error none = none
  as_error (some m) = elim m.type [
    | member_error t ↦ some t
    | member_method f ↦ none
    | member_alias t ↦ none
  ]

  abbrev pub described : Option (VarlinkInterfaceMember C) → Option (List ℕ)
  described none = none
  described (some m) = m.description

  unfoldable pub find_member : VarlinkInterface C → List ℕ → Option (VarlinkInterfaceMember C)
  find_member i name = avl_tree_find member_name i.member_tree name

  unfoldable pub varlink_interface_get_method :
      VarlinkInterface C → List ℕ → Option (VarlinkMethod C)
  varlink_interface_get_method i name = as_method (find_member i name)

  unfoldable pub varlink_interface_get_type : VarlinkInterface C → List ℕ → Option VarlinkType
  varlink_interface_get_type i name = as_type (find_member i name)

  unfoldable pub varlink_interface_get_member_description :
      VarlinkInterface C → List ℕ → Option (List ℕ)
  varlink_interface_get_member_description i name = described (find_member i name)
