-- ===== src/Error.antt =====
-- lib/varlink.h, lib/error.c: the error codes that the library's functions return negated.
use libvarlink.Prelude.{ℕ, ◌-◌, ◌^◌}

-- VARLINK_ERROR_*, in the order of the header.
pub data VarlinkError : Type 0 where
  panic invalid_interface invalid_address invalid_identifier invalid_type : VarlinkError
  interface_not_found method_not_found cannot_connect cannot_listen cannot_accept : VarlinkError
  sending_message receiving_message invalid_index unknown_field read_only : VarlinkError
  invalid_json invalid_message invalid_call access_denied connection_closed : VarlinkError

abbrev pub code : VarlinkError → ℕ
code panic = 1
code invalid_interface = 2
code invalid_address = 3
code invalid_identifier = 4
code invalid_type = 5
code interface_not_found = 6
code method_not_found = 7
code cannot_connect = 8
code cannot_listen = 9
code cannot_accept = 10
code sending_message = 11
code receiving_message = 12
code invalid_index = 13
code unknown_field = 14
code read_only = 15
code invalid_json = 16
code invalid_message = 17
code invalid_call = 18
code access_denied = 19
code connection_closed = 20

-- A negated code in a `size_t` of 64 bits.
abbrev pub as_size : VarlinkError → ℕ
as_size e = 2 ^ 64 - code e
