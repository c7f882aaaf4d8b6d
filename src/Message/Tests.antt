-- ===== src/Message/Tests.antt =====
-- lib/message.c on concrete messages.
use libvarlink.Prelude.{◌≡◌, [], ◌∷◌, none, some, ok, ◌>>=◌}
use libvarlink.Prelude.Int.{ℤ}
use libvarlink.Message.{
  of_message, varlink_message_pack_call, varlink_message_unpack_call, varlink_message_pack_reply,
  varlink_message_unpack_reply, parameters_or_new,
}
use libvarlink.Message.RoundTrip.{pack-unpack_call, pack-unpack_reply}

-- "a.B.C" with parameters and the flag more
pack-unpack_call_example :
    (varlink_message_pack_call {F = ℤ} (97 ∷ 46 ∷ 66 ∷ 46 ∷ 67 ∷ []) (some 5) 1
      >>= varlink_message_unpack_call)
    ≡ ok (record { method = 97 ∷ 46 ∷ 66 ∷ 46 ∷ 67 ∷ []; parameters = of_message 5; flags = 1 })
pack-unpack_call_example = pack-unpack_call (97 ∷ 46 ∷ 66 ∷ 46 ∷ 67 ∷ []) (some 5) 1

-- The error "a.E", no parameters, and the flag continues
pack-unpack_reply_example :
    (varlink_message_pack_reply {F = ℤ} (some (97 ∷ 46 ∷ 69 ∷ [])) none 1
      >>= varlink_message_unpack_reply)
    ≡ ok (record {
      error = some (97 ∷ 46 ∷ 69 ∷ []);
      parameters = parameters_or_new none;
      flags = 1;
    })
pack-unpack_reply_example = pack-unpack_reply (some (97 ∷ 46 ∷ 69 ∷ [])) none 1
