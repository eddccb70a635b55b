-- ===== src/WireSpec/Protocols/Someip.antt =====
-- nanotins/include/nanotins/protocol_specs_someip.hpp: the message header and the service discovery
-- payload.
use nanotins.Shared.{[], ◌∷◌}
use nanotins.WireSpec.{Spec, big, named_field, named_bit_field}

abbrev pub someip_spec : Spec
someip_spec =
    named_field "service_id" 0 2 big
    ∷ named_field "method_id" 2 2 big
    ∷ named_field "length" 4 4 big
    ∷ named_field "client_id" 8 2 big
    ∷ named_field "session_id" 10 2 big
    ∷ named_field "protocol_version" 12 1 big
    ∷ named_field "interface_version" 13 1 big
    ∷ named_field "message_type" 14 1 big
    ∷ named_field "return_code" 15 1 big
    ∷ []

abbrev pub someip_sd_header_spec : Spec
someip_sd_header_spec = named_field "flags" 0 1 big ∷ named_field "entries_length" 4 4 big ∷ []

abbrev pub someip_sd_entry_spec : Spec
someip_sd_entry_spec =
    named_field "type" 0 1 big
    ∷ named_field "index_1st_opts" 1 1 big
    ∷ named_field "index_2nd_opts" 2 1 big
    ∷ named_bit_field "num_opt_1" 3 1 0 4 big
    ∷ named_bit_field "num_opt_2" 3 1 4 4 big
    ∷ named_field "service_id" 4 2 big
    ∷ named_field "instance_id" 6 2 big
    ∷ named_field "major_version" 8 1 big
    ∷ named_bit_field "ttl" 8 4 8 24 big
    ∷ named_field "minor_version" 12 4 big
    ∷ []
