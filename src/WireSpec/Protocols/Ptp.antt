-- ===== src/WireSpec/Protocols/Ptp.antt =====
-- nanotins/include/nanotins/protocol_specs_ptp.hpp: the common header, the sub-records, and the bodies
-- that the graph emits behind the header.
use nanotins.Shared.{[], ◌∷◌, ◌++◌}
use nanotins.WireSpec.{Spec, big, named_field, named_bit_field, named_bytes_field, embed}

abbrev pub timestamp_spec : Spec
timestamp_spec =
    named_field "seconds_msb" 0 2 big
    ∷ named_field "seconds_lsb" 2 4 big
    ∷ named_field "nanoseconds" 6 4 big
    ∷ []

abbrev pub port_identity_spec : Spec
port_identity_spec = named_bytes_field "clock_identity" 0 8 ∷ named_field "port_number" 8 2 big ∷ []

abbrev pub clock_quality_spec : Spec
clock_quality_spec =
    named_field "clock_class" 0 1 big
    ∷ named_field "clock_accuracy" 1 1 big
    ∷ named_field "offset_scaled_log_variance" 2 2 big
    ∷ []

abbrev pub ptp_header_spec : Spec
ptp_header_spec =
    named_bit_field "transport_specific" 0 1 0 4 big
    ∷ named_bit_field "message_type" 0 1 4 4 big
    ∷ named_bit_field "version_ptp" 1 1 4 4 big
    ∷ named_field "message_length" 2 2 big
    ∷ named_field "domain_number" 4 1 big
    ∷ named_field "flags" 6 2 big
    ∷ named_field "correction_field" 8 8 big
    ∷ named_bytes_field "clock_identity" 20 8
    ∷ named_field "source_port_number" 28 2 big
    ∷ named_field "sequence_id" 30 2 big
    ∷ named_field "control_field" 32 1 big
    ∷ named_field "log_message_interval" 33 1 big
    ∷ []

abbrev pub ptp_timestamp_body_spec : Spec
ptp_timestamp_body_spec = embed "ts_" 0 timestamp_spec

abbrev pub ptp_ts_port_body_spec : Spec
ptp_ts_port_body_spec = embed "ts_" 0 timestamp_spec ++ (embed "req_" 10 port_identity_spec)

abbrev pub ptp_announce_body_spec : Spec
ptp_announce_body_spec =
    embed "origin_" 0 timestamp_spec
    ++ (named_field "current_utc_offset" 10 2 big
          ∷ named_field "grandmaster_priority1" 13 1 big
          ∷ embed "grandmaster_" 14 clock_quality_spec
        ++ (named_field "grandmaster_priority2" 18 1 big
            ∷ named_bytes_field "grandmaster_identity" 19 8
            ∷ named_field "steps_removed" 27 2 big
            ∷ named_field "time_source" 29 1 big
            ∷ []))

abbrev pub ptp_signaling_body_spec : Spec
ptp_signaling_body_spec = embed "target_" 0 port_identity_spec
