-- ===== src/Runtime/Options/Tests.antt =====
-- Concrete options, and the theorems at them.
use st_zrt.Common.{◌≤◌, ◌≡◌, ◌↔◌, ◌⊎◌, refl, true, false, some, [], ◌∷◌, length, ok, pos}
use st_zrt.Runtime.Options.{
  DynamicIoOptions, replicated_sessions, is_none, is_replicated, no_streams, default,
  with_cuda_graph, with_device_input_streams, validate, check_options, check_device_inputs,
  validate_runtime_mode,
}
use st_zrt.Runtime.Options.Valid.{Valid, validate_iff, accepted_graph_lanes}

-- Two lanes with a stream each on device 0, and captured graphs.
abbrev graph_options : DynamicIoOptions (Unit {0})
graph_options = record (with_cuda_graph (default tt) true) {
  device_id = some (pos 0);
  lane_streams = record { device_id = pos 0 } ∷ record { device_id = pos 0 } ∷ [];
}

graph_options_set :
    with_device_input_streams
      (with_cuda_graph (default tt) true)
      (pos 0)
      (record { device_id = pos 0 } ∷ record { device_id = pos 0 } ∷ [])
    ≡ ok graph_options
unfolding with_device_input_streams
graph_options_set = refl

graph_options_valid : validate true graph_options ≡ ok graph_options
unfolding validate check_options check_device_inputs
graph_options_valid = refl

two_lanes_valid : validate_runtime_mode true graph_options replicated_sessions 2 ≡ ok tt
unfolding validate_runtime_mode
two_lanes_valid = refl

validate_iff_example : (validate true graph_options ≡ ok graph_options) ↔ Valid true graph_options
validate_iff_example = validate_iff true graph_options

accepted_graph_lanes_example :
    ((2 ≤ 1) ⊎ (is_replicated replicated_sessions ≡ true))
    × (((is_replicated replicated_sessions ≡ true) × (length graph_options.lane_streams ≡ 2))
        ⊎ ((no_streams graph_options.lane_streams ≡ true) × (is_none graph_options.stream ≡ false)))
accepted_graph_lanes_example =
    accepted_graph_lanes true graph_options replicated_sessions 2 graph_options_valid
      two_lanes_valid refl
