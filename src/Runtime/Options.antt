-- ===== src/Runtime/Options.antt =====
-- `DynamicIoOptions`: its setters and the two checks before a runtime is built. `cuda` is whether the
-- `cuda` feature is on, `B` the buffer policies, which no check reads; of a stream only its device is
-- read.
pub mod Valid
mod Tests
use st_zrt.Common.{
  ℕ, zero, suc, ◌<◌, ◌≤◌, ◌≡◌, refl, ◌⊎◌, inl, inr, ◌↔◌, Bool, true, false, not, ◌&&◌, ◌||◌, Option,
  none, some, List, [], ◌∷◌, ltb, ◌==◌, if◌then◌else◌, length, any, All, Result, ok, err, guard,
  ◌>>◌, ℤ, eqb_ℤ, eqb_ℤ_iff, Bool-cases, arith, Option-cases, List-cases, Result-cases, sym, ap,
  ◌∙◌,
}

pub record CudaStream : Type 0 where
  pub device_id : ℤ

pub record DynamicIoOptions (B : Type 0) : Type 0 where
  pub max_buckets : ℕ
  pub input_policy : B
  pub output_policy : B
  pub rebind_inputs_each_run : Bool
  pub cuda_graph : Bool
  pub device_outputs : Bool
  pub device_id : Option ℤ
  pub strict_shape_cache : Bool
  pub stream : Option CudaStream
  pub lane_streams : List CudaStream

pub data RuntimeMode : Type 0 where
  shared_session replicated_sessions : RuntimeMode

pub data OptionsError : Type 0 where
  no_bucket graph_with_rebind graph_needs_device_inputs outputs_need_device_inputs : OptionsError
  outputs_need_cuda inputs_with_rebind inputs_need_cuda inputs_need_stream : OptionsError
  stream_of_other_device shared_graph_lanes streams_need_replicas stream_count : OptionsError

abbrev pub is_none : {A : Type 0} → Option A → Bool
is_none none = true
is_none (some a) = false

abbrev pub is_replicated : RuntimeMode → Bool
is_replicated shared_session = false
is_replicated replicated_sessions = true

abbrev pub no_streams : List CudaStream → Bool
no_streams [] = true
no_streams (s ∷ ss) = false

abbrev pub other_device : ℤ → CudaStream → Bool
other_device d s = not (eqb_ℤ s.device_id d)

module _ {B : Type 0} where
  -- `auto` is `BufferSpec::AUTO`.
  abbrev pub default : B → DynamicIoOptions B
  default auto = record {
    max_buckets = 16;
    input_policy = auto;
    output_policy = auto;
    rebind_inputs_each_run = false;
    cuda_graph = false;
    device_outputs = false;
    device_id = none;
    strict_shape_cache = false;
    stream = none;
    lane_streams = [];
  }

  abbrev pub new : B → ℕ → DynamicIoOptions B
  new auto max_buckets = record (default auto) { max_buckets = max_buckets }

  abbrev pub with_input_policy : DynamicIoOptions B → B → DynamicIoOptions B
  with_input_policy o policy = record o { input_policy = policy }

  abbrev pub with_output_policy : DynamicIoOptions B → B → DynamicIoOptions B
  with_output_policy o policy = record o { output_policy = policy }

  abbrev pub with_rebind_inputs_each_run : DynamicIoOptions B → Bool → DynamicIoOptions B
  with_rebind_inputs_each_run o enabled = record o { rebind_inputs_each_run = enabled }

  abbrev pub with_cuda_graph : DynamicIoOptions B → Bool → DynamicIoOptions B
  with_cuda_graph o enabled = record o { cuda_graph = enabled }

  abbrev pub with_device_outputs : DynamicIoOptions B → Bool → DynamicIoOptions B
  with_device_outputs o enabled = record o { device_outputs = enabled }

  abbrev pub with_strict_shape_cache : DynamicIoOptions B → Bool → DynamicIoOptions B
  with_strict_shape_cache o enabled = record o { strict_shape_cache = enabled }

  unfoldable pub with_device_inputs :
      DynamicIoOptions B → ℤ → CudaStream → Result (DynamicIoOptions B) OptionsError
  with_device_inputs o d s =
      if other_device d s
      then err stream_of_other_device
      else ok (record o { device_id = some d; stream = some s; lane_streams = [] })

  unfoldable pub with_device_input_streams :
      DynamicIoOptions B → ℤ → List CudaStream → Result (DynamicIoOptions B) OptionsError
  with_device_input_streams o d streams =
      if any (other_device d) streams
      then err stream_of_other_device
      else ok (record o { device_id = some d; stream = none; lane_streams = streams })

  -- The checks of `validate` for device inputs.
  unfoldable pub check_device_inputs : Bool → DynamicIoOptions B → Result (Unit {0}) OptionsError
  check_device_inputs cuda o =
      if is_none o.device_id
      then ok tt
      else (guard (not o.rebind_inputs_each_run) inputs_with_rebind
          >> (guard cuda inputs_need_cuda
              >> guard (not (no_streams o.lane_streams && is_none o.stream)) inputs_need_stream))

  unfoldable pub check_options : Bool → DynamicIoOptions B → Result (Unit {0}) OptionsError
  unfolding check_device_inputs
  check_options cuda o =
      guard (not (o.max_buckets == 0)) no_bucket
      >> (guard (not (o.cuda_graph && o.rebind_inputs_each_run)) graph_with_rebind
          >> (guard (not (o.cuda_graph && is_none o.device_id)) graph_needs_device_inputs
              >> (guard (not (o.device_outputs && is_none o.device_id)) outputs_need_device_inputs
                  >> (guard (not (o.device_outputs && not cuda)) outputs_need_cuda
                      >> check_device_inputs cuda o))))

  unfoldable pub validate : Bool → DynamicIoOptions B → Result (DynamicIoOptions B) OptionsError
  unfolding check_options
  validate cuda o = elim (check_options cuda o) [ ok _ ↦ ok o | err x ↦ err x ]

  unfoldable pub validate_runtime_mode :
      Bool → DynamicIoOptions B → RuntimeMode → ℕ → Result (Unit {0}) OptionsError
  validate_runtime_mode cuda o mode lane_count =
      if o.cuda_graph && (ltb 1 lane_count && not (is_replicated mode))
      then err shared_graph_lanes
      else if not cuda || no_streams o.lane_streams
      then ok tt
      else (guard (is_replicated mode) streams_need_replicas
          >> guard (length o.lane_streams == lane_count) stream_count)
