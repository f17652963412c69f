-- ===== src/Rpc/Answers.antt =====
-- kernel/src/rpc.rs: the answers, as the JSON texts that the responders write, and the frame that
-- carries one.
pub mod Bounds
use kernai.Base.{
  ℕ, ◌+◌, Bool, true, false, not, ◌&&◌, Option, none, some, List, [], ◌∷◌, ◌++◌, ◌==◌, leb,
  if◌then◌else◌, length,
}
use kernai.Text.{Text, bytes_of, joined, comma_separated}
use kernai.Text.Numbers.{decimal}
use kernai.Text.Utf8.{trim, take_chars}
use kernai.Console.{capacity, json_escaped}
use kernai.Rpc.Json.{as_string, all_digits}
use kernai.Kernel.{Kernel, Body, emit}

abbrev pub max_id : ℕ
max_id = 64

abbrev strip_minus : Text → Text
strip_minus [] = []
strip_minus (b ∷ s) = if b == b'-' then s else b ∷ s

abbrev is_nil : Text → Bool
is_nil [] = true
is_nil (b ∷ s) = false

-- What `write_id` echoes of an id that is trimmed: a string cut to 64 code points, an integer, or
-- null.
unfoldable pub trimmed_id : Text → Text
unfolding bytes_of joined as_string all_digits take_chars json_escaped
trimmed_id raw = elim (as_string raw) [
  | some inner ↦
      joined (bytes_of "\"" ∷ json_escaped (take_chars max_id 0 inner) ∷ bytes_of "\"" ∷ [])
  | none ↦
      if not (is_nil (strip_minus raw)) && all_digits (strip_minus raw)
      then raw
      else bytes_of "null"
]

unfoldable pub write_id : Text → Text
unfolding trimmed_id trim
write_id raw = trimmed_id (trim raw)

-- The envelope of an answer under the id of its event.
unfoldable pub rpc_envelope : ℕ → Text → Text
unfolding bytes_of joined decimal
rpc_envelope id body = joined (
    bytes_of "{\"id\":"
    ∷ decimal id
    ∷ bytes_of ",\"type\":\"rpc\",\"rpc\":"
    ∷ body
    ∷ bytes_of "}"
    ∷ [])

-- The fixed answer that stands in for one that does not fit.
unfoldable pub too_large : Text
unfolding bytes_of
too_large =
    bytes_of
      "{\"jsonrpc\":\"2.0\",\"id\":null,\"error\":{\"code\":-32001,\"message\":\"response too large\"}}"

-- The payload of the frame that `emit_rpc` sends.
unfoldable pub rpc_frame : ℕ → Text → Text
unfolding rpc_envelope too_large
rpc_frame id body =
    let full = rpc_envelope id body in
    if leb (length full) capacity then full else rpc_envelope id too_large

unfoldable pub emit_rpc : Text → Kernel → Kernel
unfolding rpc_frame
emit_rpc body k = emit (Body.rpc (rpc_frame k.next_id body)) k

unfoldable pub result_json : Text → Text → Text
unfolding bytes_of joined write_id
result_json id result = joined (
    bytes_of "{\"jsonrpc\":\"2.0\",\"id\":"
    ∷ write_id id
    ∷ bytes_of ",\"result\":"
    ∷ result
    ∷ bytes_of "}"
    ∷ [])

unfoldable pub respond_result : Text → Text → Kernel → Kernel
unfolding emit_rpc result_json
respond_result id result k = emit_rpc (result_json id result) k

-- The codes are negative; `code` is without its sign.
unfoldable pub error_json : Text → ℕ → Text → Text
unfolding bytes_of joined write_id decimal json_escaped
error_json id code message = joined (
    bytes_of "{\"jsonrpc\":\"2.0\",\"id\":"
    ∷ write_id id
    ∷ bytes_of ",\"error\":{\"code\":-"
    ∷ decimal code
    ∷ bytes_of ",\"message\":\""
    ∷ json_escaped message
    ∷ bytes_of "\"}}"
    ∷ [])

unfoldable pub respond_error : Text → ℕ → Text → Kernel → Kernel
unfolding emit_rpc error_json
respond_error id code message k = emit_rpc (error_json id code message) k

unfoldable pub accepted_json : Text → Text
unfolding bytes_of joined json_escaped
accepted_json suite =
    (joined
      (bytes_of "{\"status\":\"accepted\",\"suite\":\"" ∷ json_escaped suite ∷ bytes_of "\"}" ∷ []))

unfoldable pub respond_accepted : Text → Text → Kernel → Kernel
unfolding respond_result accepted_json
respond_accepted id suite k = respond_result id (accepted_json suite) k

unfoldable pub duplicate_json : Text → Text
unfolding bytes_of joined json_escaped
duplicate_json op =
    (joined
      (bytes_of "{\"status\":\"duplicate\",\"opId\":\"" ∷ json_escaped op ∷ bytes_of "\"}" ∷ []))

unfoldable pub respond_duplicate : Text → Text → Kernel → Kernel
unfolding respond_result duplicate_json
respond_duplicate id op k = respond_result id (duplicate_json op) k

unfoldable pub initialize_json : Text
unfolding bytes_of joined
initialize_json =
    (joined (
      bytes_of "{\"protocolVersion\":\"2024-11-05\","
      ∷ bytes_of "\"serverInfo\":{\"name\":\"kernai\",\"version\":\"0\"},"
      ∷ bytes_of "\"capabilities\":{\"tools\":{},\"resources\":{}}}"
      ∷ []))

unfoldable pub respond_initialize : Text → Kernel → Kernel
unfolding respond_result initialize_json
respond_initialize id k = respond_result id initialize_json k
