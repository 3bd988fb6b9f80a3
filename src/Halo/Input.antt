-- ===== src/Halo/Input.antt =====
-- `short`, `decode_input` and `encode_surface_payload` of crates/sim-platform-halo/src/halo.rs.
use sim_platform.Prelude.{
  ℕ, not, ◌||◌, List, [], ltb, leb, eqb, if◌then◌else◌, length, drop, any, Result, ok, err, ok_or,
  refuse_if, ◌>>=◌, ◌>>◌,
}
use sim_platform.Prelude.Text.{is_control}
use sim_platform.Prelude.Utf8.{from_utf8}
use sim_platform.Prelude.Words.{as_i32, from_be_4}
use sim_platform.Halo.Types.{
  MessageKind, button, sensor, link_state, display, clear, ProxyError, malformed, oversized,
  GlassesInput, button_input, sensor_input, link_input, SurfaceCommand, show, wipe,
}
use sim_platform.Halo.Codec.{byte_at}

unfoldable pub short : List ℕ → ℕ → Result ProxyError (List ℕ)
unfolding from_utf8 is_control
short bytes max = do
  refuse_if (eqb (length bytes) 0 || ltb max (length bytes)) malformed
  value ← ok_or (from_utf8 bytes) malformed
  refuse_if (any is_control value) malformed
  ok value

unfoldable pub decode_input : MessageKind → List ℕ → Result ProxyError GlassesInput
unfolding short
decode_input button payload =
    if leb 2 (length payload)
    then (do
      name ← short (drop 1 payload) 32
      ok (button_input name (not (eqb (byte_at payload 0) 0))))
    else err malformed
decode_input sensor payload =
    if leb 5 (length payload)
    then (do
      name ← short (drop 4 payload) 48
      ok (
          sensor_input name (
            as_i32 (
              from_be_4 (byte_at payload 0) (byte_at payload 1) (byte_at payload 2)
                (byte_at payload 3)))))
    else err malformed
decode_input link_state payload =
    if eqb (length payload) 1
    then ok (link_input (not (eqb (byte_at payload 0) 0)))
    else err malformed
decode_input kind payload = err malformed

unfoldable pub encode_surface_payload : SurfaceCommand → Result ProxyError (MessageKind × List ℕ)
encode_surface_payload (show cells) =
    if leb (length cells) 1024 then ok (display, cells) else err oversized
encode_surface_payload wipe = ok (clear, [])
