-- ===== src/Tests/Frame.antt =====
-- Frames of three bytes.
use ocserv_fleet_agent.Protocol.Frame.{
  encode_frame, decode_frame, decode_payload, decode_frame-encode_frame, encode_frame-decode_frame,
  FrameError,
}
use ocserv_fleet_agent.Common.{ℕ, List, length, ◌∷◌, ◌≡◌, ◌≤◌, [], ok, err, refl, arith}

abbrev payload : List ℕ
payload = 7 ∷ 8 ∷ 255 ∷ []

abbrev frame : List ℕ
frame = 0 ∷ 0 ∷ 0 ∷ 3 ∷ 7 ∷ 8 ∷ 255 ∷ []

decoded : decode_frame frame 16 ≡ ok payload
unfolding encode_frame decode_payload decode_frame
decoded = refl

too_short : decode_frame (0 ∷ 0 ∷ 3 ∷ []) 16 ≡ err FrameError.frame_too_short
unfolding decode_frame
too_short = refl

decode_frame-encode_frame_example :
    (f : List ℕ) × (encode_frame payload 16 ≡ ok f) × (decode_frame f 16 ≡ ok payload)
decode_frame-encode_frame_example = decode_frame-encode_frame payload 16 (omega arith) (omega arith)

encode_frame-decode_frame_example : (length payload ≤ 16) × (encode_frame payload 16 ≡ ok frame)
encode_frame-decode_frame_example = encode_frame-decode_frame frame payload 16 (omega arith) decoded
