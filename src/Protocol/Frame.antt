-- ===== src/Protocol/Frame.antt =====
-- crates/ocfleet-protocol/src/frame.rs: a payload behind its length in four bytes.
use ocserv_fleet_agent.Common.{
  ℕ, List, ◌*◌, ◌<◌, ◌/◌, ◌+◌, Result, length, ◌≡◌, All, ◌%◌, if◌then◌else◌, ◌≤◌, ◌∷◌, ok, [], ltb,
  err, arith, ◌++◌, not, ◌==◌, ap,
}

pub data FrameError : Type 0 where
  frame_too_large : (length max : ℕ) → FrameError
  frame_too_short : FrameError
  frame_length_mismatch : (declared actual : ℕ) → FrameError

-- `u32::to_be_bytes`
abbrev pub to_be_bytes : ℕ → List ℕ
to_be_bytes n = n / 16777216 % 256 ∷ n / 65536 % 256 ∷ n / 256 % 256 ∷ n % 256 ∷ []

-- `u32::from_be_bytes`
abbrev pub from_be_bytes : ℕ → ℕ → ℕ → ℕ → ℕ
from_be_bytes a b c d = 16777216 * a + 65536 * b + 256 * c + d

unfoldable pub encode_frame : List ℕ → ℕ → Result FrameError (List ℕ)
encode_frame payload max_payload_bytes =
    if ltb max_payload_bytes (length payload)
    then err (FrameError.frame_too_large (length payload) max_payload_bytes)
    else ok (to_be_bytes (length payload % 4294967296) ++ payload)

-- The checks of a frame that has its first four bytes.
unfoldable pub decode_payload : ℕ → List ℕ → ℕ → Result FrameError (List ℕ)
decode_payload declared rest max_payload_bytes =
    if ltb max_payload_bytes declared
    then err (FrameError.frame_too_large declared max_payload_bytes)
    else if not (declared == length rest)
    then err (FrameError.frame_length_mismatch declared (length rest))
    else ok rest

unfoldable pub decode_frame : List ℕ → ℕ → Result FrameError (List ℕ)
decode_frame (a ∷ b ∷ c ∷ d ∷ rest) max_payload_bytes =
    decode_payload (from_be_bytes a b c d) rest max_payload_bytes
decode_frame _ max_payload_bytes = err FrameError.frame_too_short

abbrev pub IsByte : ℕ → Type 0
IsByte b = b < 256

be_bytes :
    (n : ℕ)
    → n < 4294967296
    → from_be_bytes (n / 16777216 % 256) (n / 65536 % 256) (n / 256 % 256) (n % 256) ≡ n
be_bytes n h = omega arith

-- A payload within the bound, and of fewer than 2^32 bytes, is encoded, and under the same bound the
-- frame is decoded to it.
pub decode_frame-encode_frame :
    (payload : List ℕ) (max_payload_bytes : ℕ)
    → length payload ≤ max_payload_bytes
    → length payload < 4294967296
    → (frame : List ℕ) × (encode_frame payload max_payload_bytes ≡ ok frame)
      × (decode_frame frame max_payload_bytes ≡ ok payload)
unfolding encode_frame decode_frame decode_payload
decode_frame-encode_frame payload max_payload_bytes h k = (
  to_be_bytes (length payload % 4294967296) ++ payload,
  ground arith,
  ground (arith, be_bytes (length payload)),
)

header :
    (a b c d : ℕ)
    → IsByte a
    → IsByte b
    → IsByte c
    → IsByte d
    → (from_be_bytes a b c d < 4294967296)
      × (to_be_bytes (from_be_bytes a b c d) ≡ a ∷ b ∷ c ∷ d ∷ [])
header a b c d ha hb hc hd = ground (arith, ha, hb, hc, hd)

-- A frame of bytes that is decoded under a bound is the one that its payload is encoded to under the
-- same bound: no two frames have one payload, and a decoded payload is within the bound.
pub encode_frame-decode_frame :
    (frame payload : List ℕ) (max_payload_bytes : ℕ)
    → All IsByte frame
    → decode_frame frame max_payload_bytes ≡ ok payload
    → (length payload ≤ max_payload_bytes) × (encode_frame payload max_payload_bytes ≡ ok frame)
unfolding encode_frame decode_frame decode_payload
encode_frame-decode_frame [] payload m bytes h = ground arith
encode_frame-decode_frame (a ∷ []) payload m bytes h = ground arith
encode_frame-decode_frame (a ∷ b ∷ []) payload m bytes h = ground arith
encode_frame-decode_frame (a ∷ b ∷ c ∷ []) payload m bytes h = ground arith
encode_frame-decode_frame (a ∷ b ∷ c ∷ d ∷ rest) payload m (ha, (hb, (hc, (hd, _)))) h =
    let n = from_be_bytes a b c d in
    let (small, same) = header a b c d ha hb hc hd in
    let found : (n ≤ m) × (n ≡ length rest) × (payload ≡ rest) = ground (arith, h) in
    let kept : n % 4294967296 ≡ n = omega (arith, small) in
    ground (arith, found, kept, ap (λ (bytes : List ℕ). bytes ++ rest) same)
