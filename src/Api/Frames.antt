-- ===== src/Api/Frames.antt =====
-- internal/api/containers.go: the frames in which the output of a container without a terminal is
-- sent.
pub mod Demux
mod Tests
use lxc2docker.Prelude.{
  ℕ, ◌/◌, ◌%◌, ◌^◌, Bool, true, false, List, [], ◌∷◌, ◌++◌, if◌then◌else◌, is_empty, length,
}
use lxc2docker.Strings.{Str}

-- `binary.BigEndian.PutUint32(…, uint32(n))`: the conversion keeps n modulo 2 ^ 32.
unfoldable pub put_uint32 : ℕ → Str
put_uint32 n =
    let m = n % 2 ^ 32 in (m / 2 ^ 24) ∷ (m / 2 ^ 16 % 256) ∷ (m / 2 ^ 8 % 256) ∷ (m % 256) ∷ []

-- What is written for one chunk: the bytes, for a terminal, or stream 1, padding, length and bytes.
unfoldable pub write_stream_frame : Bool → Str → Str
write_stream_frame tty p = if tty then p else (1 ∷ 0 ∷ 0 ∷ 0 ∷ put_uint32 (length p)) ++ p

-- What is written for the chunks that the reads of the source give; an empty one is left out.
unfoldable pub write_framed_stream : Bool → List Str → Str
write_framed_stream tty [] = []
write_framed_stream tty (p ∷ ps) =
    let rest = write_framed_stream tty ps in
    if is_empty p then rest else write_stream_frame tty p ++ rest
