-- ===== src/Api/Frames/Demux.antt =====
-- What a client makes of the frames.
use lxc2docker.Prelude.{
  not, ◌||◌, ◌==◌, length-append, ℕ, zero, suc, ◌+◌, ◌*◌, ◌/◌, ◌%◌, ◌^◌, ◌<◌, ◌≤◌, ◌≡◌, refl, ap,
  ◌∙◌, false, List, [], ◌∷◌, ◌++◌, Option, none, some, arith, if◌then◌else◌, is_empty, length, take,
  drop, ltb,
}
use lxc2docker.Strings.{Str}
use lxc2docker.Api.Frames.{put_uint32, write_stream_frame, write_framed_stream}

unfoldable pub concat : List Str → Str
concat [] = []
concat (p ∷ ps) = p ++ concat ps

unfoldable pub uint32 : ℕ → ℕ → ℕ → ℕ → ℕ
uint32 a b c d = a * 2 ^ 24 + b * 2 ^ 16 + c * 2 ^ 8 + d

unfoldable pub then_bytes : Str → Option Str → Option Str
then_bytes p none = none
then_bytes p (some t) = some (p ++ t)

-- The bytes of at most so many frames of stream 1; none for anything else.
unfoldable pub demux : ℕ → Str → Option Str
demux fuel [] = some []
demux zero (x ∷ s) = none
demux (suc fuel) (stream ∷ x ∷ y ∷ z ∷ a ∷ b ∷ c ∷ d ∷ s) =
    let n = uint32 a b c d in
    let rest = demux fuel (drop n s) in
    if not (stream == 1) || ltb (length s) n then none else then_bytes (take n s) rest
demux (suc fuel) _ = none

-- Chunks of less than 2 ^ 32 bytes.
unfoldable pub AllShort : List Str → Type 0
AllShort [] = Unit
AllShort (p ∷ ps) = (length p < 2 ^ 32) × AllShort ps

uint32_lem :
    (n : ℕ)
    → n < 2 ^ 32
    → uint32
        (n % 2 ^ 32 / 2 ^ 24)
        (n % 2 ^ 32 / 2 ^ 16 % 256)
        (n % 2 ^ 32 / 2 ^ 8 % 256)
        (n % 2 ^ 32 % 256)
      ≡ n
unfolding uint32
uint32_lem n h = omega (arith, h)

take-append : (p s : Str) → take (length p) (p ++ s) ≡ p
take-append [] s = refl
take-append (c ∷ p) s = ap (λ t. c ∷ t) (take-append p s)

drop-append : (p s : Str) → drop (length p) (p ++ s) ≡ s
drop-append [] s = refl
drop-append (c ∷ p) s = drop-append p s

demux-frame :
    (fuel : ℕ) (p s : Str)
    → length p < 2 ^ 32
    → demux (suc fuel) (write_stream_frame false p ++ s) ≡ then_bytes p (demux fuel s)
unfolding demux write_stream_frame put_uint32
demux-frame fuel p s h =
    let fits : ltb (length (p ++ s)) (length p) ≡ false = ground (arith, length-append p s) in
    rw (uint32_lem (length p) h, fits, take-append p s, drop-append p s) refl

demux-nil : (fuel : ℕ) → demux fuel [] ≡ some []
unfolding demux
demux-nil zero = refl
demux-nil (suc fuel) = refl

-- What is sent of a stream that has no terminal is read back by a client as the stream, however it
-- was cut into chunks, if each chunk is shorter than 2 ^ 32 bytes: the length of each is kept in the
-- four bytes of its header. As many rounds as there are chunks are enough to read it.
pub demux_framed :
    (ps : List Str) (fuel : ℕ)
    → AllShort ps
    → length ps ≤ fuel
    → demux fuel (write_framed_stream false ps) ≡ some (concat ps)
unfolding write_framed_stream concat AllShort is_empty then_bytes
demux_framed [] fuel h enough = demux-nil fuel
demux_framed (p ∷ ps) zero h enough = absurd (omega (arith, enough))
demux_framed ([] ∷ ps) (suc fuel) h enough = demux_framed ps (suc fuel) h.1 (omega (arith, enough))
demux_framed ((c ∷ p) ∷ ps) (suc fuel) h enough =
    demux-frame fuel (c ∷ p) (write_framed_stream false ps) h.0
    ∙ ap (then_bytes (c ∷ p)) (demux_framed ps fuel h.1 (omega (arith, enough)))
