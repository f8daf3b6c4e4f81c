-- ===== src/Vless/Udp/RoundTrip.antt =====
-- What one side frames, the loop of udp.go takes apart again.
use vgate_server.Base.{
  ℕ, zero, suc, ◌+◌, ◌-◌, ◌^◌, ◌*◌, ◌/◌, ◌%◌, ◌<◌, ◌≤◌, ◌≡◌, ◌≢◌, refl, sym, ap, ◌∙◌, List, [], ◌∷◌,
  ◌++◌, map, arith, length, length-append, length-take, length-drop, take, drop, take-append,
  drop-append, append_assoc, append-nil, All,
}
use native.Mathlib.Nat.{suc-add}
use vgate_server.Base.Text.{Bytes}
use vgate_server.Vless.Udp.{
  end_of_stream, out_of_fuel, uplink_loop, uplink, udp_buf, downlink_frame, downlink,
}

-- A datagram behind its length, a uint16 in network order.
abbrev pub frame : Bytes → Bytes
frame d = (length d % 2 ^ 16 / 256) ∷ (length d % 2 ^ 16 % 256) ∷ d

abbrev pub Fits : Bytes → Type 0
Fits d = length d < 2 ^ 16

abbrev pub frames : List Bytes → Bytes
frames [] = []
frames (d ∷ ds) = frame d ++ frames ds

-- The two bytes of a frame's length give it back.
header_lem : (n : ℕ) → n < 2 ^ 16 → n % 2 ^ 16 / 256 * 256 + n % 2 ^ 16 % 256 ≡ n
header_lem n h = omega arith

-- One frame at the head of the stream is one datagram.
uplink_loop-frame :
    (fuel writes : ℕ) (d rest : Bytes)
    → Fits d
    → let later = uplink_loop fuel writes rest in
      uplink_loop (suc fuel) (suc writes) (frame d ++ rest) ≡ (d ∷ later.0, later.1)
unfolding uplink_loop
uplink_loop-frame fuel writes d rest fits = ground (
  arith,
  header_lem (length d) fits,
  take-append d rest,
  drop-append d rest,
  length-append d rest,
)

-- Frames are taken apart, and the loop goes on with what stands behind them.
pub uplink_loop-frames :
    (ds : List Bytes) (fuel writes : ℕ) (rest : Bytes)
    → All Fits ds
    → let later = uplink_loop fuel writes rest in
      uplink_loop (length ds + fuel) (length ds + writes) (frames ds ++ rest)
      ≡ (ds ++ later.0, later.1)
uplink_loop-frames [] fuel writes rest fits = ground arith
uplink_loop-frames (d ∷ ds) fuel writes rest fits =
    ap (λ t. uplink_loop (suc (length ds) + fuel) (suc (length ds) + writes) t)
      (append_assoc (frame d) (frames ds) rest)
    ∙ rw (
      suc-add (length ds) fuel,
      suc-add (length ds) writes,
      uplink_loop-frame (length ds + fuel) (length ds + writes) d (frames ds ++ rest) fits.0,
      uplink_loop-frames ds fuel writes rest fits.1,
    )

length-frames : (ds : List Bytes) → length ds ≤ length (frames ds)
length-frames [] = omega arith
length-frames (d ∷ ds) = omega (arith, length-frames ds, length-append (frame d) (frames ds))

-- Enough fuel for the frames and one round more.
uplink_loop_enough :
    (ds : List Bytes) (fuel writes : ℕ)
    → All Fits ds
    → length ds < fuel
    → uplink_loop fuel (length ds + writes) (frames ds) ≡ (ds, end_of_stream)
unfolding uplink_loop
uplink_loop_enough ds fuel writes fits h =
    let spare = fuel - suc (length ds) in
    ap (λ t. uplink_loop t (length ds + writes) (frames ds)) (split_lem h)
    ∙ ap (uplink_loop (length ds + suc spare) (length ds + writes)) (sym (append-nil (frames ds)))
    ∙ uplink_loop-frames ds (suc spare) writes [] fits
    ∙ ap (λ t. (t, end_of_stream)) (append-nil ds)
  where
    split_lem : length ds < fuel → fuel ≡ length ds + suc (fuel - suc (length ds))
    split_lem g = omega arith

-- The stream that frames datagrams of at most 65535 bytes gives them back, each Write with the
-- bytes of one datagram, and then ends, when no Write fails; the bytes read with the header and
-- those read later may be cut anywhere.
pub uplink-frames :
    (ds : List Bytes) (writes : ℕ) (initial incoming : Bytes)
    → All Fits ds
    → initial ++ incoming ≡ frames ds
    → uplink (length ds + writes) initial incoming ≡ (ds, end_of_stream)
unfolding uplink
uplink-frames ds writes initial incoming fits h =
    ap (λ t. uplink_loop (suc (length t)) (length ds + writes) t) h
    ∙ uplink_loop_enough ds (suc (length (frames ds))) writes fits (omega (arith, length-frames ds))

-- The fuel is enough for every stream.
uplink_loop_ends :
    (fuel writes : ℕ) (stream : Bytes)
    → length stream < fuel
    → (uplink_loop fuel writes stream).1 ≢ out_of_fuel
unfolding uplink_loop
uplink_loop_ends zero writes stream h = ground arith
uplink_loop_ends (suc fuel) writes [] h = ground arith
uplink_loop_ends (suc fuel) writes (b ∷ []) h = ground arith
uplink_loop_ends (suc fuel) zero (hi ∷ lo ∷ rest) h = ground arith
uplink_loop_ends (suc fuel) (suc writes) (hi ∷ lo ∷ rest) h = ground (
  arith,
  length-drop (hi * 256 + lo) rest,
  uplink_loop_ends fuel writes (drop (hi * 256 + lo) rest),
)

-- The uplink loop never stops for want of fuel.
pub uplink_ends :
    (writes : ℕ) (initial incoming : Bytes) → (uplink writes initial incoming).1 ≢ out_of_fuel
unfolding uplink
uplink_ends writes initial incoming =
    uplink_loop_ends (suc (length (initial ++ incoming))) writes (initial ++ incoming) (omega arith)

-- The downlink loop frames each datagram as far as the buffer of 2048 bytes reaches.
downlink-frames : (ds : List Bytes) → downlink ds ≡ frames (map (λ d. take udp_buf d) ds)
unfolding downlink downlink_frame
downlink-frames [] = refl
downlink-frames (d ∷ ds) = ap (λ t. frame (take udp_buf d) ++ t) (downlink-frames ds)

taken_fit : (ds : List Bytes) → All Fits (map (λ d. take udp_buf d) ds)
taken_fit [] = tt
taken_fit (d ∷ ds) = (omega (arith, length-take udp_buf d), taken_fit ds)

-- What the downlink loop sends for datagrams `ds`, a peer's uplink loop takes apart again into as
-- many datagrams, each one cut to its first 2048 bytes, when none of its Writes fails.
uplink-downlink :
    (ds : List Bytes) (writes : ℕ) (initial incoming : Bytes)
    → initial ++ incoming ≡ downlink ds
    → let cut = map (λ d. take udp_buf d) ds in
      uplink (length cut + writes) initial incoming ≡ (cut, end_of_stream)
uplink-downlink ds writes initial incoming h =
    uplink-frames (map (λ d. take udp_buf d) ds) writes initial incoming (taken_fit ds)
      (h ∙ downlink-frames ds)
