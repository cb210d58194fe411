-- ===== src/Buffers/Reserve.antt =====
-- What a read writes stays inside the buffer.
use packio.Common.{
  ℕ, zero, suc, [], ◌∷◌, ◌+◌, ◌-◌, ◌≤◌, inl, inr, ◌++◌, ◌≡◌, arith, Bool-cases, length, leb, take,
  drop, length-append, length-take, length-replicate, replicate,
}
use packio.Buffers.{
  Bytes, IncrementalBuffers, resize, in_place_buffer, in_place_buffer_capacity,
  reserve_in_place_buffer, write_at, fill, receive,
}
use packio.Buffers.Scan.{feed_chunk}
use packio.Buffers.Feed.{IsWithin, framing, framing-receive}

length-resize : (raw : Bytes) (n : ℕ) → length (resize raw n) ≡ n
unfolding resize
length-resize raw n = omega (
  arith,
  length-append (take n raw) (replicate (n - length raw) 0),
  length-take n raw,
  length-replicate {A = ℕ} (n - length raw) 0,
)

length-drop : (n : ℕ) (raw : Bytes) → length (drop n raw) ≡ length raw - n
length-drop zero raw = omega arith
length-drop (suc n) [] = omega arith
length-drop (suc n) (x ∷ raw) = omega (arith, length-drop n raw)

reserve-capacity :
    (b : IncrementalBuffers) (n : ℕ) → n ≤ in_place_buffer_capacity (reserve_in_place_buffer b n)
unfolding reserve_in_place_buffer in_place_buffer_capacity
reserve-capacity b n = elim (Bool-cases (leb n (length b.raw_buffer - b.size))) [
  | inl e ↦ ground (arith, e)
  | inr e ↦ ground (arith, e, length-resize b.raw_buffer (b.size + n))
]

reserve-IsWithin :
    (b : IncrementalBuffers) (n : ℕ) → IsWithin b → IsWithin (reserve_in_place_buffer b n)
unfolding reserve_in_place_buffer in_place_buffer_capacity
reserve-IsWithin b n w = elim (Bool-cases (leb n (length b.raw_buffer - b.size))) [
  | inl e ↦ ground (arith, e, w)
  | inr e ↦ ground (arith, e, length-resize b.raw_buffer (b.size + n))
]

-- Bytes that fit are written inside the buffer.
fill-length :
    (b : IncrementalBuffers) (text : Bytes)
    → IsWithin b
    → length text ≤ in_place_buffer_capacity b
    → length (fill b text).raw_buffer ≡ length b.raw_buffer
unfolding fill write_at in_place_buffer in_place_buffer_capacity
fill-length b text w h =
    let after = drop (b.size + length text) b.raw_buffer in
    omega (
      arith,
      w,
      h,
      length-append (take b.size b.raw_buffer) (text ++ after),
      length-append text after,
      length-take b.size b.raw_buffer,
      length-drop (b.size + length text) b.raw_buffer,
    )

-- A read that brings no more bytes than were reserved for it writes them inside the buffer, which
-- has room for as many as were reserved; it computes the automaton; and the view stays within the
-- buffer, if it was.
pub receive_stays_inside :
    (n : ℕ) (text : Bytes) (b : IncrementalBuffers)
    → IsWithin b
    → length text ≤ n
    → let reserved = reserve_in_place_buffer b n in
      (n ≤ in_place_buffer_capacity reserved)
      × (length (fill reserved text).raw_buffer ≡ length reserved.raw_buffer)
      × (framing (receive n text b) ≡ feed_chunk (framing b) text)
      × IsWithin (receive n text b)
receive_stays_inside n text b w h =
    let room = reserve-capacity b n in
    let (computed, within) = framing-receive n text b w in
    (
      room,
      fill-length (reserve_in_place_buffer b n) text (reserve-IsWithin b n w)
          (omega (arith, h, room)),
      computed,
      within,
    )
