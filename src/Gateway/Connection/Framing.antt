-- ===== src/Gateway/Connection/Framing.antt =====
-- internal/gateway/connection.go: what a message holds, and how it is taken apart.
use voce.Prelude.{
  ℕ, ◌+◌, ◌≡◌, refl, sym, ap, ◌∙◌, true, false, none, some, List, [], ◌∷◌, ◌++◌, arith, length,
  take, drop, length-append, take-append, drop-append, take_all,
}
use voce.Prelude.Slices.{Slice, bytes, sized, copy_at, IsSlice, sized-IsSlice, copy_at_lem}
use voce.Protocol.Types.{ConnectionState, session_key_size}
use voce.Protocol.Packet.{Packet, marshal, write_header}
use voce.Gateway.Connection.{Connection, Output, required, fill, frame, write_packet, on_message}
use mathlib.Core.List.{append_assoc, append-nil}

abbrev concat : List (List ℕ) → List ℕ
concat [] = []
concat (b ∷ bs) = b ++ concat bs

fill_lem :
    (s : Slice) (offset : ℕ) (bs : List (List ℕ))
    → IsSlice s
    → offset + length (concat bs) ≡ s.len
    → bytes (fill s offset bs) ≡ take offset s.array ++ concat bs
unfolding fill
fill_lem s offset [] fits room =
    ap (λ n. take n s.array) (omega (arith, room)) ∙ sym (append-nil (take offset s.array))
fill_lem s offset (b ∷ bs) fits room =
    let (same, fits', front) =
      copy_at_lem s offset b fits (omega (arith, room, length-append b (concat bs))) in
    fill_lem (copy_at s offset b) (offset + length b) bs fits'
      (omega (arith, room, same, length-append b (concat bs)))
    ∙ ap (λ l. l ++ concat bs) front
    ∙ append_assoc (take offset s.array) b (concat bs)

required-concat : (bs : List (List ℕ)) → required bs ≡ session_key_size + length (concat bs)
unfolding required
required-concat [] = refl
required-concat (b ∷ bs) = omega (arith, required-concat bs, length-append b (concat bs))

sized-len : (s : Slice) (n : ℕ) → (sized s n).len ≡ n
unfolding sized
sized-len s n = ground arith

frame_fill :
    (buffer : Slice) (key : List ℕ) (bs : List (List ℕ))
    → length key ≡ session_key_size
    → bytes (fill (copy_at (sized buffer (required bs)) 0 key) session_key_size bs)
      ≡ key ++ concat bs
frame_fill buffer key bs size =
    let n = required bs in
    let (same, fits, front) =
      copy_at_lem (sized buffer n) 0 key (sized-IsSlice buffer n)
        (omega (arith, size, sized-len buffer n, required-concat bs)) in
    let start : take session_key_size (copy_at (sized buffer n) 0 key).array ≡ key =
      let e : session_key_size ≡ 0 + length key = omega (arith, size) in
      ap (λ k. take k (copy_at (sized buffer n) 0 key).array) e ∙ front in
    fill_lem (copy_at (sized buffer n) 0 key) session_key_size bs fits
      (omega (arith, same, sized-len buffer n, required-concat bs))
    ∙ ap (λ l. l ++ concat bs) start

-- A message is the session's key and then the slices, whatever the reused buffer held before.
pub frame_lem :
    (buffer : Slice) (key : List ℕ) (bs : List (List ℕ))
    → length key ≡ session_key_size
    → frame buffer key bs ≡ key ++ concat bs
unfolding frame
frame_lem buffer key bs size =
    ap (λ k. bytes (fill (copy_at (sized buffer (required bs)) 0 k) session_key_size bs))
      (take_all key session_key_size (omega (arith, size)))
    ∙ frame_fill buffer key bs size

-- On an active connection, a packet goes out as one message, which the other side takes apart into
-- the session's key and the packet's bytes, whatever the reused buffer held before.
pub on_message-write_packet :
    (buffer : Slice) (c : Connection) (socket : ℕ) (key : List ℕ) (packet : Packet)
    → c.state ≡ ConnectionState.active
    → c.socket ≡ some socket
    → length key ≡ session_key_size
    → (message : List ℕ) × (write_packet false buffer c key packet
        ≡ (Output.write_message socket message ∷ [], none))
      × (on_message true message ≡ some (key, (marshal packet).1))
unfolding write_packet on_message marshal
on_message-write_packet buffer c socket key packet up there size =
    let head = (write_header packet).header in
    let body = bytes packet.payload in
    let message = frame buffer key (head ∷ body ∷ []) in
    let parts : message ≡ key ++ (head ++ body) =
      frame_lem buffer key (head ∷ body ∷ []) size
      ∙ ap (λ l. key ++ (head ++ l)) (append-nil body) in
    let front : take session_key_size (key ++ (head ++ body)) ≡ key =
      ap (λ n. take n (key ++ (head ++ body))) (sym size) ∙ take-append key (head ++ body) in
    let back : drop session_key_size (key ++ (head ++ body)) ≡ head ++ body =
      ap (λ n. drop n (key ++ (head ++ body))) (sym size) ∙ drop-append key (head ++ body) in
    (
      message,
      ground (arith, up, there),
      ground (arith, parts, front, back, size, length-append key (head ++ body)),
    )
