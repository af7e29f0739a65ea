-- ===== src/Protocol/RoundTrip.antt =====
-- internal/protocol/packet.go: what Marshal writes, Unmarshal reads, and the error paths.
use voce.Prelude.{
  ℕ, ◌+◌, ◌-◌, ◌%◌, ◌≤◌, ◌<◌, ◌≡◌, refl, ap, ap₂, ◌∙◌, ◌⊎◌, ◌↔◌, ◌==◌, ==_iff, sym, false, none,
  some, List, [], ◌∷◌, ◌++◌, arith, length, drop, get_or, All, length-drop,
}
use voce.Prelude.Slices.{bytes, bytes-sized-copy}
use voce.Protocol.Types.{packet_header_size, magic_number1, magic_number2}
use voce.Protocol.Packet.{
  Packet, PacketError, u32_mod, set_payload, put_uint32, uint32_at, marshal, check_header,
  read_header, unmarshal, unmarshal_header,
}

uint32_round : (v : ℕ) (rest : List ℕ) → v < u32_mod → uint32_at (put_uint32 v ++ rest) 0 ≡ v
unfolding uint32_at put_uint32
uint32_round v rest h = omega arith

-- A payload set into a packet reads back whole, whatever the reused buffer held; the size field is
-- its length modulo 2^32.
pub bytes-set_payload :
    (p : Packet) (src : List ℕ)
    → (bytes (set_payload p src).payload ≡ src)
      × ((set_payload p src).size ≡ length src % u32_mod)
      × ((set_payload p src).type ≡ p.type)
      × ((set_payload p src).encode ≡ p.encode)
unfolding set_payload
bytes-set_payload p [] = (refl, refl, refl, refl)
bytes-set_payload p (x ∷ xs) =
    let some_bytes : (length (x ∷ xs) == 0) ≡ false = ground arith in
    rw some_bytes (bytes-sized-copy p.payload (x ∷ xs), refl, refl, refl)

-- A header check passes exactly on eight bytes or more that begin with the two magic numbers.
check_header_iff :
    (content : List ℕ)
    → (check_header content ≡ none) ↔ (
        (packet_header_size ≤ length content)
        × (get_or content 0 0 ≡ magic_number1)
        × (get_or content 1 0 ≡ magic_number2))
unfolding check_header
check_header_iff content = ground arith

unmarshal_good :
    (q : Packet) (c : List ℕ)
    → check_header c ≡ none
    → uint32_at c 4 ≡ length (drop packet_header_size c)
    → unmarshal q c ≡ (set_payload (read_header q c) (drop packet_header_size c), none)
unfolding unmarshal read_header
unmarshal_good q c ok same = rw (ok, unmarshal, same, (==_iff _ _).1 refl)

check_header-marshal : (p : Packet) → check_header (marshal p).1 ≡ none
unfolding marshal check_header
check_header-marshal p = ground arith

uint32_at-marshal : (p : Packet) → p.size < u32_mod → uint32_at (marshal p).1 4 ≡ p.size
unfolding marshal uint32_at
uint32_at-marshal p h = omega arith

drop-marshal : (p : Packet) → drop packet_header_size (marshal p).1 ≡ bytes p.payload
unfolding marshal
drop-marshal p = refl

length-marshal : (p : Packet) → length (marshal p).1 ≡ 8 + length (bytes p.payload)
unfolding marshal
length-marshal p = omega arith

-- What `marshal` writes, `unmarshal` reads back into any packet: type, encoding and payload return,
-- provided that the size field is the payload's length and fits 32 bits, as `set_payload` leaves it.
pub unmarshal-marshal :
    (p q : Packet)
    → p.size ≡ length (bytes p.payload)
    → length (bytes p.payload) < u32_mod
    → let r = unmarshal q (marshal p).1 in
      (r.1 ≡ none)
      × (r.0.type ≡ p.type)
      × (r.0.encode ≡ p.encode)
      × (r.0.size ≡ p.size)
      × (bytes r.0.payload ≡ bytes p.payload)
unfolding marshal read_header
unmarshal-marshal p q e h =
    let u =
      unmarshal_good q (marshal p).1 (check_header-marshal p)
        (uint32_at-marshal p (omega arith) ∙ e ∙ ap length (sym (drop-marshal p))) in
    let s = bytes-set_payload (read_header q (marshal p).1) (bytes p.payload) in
    rw (u, drop-marshal p) (refl, s.2, s.3, omega (arith, s.1), s.0)

-- `unmarshal` accepts exactly the contents with eight bytes or more, the two magic numbers in front
-- and a size field that counts the rest; otherwise the first of the three that fails names the error.
pub unmarshal_accepts :
    (p : Packet) (c : List ℕ)
    → ((unmarshal p c).1 ≡ none) ↔ (
        (packet_header_size ≤ length c)
        × (get_or c 0 0 ≡ magic_number1)
        × (get_or c 1 0 ≡ magic_number2)
        × (uint32_at c 4 ≡ length c - packet_header_size))
unfolding unmarshal check_header read_header
unmarshal_accepts p c = ground (arith, length-drop packet_header_size c)

-- After `set_payload` the size field wraps at 2^32: a packet goes through the wire exactly when its
-- payload is shorter, and a longer one is refused as a payload mismatch.
pub unmarshal-marshal-set_payload :
    (p q : Packet) (src : List ℕ)
    → ((unmarshal q (marshal (set_payload p src)).1).1 ≡ none) ↔ (length src < u32_mod)
unmarshal-marshal-set_payload p q src =
    let sent = set_payload p src in
    let content = (marshal sent).1 in
    let (whole, counted, _, _) = bytes-set_payload p src in
    let size_small : sent.size < u32_mod = omega (arith, counted) in
    let all_there = length-marshal sent ∙ ap (λ (xs : List ℕ). 8 + length xs) whole in
    let accepts = unmarshal_accepts q content in
    (
      λ taken. omega (arith, (accepts.0 taken).3, uint32_at-marshal sent size_small, all_there),
      λ short.
          (unmarshal-marshal sent q (omega (arith, ap length whole))
            (omega (arith, ap length whole))).0,
    )

-- `unmarshal_header` and `unmarshal` accept and refuse alike and read the same type, encoding and
-- size field, but `unmarshal_header` leaves the payload alone.
pub unmarshal_header-unmarshal :
    (p : Packet) (c : List ℕ)
    → ((unmarshal_header p c).1 ≡ (unmarshal p c).1)
      × ((unmarshal_header p c).0.type ≡ (unmarshal p c).0.type)
      × ((unmarshal_header p c).0.encode ≡ (unmarshal p c).0.encode)
      × ((unmarshal_header p c).0.payload ≡ p.payload)
unfolding unmarshal unmarshal_header read_header
unmarshal_header-unmarshal p c = ground (
  arith,
  length-drop packet_header_size c,
  bytes-set_payload (read_header p c) (drop packet_header_size c),
)

-- A content that `unmarshal` refuses leaves the payload as it was, and a bad header leaves the whole
-- packet as it was.
pub unmarshal_refused :
    (p : Packet) (c : List ℕ) (e : PacketError)
    → (unmarshal p c).1 ≡ some e
    → ((unmarshal p c).0.payload ≡ p.payload)
      × ((e ≡ PacketError.payload_mismatch) ⊎ ((unmarshal p c).0 ≡ p))
unfolding unmarshal check_header read_header
unmarshal_refused p c e h = ground arith

abbrev pub IsBytes : List ℕ → Type 0
IsBytes = All (λ b. b < 256)

accepted_bytes :
    (p : Packet) (c : List ℕ)
    → check_header c ≡ none
    → uint32_at c 4 ≡ length (drop packet_header_size c)
    → IsBytes c
    → (marshal (unmarshal p c).0).1 ≡ c
unfolding marshal read_header uint32_at
accepted_bytes p (a ∷ b ∷ t ∷ e ∷ w ∷ x ∷ y ∷ z ∷ rest) ok same small =
    let c = a ∷ b ∷ t ∷ e ∷ w ∷ x ∷ y ∷ z ∷ rest in
    let (_, first, second) = (check_header_iff c).0 ok in
    let (whole, counted, kept_type, kept_encode) = bytes-set_payload (read_header p c) rest in
    rw (unmarshal_good p c ok same) (
      ap₂ ◌∷◌ (sym first) (
        ap₂ ◌∷◌ (sym second) (
          ap₂ ◌∷◌ kept_type (
            ap₂ ◌∷◌ kept_encode (
              ap₂ ◌∷◌ (omega (arith, counted, same)) (
                ap₂ ◌∷◌ (omega (arith, counted, same)) (
                  ap₂ ◌∷◌ (omega (arith, counted, same))
                    (ap₂ ◌∷◌ (omega (arith, counted, same)) whole))))))))
accepted_bytes p _ ok same small = absurd (omega (arith, (check_header_iff _).0 ok))

-- Whatever bytes `unmarshal` accepts, marshalling the packet that it read gives them back.
pub marshal-unmarshal :
    (p : Packet) (c : List ℕ)
    → (unmarshal p c).1 ≡ none
    → IsBytes c
    → (marshal (unmarshal p c).0).1 ≡ c
marshal-unmarshal p c accepted small =
    let (long, first, second, counted) = (unmarshal_accepts p c).0 accepted in
    accepted_bytes p c ((check_header_iff c).1 (long, first, second))
      (omega (arith, counted, length-drop packet_header_size c)) small
