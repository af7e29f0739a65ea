-- ===== src/Protocol/Packet.antt =====
-- internal/protocol/packet.go: Packet and its methods. The payload is a reused slice.
use voce.Prelude.{
  ℕ, ◌+◌, ◌-◌, ◌*◌, ◌/◌, ◌%◌, ◌^◌, ◌==◌, ltb, if◌then◌else◌, not, ◌||◌, Option, none, some, List,
  [], ◌∷◌, ◌++◌, length, drop, get_or, replicate,
}
use voce.Prelude.Slices.{Slice, nil_slice, bytes, cap_of, reslice, sized, copy}
use voce.Protocol.Types.{packet_header_size, magic_number1, magic_number2, encode_raw}

pub record Packet : Type 0 where
  pub type : ℕ  -- byte
  pub encode : ℕ  -- byte
  pub size : ℕ  -- uint32
  pub payload : Slice
  pub header : List ℕ  -- [8]byte

pub data PacketError : Type 0 where
  invalid_header magic_mismatch payload_mismatch : PacketError

abbrev pub u32_mod : ℕ
u32_mod = 2 ^ 32

-- What the pool's factory gives: &Packet{}
abbrev pub new_packet : Packet
new_packet = record { type = 0; encode = 0; size = 0; payload = nil_slice; header = replicate 8 0 }

unfoldable pub recycle : Packet → Packet
recycle p = record p {
  type = 0;
  encode = encode_raw;
  size = 0;
  payload = if ltb (64 * 1024) (cap_of p.payload) then nil_slice else reslice p.payload 0;
  header = replicate 8 0;
}

unfoldable pub set_payload : Packet → List ℕ → Packet
set_payload p src =
    let required = length src in
    if required == 0
    then record p { payload = reslice p.payload 0; size = 0 }
    else record p { payload = copy (sized p.payload required) src; size = required % u32_mod }

-- binary.BigEndian.PutUint32
unfoldable pub put_uint32 : ℕ → List ℕ
put_uint32 v = (v / 2 ^ 24 % 256) ∷ (v / 2 ^ 16 % 256) ∷ (v / 2 ^ 8 % 256) ∷ (v % 256) ∷ []

-- binary.BigEndian.Uint32(b[at:at+4])
unfoldable pub uint32_at : List ℕ → ℕ → ℕ
uint32_at b i =
    get_or b i 0 * 2 ^ 24
    + get_or b (i + 1) 0 * 2 ^ 16
    + get_or b (i + 2) 0 * 2 ^ 8
    + get_or b (i + 3) 0

unfoldable pub write_header : Packet → Packet
unfolding put_uint32
write_header p = record p {
  header = magic_number1 ∷ magic_number2 ∷ p.type ∷ p.encode ∷ put_uint32 p.size;
}

-- The packet keeps the header that it wrote; the bytes are header and payload.
unfoldable pub marshal : Packet → Packet × List ℕ
unfolding write_header
marshal p = let q = write_header p in (q, q.header ++ bytes p.payload)

-- The checks that Unmarshal and UnmarshalHeader share, before any field is written.
unfoldable pub check_header : List ℕ → Option PacketError
check_header content =
    if ltb (length content) packet_header_size
    then some PacketError.invalid_header
    else if not (get_or content 0 0 == magic_number1) || not (get_or content 1 0 == magic_number2)
    then some PacketError.magic_mismatch
    else none

unfoldable pub read_header : Packet → List ℕ → Packet
unfolding uint32_at
read_header p content = record p {
  type = get_or content 2 0;
  encode = get_or content 3 0;
  size = uint32_at content 4;
}

unfoldable pub unmarshal : Packet → List ℕ → Packet × Option PacketError
unmarshal p content = elim (check_header content) [
  | some e ↦ (p, some e)
  | none ↦
      let q = read_header p content in
      let body = drop packet_header_size content in
      if q.size == length body
      then (set_payload q body, none)
      else (q, some PacketError.payload_mismatch)
]

unfoldable pub unmarshal_header : Packet → List ℕ → Packet × Option PacketError
unmarshal_header p content = elim (check_header content) [
  | some e ↦ (p, some e)
  | none ↦
      let q = read_header p content in
      if q.size == length content - packet_header_size
      then (q, none)
      else (q, some PacketError.payload_mismatch)
]
