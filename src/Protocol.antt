-- ===== src/Protocol.antt =====
-- internal/protocol: the packets that clients, gateway and machines exchange.
pub mod PacketType
pub mod Types
pub mod Packet
pub mod RoundTrip
