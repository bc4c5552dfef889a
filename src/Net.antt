-- ===== src/Net.antt =====
-- Length-prefixed packets over a connection (internal/base/net/packet.go).
--
-- A connection is what its peer has sent and not yet been read, the deadlines last set, and a
-- writer. `io.ReadFull`, `binary.BigEndian` and the deadlines of `net.Conn` follow Go's library;
-- `conn.Write` and the cryptor are code of others and are parameters.
pub mod Write
pub mod Frame
pub mod Packet
pub mod Crypt
pub mod Exchange
mod Samples
