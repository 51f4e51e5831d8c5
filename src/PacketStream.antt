-- ===== src/PacketStream.antt =====
-- PacketStreamServer (src/base/server/packet_stream.cc, include/base/server/packet_stream.h): an
-- encoded packet goes to every client, with its first byte replaced by a mark for key frames. The
-- size of an AVPacket is the length of its data here; an encoder returns no empty packet.
use ngp_encode_server.Base.{ℕ, ◌≡◌, List, [], ◌∷◌, ◌<◌, Bool, true, false, ◌==◌, if◌then◌else◌}
use ngp_encode_server.Base.Exceptions.{Result, ok, throws, websocket_error}
use ngp_encode_server.OrderedMap.{IsSorted}
use ngp_encode_server.WebSocket.{WebSocketServer, send_to_all}
use ngp_encode_server.WebSocket.Connections.{has}
use ngp_encode_server.WebSocket.Broadcast.{
  received, send_to_all_delivers, send_to_all_keeps, send_to_all_refused,
}

-- AV_PKT_FLAG_KEY
abbrev pub flag_key : ℕ
flag_key = 1

pub record AvPacket : Type 0 where
  pub content : List ℕ
  pub flags : ℕ

-- `pkt->data[0] = pkt->flags == AV_PKT_FLAG_KEY ? 0 : 1`
pub mark : AvPacket → AvPacket
mark pkt = elim pkt.content [
  | [] ↦ pkt
  | b ∷ bs ↦ record pkt { content = (if pkt.flags == flag_key then 0 else 1) ∷ bs }
]

-- consume_packet
pub consume_packet : (ℕ → Bool) → AvPacket → WebSocketServer → WebSocketServer × Result (Unit {0})
consume_packet takes pkt s = send_to_all takes (mark pkt).content s

-- message_handler ignores what a client sends.
pub message_handler : List ℕ → WebSocketServer → WebSocketServer
message_handler payload s = s

pub consume_packet-returns :
    (takes : ℕ → Bool) (pkt : AvPacket) (s : WebSocketServer)
    → s.running ≡ true
    → IsSorted s.connections
    → ((h : ℕ) → takes h ≡ true)
    → (consume_packet takes pkt s).1 ≡ ok tt
unfolding consume_packet
consume_packet-returns takes pkt s run set all =
    (send_to_all_delivers takes (mark pkt).content s run set all).0

pub consume_packet-refused :
    (takes : ℕ → Bool) (pkt : AvPacket) (s : WebSocketServer) (hdl : ℕ)
    → s.running ≡ true
    → IsSorted s.connections
    → has hdl s ≡ true
    → takes hdl ≡ false
    → ((h : ℕ) → h < hdl → takes h ≡ true)
    → (consume_packet takes pkt s).1 ≡ throws websocket_error
unfolding consume_packet
consume_packet-refused takes pkt s hdl run set there bad before =
    (send_to_all_refused takes (mark pkt).content s hdl run set there bad before).0

pub consume_packet_keeps :
    (takes : ℕ → Bool) (pkt : AvPacket) (s : WebSocketServer)
    → ((consume_packet takes pkt s).0.connections ≡ s.connections)
      × ((consume_packet takes pkt s).0.running ≡ s.running)
unfolding consume_packet
consume_packet_keeps takes pkt s = send_to_all_keeps takes (mark pkt).content s

-- What a client is sent of a packet of at least a byte.
abbrev pub marked : ℕ → List ℕ → List ℕ
marked flags bs = (if flags == flag_key then 0 else 1) ∷ bs

pub consume_packet-gets :
    (takes : ℕ → Bool) (b : ℕ) (bs : List ℕ) (flags : ℕ) (s : WebSocketServer)
    → s.running ≡ true
    → IsSorted s.connections
    → ((h : ℕ) → takes h ≡ true)
    → (h : ℕ)
    → received h (consume_packet takes (record { content = b ∷ bs; flags = flags }) s).0.events
      ≡ (if has h s then marked flags bs ∷ received h s.events else received h s.events)
unfolding consume_packet mark
consume_packet-gets takes b bs flags s run set all h =
    let (_, got) = send_to_all_delivers takes (marked flags bs) s run set all in got h

-- On a running server whose connections all take it, a packet reaches each client once, whole but for
-- its first byte: that is 0 if the key flag is the packet's only flag, and 1 otherwise.
pub consume_packet-received :
    (takes : ℕ → Bool) (b : ℕ) (bs : List ℕ) (flags : ℕ) (s : WebSocketServer)
    → s.running ≡ true
    → IsSorted s.connections
    → ((h : ℕ) → takes h ≡ true)
    → (h : ℕ) → has h s ≡ true
    → received h (consume_packet takes (record { content = b ∷ bs; flags = flags }) s).0.events
      ≡ ((if flags == flag_key then 0 else 1) ∷ bs) ∷ received h s.events
unfolding consume_packet mark
consume_packet-received takes b bs flags s run set all h there =
    let payload = (if flags == flag_key then 0 else 1) ∷ bs in
    let (_, got) = send_to_all_delivers takes payload s run set all in rw (got h, there)
