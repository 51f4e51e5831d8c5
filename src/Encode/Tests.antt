-- ===== src/Encode/Tests.antt =====
-- Runs of one eye, with two frames that arrive in the wrong order, and of a packet's way out.
use ngp_encode_server.Base.{
  ℕ, zero, suc, ◌≤◌, inl, inr, ◌+◌, ◌<◌, ◌≡◌, refl, List, [], ◌∷◌, ◌++◌, none, Bool, true, false,
  not, ◌==◌, arith,
}
use ngp_encode_server.Base.Int.{pos, negsuc}
use ngp_encode_server.Base.Exceptions.{websocket_error}
use ngp_encode_server.Camera.{Camera}
use ngp_encode_server.FrameMap.View.{view}
use ngp_encode_server.OrderedMap.{lookup}
use ngp_encode_server.PacketStream.{AvPacket}
use ngp_encode_server.RenderedFrame.{RenderedFrame, FrameContext}
use ngp_encode_server.WebSocket.{WebSocketServer}
use ngp_encode_server.WebSocket.Connections.{has}
use ngp_encode_server.WebSocket.Broadcast.{received}
use ngp_encode_server.Encode.{Eye, Processing, Sending}
use ngp_encode_server.Encode.Overlay.{Texts, texts, matrix_text, to_string, digit}
use ngp_encode_server.RenderText.{Glyph, center, left_bottom, left_top, right_top}
use ngp_encode_server.Encode.Pipeline.{Step, receives, processes, sends, run, AreInOrder}
use ngp_encode_server.Encode.Pipeline.Order.{encoders_in_order}
use ngp_encode_server.Encode.Pipeline.Reorder.{InList}
use ngp_encode_server.Encode.Stream.{opens, closes, forwards, stream, clients_get_their_due}
use ngp_encode_server.Encode.Packets.{
  Poll, eagain, success, uncaught, receive_packet_round, packet_refused,
}

abbrev pub hd : FrameContext
hd = record { width = 1280; height = 720; pix_fmt = 0 }

abbrev pub camera : Camera ℕ
camera = record { is_left = true; width = 1280; height = 720; matrix = 1 ∷ 2 ∷ 3 ∷ 4 ∷ 5 ∷ [] }

abbrev pub frame : ℕ → RenderedFrame ℕ
frame i = record {
  frame_response = record {
    index = i;
    camera = camera;
    is_left = true;
    frame = 7 ∷ [];
    depth = [];
  };
  source_scene = hd;
  converted_scene = hd;
  source_depth = hd;
  converted_depth = hd;
  converted = false;
}

-- A font of dots.
abbrev pub dot : Glyph
dot = record {
  bitmap_left = pos 0;
  bitmap_top = pos 0;
  rows = 1;
  width = 1;
  buffer = 255 ∷ [];
  advance_x = pos 128;
}

abbrev pub marks : Texts ℕ
marks = record {
  load = λ ch g. dot;
  slot = dot;
  format = λ n. to_string 3 n;
  zero = 0;
  one = 1;
  timestamp = "12:00:00.000";
}

frame_texts :
    texts marks (frame 1024)
    ≡ (center, "1 2 3 4 \n5 0 0 0 1 ")
      ∷ (left_bottom, "index=1024")
      ∷ (left_top, "12:00:00.000")
      ∷ (right_top, "direction=left")
      ∷ []
unfolding texts matrix_text to_string digit
frame_texts = refl

abbrev pub works : Processing
works = record { scene_ok = true; depth_ok = true; time = 3 }

abbrev pub refuses : Sending
refuses = record {
  scene_wraps = true;
  scene_ret = negsuc 21;
  depth_wraps = true;
  depth_ret = pos 0;
  time = 2;
}

abbrev pub waiting : List (RenderedFrame ℕ) → Eye ℕ
waiting queue = record {
  frame_queue = record { queue = queue };
  encode_queue = record { entries = [] };
  processed = record { index = 0; elapsed = 0 };
  frame_index = 0;
  sent = record { index = 0; elapsed = 0 };
  to_scene = [];
  to_depth = [];
}

view_empty : (i : ℕ) → view (waiting []).encode_queue i ≡ none
unfolding view lookup
view_empty i = refl

abbrev steps : List (Step ℕ)
steps =
    receives (frame 1)
    ∷ receives (frame 0)
    ∷ processes marks works
    ∷ processes marks works
    ∷ sends refuses
    ∷ sends refuses
    ∷ []

encoders_in_order_example : AreInOrder (run steps (waiting [])).1
encoders_in_order_example = encoders_in_order steps (waiting []) refl refl refl refl (omega arith)

abbrev key_frame : AvPacket
key_frame = record { content = 7 ∷ 8 ∷ []; flags = 1 }

abbrev idle : List Poll
idle = record { shutdown_requested = false; ret = eagain; pkt = key_frame } ∷ []

abbrev two_clients : WebSocketServer
two_clients = record { connections = (3, tt) ∷ (5, tt) ∷ []; running = true; events = [] }

-- A client that goes before the second packet.
clients_get_their_due_example :
    received 3
      (stream
        (λ _. true)
        (opens 7 ∷ forwards idle 7 (8 ∷ []) 1 ∷ closes 3 ∷ forwards [] 9 (4 ∷ []) 0 ∷ [])
        two_clients).events
    ≡ (0 ∷ 8 ∷ []) ∷ []
unfolding lookup
clients_get_their_due_example =
    clients_get_their_due (λ _. true) (λ _. refl)
      (opens 7 ∷ forwards idle 7 (8 ∷ []) 1 ∷ closes 3 ∷ forwards [] 9 (4 ∷ []) 0 ∷ []) two_clients
      3 refl (omega arith) ((refl, refl, tt), (tt, tt))

abbrev not_five : ℕ → Bool
not_five h = not (h == 5)

takes_below : (h : ℕ) → h < 5 → not_five h ≡ true
takes_below h lt = ground arith

has_five : has 5 two_clients ≡ true
unfolding lookup
has_five = refl

packet_refused_example :
    let p : Poll = record { shutdown_requested = false; ret = success; pkt = key_frame } in
    (receive_packet_round not_five (idle ++ p ∷ []) two_clients).0 ≡ uncaught websocket_error
packet_refused_example =
    packet_refused not_five two_clients idle [] key_frame 5 (refl, refl, tt) refl (omega arith)
      has_five refl takes_below

-- Three frames, the last one first.
shuffled : (i : ℕ) → 0 ≤ i → i < 0 + 3 → InList i (2 ∷ 0 ∷ 1 ∷ [])
shuffled zero ge lt = inr (inl refl)
shuffled (suc zero) ge lt = inr (inr (inl refl))
shuffled (suc (suc zero)) ge lt = inl refl
shuffled (suc (suc (suc n))) ge lt = absurd (omega arith)
