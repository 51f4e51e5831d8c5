-- ===== src/Main/Running/Ordered/Tests.antt =====
-- One thread for the right eye whose frame goes the whole way, and one that holds the left eye.
use ngp_encode_server.Base.{
  ℕ, ◌≡◌, ◌≤◌, ◌<◌, ◌⊎◌, refl, subst, ◌∙◌, List, [], ◌∷◌, ◌++◌, Bool, true, false, some, none,
  arith,
}
use ngp_encode_server.Base.Exceptions.{ok}
use ngp_encode_server.Requests.{fetch_side, fetch_index}
use ngp_encode_server.RenderedFrame.{RenderedFrame, construct}
use ngp_encode_server.Client.{FrameRequest, queue_frame}
use ngp_encode_server.Client.Concurrent.{Serving, take_side, take_index, take_answer, request_for}
use ngp_encode_server.Client.Concurrent.Asked.{IsAsked}
use ngp_encode_server.Client.Concurrent.Covered.{counter, queue_of}
use ngp_encode_server.Client.Session.Queues.{frame_of_eye}
use ngp_encode_server.Encode.{Eye}
use ngp_encode_server.Encode.Overlay.{Texts}
use ngp_encode_server.Encode.Process.{filed, after_process, process_round_lem}
use ngp_encode_server.Encode.Send.{after, send_round_lem}
use ngp_encode_server.FrameMap.{FrameMap, IsValid, insert, get_delete}
use ngp_encode_server.FrameMap.View.{view, insert-view, get_delete-view, empty-IsValid}
use ngp_encode_server.FrameQueue.Fifo.{push_empty}
use ngp_encode_server.OrderedMap.{lookup}
use ngp_encode_server.Main.Flags.{accepted, defaults}
use ngp_encode_server.Main.Tests.{world, starts, marks, respond, program, works, wraps}
use ngp_encode_server.Main.Interleaved.{started}
use ngp_encode_server.Main.Running.{
  Running, Reach, stays, takes_side, takes_index, takes_answer, processes, sends, eye, put_eye,
}
use ngp_encode_server.Main.Running.Invariant.{part}
use ngp_encode_server.Main.Running.Begun.{begun}
use ngp_encode_server.Main.Running.Ordered.{running_in_order, no_frame_lost, all_frames_handed}

abbrev stamps : Bool → ℕ → Texts ℕ
stamps side i = marks

abbrev first : RenderedFrame ℕ
first =
    frame_of_eye respond program.cameras.left.scene.info program.cameras.left.depth.info
      program.cameras (λ r. refl) false 0

abbrev asked : FrameRequest ℕ
asked = request_for false 0 (started program).shared

abbrev Reaches : ℕ → Running ℕ → Type 0
Reaches =
    Reach respond program.cameras.left.scene.info program.cameras.left.depth.info stamps
      (begun program)

abbrev served : Serving ℕ
served =
    take_answer respond program.cameras.left.scene.info program.cameras.left.depth.info asked []
      (take_index false (true ∷ []) (take_side (take_side (started program))))

abbrev queued : Running ℕ
queued = record (begun program) { clients = served }

queued_reached : Reaches 1 queued
unfolding take_side take_index take_answer fetch_side fetch_index
queued_reached =
    takes_answer asked [] [] (takes_index false (true ∷ []) [] (takes_side (takes_side stays)) refl)
      refl (omega arith)

front : (eye false queued).frame_queue.queue ≡ first ∷ []
unfolding take_side take_index take_answer fetch_side fetch_index queue_frame construct
front = push_empty first (started program).shared.queue_right refl

abbrev filed_map : FrameMap (RenderedFrame ℕ)
filed_map = (insert 0 (filed marks first) program.frame_map_right).0

map0-IsValid : IsValid program.frame_map_right
map0-IsValid = empty-IsValid program.frame_map_right refl

filed_map-IsValid : IsValid filed_map
filed_map-IsValid = (insert-view 0 (filed marks first) program.frame_map_right map0-IsValid).0

files : (insert 0 (filed marks first) program.frame_map_right).1 ≡ ok tt
files = (insert-view 0 (filed marks first) program.frame_map_right map0-IsValid).1

filed_first : view filed_map 0 ≡ some (filed marks first)
unfolding view lookup
filed_first = (insert-view 0 (filed marks first) program.frame_map_right map0-IsValid).2 0

filed_alone : view filed_map 1 ≡ none
unfolding view lookup
filed_alone = (insert-view 0 (filed marks first) program.frame_map_right map0-IsValid).2 1

abbrev processed : Running ℕ
processed = put_eye false (after_process marks works first [] (eye false queued)) queued

processed_reached : Reaches 1 processed
unfolding take_side take_index take_answer fetch_side fetch_index queue_frame construct
processed_reached =
    subst (λ r. Reaches 1 (put_eye false r.1 queued))
      (process_round_lem marks works first [] (eye false queued) front refl refl refl files)
      (processes false works first [] queued_reached front refl refl refl)

abbrev sent_eye : Eye ℕ
sent_eye =
    after wraps (filed marks first)
      (record (eye false processed) { encode_queue = (get_delete 0 filed_map).0 })

abbrev sent : Running ℕ
sent = put_eye false sent_eye processed

sent_reached : Reaches 1 sent
unfolding take_side take_index take_answer fetch_side fetch_index queue_frame construct
sent_reached =
    subst (λ r. Reaches 1 (put_eye false r.1 processed))
      (send_round_lem wraps (filed marks first) (eye false processed) filed_map-IsValid filed_first
        refl refl)
      (sends false wraps (filed marks first) processed_reached filed_first refl refl)

gone : view (part false sent).encode_queue (part false sent).frame_index ≡ none
unfolding view lookup
gone =
    let (_, _, left) = get_delete-view 0 filed_map filed_map-IsValid in
    left 1 ∙ rw (filed_first, filed_alone) refl

none-IsAsked : (i : ℕ) → ¬ IsAsked false i sent.clients.pending
unfolding take_answer
none-IsAsked i h = h

-- The frame of the right eye was sent.
running_in_order_example :
    (sent.right.to_scene ≡ filed marks first ∷ [])
    × (sent.right.to_depth ≡ filed marks first ∷ [])
    × (1 ≤ counter false sent.clients.shared.counters)
unfolding construct
running_in_order_example =
    running_in_order respond (λ r. refl) (λ r. refl) stamps (accepted defaults) (world true) program
      1 sent false starts sent_reached (omega arith)

drawn_once : 0 < counter false processed.clients.shared.counters
unfolding take_side take_index take_answer fetch_side fetch_index queue_frame construct
drawn_once = omega arith

no_frame_lost_example :
    IsAsked false 0 processed.clients.pending
    ⊎ ((before behind : List (RenderedFrame ℕ)) × (queue_of false processed.clients.shared
          ≡ before ++ first ∷ behind))
    ⊎ (view processed.right.encode_queue 0 ≡ some (filed marks first))
unfolding construct
no_frame_lost_example =
    no_frame_lost respond (λ r. refl) (λ r. refl) stamps (accepted defaults) (world true) program 1
      processed false starts processed_reached (omega arith) 0 (omega arith) drawn_once

all_frames_handed_example :
    (sent.right.to_scene ≡ filed marks first ∷ []) × (sent.right.to_depth ≡ filed marks first ∷ [])
unfolding construct take_side take_index take_answer fetch_side fetch_index queue_frame
all_frames_handed_example =
    all_frames_handed respond (λ r. refl) (λ r. refl) stamps (accepted defaults) (world true)
      program 1 sent false starts sent_reached (omega arith) none-IsAsked refl gone
