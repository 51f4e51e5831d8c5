-- ===== src/Main/Startup/Ready.antt =====
-- The state in which main starts its threads.
use ngp_encode_server.Base.{◌≡◌, refl, sym, subst, [], ◌∷◌, Bool, true, false, if◌then◌else◌}
use ngp_encode_server.Base.Int.{pos}
use ngp_encode_server.Camera.Control.{BothInSync, construct-BothInSync}
use ngp_encode_server.Camera.Sync.{EncodesAt}
use ngp_encode_server.Codec.Resolution.{constructed}
use ngp_encode_server.Requests.{zeros}
use ngp_encode_server.WebSocket.Lifecycle.{listening}
use ngp_encode_server.Main.Flags.{
  Flags, Parsed, accepted, help, parse_error, validation_error, codec_info,
}
use ngp_encode_server.Main.Startup.{
  World, Program, Outcome, returns, terminates, threads, main, servers,
}
use ngp_encode_server.Main.Startup.Ends.{fine, all_free, ready, main_lem}

opened-EncodesAt :
    (flags : Flags) → EncodesAt flags.width flags.height (constructed (codec_info flags))
unfolding codec_info
opened-EncodesAt flags = record {
  opened = refl;
  width_agrees = refl;
  height_agrees = refl;
  coder_agrees = refl;
}

module _ {ℓ} {F : Type ℓ} where
  -- What the threads find at first.
  pub record IsReady (p : Program F) : Type ℓ where
    pub cameras_agree : BothInSync p.cameras
    pub servers_listen : servers p ≡ listening ∷ listening ∷ listening ∷ listening ∷ listening ∷ []
    pub left_queue_is_empty : p.frame_queue_left.queue ≡ []
    pub right_queue_is_empty : p.frame_queue_right.queue ≡ []
    pub left_map_is_empty : p.frame_map_left.entries ≡ []
    pub right_map_is_empty : p.frame_map_right.entries ≡ []
    pub counters_are_zero : p.counters ≡ zeros

  ready-IsReady : (w : World F) (flags : Flags) → IsReady (ready w flags)
  ready-IsReady w flags =
      let v = opened-EncodesAt flags in
      record {
        cameras_agree = construct-BothInSync w.matrix v v v v;
        servers_listen = refl;
        left_queue_is_empty = refl;
        right_queue_is_empty = refl;
        left_map_is_empty = refl;
        right_map_is_empty = refl;
        counters_are_zero = refl;
      }

  -- Of threads that start, what they find.
  abbrev StartsReady : Outcome F → Type ℓ
  StartsReady (threads p) = IsReady p
  StartsReady _ = Unit

  choice-StartsReady :
      (version fine all_free scene_left_free : Bool) {p : Program F}
      → IsReady p
      → StartsReady (
          if version
          then returns (pos 0)
          else if fine
          then if all_free
            then threads p
            else if scene_left_free
            then terminates
            else returns (pos 0)
          else returns (pos 0))
  choice-StartsReady true _ _ _ v = tt
  choice-StartsReady false false _ _ v = tt
  choice-StartsReady false true true _ v = v
  choice-StartsReady false true false true v = tt
  choice-StartsReady false true false false v = tt

  main-StartsReady : (parsed : Parsed) (w : World F) → StartsReady (main parsed w)
  unfolding main
  main-StartsReady help w = tt
  main-StartsReady parse_error w = tt
  main-StartsReady validation_error w = tt
  main-StartsReady (accepted flags) w = subst StartsReady (sym (main_lem w flags)) (
      choice-StartsReady flags.version (fine w) (all_free w) w.scene_left_free
        (ready-IsReady w flags))

  -- However main comes to start its threads, both eyes' cameras agree with their open encoders, all
  -- five servers listen, the queues and maps are empty and the counters are zero.
  pub main-IsReady :
      (parsed : Parsed) (w : World F) (p : Program F) → main parsed w ≡ threads p → IsReady p
  main-IsReady parsed w p h = subst StartsReady h (main-StartsReady parsed w)
