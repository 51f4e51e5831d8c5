-- ===== src/Codec/Locks.antt =====
-- The two mutexes of AVCodecContextManager and CodecInfoProvider (include/base/video/type_managers.h,
-- src/base/video/type_managers.cc), between one reader of the settings that is followed, any number of
-- others, the threads in send_frame and receive_packet, and change_resolution. The settings stand for
-- their size, the part that changes.
pub mod Exclusion
use ngp_encode_server.Base.{ℕ, suc, ◌≡◌, Option, none, some, Bool, true, false}

-- How far a change of resolution to a width and a height has come, under both of its locks.
pub data Writer : Type 0 where
  no_writer : Writer
  locked wrote_width wrote_height : ℕ → ℕ → Writer

-- How far a reader has come: the constructor of CodecInfoProvider copies the settings, member by
-- member, and then locks m_codec_info_mutex shared, until its end.
pub data Reader : Type 0 where
  away : Reader
  copied_width : ℕ → Reader
  copied holds : ℕ → ℕ → Reader

-- `coder` is the size that the encoder is open with, `others` are the other readers that hold the
-- shared lock, `user` tells whether send_frame or receive_packet holds m_codec_context_mutex.
pub record State : Type 0 where
  pub width : ℕ
  pub height : ℕ
  pub coder : Option (ℕ × ℕ)
  pub writer : Writer
  pub reader : Reader
  pub others : ℕ
  pub user : Bool

abbrev pub init : ℕ → ℕ → State
init width height = record {
  width = width;
  height = height;
  coder = some (width, height);
  writer = no_writer;
  reader = away;
  others = 0;
  user = false;
}

abbrev pub is_holding : Reader → Bool
is_holding (holds _ _) = true
is_holding _ = false

abbrev pub is_writing : Writer → Bool
is_writing no_writer = false
is_writing _ = true

-- What one thread may do next.
pub data Step (s : State) : State → Type 0 where
  -- std::scoped_lock in change_resolution
  change_locks :
      (w h : ℕ)
      → is_writing s.writer ≡ false
      → is_holding s.reader ≡ false
      → s.others ≡ 0
      → s.user ≡ false
      → Step s (record s { writer = locked w h })
  change_width :
      (w h : ℕ) → s.writer ≡ locked w h → Step s (record s { width = w; writer = wrote_width w h })
  change_height :
      (w h : ℕ)
      → s.writer ≡ wrote_width w h
      → Step s (record s { height = h; writer = wrote_height w h })
  -- codec_ctx_init, and the release of the locks; an exception leaves no encoder open.
  change_reopens :
      (w h : ℕ)
      → s.writer ≡ wrote_height w h
      → Step s (record s { coder = some (s.width, s.height); writer = no_writer })
  change_throws :
      (w h : ℕ)
      → s.writer ≡ wrote_height w h
      → Step s (record s { coder = none; writer = no_writer })
  copy_width : s.reader ≡ away → Step s (record s { reader = copied_width s.width })
  copy_height :
      (w : ℕ) → s.reader ≡ copied_width w → Step s (record s { reader = copied w s.height })
  lock_shared :
      (w h : ℕ)
      → s.reader ≡ copied w h
      → is_writing s.writer ≡ false
      → Step s (record s { reader = holds w h })
  unlock_shared : (w h : ℕ) → s.reader ≡ holds w h → Step s (record s { reader = away })
  other_locks : is_writing s.writer ≡ false → Step s (record s { others = suc s.others })
  other_unlocks : (n : ℕ) → s.others ≡ suc n → Step s (record s { others = n })
  -- send_frame and receive_packet
  user_locks : is_writing s.writer ≡ false → s.user ≡ false → Step s (record s { user = true })
  user_unlocks : s.user ≡ true → Step s (record s { user = false })

pub data Reach (s : State) : State → Type 0 where
  stays : Reach s s
  steps : {t u : State} → Reach s t → Step t u → Reach s u
