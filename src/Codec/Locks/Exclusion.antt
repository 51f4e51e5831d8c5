-- ===== src/Codec/Locks/Exclusion.antt =====
-- What the two mutexes of the encoder keep apart, and what they do not.
use ngp_encode_server.Base.{ℕ, ◌≡◌, refl, ◌⊎◌, inl, inr, none, some, true, false, arith}
use ngp_encode_server.Codec.Locks.{
  no_writer, holds, State, init, is_holding, is_writing, Step, Reach, stays, steps, change_locks,
  change_width, change_height, change_reopens, change_throws, copy_width, copy_height, lock_shared,
  unlock_shared, other_locks, other_unlocks, user_locks, user_unlocks,
}

pub record IsExclusive (s : State) : Type 0 where
  pub no_reader : is_writing s.writer ≡ true → is_holding s.reader ≡ false
  pub no_other : is_writing s.writer ≡ true → s.others ≡ 0
  pub no_user : is_writing s.writer ≡ true → s.user ≡ false
  pub agrees : is_writing s.writer ≡ false → (s.coder ≡ none) ⊎ (s.coder ≡ some (s.width, s.height))

init-IsExclusive : (w h : ℕ) → IsExclusive (init w h)
init-IsExclusive w h = record {
  no_reader = λ e. refl;
  no_other = λ e. refl;
  no_user = λ e. refl;
  agrees = λ e. inr refl;
}

step-IsExclusive : {s t : State} → Step s t → IsExclusive s → IsExclusive t
step-IsExclusive {s} (change_locks w h idle free alone unused) v = record {
  no_reader = λ e. free;
  no_other = λ e. alone;
  no_user = λ e. unused;
  agrees = λ e. ground arith;
}
step-IsExclusive {s} (change_width w h e) v =
    let writing : is_writing s.writer ≡ true = rw e refl in
    record {
      no_reader = λ _. v.no_reader writing;
      no_other = λ _. v.no_other writing;
      no_user = λ _. v.no_user writing;
      agrees = λ e. ground arith;
    }
step-IsExclusive {s} (change_height w h e) v =
    let writing : is_writing s.writer ≡ true = rw e refl in
    record {
      no_reader = λ _. v.no_reader writing;
      no_other = λ _. v.no_other writing;
      no_user = λ _. v.no_user writing;
      agrees = λ e. ground arith;
    }
step-IsExclusive {s} (change_reopens w h e) v = record {
  no_reader = λ e. ground arith;
  no_other = λ e. ground arith;
  no_user = λ e. ground arith;
  agrees = λ _. inr refl;
}
step-IsExclusive {s} (change_throws w h e) v = record {
  no_reader = λ e. ground arith;
  no_other = λ e. ground arith;
  no_user = λ e. ground arith;
  agrees = λ _. inl refl;
}
step-IsExclusive {s} (copy_width e) v = record {
  no_reader = λ _. refl;
  no_other = v.no_other;
  no_user = v.no_user;
  agrees = v.agrees;
}
step-IsExclusive {s} (copy_height w e) v = record {
  no_reader = λ _. refl;
  no_other = v.no_other;
  no_user = v.no_user;
  agrees = v.agrees;
}
step-IsExclusive {s} (lock_shared w h e idle) v = record {
  no_reader = λ on. ground arith;
  no_other = v.no_other;
  no_user = v.no_user;
  agrees = v.agrees;
}
step-IsExclusive {s} (unlock_shared w h e) v = record {
  no_reader = λ _. refl;
  no_other = v.no_other;
  no_user = v.no_user;
  agrees = v.agrees;
}
step-IsExclusive {s} (other_locks idle) v = record {
  no_reader = v.no_reader;
  no_other = λ on. ground arith;
  no_user = v.no_user;
  agrees = v.agrees;
}
step-IsExclusive {s} (other_unlocks n e) v = record {
  no_reader = v.no_reader;
  no_other = λ on. let none_left = v.no_other on in ground arith;
  no_user = v.no_user;
  agrees = v.agrees;
}
step-IsExclusive {s} (user_locks idle e) v = record {
  no_reader = v.no_reader;
  no_other = v.no_other;
  no_user = λ on. ground arith;
  agrees = v.agrees;
}
step-IsExclusive {s} (user_unlocks e) v = record {
  no_reader = v.no_reader;
  no_other = v.no_other;
  no_user = λ _. refl;
  agrees = v.agrees;
}

-- In every state that the threads can reach, the encoder is reopened only while no thread holds its
-- settings and none is in send_frame or receive_packet; and whenever no change is under way, the
-- encoder is open with the size in the settings or, after an exception, not open.
pub reach-IsExclusive : (w h : ℕ) {s : State} → Reach (init w h) s → IsExclusive s
reach-IsExclusive w h stays = init-IsExclusive w h
reach-IsExclusive w h (steps r st) = step-IsExclusive st (reach-IsExclusive w h r)

-- But the settings that a reader gets are copied before its lock is taken. Whatever the size was and
-- whatever it is changed to, a reader may come to hold the lock, with no change under way and the
-- encoder open at the new size, while its copy has the old width and the new height.
pub provider_torn :
    (w h w' h' : ℕ)
    → Reach (init w h) (record {
      width = w';
      height = h';
      coder = some (w', h');
      writer = no_writer;
      reader = holds w h';
      others = 0;
      user = false;
    })
provider_torn w h w' h' =
    steps
      (steps
        (steps
          (steps
            (steps (steps (steps stays (copy_width refl)) (change_locks w' h' refl refl refl refl))
              (change_width w' h' refl))
            (change_height w' h' refl))
          (change_reopens w' h' refl))
        (copy_height w refl))
      (lock_shared w h' refl refl)
