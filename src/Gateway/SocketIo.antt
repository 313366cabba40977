-- ===== src/Gateway/SocketIo.antt =====
-- What the gateway uses of Socket.IO: which socket has joined which topic. An envelope to a topic
-- reaches the connected sockets that have joined it. The laws are what Socket.IO documents of
-- `join`, `leave`, `socketsLeave` and of a disconnection.
use study_room_sdk.Base.{ℕ, ◌≡◌, Bool, false, not, ◌&&◌, ◌||◌, ◌==◌}
use study_room_sdk.Domain.Wire.{Topic, room_topic, user_topic, app_topic}

abbrev pub same_topic : Topic → Topic → Bool
same_topic (room_topic a r) (room_topic b s) = a == b && r == s
same_topic (user_topic a u) (user_topic b v) = a == b && u == v
same_topic (app_topic a) (app_topic b) = a == b
same_topic _ _ = false

pub record Adapter : Type 1 where
  pub State : Type 0
  pub join : ℕ → Topic → State → State
  pub leave : ℕ → Topic → State → State
  pub sockets_leave : Topic → Topic → State → State
  pub leave_all : ℕ → State → State
  pub is_in : ℕ → Topic → State → Bool
  pub is_in-join :
      (i j : ℕ) (t u : Topic) (s : State)
      → is_in i t (join j u s) ≡ (i == j && same_topic t u || is_in i t s)
  pub is_in-leave :
      (i j : ℕ) (t u : Topic) (s : State)
      → is_in i t (leave j u s) ≡ (not (i == j && same_topic t u) && is_in i t s)
  pub is_in-sockets_leave :
      (i : ℕ) (t u of : Topic) (s : State)
      → is_in i t (sockets_leave of u s) ≡ (not (same_topic t u && is_in i of s) && is_in i t s)
  pub is_in-leave_all :
      (i j : ℕ) (t : Topic) (s : State) → is_in i t (leave_all j s) ≡ (not (i == j) && is_in i t s)
