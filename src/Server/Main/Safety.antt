-- ===== src/Server/Main/Safety.antt =====
-- The server of src/yotta.cpp in the event loop of src/core: no part of it faults.
use yotta.Prelude.{ℕ, ◌^◌, ◌<◌, ◌≡◌, some, List, [], ◌∷◌}
use yotta.Core.Outcome.{done}
use yotta.Core.Reactor.{Reactor, serve_event}
use yotta.Core.Reactor.Soundness.Loop.{EventFits}
use yotta.Server.State.{UserData, Stat, IoCallback, Callback}
use yotta.Server.Handler.{Env}
use yotta.Server.Main.{Moment, http_client}

-- The files have less than 2 ^ 31 bytes.
abbrev pub SmallFiles : Env → Type 0
SmallFiles env = (fd : ℕ) (st : Stat) → env.files.fstat fd ≡ some st → st.st_size < 2 ^ 31

-- At every moment the files are small, and the kernel reports different contexts that are there, those of
-- timers with a callback.
abbrev pub MomentsMatch : Reactor UserData IoCallback Callback → List Moment → Type 0
MomentsMatch r [] = Unit
MomentsMatch r (m ∷ ms) =
    SmallFiles m.env
    × EventFits r m.event
    × ((r' : Reactor UserData IoCallback Callback)
        → serve_event (http_client m.env m.accepted) r m.event ≡ done r'
        → MomentsMatch r' ms)
