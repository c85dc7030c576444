-- ===== src/EventLoop/Asked/Rounds.antt =====
-- A request of the user, through the entry point, the channel and a round of the event loop.
use beta.Base.{nat_equal}
use beta.Base.Map
use beta.Command.{Command}
use beta.Engine.{Engine}
