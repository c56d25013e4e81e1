-- ===== src/Rpc/Unanswered.antt =====
-- The queries against the tables that the migrations make.
use open_world_model.Base.Text.{Text}
use open_world_model.World.{World}
