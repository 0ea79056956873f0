-- ===== src/Working/Completing.antt =====
-- The logs of an attempt after the report of its worker.
use ci_system.Prelude.{◌≡◌, Text, some}
use ci_system.Models.{JobAttempt}
use ci_system.Pipeline.{Pipeline}
use ci_system.Runtime.{Runtime, get}
use ci_system.World.{World}
use ci_system.Agent.Docker.{Docker}
use ci_system.Agent.Network.{Network, Client}

module _ ⦃rt : Runtime⦄ where
  -- The attempt has these logs.
  pub record HasLogs (w : World) (k logs : Text) : Type 0 where
    pub row : JobAttempt
    pub stored : get w.attempts k ≡ some row
    pub written : row.logs ≡ logs
