-- ===== src/Portal/Reachable.antt =====
-- The worlds that lie ahead of a world of the portal (api/src).
use onlineaggrement.Base.{suc, Bool, true, false}
use onlineaggrement.Database.{World}
use onlineaggrement.Service.{final}
use onlineaggrement.Service.Keeps.{Keeps}
use onlineaggrement.Workflow.States.{AgreementState, AgreementState_eq, completed, cancelled}
use onlineaggrement.Portal.{Outside, Call, perform}

-- The worlds that lie ahead: a call is served, or time passes.
pub data Ahead (o : Outside) (w : World) : World → Type 0 where
  here : Ahead o w w
  served : (c : Call) {v : World} → Ahead o w v → Ahead o w (final (perform o c v))
  passed : {v : World} → Ahead o w v → Ahead o w (record v { now = suc v.now })

abbrev pub is_final : AgreementState → Bool
is_final completed = true
is_final cancelled = true
is_final _ = false
