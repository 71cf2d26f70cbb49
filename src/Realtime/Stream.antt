-- ===== src/Realtime/Stream.antt =====
-- web/src/features/realtime/RealtimeStreamPage.tsx: the page of the two hooks. The tab of channels
-- is in Stream/Selection, that of queries in Stream/Subscription. A change of state and the effect
-- that it sets off are one step.
pub mod Selection
pub mod Subscription
mod Tests
use nanas.Prelude.{Bool, ◌||◌, if◌then◌else◌}
use nanas.Prelude.Text.{Text, codes, text_eq}

pub data Variant : Type 0 where
  success destructive warning info outline : Variant

-- `StatusPill`
unfoldable status_pill : (status : Text) → Variant
status_pill status =
    if text_eq status (codes "open")
    then success
    else if text_eq status (codes "closed") || text_eq status (codes "error")
    then destructive
    else if text_eq status (codes "reconnecting")
    then warning
    else outline

-- `typeBadge`
unfoldable type_badge : (t : Text) → Variant
type_badge t =
    if text_eq t (codes "insert")
    then success
    else if text_eq t (codes "update")
    then info
    else if text_eq t (codes "delete")
    then destructive
    else outline
