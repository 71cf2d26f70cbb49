-- ===== src/Functions/Deployments/View.antt =====
-- web/src/features/functions/DeploymentsTab.tsx: what the tab shows of the deployment that is watched
-- and of the history. The format of a date is a parameter.
use nanas.Prelude.{
  Bool, not, ◌||◌, List, [], ◌∷◌, map, take, length, Option, none, some, if◌then◌else◌, leb,
  or_else,
}
use nanas.Prelude.Text.{Text, codes, text_eq}
use nanas.Http.{truthy}
use nanas.Functions.Deployments.{Tab}

-- What the tab reads of a deployment.
pub record DeploymentRow : Type 0 where
  pub id : Text
  pub version : Text
  pub region : Text
  pub status : Text
  pub strategy : Text
  pub started_at : Text
  pub finished_at : Option Text
  pub error_message : Option Text

pub data Badge : Type 0 where
  success : Badge
  destructive : Badge
  warning : Badge
  outline : Badge
  secondary : Badge

unfoldable pub status_badge : (status : Text) → Badge
status_badge status =
    if text_eq status (codes "active")
    then success
    else if text_eq status (codes "failed")
    then destructive
    else if text_eq status (codes "deploying")
    then warning
    else if text_eq status (codes "superseded") || text_eq status (codes "rolled_back")
    then secondary
    else outline

-- The card of the deployment that is watched; `spinning` is the sign that it is still going on.
pub data LiveView : Type 0 where
  no_deployment : LiveView
  live_skeleton : LiveView
  live_nothing : LiveView
  live :
      (id : Text)
      → (status : Text) → Badge
      → (spinning : Bool) → (version strategy started : Text) → (error_message : Option Text)
      → LiveView

unfoldable pub live_view :
    (format : Text → Text) → (is_loading : Bool) → Option DeploymentRow → Tab → LiveView
unfolding status_badge
live_view format is_loading d tab =
    if not (truthy tab.active_id)
    then no_deployment
    else if is_loading
    then live_skeleton
    else elim d [
      | none ↦ live_nothing
      | some r ↦
          live r.id r.status (status_badge r.status) (text_eq r.status (codes "deploying"))
            (b'v' ∷ r.version) r.strategy (format r.started_at)
            (if truthy r.error_message then r.error_message else none)
    ]

-- The cells of a row of the history.
unfoldable pub history_row : (format : Text → Text) → DeploymentRow → List Text × Badge
unfolding status_badge
history_row format r = (
  take 8 r.id
      ∷ (b'v' ∷ r.version)
      ∷ r.status
      ∷ r.strategy
      ∷ r.region
      ∷ format r.started_at
      ∷ (if truthy r.finished_at then format (or_else r.finished_at []) else codes "—")
      ∷ [],
  status_badge r.status,
)

pub data HistoryView : Type 0 where
  history_skeleton : HistoryView
  no_deployments : HistoryView
  history : List (List Text × Badge) → HistoryView

unfoldable pub history_view :
    (format : Text → Text) → (is_loading : Bool) → Option (List DeploymentRow) → HistoryView
unfolding history_row
history_view format is_loading rows =
    if is_loading
    then history_skeleton
    else if leb 1 (length (or_else rows []))
    then history (map (history_row format) (or_else rows []))
    else no_deployments
