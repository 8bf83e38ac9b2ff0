-- ===== src/SourceSup/Operations.antt =====
-- Histories of the supervisor: its functions and the main loop's callbacks, in any order.
pub mod Start
pub mod Names
pub mod Valid
pub mod Totals
pub mod Life
pub mod Stop
use sbs_server.Prelude.{◌≡◌, Bool, List, [], ◌∷◌, ◌++◌}
use sbs_server.Prelude.Bytes.{Bytes}
use sbs_server.Table.Laws.{Every}
use sbs_server.Table.Totals.{IsDistinct}
use sbs_server.Effects.{Effect}
use sbs_server.SourceSup.Types.{StartConfig}
use sbs_server.SourceSup.Worker.{Given}
use sbs_server.SourceSup.System.{Event}
use sbs_server.SourceSup.Invariant.{Sane, SaneEvent, IsValid}
use sbs_server.SourceSup.Supervisor.{
  Supervisor, Memory, start_source, stop_source, mute_source, unmute_source, fire,
}

pub data Op : Type 0 where
  starts : StartConfig → Bool → Memory → Given → Op
  stops mutes unmutes : Bytes → Op
  fires : Bytes → Event → Op

abbrev pub SaneOp : Op → Type 0
SaneOp (starts config slot memory w) = Sane w
SaneOp (fires id ev) = SaneEvent ev
SaneOp _ = Unit {0}

unfoldable pub apply : Supervisor → Op → Supervisor × List Effect
apply sup (starts config slot memory w) =
    let (code, sup', calls) = start_source sup config slot memory w in (sup', calls)
apply sup (stops id) = let (code, sup', calls) = stop_source sup id in (sup', calls)
apply sup (mutes id) = ((mute_source sup id).1, [])
apply sup (unmutes id) = ((unmute_source sup id).1, [])
apply sup (fires id ev) = fire sup id ev

unfoldable pub apply_all : Supervisor → List Op → Supervisor × List Effect
unfolding apply
apply_all sup [] = (sup, [])
apply_all sup (op ∷ ops) =
    let (sup', calls) = apply sup op in
    let (sup'', rest) = apply_all sup' ops in (sup'', calls ++ rest)

-- Every entry is valid and stands under its own name; no name stands twice.
pub record IsSound (sup : Supervisor) : Type 0 where
  pub distinct : IsDistinct sup.sources
  pub valid : Every (λ id s. IsValid s × (s.entry.source_id ≡ id)) sup.sources
