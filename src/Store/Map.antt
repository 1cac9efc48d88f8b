-- ===== src/Store/Map.antt =====
-- What a checkpoint store promises: a map from connectors to their checkpoints.
use rustium.Common.{Option, none, some, Str, str_eq, if◌then◌else◌}
use rustium.Core.Event.{Checkpoint}

abbrev pub Checkpoints : Type 0
Checkpoints = Str → Option Checkpoint

pub data Change : Type 0 where
  saved : Checkpoint → Change
  deleted : Str → Change

abbrev pub put : Checkpoint → Checkpoints → Checkpoints
put c m name = if str_eq c.connector_name name then some c else m name

abbrev pub drop : Str → Checkpoints → Checkpoints
drop gone m name = if str_eq gone name then none else m name

abbrev pub change : Change → Checkpoints → Checkpoints
change (saved c) = put c
change (deleted name) = drop name
