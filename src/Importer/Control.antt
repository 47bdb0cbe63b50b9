-- ===== src/Importer/Control.antt =====
-- Starting and stopping imports: New, NewSession and Importer.Stop of
-- internal/subimporter/importer.go, and the receive in LoadCSV's select.
pub mod Stopping
use listnun.Prelude.{Bool, true, false, Option, none, some, List, [], ◌∷◌, Text, if◌then◌else◌}
use listnun.Importer.Status.{Phase, idle, importing, stopping, Status, fresh, set_status, is_done}
use listnun.Importer.Types.{SessionOpt}

-- The status, and whether a request waits in the stop channel, which holds one.
pub record Importer : Type 0 where
  pub status : Status
  pub stop : Bool

-- New
unfoldable pub new : Importer
unfolding fresh
new = record { status = fresh idle [] none; stop = false }

-- The old `overwrite` field sets both new ones.
unfoldable pub normalize : SessionOpt → SessionOpt
normalize opt =
    if opt.overwrite
    then record opt { overwrite_user_info = true; overwrite_sub_status = true }
    else opt

-- NewSession; `none` is its error.
unfoldable pub new_session : SessionOpt → Importer → Option (Importer × SessionOpt)
unfolding fresh normalize is_done
new_session opt im =
    if is_done im.status
    then some (record im { status = fresh importing opt.filename (some opt.mode) }, normalize opt)
    else none

abbrev pub is_importing : Phase → Bool
is_importing importing = true
is_importing _ = false

-- Importer.Stop: a non-blocking send on the channel.
unfoldable pub stop_import : Importer → Importer
unfolding fresh set_status
stop_import im =
    if is_importing im.status.status
    then (if im.stop then im else record { status = set_status stopping im.status; stop = true })
    else record im { status = fresh idle [] none }

-- The calls that change an importer: of the handlers, of LoadCSV when it takes a stop request, and
-- of Start and LoadCSV when they end a session in a phase.
pub data Call : Type 0 where
  starts : SessionOpt → Call
  stops : Call
  takes_stop : Call
  ends : Phase → Call

unfoldable pub step : Call → Importer → Importer
unfolding new_session stop_import set_status
step (starts opt) im = elim (new_session opt im) [ none ↦ im | some (im', opt') ↦ im' ]
step stops im = stop_import im
step takes_stop im = record im { stop = false }
step (ends phase) im = record im { status = set_status phase im.status }

unfoldable pub run : List Call → Importer → Importer
unfolding step
run [] im = im
run (c ∷ cs) im = run cs (step c im)
