-- ===== src/HostCommand/Replay.antt =====
-- A creation that is repeated returns the command of the first one (internal/repository/command.go,
-- Create).
use alcor_device_farm.Prelude.{◌≤◌, ◌≡◌, Bool, true, ◌&&◌, String, some, List, str_eq, ◌==◌}
use alcor_device_farm.Json.{json_equal}
use alcor_device_farm.Store.Rows.{find_row, count}
use alcor_device_farm.HostCommand.Table.{
  CommandRow, CreateCommandParams, has_id, has_key, same_command_request,
}
use alcor_device_farm.HostCommand.Moves.{Identity}
use alcor_device_farm.HostCommand.Implements.{Implements}

-- no host has a key twice
abbrev pub IsUnique : List CommandRow → Type 0
IsUnique rows = (host key : String) → count (has_key host key) rows ≤ 1

-- The row is the requested one, and lookups by its id and by its key find it.
record IsRecorded (p : CreateCommandParams) (r : CommandRow) (rows : List CommandRow) : Type 0 where
  pub by_id : find_row (has_id r.id) rows ≡ some r
  pub by_key : find_row (has_key p.host_id p.idempotency_key) rows ≡ some r
  pub asked : same_command_request r p ≡ true

-- does the identity answer the request?
answers : Identity → CreateCommandParams → Bool
answers i p =
    str_eq i.host_id p.host_id
    && str_eq i.command_type p.command_type
    && i.max_attempts == p.max_attempts
    && str_eq i.idempotency_key p.idempotency_key
    && json_equal i.payload p.payload
