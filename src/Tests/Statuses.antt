-- ===== src/Tests/Statuses.antt =====
-- An example for the status of a machine.
use styrn.Common.{◌≡◌, ◌↔◌, Bool, true, false, some, String, str_eq, ok}
use styrn.Manifest.Defs.{Uuid}
use styrn.Resources.{MachineStatus, validate_for_client, IsAcceptable, accepted_status_iff}

abbrev is_rfc3339 : String → Bool
is_rfc3339 time = str_eq time "2026-01-02T03:04:05Z"

abbrev is_secret : String → Bool
is_secret value = false

abbrev machine_id : Uuid
machine_id = record {
  version = 7;
  is_rfc4122 = true;
  hyphenated = "018f0d3e-7e3a-7000-8000-000000000001";
}

-- A load of 12.5 percent, and a substrate in use.
abbrev status : MachineStatus
status = record {
  machine_id = machine_id;
  time = "2026-01-02T03:04:05Z";
  cpu = record { logical = 8; load_percent = 1095237632 };
  memory = record { total_bytes = 1024; available_bytes = 512 };
  disk = record { root = "/home/a"; free_bytes = 4096 };
  jobs = record { running = 2; heavy_running = 1 };
  substrate = record { kind = some "herdr"; state = "active"; session = some "main" };
}

accepted_status_iff_example :
    (validate_for_client is_rfc3339 is_secret status machine_id ≡ ok tt)
    ↔ IsAcceptable is_rfc3339 is_secret status machine_id
accepted_status_iff_example = accepted_status_iff is_rfc3339 is_secret status machine_id
