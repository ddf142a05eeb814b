-- ===== src/Partitions/Commands.antt =====
-- The commands that are run through pkg/exec, and the run of one: the result may depend on all
-- that was run before.
use das_boot.Prelude.{Bool, List, Result, String, [], err, if◌then◌else◌, ok, ℕ, ◌++◌, ◌∷◌}

pub data Command : Type 0 where
  sgdisk_delete : ℕ → String → Command
  sgdisk_create : ℕ → ℕ → String → String → String → Command
  partprobe : String → Command
  mkfs : String → String → Bool → String → Command

abbrev pub Trace : Type 0
Trace = List Command

-- Whether the command succeeds after those of the trace.
abbrev pub Shell : Type 0
Shell = Trace → Command → Bool

pub data Failure : Type 0 where
  not_a_partition not_a_disk invalid_uevent broken_discovery no_device_node : Failure
  onie_partition_not_found partition_exists command_failed boot_order_failed : Failure
  unsupported_mkfs filesystem_already_created : Failure

-- A command's error, if any, and the trace with the command at its end.
abbrev pub run : Shell → Command → Trace → Result Failure (Unit {0}) × Trace
run shell c t = (if shell t c then ok tt else err command_failed, t ++ c ∷ [])
