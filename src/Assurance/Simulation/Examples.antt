-- ===== src/Assurance/Simulation/Examples.antt =====
-- A lower limit, simulated on a promoted Run that changed more files.
use agent_airlock.Prelude.{Option, some, [], false}
use agent_airlock.Assurance.Simulation.{Transaction, promoted}

abbrev promoted_run : Option Transaction
promoted_run = some (record {
  disposition = some promoted;
  changes =
      some
        (record { files = []; total_changed_files = 9; total_added_bytes = 40; truncated = false });
  validation_commands = [];
  validations = [];
})
