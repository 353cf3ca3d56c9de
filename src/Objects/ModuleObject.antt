-- ===== src/Objects/ModuleObject.antt =====
-- internal/rdb/types/module2.go: the value of a module is skipped.
pub mod Signed
pub mod Ends
use redis_agent.Common.{ℕ, zero, suc, ◌+◌, ◌==◌, if◌then◌else◌, Bytes, List, [], ◌∷◌, length}
use redis_agent.Reader.{
  Reader, ◌>>=◌, ◌>>◌, pure, raise, stuck, not_implemented, unknown_opcode, read_byte,
}
use redis_agent.Length.{read_length}
use redis_agent.Text.{read_string}
use redis_agent.Objects.{rdb_type_module}
use redis_agent.Objects.ZsetObject.{FloatOps, read_float, read_double}

abbrev pub rdb_module_opcode_eof : ℕ
rdb_module_opcode_eof = 0

abbrev pub rdb_module_opcode_sint : ℕ
rdb_module_opcode_sint = 1

abbrev pub rdb_module_opcode_uint : ℕ
rdb_module_opcode_uint = 2

abbrev pub rdb_module_opcode_float : ℕ
rdb_module_opcode_float = 3

abbrev pub rdb_module_opcode_double : ℕ
rdb_module_opcode_double = 4

abbrev pub rdb_module_opcode_string : ℕ
rdb_module_opcode_string = 5

module _ (ops : FloatOps) where
  -- The `switch opcode`. In Go an empty case does not fall through to the next one.
  unfoldable pub skip_value : ℕ → Reader (Unit {0})
  skip_value opcode s =
      if opcode == rdb_module_opcode_sint
      then pure tt s
      else if opcode == rdb_module_opcode_uint
      then (do read_length; pure tt) s
      else if opcode == rdb_module_opcode_float
      then (do read_float ops; pure tt) s
      else if opcode == rdb_module_opcode_double
      then (do read_double ops; pure tt) s
      else if opcode == rdb_module_opcode_string
      then (do read_string; pure tt) s
      else raise (unknown_opcode opcode) s

  -- `for opcode != rdbModuleOpcodeEOF`: every round reads the next opcode, so one round more than
  -- there are bytes is enough.
  unfoldable pub skip_values : ℕ → ℕ → Reader (Unit {0})
  skip_values zero opcode s = stuck
  skip_values (suc fuel) opcode s =
      let more = (do skip_value opcode; next ← read_byte; skip_values fuel next) s in
      if opcode == rdb_module_opcode_eof then pure tt s else more

  abbrev pub with_fuel : ℕ → Reader (Unit {0})
  with_fuel opcode s = skip_values (suc (length s)) opcode s

  -- The module's name only shows in a panic.
  unfoldable pub load_from_buffer : ℕ → Reader (Unit {0})
  load_from_buffer type_byte s =
      if type_byte == rdb_type_module
      then raise not_implemented s
      else (do module_id ← read_length; opcode ← read_byte; with_fuel opcode) s
