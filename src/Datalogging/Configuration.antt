-- ===== src/Datalogging/Configuration.antt =====
-- The configuration of the datalogger: lib/inc/datalogging/scrutiny_datalogging_types.hpp.
use scrutiny_embedded.Base.{ℕ, Bool, List, Option}

-- MAX_OPERANDS, and SCRUTINY_DATALOGGING_MAX_SIGNAL in the default build.
abbrev pub max_operands : ℕ
max_operands = 3

abbrev pub max_signal : ℕ
max_signal = 16

-- A literal is the pattern of its 32 bits. `invalid` stands for a type that is none of the others.
pub data Operand : Type 0 where
  literal : (val : ℕ) → Operand
  var : (addr datatype : ℕ) → Operand
  varbit : (addr datatype bitoffset bitsize : ℕ) → Operand
  rpv : (id : ℕ) → Operand
  invalid : Operand

pub data LoggableItem : Type 0 where
  memory : (address size : ℕ) → LoggableItem
  rpv : (id : ℕ) → LoggableItem
  time : LoggableItem
  invalid : LoggableItem

pub record TriggerConfig : Type 0 where
  pub operands : List Operand
  pub hold_time_100ns : ℕ
  pub operand_count : ℕ
  pub condition : ℕ

pub record Configuration : Type 0 where
  pub items_to_log : List LoggableItem
  pub trigger : TriggerConfig
  pub timeout_100ns : ℕ
  pub decimation : ℕ
  pub items_count : ℕ
  pub probe_location : ℕ

-- What the datalogger asks of the main handler, at one time: the bytes at an address, where they may
-- be read; the type of a published value, where there is one; and its value, where its callback
-- gives one.
pub record MainHandler : Type 0 where
  pub read_memory : ℕ → ℕ → Option (List ℕ)
  pub get_rpv : ℕ → Option ℕ
  pub read_rpv : ℕ → Option ℕ
  pub rpvs_configured : Bool
