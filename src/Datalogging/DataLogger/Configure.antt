-- ===== src/Datalogging/DataLogger/Configure.antt =====
-- `DataLogger::configure`: which configurations are accepted.
use scrutiny_embedded.Base.{
  ℕ, Bool, true, false, not, ◌&&◌, ◌||◌, List, [], ◌∷◌, ◌+◌, ◌-◌, ◌*◌, ltb, leb, ◌==◌,
  if◌then◌else◌, take, low_bits, ◌>>>◌, none, some,
}
use scrutiny_embedded.Tools.Types.{is_supported_type, get_type_size_char}
use scrutiny_embedded.Datalogging.Configuration.{
  Operand, LoggableItem, Configuration, MainHandler, max_operands, max_signal,
}
use scrutiny_embedded.Datalogging.RawEncoder.{
  RawEncoder, encode_next_entry, reset_write_counter, get_write_cursor, get_data_write_counter,
  remaining_bytes_to_full,
}
use scrutiny_embedded.Datalogging.RawEncoder
use scrutiny_embedded.Datalogging.DataLogger.{DataLogger, State, reset}

-- The operand counts of CONDITION_CONFIG_LUT.
unfoldable pub condition_operand_count : ℕ → ℕ
condition_operand_count condition = if condition == 0 then 0 else if leb condition 7 then 2 else 3

-- `is_float_finite`: a pattern whose exponent is not all ones
unfoldable pub is_float_finite : ℕ → Bool
is_float_finite val = not (low_bits (val >>> 23) 8 == 0xFF)

module _ (main_handler : MainHandler) where
  -- `rpv_exists`
  unfoldable pub rpv_exists : ℕ → Bool
  rpv_exists id = elim (main_handler.get_rpv id) [ none ↦ false | some t ↦ true ]

  -- `BiggestUint` stands for an enumerator of one byte, so that `sizeof` of it is 1.
  unfoldable pub operand_valid : Operand → Bool
  operand_valid (Operand.literal val) = is_float_finite val
  operand_valid (Operand.rpv id) = main_handler.rpvs_configured && rpv_exists id
  operand_valid (Operand.var addr datatype) = is_supported_type datatype
  operand_valid (Operand.varbit addr datatype bitoffset bitsize) =
      not (ltb (1 * 8 - 1) bitoffset || ltb (1 * 8) bitsize)
      && is_supported_type datatype
      && not (ltb (get_type_size_char datatype * 8) (bitoffset + bitsize))
  operand_valid Operand.invalid = false

  unfoldable pub item_valid : LoggableItem → Bool
  item_valid (LoggableItem.rpv id) = main_handler.rpvs_configured && rpv_exists id
  item_valid (LoggableItem.memory address size) = true
  item_valid LoggableItem.time = true
  item_valid LoggableItem.invalid = false

  unfoldable pub operands_valid : List Operand → Bool
  operands_valid [] = true
  operands_valid (o ∷ os) = operand_valid o && operands_valid os

  unfoldable pub items_valid : List LoggableItem → Bool
  items_valid [] = true
  items_valid (i ∷ is') = item_valid i && items_valid is'

  -- The first tests of `configure`, which the operands and items are read after.
  unfoldable pub sizes_valid : Configuration → Bool
  sizes_valid c =
      let t = c.trigger in
      not (ltb max_signal c.items_count || (c.items_count == 0))
      && not (ltb max_operands t.operand_count)
      && ltb t.condition 9
      && (t.operand_count == condition_operand_count t.condition)
      && not (c.decimation == 0)

  unfoldable pub valid_configuration : Configuration → Bool
  valid_configuration c =
      let t = c.trigger in
      sizes_valid c
      && operands_valid (take t.operand_count t.operands)
      && items_valid (take c.items_count c.items_to_log)

module _ {ℓ} {Data : Type ℓ} where
  -- `reset_data` is what the condition's reset function does to its data; only the condition
  -- ChangeMoreThan, the seventh, has one. The configuration has been written before.
  unfoldable pub configure : MainHandler → (Data → Data) → DataLogger Data → ℕ → DataLogger Data
  unfolding reset
  configure main_handler reset_data d config_id =
      let t = d.config.trigger in
      let d' = reset d in
      let known = ltb t.condition 9 in
      let condition = if known then t.condition else 0 in
      let ready = record d' { config_id = config_id; active_condition = condition } in
      if valid_configuration main_handler d.config
      then record ready {
        config_valid = true;
        condition_data = if condition == 7 then reset_data d.condition_data else d.condition_data;
        encoder = RawEncoder.reset main_handler d.config d.encoder;
        state = State.configured;
      }
      else record ready { config_valid = false; state = State.error }
