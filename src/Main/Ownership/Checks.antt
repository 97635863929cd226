-- ===== src/Main/Ownership/Checks.antt =====
-- The checks of a configuration that is decoded, in `MainHandler::process_datalog_control`: the loop, and
-- what its operands and its items read.
use scrutiny_embedded.Base.{
  ℕ, Bool, true, false, not, ◌&&◌, ◌||◌, List, [], ◌∷◌, leb, take, if◌then◌else◌, Option, none,
  some,
}
use scrutiny_embedded.Protocol.ResponseCode.{ResponseCode, is_ok}
use scrutiny_embedded.Tools.Types.{get_type_size_char}
use scrutiny_embedded.Datalogging.Configuration.{Operand, LoggableItem, Configuration}
use scrutiny_embedded.Main.{get_rpv, touches_forbidden_region}
use scrutiny_embedded.Main.Config.{Config}
use scrutiny_embedded.Main.Ownership.{Loops}

abbrev pub is_some {ℓ} : {A : Type ℓ} → Option A → Bool
is_some none = false
is_some (some a) = true

abbrev pub is_empty {ℓ} : {A : Type ℓ} → List A → Bool
is_empty [] = true
is_empty (x ∷ xs) = false

-- The array is set where it is not empty.
abbrev pub is_read_published_values_configured : Config → Bool
is_read_published_values_configured config =
    is_some config.rpv_read_callback && not (is_empty config.rpvs)

module _ (config : Config) where
  unfoldable pub check_memory : ℕ → ℕ → ResponseCode
  check_memory addr size =
      if touches_forbidden_region config.is_forbidden_address_range_set config.forbidden_ranges addr
        size
      then ResponseCode.forbidden
      else ResponseCode.ok

  unfoldable pub check_rpv : ℕ → ResponseCode
  check_rpv id =
      if not (is_read_published_values_configured config) || not (is_some (get_rpv config.rpvs id))
      then ResponseCode.failure_to_proceed
      else ResponseCode.ok

  unfoldable pub check_operand : Operand → ResponseCode
  check_operand (Operand.var addr datatype) = check_memory addr (get_type_size_char datatype)
  check_operand (Operand.varbit addr datatype bitoffset bitsize) =
      check_memory addr (get_type_size_char datatype)
  check_operand (Operand.rpv id) = check_rpv id
  check_operand (Operand.literal val) = ResponseCode.ok
  check_operand Operand.invalid = ResponseCode.ok

  unfoldable pub check_item : LoggableItem → ResponseCode
  check_item (LoggableItem.memory address size) = check_memory address size
  check_item (LoggableItem.rpv id) = check_rpv id
  check_item LoggableItem.time = ResponseCode.ok
  check_item LoggableItem.invalid = ResponseCode.ok

  -- The loop over the operands: the first that is refused ends it.
  unfoldable pub check_operands : ResponseCode → List Operand → ResponseCode
  check_operands code [] = code
  check_operands code (o ∷ os) =
      let rest = check_operands code os in if is_ok (check_operand o) then rest else check_operand o

  -- The loop over the items: it writes over the code where it refuses one.
  unfoldable pub check_items : ResponseCode → List LoggableItem → ResponseCode
  check_items code [] = code
  check_items code (i ∷ is) =
      let rest = check_items code is in if is_ok (check_item i) then rest else check_item i

  unfoldable pub check_request : Loops → Configuration → ℕ → ResponseCode
  check_request loops configuration loop_id =
      let t = configuration.trigger in
      let loop = loops loop_id in
      let operands = check_operands ResponseCode.ok (take t.operand_count t.operands) in
      if leb config.loop_count loop_id
      then ResponseCode.failure_to_proceed
      else if not loop.support_datalogging
      then ResponseCode.forbidden
      else check_items operands (take configuration.items_count configuration.items_to_log)
