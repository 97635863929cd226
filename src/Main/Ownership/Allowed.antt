-- ===== src/Main/Ownership/Allowed.antt =====
-- What the datalogger reads by a configuration that `request_configure` accepts.
use scrutiny_embedded.Base.{ℕ, true, List, [], ◌∷◌, ◌^◌, ◌<◌, ◌≡◌, ◌⊎◌, inl, inr, arith, take}
use scrutiny_embedded.Protocol.ResponseCode.{ResponseCode, is_ok}
use scrutiny_embedded.Tools.Types.{get_type_size_char, get_type_size_8bits}
use scrutiny_embedded.Datalogging.Configuration.{Operand, LoggableItem, Configuration, MainHandler}
use scrutiny_embedded.LoopHandler.{Shared}
use scrutiny_embedded.Main.Config.{Config}
use scrutiny_embedded.Main.Regions.{IsBelowTop, InBlock, touches_region-misses}
use scrutiny_embedded.Main.Memory.Reading.{IsForbidden}
use scrutiny_embedded.Main.Ownership.{Datalogging, Loops}
use scrutiny_embedded.Main.Ownership.Checks.{
  check_memory, check_operand, check_item, check_operands, check_items, check_request,
}
use scrutiny_embedded.Main.Ownership.Requests.{request_configure, finish_configure}

get_type_size_char-lt : (datatype : ℕ) → get_type_size_char datatype < 2 ^ 16
unfolding get_type_size_char get_type_size_8bits
get_type_size_char-lt datatype = ground arith

-- The addresses that an operand or an item makes the datalogger read.
unfoldable pub OperandReads : Operand → ℕ → Type 0
OperandReads (Operand.var addr datatype) a = InBlock a addr (get_type_size_char datatype)
OperandReads (Operand.varbit addr datatype bitoffset bitsize) a =
    InBlock a addr (get_type_size_char datatype)
OperandReads _ a = ⊥

unfoldable pub ItemReads : LoggableItem → ℕ → Type 0
ItemReads (LoggableItem.memory address size) a = InBlock a address size
ItemReads _ a = ⊥

-- One of the operands, or of the items, reads the address.
unfoldable pub OperandsRead : List Operand → ℕ → Type 0
OperandsRead [] a = ⊥
OperandsRead (o ∷ os) a = OperandReads o a ⊎ OperandsRead os a

unfoldable pub ItemsRead : List LoggableItem → ℕ → Type 0
ItemsRead [] a = ⊥
ItemsRead (i ∷ is) a = ItemReads i a ⊎ ItemsRead is a

-- The sizes have 16 bits; the decoder reads eight.
unfoldable pub HaveSmallSizes : List LoggableItem → Type 0
HaveSmallSizes [] = Unit {0}
HaveSmallSizes (LoggableItem.memory address size ∷ is) = (size < 2 ^ 16) × HaveSmallSizes is
HaveSmallSizes (i ∷ is) = HaveSmallSizes is

module _ (config : Config) (a : ℕ) (top : IsBelowTop config.forbidden_ranges)
    (forbidden : IsForbidden config a) where
  check_memory_misses :
      (addr size : ℕ)
      → size < 2 ^ 16
      → is_ok (check_memory config addr size) ≡ true
      → InBlock a addr size
      → ⊥
  unfolding check_memory
  check_memory_misses addr size small accepted = λ block.
      touches_region-misses config.is_forbidden_address_range_set config.forbidden_ranges addr size
        a top small (ground (arith, accepted)) block forbidden.is_set forbidden.covered

  check_operand_misses :
      (o : Operand) → is_ok (check_operand config o) ≡ true → OperandReads o a → ⊥
  unfolding check_operand OperandReads
  check_operand_misses (Operand.var addr datatype) accepted r =
      check_memory_misses addr (get_type_size_char datatype) (get_type_size_char-lt datatype)
        accepted r
  check_operand_misses (Operand.varbit addr datatype bitoffset bitsize) accepted r =
      check_memory_misses addr (get_type_size_char datatype) (get_type_size_char-lt datatype)
        accepted r
  check_operand_misses (Operand.rpv id) accepted r = r
  check_operand_misses (Operand.literal val) accepted r = r
  check_operand_misses Operand.invalid accepted r = r

  check_operands_misses :
      (os : List Operand)
      → is_ok (check_operands config ResponseCode.ok os) ≡ true
      → OperandsRead os a
      → ⊥
  unfolding check_operands OperandsRead
  check_operands_misses [] accepted r = r
  check_operands_misses (o ∷ os) accepted (inl r) =
      check_operand_misses o (ground (arith, accepted)) r
  check_operands_misses (o ∷ os) accepted (inr r) =
      check_operands_misses os (ground (arith, accepted)) r

  check_items_code :
      (code : ResponseCode) (is : List LoggableItem)
      → is_ok (check_items config code is) ≡ true
      → is_ok code ≡ true
  unfolding check_items
  check_items_code code [] accepted = accepted
  check_items_code code (i ∷ is) accepted = check_items_code code is (ground (arith, accepted))

  check_items_misses :
      (code : ResponseCode) (is : List LoggableItem)
      → HaveSmallSizes is
      → is_ok (check_items config code is) ≡ true
      → ItemsRead is a
      → ⊥
  unfolding check_items check_item ItemsRead ItemReads HaveSmallSizes
  check_items_misses code [] small accepted r = r
  check_items_misses code (LoggableItem.memory address size ∷ is) small accepted (inl r) =
      check_memory_misses address size small.0 (ground (arith, accepted)) r
  check_items_misses code (LoggableItem.memory address size ∷ is) small accepted (inr r) =
      check_items_misses code is small.1 (ground (arith, accepted)) r
  check_items_misses code (LoggableItem.rpv id ∷ is) small accepted (inl r) = r
  check_items_misses code (LoggableItem.rpv id ∷ is) small accepted (inr r) =
      check_items_misses code is small (ground (arith, accepted)) r
  check_items_misses code (LoggableItem.time ∷ is) small accepted (inl r) = r
  check_items_misses code (LoggableItem.time ∷ is) small accepted (inr r) =
      check_items_misses code is small (ground (arith, accepted)) r
  check_items_misses code (LoggableItem.invalid ∷ is) small accepted (inl r) = r
  check_items_misses code (LoggableItem.invalid ∷ is) small accepted (inr r) =
      check_items_misses code is small (ground (arith, accepted)) r

-- Where a request to configure the datalogger is answered with OK, no operand of its trigger and no item
-- that is logged reads a forbidden address, where the forbidden regions end 2^16 bytes before the end
-- of the address space and the items' sizes have 16 bits.
pub request_configure_lem :
    {Data : Type 0} (config : Config) (loops : Loops) (main_handler : MainHandler)
    (reset_data : Data → Data) (code : ResponseCode) (c : Configuration) (loop_id config_id : ℕ)
    (m : Datalogging) (s : Shared Data) (a : ℕ)
    → IsBelowTop config.forbidden_ranges
    → IsForbidden config a
    → HaveSmallSizes (take c.items_count c.items_to_log)
    → (request_configure config loops main_handler reset_data (code, c, loop_id, config_id) m s).2
      ≡ ResponseCode.ok
    → (OperandsRead (take (c.trigger).operand_count (c.trigger).operands) a → ⊥)
      × (ItemsRead (take c.items_count c.items_to_log) a → ⊥)
unfolding request_configure finish_configure check_request
request_configure_lem config loops main_handler reset_data code c loop_id config_id m s a top
      forbidden small answered =
    let t = c.trigger in
    let operands = take t.operand_count t.operands in
    let items = take c.items_count c.items_to_log in
    let accepted : is_ok (check_items config (check_operands config ResponseCode.ok operands) items)
        ≡ true =
      ground (arith, answered) in
    (
      check_operands_misses config a top forbidden operands (
          check_items_code config a top forbidden (check_operands config ResponseCode.ok operands)
            items accepted),
      check_items_misses config a top forbidden (check_operands config ResponseCode.ok operands)
          items small accepted,
    )
