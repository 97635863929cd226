-- ===== src/Datalogging/RawEncoder.antt =====
-- `RawFormatEncoder` of lib/src/datalogging/scrutiny_datalogger_raw_encoder.cpp: a circular buffer of
-- entries of one size. `buffer_size_t` has 32 bits, as in the default build.
pub mod Indexes
use scrutiny_embedded.Base.{
  ℕ, zero, suc, Bool, true, false, not, ◌&&◌, ◌||◌, List, [], ◌∷◌, ◌+◌, ◌-◌, ◌*◌, ◌/◌, ◌%◌, ◌^◌,
  ltb, leb, ◌==◌, if◌then◌else◌, length, take, u16, u32, sub32, Option, none, some,
}
use scrutiny_embedded.Timebase.{Timebase, get_timestamp}
use scrutiny_embedded.Codecs.{encode_32_bits_big_endian_8bits}
use scrutiny_embedded.Codecs.AnyType.{encode_anytype_big_endian_char}
use scrutiny_embedded.Tools.Types.{get_type_size_char}
use scrutiny_embedded.Comm.Receive.{write_at}
use scrutiny_embedded.Datalogging.Configuration.{LoggableItem, Configuration, MainHandler}

-- `has_buffer` is that `m_buffer` is not null. The configuration and the main handler are arguments.
pub record RawEncoder : Type 0 where
  pub has_buffer : Bool
  pub buffer : List ℕ
  pub buffer_size : ℕ
  pub max_entries : ℕ
  pub next_entry_write_index : ℕ
  pub first_valid_entry_index : ℕ
  pub entry_write_counter : ℕ
  pub entry_size : ℕ
  pub full : Bool
  pub error : Bool

unfoldable pub reset_write_counter : RawEncoder → RawEncoder
reset_write_counter e = record e { entry_write_counter = 0 }

unfoldable pub get_read_cursor : RawEncoder → ℕ
get_read_cursor e = u32 (e.first_valid_entry_index * e.entry_size)

unfoldable pub get_write_cursor : RawEncoder → ℕ
get_write_cursor e = u32 (e.next_entry_write_index * e.entry_size)

unfoldable pub get_data_write_counter : RawEncoder → ℕ
get_data_write_counter e = u32 (e.entry_write_counter * e.entry_size)

unfoldable pub get_entry_count : RawEncoder → ℕ
get_entry_count e = if e.full then e.max_entries else e.next_entry_write_index

unfoldable pub get_buffer_effective_size : RawEncoder → ℕ
get_buffer_effective_size e = u32 (e.entry_size * e.max_entries)

unfoldable pub remaining_bytes_to_full : RawEncoder → ℕ
unfolding get_buffer_effective_size get_write_cursor
remaining_bytes_to_full e =
    if e.full then 0 else sub32 (get_buffer_effective_size e) (get_write_cursor e)

module _ (main_handler : MainHandler) (timebase : Timebase) where
  -- One item, at a cursor: the buffer, and the cursor behind the item. A value that is not read is 0.
  unfoldable pub write_item : List ℕ × ℕ → LoggableItem → List ℕ × ℕ
  write_item (buffer, cursor) (LoggableItem.memory address size) = (
    elim (main_handler.read_memory address size) [
      | none ↦ buffer
      | some bytes ↦ write_at buffer cursor bytes
    ],
    u32 (cursor + size),
  )
  write_item (buffer, cursor) (LoggableItem.rpv id) =
      let type : ℕ = elim (main_handler.get_rpv id) [ none ↦ 0 | some t ↦ t ] in
      let outval : ℕ = elim (main_handler.read_rpv id) [ none ↦ 0 | some v ↦ v ] in
      let bytes = encode_anytype_big_endian_char outval type in
      (write_at buffer cursor bytes, u32 (cursor + length bytes))
  write_item (buffer, cursor) LoggableItem.time = (
    write_at buffer cursor (encode_32_bits_big_endian_8bits (get_timestamp timebase)),
    u32 (cursor + 4),
  )
  write_item (buffer, cursor) LoggableItem.invalid = (buffer, cursor)

  unfoldable pub write_items : List ℕ × ℕ → List LoggableItem → List ℕ × ℕ
  write_items at [] = at
  write_items at (item ∷ items) = write_items (write_item at item) items

  -- The oldest entry gives way where the buffer is full.
  unfoldable pub make_room : RawEncoder → RawEncoder
  make_room e =
      let next = u32 (e.first_valid_entry_index + 1) in
      if (e.next_entry_write_index == e.first_valid_entry_index) && e.full
      then record e { first_valid_entry_index = if leb e.max_entries next then 0 else next }
      else e

  unfoldable pub advance : RawEncoder → RawEncoder
  advance e =
      let next = u32 (e.next_entry_write_index + 1) in
      let wraps = leb e.max_entries next in
      record e {
        next_entry_write_index = if wraps then 0 else next;
        full = if wraps then true else e.full;
        entry_write_counter = u32 (e.entry_write_counter + 1);
      }

  unfoldable pub encode_next_entry : Configuration → RawEncoder → RawEncoder
  unfolding make_room advance get_write_cursor
  encode_next_entry config e =
      let roomy = make_room e in
      let cursor = get_write_cursor roomy in
      let written =
        write_items (roomy.buffer, cursor) (take config.items_count config.items_to_log) in
      if e.error then e else advance (record roomy { buffer = written.0 })

module _ (main_handler : MainHandler) where
  -- The size of an item in chars, and whether it has none because its published value is missing.
  unfoldable pub item_size : LoggableItem → Option ℕ
  item_size (LoggableItem.memory address size) = some size
  item_size (LoggableItem.rpv id) = elim (main_handler.get_rpv id) [
    | none ↦ none
    | some t ↦ some (get_type_size_char t)
  ]
  item_size LoggableItem.time = some 4
  item_size LoggableItem.invalid = some 0

  -- The loop of `reset`: the entry's size, and the error flag. It stops at the first error.
  unfoldable pub sum_sizes : List LoggableItem → ℕ × Bool → ℕ × Bool
  sum_sizes [] (size, error) = (size, error)
  sum_sizes (item ∷ items) (size, error) =
      let size_of : ℕ = elim (item_size item) [ none ↦ 0 | some n ↦ n ] in
      let missing : Bool = elim (item_size item) [ none ↦ true | some n ↦ n == 0 ] in
      let next = sum_sizes items (u16 (size + size_of), missing) in
      if error then (size, error) else if missing then (size, true) else next

  unfoldable pub reset : Configuration → RawEncoder → RawEncoder
  reset config e =
      let no_room = not e.has_buffer || (e.buffer_size == 0) in
      let sized = sum_sizes (take config.items_count config.items_to_log) (0, no_room) in
      let max_entries = if ltb 0 sized.0 then e.buffer_size / sized.0 else 0 in
      record e {
        entry_write_counter = 0;
        next_entry_write_index = 0;
        first_valid_entry_index = 0;
        full = false;
        entry_size = sized.0;
        max_entries = max_entries;
        error = sized.1 || not (ltb 0 sized.0) || (max_entries == 0);
      }

  unfoldable pub init : Configuration → RawEncoder → Bool → List ℕ → ℕ → RawEncoder
  init config e has_buffer buffer buffer_size =
      reset config
        (record e { has_buffer = has_buffer; buffer = buffer; buffer_size = buffer_size })
