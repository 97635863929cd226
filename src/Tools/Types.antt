-- ===== src/Tools/Types.antt =====
-- The variable types: lib/inc/scrutiny_tools.hpp, lib/src/scrutiny_tools.cpp and the enumerations of
-- lib/inc/scrutiny_c_compatible_types.h. A type is its number, kind in the high half of a byte and
-- size in the low one. A native `bool` has 8 bits.
pub mod Sizes
mod Tests
use scrutiny_embedded.Base.{
  ℕ, Bool, true, false, not, ◌&&◌, ◌||◌, ◌*◌, ◌/◌, ◌%◌, ◌^◌, ltb, leb, ◌==◌, if◌then◌else◌, bit_or,
  u8, ◌<<<◌, low_bits,
}

-- VariableTypeType
abbrev pub type_sint : ℕ
type_sint = 0x00

abbrev pub type_uint : ℕ
type_uint = 0x10

abbrev pub type_float : ℕ
type_float = 0x20

abbrev pub type_boolean : ℕ
type_boolean = 0x30

abbrev pub type_cfloat : ℕ
type_cfloat = 0x40

abbrev pub type_undef : ℕ
type_undef = 0xF0

-- VariableTypeSize
abbrev pub size_8 : ℕ
size_8 = 0

abbrev pub size_16 : ℕ
size_16 = 1

abbrev pub size_32 : ℕ
size_32 = 2

abbrev pub size_64 : ℕ
size_64 = 3

abbrev pub size_128 : ℕ
size_128 = 4

abbrev pub size_256 : ℕ
size_256 = 5

abbrev pub size_undef : ℕ
size_undef = 0xF

-- VariableType
abbrev pub boolean : ℕ
boolean = 0x3F

abbrev pub unknown : ℕ
unknown = 0xFF

unfoldable pub get_required_type_size_8bits : ℕ → ℕ
get_required_type_size_8bits size =
    if leb size 1
    then size_8
    else if leb size 2
    then size_16
    else if leb size 4
    then size_32
    else if leb size 8
    then size_64
    else if leb size 16
    then size_128
    else if leb size 32
    then size_256
    else size_undef

-- A char has 8 bits.
unfoldable pub get_required_type_size_char : ℕ → ℕ
get_required_type_size_char size =
    if leb size 1
    then size_8
    else if leb size 2
    then size_16
    else if leb size 4
    then size_32
    else if leb size 8
    then size_64
    else if leb size 16
    then size_128
    else if leb size 32
    then size_256
    else size_undef

unfoldable pub make_type : ℕ → ℕ → ℕ
make_type tt ts = if tt == type_undef || ts == size_undef then unknown else bit_or tt ts

unfoldable pub get_platform_boolean_size_8bits : ℕ
get_platform_boolean_size_8bits = 1

unfoldable pub get_platform_boolean_size : ℕ
get_platform_boolean_size = get_required_type_size_8bits get_platform_boolean_size_8bits

unfoldable pub get_platform_boolean : ℕ
get_platform_boolean = make_type type_boolean get_platform_boolean_size

-- Of a size; the overload on a type is `get_type_size_8bits`.
unfoldable pub size_get_type_size_8bits : ℕ → ℕ
size_get_type_size_8bits ts = if ts == size_undef then 0 else u8 (1 <<< low_bits ts 4)

unfoldable pub get_type_size_8bits : ℕ → ℕ
unfolding get_platform_boolean_size_8bits
get_type_size_8bits vt =
    if vt == unknown
    then 0
    else if vt == boolean
    then get_platform_boolean_size_8bits
    else u8 (1 <<< low_bits vt 4)

unfoldable pub get_type_size_char : ℕ → ℕ
unfolding get_type_size_8bits
get_type_size_char vt = get_type_size_8bits vt

-- `vt & 0xF0`
unfoldable pub get_var_type_type : ℕ → ℕ
get_var_type_type vt = low_bits (vt / 2 ^ 4) 4 <<< 4

unfoldable pub is_float_type : ℕ → Bool
unfolding get_var_type_type
is_float_type vt = get_var_type_type vt == type_float

unfoldable pub is_uint_type : ℕ → Bool
unfolding get_var_type_type
is_uint_type vt = get_var_type_type vt == type_uint

unfoldable pub is_sint_type : ℕ → Bool
unfolding get_var_type_type
is_sint_type vt = get_var_type_type vt == type_sint

unfoldable pub is_supported_type : ℕ → Bool
unfolding get_var_type_type get_type_size_8bits get_platform_boolean_size_8bits
is_supported_type vt =
    let tt = get_var_type_type vt in
    let ts = get_type_size_8bits vt in
    if vt == boolean
    then true
    else if ts == 0
    then false
    else if ltb 8 ts
    then false
    else if tt == type_boolean
    then ts == get_platform_boolean_size_8bits
    else if tt == type_float
    then ts == 4 || ts == 8
    else tt == type_uint || tt == type_sint
