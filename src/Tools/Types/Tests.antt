-- ===== src/Tools/Types/Tests.antt =====
-- Concrete types.
use scrutiny_embedded.Base.{◌≤◌, ◌<◌, ◌≡◌, ◌↔◌, true, arith}
use scrutiny_embedded.Tools.Types.{
  get_required_type_size_8bits, make_type, get_type_size_8bits, get_var_type_type,
  is_supported_type,
}
use scrutiny_embedded.Tools.Types.Sizes.{
  make_type-get_required_type_size_8bits, is_supported_type_lem, Supported,
}

make_type-get_required_type_size_8bits_example :
    (get_var_type_type (make_type 16 (get_required_type_size_8bits 3)) ≡ 16)
    × (3 ≤ get_type_size_8bits (make_type 16 (get_required_type_size_8bits 3)))
    × (get_type_size_8bits (make_type 16 (get_required_type_size_8bits 3)) < 6)
make_type-get_required_type_size_8bits_example =
    make_type-get_required_type_size_8bits 1 3 (omega arith) (omega arith) (omega arith)

is_supported_type_lem_example : (is_supported_type (make_type 32 3) ≡ true) ↔ Supported 2 3
is_supported_type_lem_example = is_supported_type_lem 2 3 (omega arith) (omega arith)
