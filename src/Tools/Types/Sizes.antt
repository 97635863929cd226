-- ===== src/Tools/Types/Sizes.antt =====
-- The sizes that are chosen for a number of bytes, and which types are supported.
use scrutiny_embedded.Base.{
  ℕ, zero, suc, true, ◌+◌, ◌*◌, ◌%◌, ◌^◌, ◌≤◌, ◌<◌, ◌≡◌, sym, subst, arith, bit_or, ◌↔◌, ◌⊎◌,
}
use scrutiny_embedded.Base.Bits.Or.{bit_or-shift}
use scrutiny_embedded.Tools.Types.{
  get_required_type_size_8bits, make_type, size_get_type_size_8bits, get_type_size_8bits,
  get_var_type_type, is_supported_type, get_platform_boolean_size_8bits,
}

-- A kind other than the undefined one and a size that a type can have.
required_size :
    (size : ℕ)
    → size ≤ 32
    → 0 < size
    → (size ≤ size_get_type_size_8bits (get_required_type_size_8bits size))
      × (size_get_type_size_8bits (get_required_type_size_8bits size) < 2 * size)
      × (get_required_type_size_8bits size ≤ 5)
unfolding get_required_type_size_8bits size_get_type_size_8bits
required_size size h pos = ground (arith, h, pos)

made : (kind ts : ℕ) → kind < 15 → ts ≤ 5 → make_type (kind * 2 ^ 4) ts ≡ kind * 2 ^ 4 + ts
unfolding make_type
made kind ts k s =
    let sum : bit_or (kind * 2 ^ 4) ts ≡ kind * 2 ^ 4 + ts =
      bit_or-shift 4 kind ts (omega (arith, s)) in
    ground (arith, sum, k, s)

type_parts :
    (kind ts : ℕ)
    → kind < 15
    → ts ≤ 5
    → (get_var_type_type (make_type (kind * 2 ^ 4) ts) ≡ kind * 2 ^ 4)
      × (get_type_size_8bits (make_type (kind * 2 ^ 4) ts) ≡ size_get_type_size_8bits ts)
unfolding get_var_type_type get_type_size_8bits size_get_type_size_8bits
type_parts kind ts k s =
    let whole = made kind ts k s in
    let low : (kind * 2 ^ 4 + ts) % 2 ^ 4 ≡ ts % 2 ^ 4 = omega arith in
    rw (whole, low) (omega (arith, s), ground (arith, k, s))

-- The type that is made for a kind and a number of bytes from 1 to 32 has that kind, has room for
-- that many bytes, and has less than twice as many: it is the smallest one.
pub make_type-get_required_type_size_8bits :
    (kind size : ℕ)
    → kind < 15
    → 0 < size
    → size ≤ 32
    → (get_var_type_type (make_type (kind * 2 ^ 4) (get_required_type_size_8bits size))
        ≡ kind * 2 ^ 4)
      × (size ≤ get_type_size_8bits (make_type (kind * 2 ^ 4) (get_required_type_size_8bits size)))
      × (get_type_size_8bits (make_type (kind * 2 ^ 4) (get_required_type_size_8bits size))
          < 2 * size)
make_type-get_required_type_size_8bits kind size k pos s =
    let room = required_size size s pos in
    let parts = type_parts kind (get_required_type_size_8bits size) k room.2 in
    (parts.0, omega (arith, parts.1, room.0), omega (arith, parts.1, room.1))

-- The kinds and sizes that the library handles.
abbrev pub Supported : ℕ → ℕ → Type 0
Supported kind ts = (ts ≤ 3) × ((kind ≤ 1) ⊎ ((kind ≡ 3) × (ts ≡ 0)) ⊎ ((kind ≡ 2) × (2 ≤ ts)))

Supported-at :
    (kind ts : ℕ)
    → kind < 15
    → ts ≤ 5
    → (is_supported_type (kind * 2 ^ 4 + ts) ≡ true) ↔ Supported kind ts
unfolding is_supported_type get_var_type_type get_type_size_8bits get_platform_boolean_size_8bits
Supported-at kind zero k s = ground (arith, k)
Supported-at kind (suc zero) k s = ground (arith, k)
Supported-at kind (suc (suc zero)) k s = ground (arith, k)
Supported-at kind (suc (suc (suc zero))) k s = ground (arith, k)
Supported-at kind (suc (suc (suc (suc zero)))) k s = ground (arith, k)
Supported-at kind (suc (suc (suc (suc (suc zero))))) k s = ground (arith, k)
Supported-at kind (suc (suc (suc (suc (suc (suc ts)))))) k s = absurd (omega arith)

-- A type of one of the kinds and sizes that there are is supported exactly when its size is at most
-- 64 bits, and it is an integer, or a boolean of 8 bits, or a float of 32 or 64 bits.
pub is_supported_type_lem :
    (kind ts : ℕ)
    → kind < 15
    → ts ≤ 5
    → (is_supported_type (make_type (kind * 2 ^ 4) ts) ≡ true) ↔ Supported kind ts
is_supported_type_lem kind ts k s =
    subst (λ t. (is_supported_type t ≡ true) ↔ Supported kind ts) (sym (made kind ts k s))
      (Supported-at kind ts k s)
