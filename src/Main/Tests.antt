-- ===== src/Main/Tests.antt =====
-- The guards of memory and the published values, on concrete values.
use scrutiny_embedded.Base.{true, false, List, [], ◌∷◌, ◌≡◌, ◌↔◌, ◌^◌, ◌-◌, refl, arith}
use scrutiny_embedded.Main.{
  AddressRange, RuntimePublishedValue, get_rpv, get_rpv_type, touches_any, touches_forbidden_region,
  touches_readonly_region,
}
use scrutiny_embedded.Main.Regions.{IsOrdered, Overlaps, touches_region_lem}

abbrev ranges : List AddressRange
ranges = record { start = 16; end = 31 } ∷ record { start = 64; end = 64 } ∷ []

ranges-IsOrdered : IsOrdered ranges
unfolding IsOrdered
ranges-IsOrdered = (omega arith, (omega arith, tt))

touches_region_lem_example :
    ((touches_forbidden_region true ranges 60 5 ≡ true) ↔ ((true ≡ true) × Overlaps ranges 60 5))
    × ((touches_readonly_region true ranges 60 5 ≡ true) ↔ ((true ≡ true) × Overlaps ranges 60 5))
touches_region_lem_example =
    touches_region_lem true ranges 60 5 ranges-IsOrdered (omega arith) (omega arith)

touches_one : touches_forbidden_region true ranges 60 5 ≡ true
unfolding touches_forbidden_region touches_any
touches_one = refl

touches_none : touches_readonly_region true ranges 32 32 ≡ false
unfolding touches_readonly_region touches_any
touches_none = refl

-- A block that wraps past the last address.
misses_top :
    touches_forbidden_region true
      (record { start = 2 ^ 64 - 8; end = 2 ^ 64 - 1 } ∷ [])
      (2 ^ 64 - 4)
      8
    ≡ false
unfolding touches_forbidden_region touches_any
misses_top = refl

abbrev rpvs : List RuntimePublishedValue
rpvs = record { id = 7; type = 2 } ∷ record { id = 9; type = 4 } ∷ []

finds_type : get_rpv_type rpvs 9 ≡ 4
unfolding get_rpv_type get_rpv
finds_type = refl
