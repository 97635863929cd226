-- ===== src/Main.antt =====
-- Parts of lib/src/scrutiny_main_handler.cpp: the memory regions that the server must not touch, and the
-- lookup of published values. A pointer has 64 bits.
pub mod CommControl
pub mod Config
pub mod Init
pub mod Memory
pub mod Ownership
pub mod Process
pub mod Regions
mod Tests
use scrutiny_embedded.Base.{
  ℕ, Bool, true, false, not, ◌&&◌, List, [], ◌∷◌, ◌+◌, ◌-◌, ◌*◌, ◌%◌, ◌^◌, leb, ◌==◌, if◌then◌else◌,
  u64, Option, none, some,
}
use scrutiny_embedded.Tools.Types.{unknown}

-- `AddressRange`, with both ends in it
pub record AddressRange : Type 0 where
  pub start : ℕ
  pub end : ℕ

-- The loop of the two functions below.
unfoldable pub touches_any : List AddressRange → ℕ → ℕ → Bool
touches_any [] block_start block_end = false
touches_any (range ∷ ranges) block_start block_end =
    let rest = touches_any ranges block_start block_end in
    if leb block_start range.end && leb range.start block_end then true else rest

-- `is_set` is the test of the configuration, and the list its ranges.
unfoldable pub touches_forbidden_region : Bool → List AddressRange → ℕ → ℕ → Bool
touches_forbidden_region is_set forbidden_ranges addr_start length =
    if not is_set
    then false
    else touches_any forbidden_ranges addr_start (u64 (addr_start + length + 2 ^ 64 - 1))

unfoldable pub touches_readonly_region : Bool → List AddressRange → ℕ → ℕ → Bool
touches_readonly_region is_set readonly_ranges addr_start length =
    if not is_set
    then false
    else touches_any readonly_ranges addr_start (u64 (addr_start + length + 2 ^ 64 - 1))

pub record RuntimePublishedValue : Type 0 where
  pub id : ℕ
  pub type : ℕ

-- `get_rpv`: what it writes to its argument, where it finds one.
unfoldable pub get_rpv : List RuntimePublishedValue → ℕ → Option RuntimePublishedValue
get_rpv [] id = none
get_rpv (rpv ∷ rpvs) id = let rest = get_rpv rpvs id in if rpv.id == id then some rpv else rest

unfoldable pub get_rpv_type : List RuntimePublishedValue → ℕ → ℕ
get_rpv_type rpvs id = elim (get_rpv rpvs id) [ none ↦ unknown | some rpv ↦ rpv.type ]
