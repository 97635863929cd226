-- ===== src/Main/Regions.antt =====
-- The blocks that are kept out of a region, and the addresses in it.
use scrutiny_embedded.Base.{
  ℕ, Bool, true, false, ◌&&◌, List, [], ◌∷◌, ◌+◌, ◌-◌, ◌^◌, ◌≤◌, ◌<◌, ◌≡◌, ◌⊎◌, ◌↔◌, inl, inr, refl,
  arith, leb, u64, max, Bool-cases,
}
use scrutiny_embedded.Main.{
  AddressRange, touches_any, touches_forbidden_region, touches_readonly_region,
}

-- An address is in one of the ranges.
unfoldable pub IsCovered : ℕ → List AddressRange → Type 0
IsCovered addr [] = ⊥
IsCovered addr (r ∷ rs) = ((r.start ≤ addr) × (addr ≤ r.end)) ⊎ IsCovered addr rs

-- Each range has its start at or before its end.
unfoldable pub IsOrdered : List AddressRange → Type 0
IsOrdered [] = Unit {0}
IsOrdered (r ∷ rs) = (r.start ≤ r.end) × IsOrdered rs

pub record InBlock (addr start length : ℕ) : Type 0 where
  pub from : start ≤ addr
  pub below : addr < start + length

-- An address of the block is in one of the ranges.
pub Overlaps : List AddressRange → ℕ → ℕ → Type 0
Overlaps ranges start length = (addr : ℕ) × InBlock addr start length × IsCovered addr ranges

touches_any-false :
    (ranges : List AddressRange) (start last addr : ℕ)
    → touches_any ranges start last ≡ false
    → start ≤ addr
    → addr ≤ last
    → IsCovered addr ranges
    → ⊥
unfolding touches_any IsCovered
touches_any-false [] start last addr e a b c = c
touches_any-false (r ∷ rs) start last addr e a b (inl c) = ground (arith, e, a, b, c)
touches_any-false (r ∷ rs) start last addr e a b (inr c) =
    touches_any-false rs start last addr (ground (arith, e)) a b c

touches_any-true :
    (ranges : List AddressRange) (start last : ℕ)
    → touches_any ranges start last ≡ true
    → start ≤ last
    → IsOrdered ranges
    → (addr : ℕ) × (start ≤ addr) × (addr ≤ last) × IsCovered addr ranges
unfolding touches_any IsCovered IsOrdered
touches_any-true [] start last e a o = absurd (ground (arith, e))
touches_any-true (r ∷ rs) start last e a o =
    elim (Bool-cases (leb start r.end && leb r.start last)) [
      | inl hit ↦ (
        max start r.start,
        omega arith,
        ground (arith, hit, a),
        inl (omega arith, ground (arith, hit, o.0)),
      )
      | inr miss ↦
          let rest = touches_any-true rs start last (ground (arith, e, miss)) a o.1 in
          (rest.0, rest.1, rest.2, inr rest.3)
    ]

last_address :
    (start length : ℕ)
    → 0 < length
    → start + length ≤ 2 ^ 64
    → u64 (start + length + 2 ^ 64 - 1) ≡ start + length - 1
last_address start length positive fits = omega arith

Overlaps-from :
    (ranges : List AddressRange) (start length : ℕ)
    → IsOrdered ranges
    → 0 < length
    → start + length ≤ 2 ^ 64
    → touches_any ranges start (u64 (start + length + 2 ^ 64 - 1)) ≡ true
    → Overlaps ranges start length
unfolding Overlaps
Overlaps-from ranges start length o positive fits e =
    let last = last_address start length positive fits in
    let hit = touches_any-true ranges start (u64 (start + length + 2 ^ 64 - 1)) e (omega arith) o in
    (hit.0, record { from = hit.1; below = omega arith }, hit.3)

Overlaps-to :
    (ranges : List AddressRange) (start length : ℕ)
    → 0 < length
    → start + length ≤ 2 ^ 64
    → Overlaps ranges start length
    → touches_any ranges start (u64 (start + length + 2 ^ 64 - 1)) ≡ true
unfolding Overlaps
Overlaps-to ranges start length positive fits (addr, block, covered) =
    let last = last_address start length positive fits in
    let from = block.from in
    let below = block.below in
    elim (Bool-cases (touches_any ranges start (u64 (start + length + 2 ^ 64 - 1)))) [
      | inl e ↦ e
      | inr e ↦ absurd (touches_any-false ranges start _ addr e from (omega arith) covered)
    ]

Overlaps-touches_forbidden_region :
    (is_set : Bool) (ranges : List AddressRange) (start length : ℕ)
    → IsOrdered ranges
    → 0 < length
    → start + length ≤ 2 ^ 64
    → (touches_forbidden_region is_set ranges start length ≡ true)
      ↔ ((is_set ≡ true) × Overlaps ranges start length)
unfolding touches_forbidden_region
Overlaps-touches_forbidden_region false ranges start length o positive fits =
    (λ e. absurd (ground (arith, e)), λ both. absurd (ground (arith, both.0)))
Overlaps-touches_forbidden_region true ranges start length o positive fits = (
  λ e. (refl, Overlaps-from ranges start length o positive fits e),
  λ both. Overlaps-to ranges start length positive fits both.1,
)

-- A block of at least one byte that ends within the 64 bit address space is found to touch the forbidden
-- ranges, and the same for the read-only ones, exactly when such ranges are configured and an address of
-- the block is in one of them, where each range has its start at or before its end.
pub touches_region_lem :
    (is_set : Bool) (ranges : List AddressRange) (start length : ℕ)
    → IsOrdered ranges
    → 0 < length
    → start + length ≤ 2 ^ 64
    → ((touches_forbidden_region is_set ranges start length ≡ true)
        ↔ ((is_set ≡ true) × Overlaps ranges start length))
      × ((touches_readonly_region is_set ranges start length ≡ true)
          ↔ ((is_set ≡ true) × Overlaps ranges start length))
unfolding touches_readonly_region touches_forbidden_region
touches_region_lem is_set ranges start length o positive fits =
    let forbidden = Overlaps-touches_forbidden_region is_set ranges start length o positive fits in
    (forbidden, forbidden)

-- The ranges end far enough from the end of the address space that no block of a request can start in
-- them and run past it.
unfoldable pub IsBelowTop : List AddressRange → Type 0
IsBelowTop [] = Unit {0}
IsBelowTop (r ∷ rs) = (r.end + 2 ^ 16 ≤ 2 ^ 64) × IsBelowTop rs

touches_any-misses :
    (ranges : List AddressRange) (start length addr : ℕ)
    → IsBelowTop ranges
    → length < 2 ^ 16
    → touches_any ranges start (u64 (start + length + 2 ^ 64 - 1)) ≡ false
    → InBlock addr start length
    → IsCovered addr ranges
    → ⊥
unfolding touches_any IsCovered IsBelowTop
touches_any-misses [] start length addr top small e block c = c
touches_any-misses (r ∷ rs) start length addr top small e block (inl c) =
    let from = block.from in
    let below = block.below in
    let end = top.0 in
    let last = last_address start length (omega arith) (omega arith) in
    let inside : addr ≤ u64 (start + length + 2 ^ 64 - 1) = omega arith in
    touches_any-false (r ∷ rs) start _ addr e from inside (inl c)
touches_any-misses (r ∷ rs) start length addr top small e block (inr c) =
    touches_any-misses rs start length addr top.1 small (ground (arith, e)) block c

pub touches_region-misses :
    (is_set : Bool) (ranges : List AddressRange) (start length addr : ℕ)
    → IsBelowTop ranges
    → length < 2 ^ 16
    → touches_forbidden_region is_set ranges start length ≡ false
    → InBlock addr start length
    → is_set ≡ true
    → IsCovered addr ranges
    → ⊥
unfolding touches_forbidden_region
touches_region-misses false ranges start length addr top small e block is_set c = cc
touches_region-misses true ranges start length addr top small e block is_set c =
    touches_any-misses ranges start length addr top small e block c

pub touches_readonly-misses :
    (is_set : Bool) (ranges : List AddressRange) (start length addr : ℕ)
    → IsBelowTop ranges
    → length < 2 ^ 16
    → touches_readonly_region is_set ranges start length ≡ false
    → InBlock addr start length
    → is_set ≡ true
    → IsCovered addr ranges
    → ⊥
unfolding touches_readonly_region touches_forbidden_region
touches_readonly-misses is_set ranges start length addr top small e block is_set' c =
    touches_region-misses is_set ranges start length addr top small e block is_set' c
