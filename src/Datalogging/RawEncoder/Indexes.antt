-- ===== src/Datalogging/RawEncoder/Indexes.antt =====
-- The indexes of the circular buffer after any number of entries.
use scrutiny_embedded.Base.{
  ℕ, suc, true, false, not, ◌||◌, List, [], ◌∷◌, ◌+◌, ◌/◌, ◌%◌, ◌^◌, ◌≤◌, ◌<◌, ◌≡◌, ◌↔◌, subst, ap,
  ◌∙◌, arith, leb, ◌==◌, if◌then◌else◌, u32, min, inl, inr, Bool-cases, take, length,
}
use native.Mathlib.Nat.{zero-mod, div-le_self, suc-mod, mod-lt, mod-eq_of_lt, mod_self}
use scrutiny_embedded.Timebase.{Timebase}
use scrutiny_embedded.Datalogging.Configuration.{Configuration, MainHandler}
use scrutiny_embedded.Datalogging.RawEncoder.{
  RawEncoder, make_room, advance, encode_next_entry, reset, sum_sizes, get_entry_count,
}

-- The snapshots of a run, each with the main handler and the clock as they are then.
unfoldable pub encode_all : Configuration → RawEncoder → List (MainHandler × Timebase) → RawEncoder
encode_all config e [] = e
encode_all config e ((m, t) ∷ rest) = encode_all config (encode_next_entry m t config e) rest

-- `n` entries have been written since the reset: where the next goes, which is the oldest, and how many
-- there are.
pub record Written (n : ℕ) (e : RawEncoder) : Type 0 where
  pub usable : e.error ≡ false
  pub some_room : 0 < e.max_entries
  pub word : e.max_entries < 2 ^ 32
  pub next : e.next_entry_write_index ≡ n % e.max_entries
  pub full_when : (e.full ≡ true) ↔ (e.max_entries ≤ n)
  pub oldest : e.first_valid_entry_index ≡ (if leb e.max_entries n then n % e.max_entries else 0)
  pub counter : e.entry_write_counter ≡ u32 n

-- The remainder of the next number.
suc_mod : (n m : ℕ) → 0 < m → (n + 1) % m ≡ (if leb m (n % m + 1) then 0 else n % m + 1)
suc_mod n m pos =
    let here = mod-lt n pos in
    ap (λ t. t % m) (omega arith) ∙ suc-mod n m ∙ elim (Bool-cases (leb m (n % m + 1))) [
      | inl wraps ↦
          let same : suc (n % m) ≡ m = ground (arith, wraps, here) in
          rw (wraps) (ap (λ t. t % m) same ∙ mod_self m)
      | inr more ↦
          let lt : suc (n % m) < m = ground (arith, more) in
          rw (more) (mod-eq_of_lt lt ∙ omega arith)
    ]

small_mod : (n m : ℕ) → leb m n ≡ false → n % m ≡ n
small_mod n m small = mod-eq_of_lt (ground (arith, small))

encode_next_entry-Written :
    (main_handler : MainHandler) (timebase : Timebase) (config : Configuration) (n : ℕ)
    (e : RawEncoder)
    → Written n e
    → Written (n + 1) (encode_next_entry main_handler timebase config e)
unfolding encode_next_entry make_room advance
encode_next_entry-Written main_handler timebase config n e w =
    let m = e.max_entries in
    let r = n % m in
    let here = mod-lt n w.some_room in
    let next = suc_mod n m w.some_room in
    elim (Bool-cases (leb m n)) [
      | inl big ↦ ground (arith, w, here, next, big)
      | inr small ↦ let exact = small_mod n m small in ground (arith, w, here, next, small, exact)
    ]

encode_all-Written :
    (config : Configuration) (n : ℕ) (e : RawEncoder) (samples : List (MainHandler × Timebase))
    → Written n e
    → Written (n + length samples) (encode_all config e samples)
unfolding encode_all
encode_all-Written config n e [] w = subst (λ t. Written t e) (omega arith) w
encode_all-Written config n e ((m, t) ∷ rest) w =
    subst (λ k. Written k (encode_all config e ((m, t) ∷ rest))) (omega arith)
      (encode_all-Written config (n + 1) (encode_next_entry m t config e) rest
        (encode_next_entry-Written m t config n e w))

reset-Written :
    (main_handler : MainHandler) (config : Configuration) (e : RawEncoder)
    → e.buffer_size < 2 ^ 32
    → (reset main_handler config e).error ≡ false
    → Written 0 (reset main_handler config e)
unfolding reset
reset-Written main_handler config e word usable =
    let size =
      (sum_sizes main_handler (take config.items_count config.items_to_log)
        (0, not e.has_buffer || (e.buffer_size == 0))).0 in
    let most = div-le_self e.buffer_size size in
    let first = zero-mod (e.buffer_size / size) in ground (arith, word, usable, most, first)

count : (n : ℕ) (e : RawEncoder) → Written n e → get_entry_count e ≡ min n e.max_entries
unfolding get_entry_count
count n e w = elim (Bool-cases (leb e.max_entries n)) [
  | inl big ↦ ground (arith, w, big)
  | inr small ↦ let exact = small_mod n e.max_entries small in ground (arith, w, small, exact)
]

-- An encoder that is reset without an error, then any number of entries, whatever they hold: there
-- are as many entries as were written, up to the most that fit; the buffer is full exactly when that
-- many were; the next goes to the index that is the number of entries by the most that fit, and the
-- oldest is there too once the buffer is full, and at 0 before.
pub reset-encode_all :
    (main_handler : MainHandler) (config : Configuration) (e : RawEncoder)
    (samples : List (MainHandler × Timebase))
    → e.buffer_size < 2 ^ 32
    → (reset main_handler config e).error ≡ false
    → Written (length samples) (encode_all config (reset main_handler config e) samples)
      × (get_entry_count (encode_all config (reset main_handler config e) samples)
          ≡ min
              (length samples)
              (encode_all config (reset main_handler config e) samples).max_entries)
unfolding get_entry_count
reset-encode_all main_handler config e samples word usable =
    let w =
      encode_all-Written config 0 (reset main_handler config e) samples
        (reset-Written main_handler config e word usable) in
    let all : Written (length samples) (encode_all config (reset main_handler config e) samples) =
      subst (λ t. Written t (encode_all config (reset main_handler config e) samples)) (omega arith)
        w in
    (all, count (length samples) (encode_all config (reset main_handler config e) samples) all)
