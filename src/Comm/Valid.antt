-- ===== src/Comm/Valid.antt =====
-- The invariant of the reception.
use scrutiny_embedded.Base.{
  ℕ, zero, suc, true, List, [], ◌∷◌, ◌%◌, ◌^◌, ◌≤◌, ◌<◌, ◌≡◌, ◌⊎◌, refl, arith, length, take,
  Bool-cases, inl, inr, ◌==◌,
}
use scrutiny_embedded.Tools.Crc.Chain.{crc32-lt}
use scrutiny_embedded.Timebase.{Timebase}
use scrutiny_embedded.Comm.State.{CommHandler, State, RxFsmState, reset_rx}
use scrutiny_embedded.Comm.Receive.{
  write_at, on_command, on_subfunction, end_of_length, on_length, store_data, data_bytes_to_read,
  on_data, on_crc, process_active_request, dispatch, store_crc_byte, end_of_crc,
}

-- What each state of the reception relies on.
abbrev pub Progress : RxFsmState → CommHandler → Type 0
Progress RxFsmState.wait_for_length h =
    (h.per_state_data ≡ 0) ⊎ (h.per_state_data ≡ 1) × (h.active_request.data_length % 256 ≡ 0)
Progress RxFsmState.wait_for_data h = h.per_state_data < h.active_request.data_length
Progress RxFsmState.wait_for_crc h = h.per_state_data < 4
Progress RxFsmState.wait_for_process h = h.request_received ≡ true
Progress _ h = Unit {0}

pub record IsValid (h : CommHandler) : Type 0 where
  pub storage : h.rx_buffer_size ≤ length h.rx_buffer
  pub length_word : h.active_request.data_length < 2 ^ 16
  pub crc_word : h.crc < 2 ^ 32
  pub progress : Progress h.rx_state h

pub length-write_at : (xs : List ℕ) (at : ℕ) (bs : List ℕ) → length (write_at xs at bs) ≡ length xs
unfolding write_at
length-write_at [] at bs = refl
length-write_at (x ∷ xs) zero [] = refl
length-write_at (x ∷ xs) zero (b ∷ bs) = omega (arith, length-write_at xs zero bs)
length-write_at (x ∷ xs) (suc at) bs = omega (arith, length-write_at xs at bs)

-- The state that `end_of_length` is given.
pub record HasLength (h : CommHandler) : Type 0 where
  pub storage : h.rx_buffer_size ≤ length h.rx_buffer
  pub length_word : h.active_request.data_length < 2 ^ 16
  pub crc_word : h.crc < 2 ^ 32

end_of_length-IsValid : (h : CommHandler) → HasLength h → IsValid (end_of_length h)
unfolding end_of_length
end_of_length-IsValid h v = ground arith

module _ (h : CommHandler) (v : IsValid h) (b : ℕ) where
  on_command-IsValid : (bs : List ℕ) → IsValid (on_command h b bs).0
  unfolding on_command
  on_command-IsValid bs = ground (arith, crc32-lt (b ∷ []) 0)

  on_subfunction-IsValid : (bs : List ℕ) → IsValid (on_subfunction h b bs).0
  unfolding on_subfunction
  on_subfunction-IsValid bs = ground (arith, crc32-lt (b ∷ []) h.crc)

  on_length-IsValid :
      (bs : List ℕ) → h.rx_state ≡ RxFsmState.wait_for_length → IsValid (on_length h b bs).0
  unfolding on_length
  on_length-IsValid [] s = elim (Bool-cases (h.per_state_data == 0)) [
    | inl e ↦ rw (e, on_length) (ground (arith, crc32-lt (b ∷ []) h.crc))
    | inr e ↦
        rw (e, on_length)
          (end_of_length-IsValid _ (record {
            storage = v.storage;
            length_word = omega arith;
            crc_word = crc32-lt (b ∷ []) h.crc;
          }))
  ]
  on_length-IsValid (b' ∷ bs) s = elim (Bool-cases (h.per_state_data == 0)) [
    | inl e ↦
        rw (e, on_length)
          (end_of_length-IsValid _ (record {
            storage = v.storage;
            length_word = omega arith;
            crc_word = crc32-lt (b ∷ b' ∷ []) h.crc;
          }))
    | inr e ↦
        rw (e, on_length)
          (end_of_length-IsValid _ (record {
            storage = v.storage;
            length_word = omega arith;
            crc_word = crc32-lt (b ∷ []) h.crc;
          }))
  ]

store_data-IsValid :
    (h : CommHandler)
    → IsValid h
    → (bs : List ℕ) → h.rx_state ≡ RxFsmState.wait_for_data
    → IsValid (store_data h bs)
unfolding store_data
store_data-IsValid h v bs e =
    ground (arith, crc32-lt bs h.crc, length-write_at h.rx_buffer h.per_state_data bs)

on_data-IsValid :
    (h : CommHandler)
    → IsValid h
    → (bs : List ℕ) → h.rx_state ≡ RxFsmState.wait_for_data
    → IsValid (on_data h bs).0
unfolding on_data
on_data-IsValid h v bs e =
    ground (arith, store_data-IsValid h v (take (data_bytes_to_read h bs) bs))

module _ (timebase : Timebase) (h : CommHandler) (v : HasLength h) where
  pub reset_rx-IsValid : IsValid (reset_rx timebase h)
  unfolding reset_rx
  reset_rx-IsValid = ground arith

  process_active_request-IsValid : IsValid (process_active_request timebase h)
  unfolding process_active_request
  process_active_request-IsValid = ground (arith, reset_rx-IsValid)

module _ (timebase : Timebase) where
  end_of_crc-IsValid : (h : CommHandler) → HasLength h → IsValid (end_of_crc timebase h)
  unfolding end_of_crc
  end_of_crc-IsValid h v =
      let v' : HasLength (record h { state = State.idle }) = record {
        storage = v.storage;
        length_word = v.length_word;
        crc_word = v.crc_word;
      } in
      elim (Bool-cases (h.crc == h.active_request.crc)) [
        | inl e ↦ rw (e, end_of_crc) (process_active_request-IsValid timebase _ v')
        | inr e ↦ rw (e, end_of_crc) (reset_rx-IsValid timebase _ v')
      ]

  on_crc-IsValid :
      (h : CommHandler)
      → IsValid h
      → (b : ℕ) (bs : List ℕ) → h.rx_state ≡ RxFsmState.wait_for_crc
      → IsValid (on_crc timebase h b bs).0
  unfolding on_crc
  on_crc-IsValid h v b bs e =
      let v' : HasLength (store_crc_byte h b) = record {
        storage = v.storage;
        length_word = v.length_word;
        crc_word = v.crc_word;
      } in
      ground (arith, end_of_crc-IsValid (store_crc_byte h b) v')

  -- One round of the loop keeps the invariant.
  pub dispatch-IsValid :
      (s : RxFsmState) (h : CommHandler) (b : ℕ) (bs : List ℕ)
      → h.rx_state ≡ s
      → IsValid h
      → IsValid (dispatch timebase s h b bs).0
  unfolding dispatch
  dispatch-IsValid RxFsmState.wait_for_command h b bs e v = on_command-IsValid h v b bs
  dispatch-IsValid RxFsmState.wait_for_subfunction h b bs e v = on_subfunction-IsValid h v b bs
  dispatch-IsValid RxFsmState.wait_for_length h b bs e v = on_length-IsValid h v b bs e
  dispatch-IsValid RxFsmState.wait_for_data h b bs e v = on_data-IsValid h v (b ∷ bs) e
  dispatch-IsValid RxFsmState.wait_for_crc h b bs e v = on_crc-IsValid h v b bs e
  dispatch-IsValid RxFsmState.wait_for_process h b bs e v = v
  dispatch-IsValid RxFsmState.error h b bs e v = v
