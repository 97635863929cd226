-- ===== src/Comm/Run/Payload.antt =====
-- A block of the payload is stored as its bytes one at a time would be.
use scrutiny_embedded.Base.{
  ℕ, zero, suc, true, false, not, ◌&&◌, List, [], ◌∷◌, ◌++◌, ◌+◌, ◌^◌, ◌≤◌, ◌<◌, ◌≡◌, refl, sym, ap,
  ◌∙◌, arith, length, take, drop, u16, Bool-cases, inl, inr, ltb, leb, take-append-drop,
  length-take, &&-false,
}
use scrutiny_embedded.Tools.Crc.{crc32}
use scrutiny_embedded.Tools.Crc.Chain.{crc32-append}
use scrutiny_embedded.Timebase.{Timebase}
use scrutiny_embedded.Comm.State.{CommHandler, RxFsmState}
use scrutiny_embedded.Comm.Receive.{
  write_at, store_data, data_bytes_to_read, on_data, dispatch, is_open,
}
use scrutiny_embedded.Comm.Run.{feed, run, feed_as, run_open, run_closed}

pub write_at-write_at :
    (xs : List ℕ) (at next : ℕ) (b : ℕ) (bs : List ℕ)
    → next ≡ suc at
    → write_at (write_at xs at (b ∷ [])) next bs ≡ write_at xs at (b ∷ bs)
unfolding write_at
write_at-write_at [] at next b bs e = refl
write_at-write_at (x ∷ xs) zero next b bs e = rw e (ap (λ t. b ∷ write_at t zero bs) (nothing xs))
  where
    nothing : (ys : List ℕ) → write_at ys zero [] ≡ ys
    nothing [] = refl
    nothing (y ∷ ys) = refl
write_at-write_at (x ∷ xs) (suc at) next b bs e =
    rw e (ap (λ t. x ∷ t) (write_at-write_at xs at (suc at) b bs refl))

-- A payload is being received, and the next `n` bytes belong to it.
pub record IsOpenFor (h : CommHandler) (n : ℕ) : Type 0 where
  pub in_data : h.rx_state ≡ RxFsmState.wait_for_data
  pub is_open : is_open h ≡ true
  pub some_left : h.per_state_data < h.active_request.data_length
  pub within : h.per_state_data + n ≤ h.active_request.data_length
  pub length_word : h.active_request.data_length < 2 ^ 16
  pub fits : h.active_request.data_length ≤ h.rx_buffer_size

-- What `store_data` does short of the end of the payload.
abbrev stored : CommHandler → List ℕ → CommHandler
stored h bytes = record h {
  rx_buffer = write_at h.rx_buffer h.per_state_data bytes;
  crc = crc32 bytes h.crc;
  per_state_data = h.per_state_data + length bytes;
}

store_data-stored :
    (h : CommHandler) (bytes : List ℕ)
    → h.per_state_data + length bytes < h.active_request.data_length
    → h.active_request.data_length < 2 ^ 16
    → store_data h bytes ≡ stored h bytes
unfolding store_data
store_data-stored h bytes lt word =
    let small : u16 (h.per_state_data + length bytes) ≡ h.per_state_data + length bytes =
      omega arith in
    let test : leb h.active_request.data_length (u16 (h.per_state_data + length bytes)) ≡ false =
      ground arith in
    rw (test, store_data) (rw small refl)

store_data-store_data :
    (h : CommHandler) (b : ℕ) (bs : List ℕ)
    → h.per_state_data + 1 < h.active_request.data_length
    → h.active_request.data_length < 2 ^ 16
    → store_data (stored h (b ∷ [])) bs ≡ store_data h (b ∷ bs)
unfolding store_data
store_data-store_data h b bs lt word =
    let count : u16 (h.per_state_data + 1 + length bs) ≡ u16 (h.per_state_data + suc (length bs)) =
      ap u16 (omega arith) in
    rw
      (
        count,
        crc32-append (b ∷ []) bs h.crc,
        write_at-write_at h.rx_buffer h.per_state_data (h.per_state_data + 1) b bs (omega arith),
      )
      refl

module _ (timebase : Timebase) where
  pub feed_data :
      (h : CommHandler) (b : ℕ) → IsOpenFor h 1 → feed timebase h b ≡ store_data h (b ∷ [])
  feed_data h b v = feed_as timebase h b v.in_data ∙ one
    where
      no_overflow : ltb h.rx_buffer_size h.active_request.data_length ≡ false
      no_overflow = ground (arith, v.fits)

      reads_one : data_bytes_to_read h (b ∷ []) ≡ 1
      reads_one = unfold data_bytes_to_read in ground (arith, v.within, v.length_word)

      one : (dispatch timebase RxFsmState.wait_for_data h b []).0 ≡ store_data h (b ∷ [])
      one = unfold dispatch on_data in rw (no_overflow) (rw reads_one refl)

  -- The bytes of a block one at a time, and then what follows.
  pub block-run :
      (bytes rest : List ℕ) (h : CommHandler)
      → 0 < length bytes
      → IsOpenFor h (length bytes)
      → run timebase h (bytes ++ rest) ≡ run timebase (store_data h bytes) rest
  block-run [] rest h some v = absurd (omega arith)
  block-run (b ∷ []) rest h some v =
      run_open timebase h b rest v.is_open ∙ ap (λ x. run timebase x rest) (feed_data h b v)
  block-run (b ∷ b' ∷ bs) rest h some v =
      run_open timebase h b (b' ∷ bs ++ rest) v.is_open
      ∙ ap (λ x. run timebase x (b' ∷ bs ++ rest))
          (feed_data h b first
            ∙ store_data-stored h (b ∷ []) (omega (arith, v.within)) v.length_word)
      ∙ block-run (b' ∷ bs) rest (stored h (b ∷ [])) (omega arith) after
      ∙ ap (λ x. run timebase x rest)
          (store_data-store_data h b (b' ∷ bs) (omega (arith, v.within)) v.length_word)
    where
      first : IsOpenFor h 1
      first = record {
        in_data = v.in_data;
        is_open = v.is_open;
        some_left = v.some_left;
        within = omega (arith, v.within);
        length_word = v.length_word;
        fits = v.fits;
      }

      after : IsOpenFor (stored h (b ∷ [])) (length (b' ∷ bs))
      after = record {
        in_data = v.in_data;
        is_open = v.is_open;
        some_left = omega (arith, v.within);
        within = omega (arith, v.within);
        length_word = v.length_word;
        fits = v.fits;
      }

  overflow-run :
      (h : CommHandler) (b : ℕ) (bs : List ℕ)
      → h.rx_state ≡ RxFsmState.wait_for_data
      → is_open h ≡ true
      → ltb h.rx_buffer_size h.active_request.data_length ≡ true
      → run timebase h (b ∷ bs) ≡ run timebase (on_data h (b ∷ bs)).0 (on_data h (b ∷ bs)).1
  unfolding on_data dispatch
  overflow-run h b bs s o e =
      run_open timebase h b bs o
      ∙ ap (λ x. run timebase x bs) (feed_as timebase h b s ∙ same)
      ∙ rw (e, on_data)
          (run_closed timebase _ bs closed ∙ sym (run_closed timebase _ (b ∷ bs) closed))
    where
      closed : (not h.request_received && false) ≡ false
      closed = &&-false (not h.request_received)

      same : (dispatch timebase RxFsmState.wait_for_data h b []).0 ≡ (on_data h (b ∷ bs)).0
      same = rw (e, on_data) refl

  -- How much a round reads.
  pub reads :
      (h : CommHandler) (b : ℕ) (bs : List ℕ)
      → h.per_state_data < h.active_request.data_length
      → h.active_request.data_length < 2 ^ 16
      → length (b ∷ bs) < 2 ^ 16
      → (0 < data_bytes_to_read h (b ∷ bs))
        × (data_bytes_to_read h (b ∷ bs) ≤ length (b ∷ bs))
        × (h.per_state_data + data_bytes_to_read h (b ∷ bs) ≤ h.active_request.data_length)
  unfolding data_bytes_to_read
  reads h b bs left word short = ground arith

  -- A round of the loop in the payload reads at least one byte, and the same as its bytes one at a
  -- time.
  pub on_data-run :
      (h : CommHandler) (b : ℕ) (bs : List ℕ)
      → h.rx_state ≡ RxFsmState.wait_for_data
      → is_open h ≡ true
      → h.per_state_data < h.active_request.data_length
      → h.active_request.data_length < 2 ^ 16
      → length (b ∷ bs) < 2 ^ 16
      → run timebase h (b ∷ bs) ≡ run timebase (on_data h (b ∷ bs)).0 (on_data h (b ∷ bs)).1
  unfolding on_data
  on_data-run h b bs s o left word short =
      elim (Bool-cases (ltb h.rx_buffer_size h.active_request.data_length)) [
        | inl e ↦ overflow-run h b bs s o e
        | inr e ↦
            rw (e, on_data)
              (ap (run timebase h) (sym (take-append-drop n (b ∷ bs)))
                ∙ block-run (take n (b ∷ bs)) (drop n (b ∷ bs)) h (omega (arith, some))
                    (open_for e))
      ]
    where
      n : ℕ
      n = data_bytes_to_read h (b ∷ bs)

      some :
          (0 < n)
          × (n ≤ length (b ∷ bs))
          × (h.per_state_data + n ≤ h.active_request.data_length)
          × (length (take n (b ∷ bs)) ≡ n)
      some = omega (arith, reads h b bs left word short, length-take n (b ∷ bs))

      open_for :
          ltb h.rx_buffer_size h.active_request.data_length ≡ false
          → IsOpenFor h (length (take n (b ∷ bs)))
      open_for e = record {
        in_data = s;
        is_open = o;
        some_left = left;
        within = omega (arith, some);
        length_word = word;
        fits = ground arith;
      }
