-- ===== src/Comm/Frame/Data.antt =====
-- The payload of a frame, one byte at a time.
use scrutiny_embedded.Base.{
  ℕ, zero, suc, true, false, List, [], ◌∷◌, ◌++◌, ◌+◌, ◌^◌, ◌<◌, ◌≡◌, length, take, big_endian32,
  ◌⊎◌, refl, sym, ap, ◌∙◌, arith, u16, inl, inr, leb, append_assoc, length-append,
}
use scrutiny_embedded.Tools.Crc.{crc32}
use scrutiny_embedded.Tools.Crc.Chain.{crc32-append}
use scrutiny_embedded.Comm.State.{CommHandler, RxFsmState, is_transmitting}
use scrutiny_embedded.Comm.Receive.{write_at, store_data}
use scrutiny_embedded.Comm.Valid.{length-write_at}
use scrutiny_embedded.Comm.Frame.{Frame, header, Fits, FitsIn}
use scrutiny_embedded.Comm.Frame.Awaits.{Awaits, Identified, Underway}

-- Writing just behind what is stored extends it.
take-write_at :
    (xs : List ℕ) (n at : ℕ) (b : ℕ)
    → at < length xs
    → n ≡ at + 1
    → take n (write_at xs at (b ∷ [])) ≡ take at xs ++ b ∷ []
unfolding write_at
take-write_at [] n at b lt e = absurd (omega arith)
take-write_at (x ∷ xs) zero at b lt e = absurd (omega arith)
take-write_at (x ∷ xs) (suc zero) zero b lt e = refl
take-write_at (x ∷ xs) (suc (suc n)) zero b lt e = absurd (omega arith)
take-write_at (x ∷ xs) (suc n) (suc at) b lt e =
    ap (λ t. x ∷ t) (take-write_at xs n at b (omega arith) (omega arith))

module _ (f : Frame) (c : ℕ) (word : c < 2 ^ 32) (h : CommHandler) (fits : Fits f h)
    (pending : h.request_received ≡ false) (quiet : is_transmitting h.state ≡ false) where
  -- The byte `b` of the payload, with `rest` behind it.
  pub payload_byte :
      (b : ℕ) (done more : List ℕ)
      → h.rx_state ≡ RxFsmState.wait_for_data
      → Identified f h
      → h.active_request.data_length ≡ length f.payload
      → f.payload ≡ done ++ b ∷ more
      → h.per_state_data ≡ length done
      → take (length done) h.rx_buffer ≡ done
      → h.crc ≡ crc32 (header f ++ done) 0
      → Underway f c (store_data h (b ∷ [])) (more ++ big_endian32 c)
  unfolding store_data
  payload_byte b done more s ids count split received stored crc = elim (none_or_some more) [
    | inl e ↦
        let whole : f.payload ≡ done ++ b ∷ [] = split ∙ ap (λ t. done ++ b ∷ t) e in
        let last : leb h.active_request.data_length (u16 (h.per_state_data + 1)) ≡ true =
          ground (arith, small, ap length e) in
        rw (last, store_data)
          (record {
            awaits = Awaits.crc_0 (record {
              state = refl;
              ids = ids;
              count = count;
              stored = ap (λ t. take (length t) buffer) whole ∙ stored' ∙ sym whole;
              checksum = crc' ∙ ap (λ t. crc32 (header f ++ t) 0) (sym whole);
              bytes_received = refl;
              high = omega arith;
              rest_is = ap (λ t. t ++ big_endian32 c) e;
            });
            fits = fits';
            pending = pending;
            quiet = quiet;
          })
    | inr some ↦
        let before : leb h.active_request.data_length (u16 (h.per_state_data + 1)) ≡ false =
          ground (arith, small) in
        rw (before, store_data)
          (record {
            awaits = Awaits.payload (record {
              state = s;
              ids = ids;
              count = count;
              done = done ++ b ∷ [];
              more = more;
              split = regroup;
              left = some;
              bytes_received = omega (arith, small, length-append done (b ∷ []));
              stored = stored';
              checksum = crc';
              rest_is = refl;
            });
            fits = fits';
            pending = pending;
            quiet = quiet;
          })
  ]
    where
      none_or_some : (p : List ℕ) → (p ≡ []) ⊎ (0 < length p)
      none_or_some [] = inl refl
      none_or_some (x ∷ p) = inr (omega arith)

      buffer : List ℕ
      buffer = write_at h.rx_buffer h.per_state_data (b ∷ [])

      total : length f.payload ≡ length done + suc (length more)
      total = ap length split ∙ length-append done (b ∷ more)

      small :
          (u16 (h.per_state_data + 1) ≡ length done + 1)
          × (h.active_request.data_length ≡ length done + suc (length more))
          × (length done < length h.rx_buffer)
      small = omega (arith, total, fits.room, fits.word, fits.storage)

      regroup : f.payload ≡ (done ++ b ∷ []) ++ more
      regroup = split ∙ sym (append_assoc done (b ∷ []) more)

      stored' : take (length (done ++ b ∷ [])) buffer ≡ done ++ b ∷ []
      stored' =
          ap (λ k. take (length (done ++ b ∷ [])) (write_at h.rx_buffer k (b ∷ []))) received
          ∙ take-write_at h.rx_buffer (length (done ++ b ∷ [])) (length done) b
              (omega (arith, small)) (length-append done (b ∷ []))
          ∙ ap (λ t. t ++ b ∷ []) stored

      crc' : crc32 (b ∷ []) h.crc ≡ crc32 (header f ++ (done ++ b ∷ [])) 0
      crc' =
          rw crc (sym (crc32-append (header f ++ done) (b ∷ []) 0))
          ∙ ap (λ t. crc32 t 0) (append_assoc (header f) done (b ∷ []))

      fits' : FitsIn f h.rx_buffer_size buffer
      fits' = record {
        command = fits.command;
        subfunction = fits.subfunction;
        payload = fits.payload;
        room = fits.room;
        storage =
            omega (arith, fits.storage, length-write_at h.rx_buffer h.per_state_data (b ∷ []));
        word = fits.word;
      }
