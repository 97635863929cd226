-- ===== src/CodecV1/Configure/Shape.antt =====
-- What a request that is decoded to a configuration is like.
use scrutiny_embedded.Base.{
  ℕ, zero, suc, true, ◌+◌, ◌≤◌, ◌≡◌, ◌⊎◌, inl, inr, refl, arith, List, [], ◌∷◌, length, drop,
  Option, none, some, Option-cases, Bool-cases, subst, ltb, low_bits,
}
use scrutiny_embedded.Protocol.{Request}
use scrutiny_embedded.Protocol.ResponseCode.{ResponseCode}
use scrutiny_embedded.CodecV1.{addr_size}
use scrutiny_embedded.CodecV1.Configure.{
  Decoded, Header, first, each, decode_operand, decode_operands, decode_item, decode_items,
  decode_header, decode_rest, decode_datalogging_configure_request,
}
use scrutiny_embedded.Datalogging.Configuration.{
  Operand, LoggableItem, Configuration, max_operands, max_signal,
}

-- The bytes that an operand takes in a request, with its type. One that is invalid takes none.
abbrev pub operand_size : Operand → ℕ
operand_size (Operand.literal _) = 5
operand_size (Operand.var _ _) = 2 + addr_size
operand_size (Operand.varbit _ _ _ _) = 4 + addr_size
operand_size (Operand.rpv _) = 3
operand_size Operand.invalid = 0

abbrev pub item_size : LoggableItem → ℕ
item_size (LoggableItem.memory _ _) = 2 + addr_size
item_size (LoggableItem.rpv _) = 3
item_size LoggableItem.time = 1
item_size LoggableItem.invalid = 0

module _ {ℓ} {A : Type ℓ} (size : A → ℕ) where
  abbrev pub sizes : List A → ℕ
  sizes [] = 0
  sizes (x ∷ xs) = size x + sizes xs

  -- One round moves the cursor by the element's size, and all rounds by the sum.
  abbrev pub Moves : ℕ → Option (A × ℕ × List ℕ) → Type 0
  Moves cursor none = true ≡ true
  Moves cursor (some (x, cursor', _)) = cursor' ≡ cursor + size x

  abbrev pub AllMove : ℕ → ℕ → Option (List A × ℕ × List ℕ) → Type 0
  AllMove count cursor none = true ≡ true
  AllMove count cursor (some (xs, cursor', _)) = (length xs ≡ count) × (cursor' ≡ cursor + sizes xs)

  pub each-AllMove :
      (round : ℕ → List ℕ → Option (A × ℕ × List ℕ))
      → ((cursor : ℕ) (buf : List ℕ) → Moves cursor (round cursor buf))
      → (count cursor : ℕ) (buf : List ℕ) → AllMove count cursor (each round count cursor buf)
  unfolding each
  each-AllMove round moves zero cursor buf = (refl, omega arith)
  each-AllMove round moves (suc count) cursor buf = elim (Option-cases (round cursor buf)) [
    | inl e ↦ ground (arith, e)
    | inr ((x, cursor', buf'), e) ↦
        let moved = subst (Moves cursor) e (moves cursor buf) in
        let rest = each-AllMove round moves count cursor' buf' in
        elim (Option-cases (each round count cursor' buf')) [
          | inl e' ↦ ground (arith, e, e')
          | inr ((xs, cursor'', buf''), e') ↦
              let moved' = subst (AllMove count cursor') e' rest in
              ground (arith, e, e', moved, moved'.0, moved'.1)
        ]
  ]

decode_operand-Moves :
    (n cursor : ℕ) (buf : List ℕ) → Moves operand_size cursor (decode_operand n cursor buf)
unfolding decode_operand
decode_operand-Moves n cursor buf = ground arith

decode_item-Moves :
    (n cursor : ℕ) (buf : List ℕ) → Moves item_size cursor (decode_item n cursor buf)
unfolding decode_item
decode_item-Moves n cursor buf = ground arith

-- The configuration's lists have the elements that it counts, no more than there are places for; and the request
-- is as long as what they take.
pub record IsWhole (request : Request) (config : Configuration) : Type 0 where
  pub operands : length (config.trigger).operands ≡ (config.trigger).operand_count
  pub operand_count : (config.trigger).operand_count ≤ max_operands
  pub items : length config.items_to_log ≡ config.items_count
  pub items_count : config.items_count ≤ max_signal
  pub data_length :
      request.data_length
      ≡ 17 + sizes operand_size (config.trigger).operands + sizes item_size config.items_to_log

abbrev pub Shape : Request → Decoded → Type 0
Shape request (Decoded.failed code) =
    (code ≡ ResponseCode.invalid_request) ⊎ (code ≡ ResponseCode.overflow)
Shape request (Decoded.decoded _ _ config) = IsWhole request config

decode_rest-Shape :
    (request : Request) (h : Header) (operands : List Operand) (cursor : ℕ) (buf : List ℕ)
    → length operands ≡ h.operand_count
    → h.operand_count ≤ max_operands
    → cursor ≡ 16 + sizes operand_size operands
    → Shape request (decode_rest request.data_length h operands cursor buf)
unfolding decode_rest decode_items
decode_rest-Shape request h operands cursor buf counted few at =
    let n = low_bits (first buf) 8 in
    let moves =
      each-AllMove item_size (decode_item request.data_length)
        (decode_item-Moves request.data_length) n (cursor + 1) (drop 1 buf) in
    elim (Option-cases (each (decode_item request.data_length) n (cursor + 1) (drop 1 buf))) [
      | inl e ↦ ground (arith, e)
      | inr ((items, cursor', buf'), e) ↦
          let moved = subst (AllMove item_size n (cursor + 1)) e moves in
          rw e (ground (arith, counted, few, at, moved.0, moved.1))
    ]

-- A request to configure the datalogger that cannot be decoded is answered with InvalidRequest or Overflow. One
-- that is decoded gives a configuration whose lists have the elements that it counts, no more than
-- the datalogger has places for, and its data is exactly as long as the header, the operands and the
-- items take.
pub decode_datalogging_configure_request-Shape :
    (request : Request) (data' : List ℕ)
    → Shape request (decode_datalogging_configure_request request data')
unfolding decode_datalogging_configure_request decode_operands
decode_datalogging_configure_request-Shape request data' =
    let h = decode_header data' in
    let n = request.data_length in
    let moves =
      each-AllMove operand_size (decode_operand n) (decode_operand-Moves n) h.operand_count 16
        (drop 16 data') in
    elim (Option-cases (each (decode_operand n) h.operand_count 16 (drop 16 data'))) [
      | inl e ↦ ground (arith, e)
      | inr ((operands, cursor, buf), e) ↦
          let moved = subst (AllMove operand_size h.operand_count 16) e moves in
          elim (Bool-cases (ltb max_operands h.operand_count)) [
            | inl many ↦ ground (arith, many)
            | inr few ↦
                let rest =
                  decode_rest-Shape request h operands cursor buf moved.0 (ground (arith, few))
                    moved.1 in
                ground (arith, e, few, rest)
          ]
    ]
