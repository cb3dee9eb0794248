-- ===== src/Stun/Transaction.antt =====
-- The transaction of a response is not compared with the request's.
use p2p_tun.Prelude.{
  Bool-cases, Bytes, Option, Result-cases, arith, drop, drop-append_right, get_or,
  get_or-append_left, get_or-append_right, inl, inr, length, length-append, none, refl, suc, sym,
  uint16_at, zero, ℕ, ◌++◌, ◌+◌, ◌-◌, ◌<◌, ◌∙◌, ◌≡◌, ◌≤◌,
}
use p2p_tun.Stun.{Addr, attr_result, has_attr, next_offset, parse_attrs, parse_binding_response}

-- Two messages of one length that agree from offset 20 on.
record SameTail (a b : Bytes) : Type 0 where
  same_length : length a ≡ length b
  same_at : (i : ℕ) → 20 ≤ i → get_or a i 0 ≡ get_or b i 0
  same_drop : (i : ℕ) → 20 ≤ i → drop i a ≡ drop i b

module _ (a b : Bytes) (s : SameTail a b) (offset : ℕ) (h : 20 ≤ offset) where
  len_same : uint16_at a (offset + 2) ≡ uint16_at b (offset + 2)
  len_same =
      rw (s.same_at (offset + 2) (omega arith), s.same_at (offset + 2 + 1) (omega arith)) refl

  has_attr_same : has_attr a offset ≡ has_attr b offset
  unfolding has_attr
  has_attr_same = rw (len_same, s.same_length) refl

  next_offset_same : next_offset a offset ≡ next_offset b offset
  unfolding next_offset
  next_offset_same = rw len_same refl

  attr_result_same :
      (txn : Bytes) (mapped : Option Addr)
      → attr_result a txn offset mapped ≡ attr_result b txn offset mapped
  unfolding attr_result
  attr_result_same txn mapped =
      rw
        (
          len_same,
          s.same_at offset h,
          s.same_at (offset + 1) (omega arith),
          s.same_drop (offset + 4) (omega arith),
        )
        refl

next_offset-le : (a : Bytes) (offset : ℕ) → 20 ≤ offset → 20 ≤ next_offset a offset
unfolding next_offset
next_offset-le a offset h = omega arith

parse_attrs_same :
    (fuel : ℕ) (a b txn : Bytes) (offset : ℕ) (mapped : Option Addr)
    → SameTail a b
    → 20 ≤ offset
    → parse_attrs fuel a txn offset mapped ≡ parse_attrs fuel b txn offset mapped
unfolding parse_attrs
parse_attrs_same zero a b txn offset mapped s h = refl
parse_attrs_same (suc fuel) a b txn offset mapped s h = elim (Bool-cases (has_attr b offset)) [
  | inr stop ↦ rw (parse_attrs, has_attr_same a b s offset h, stop) refl
  | inl go ↦ elim (Result-cases (attr_result b txn offset mapped)) [
    | inr (e, bad) ↦
        rw
          (
            parse_attrs,
            has_attr_same a b s offset h,
            go,
            attr_result_same a b s offset h txn mapped,
            bad,
          )
          refl
    | inl (m, good) ↦
        rw
          (
            parse_attrs,
            has_attr_same a b s offset h,
            go,
            attr_result_same a b s offset h txn mapped,
            good,
          )
          (rw (next_offset_same a b s offset h)
            (parse_attrs_same fuel a b txn (next_offset b offset) m s (next_offset-le b offset h)))
  ]
]

swap-SameTail :
    (front t t' rest : Bytes)
    → length front ≡ 8
    → length t ≡ 12
    → length t' ≡ 12
    → SameTail (front ++ (t ++ rest)) (front ++ (t' ++ rest))
swap-SameTail front t t' rest f p q = record {
  same_length = omega (
    arith,
    length-append front (t ++ rest),
    length-append front (t' ++ rest),
    length-append t rest,
    length-append t' rest,
  );
  same_at = λ i h.
      rw
        (
          get_or-append_right front (t ++ rest) i 0 (omega arith),
          get_or-append_right front (t' ++ rest) i 0 (omega arith),
          get_or-append_right t rest (i - length front) 0 (omega arith),
          get_or-append_right t' rest (i - length front) 0 (omega arith),
          p,
          q,
        )
        refl;
  same_drop = λ i h.
      rw
        (
          drop-append_right front (t ++ rest) i (omega arith),
          drop-append_right front (t' ++ rest) i (omega arith),
          drop-append_right t rest (i - length front) (omega arith),
          drop-append_right t' rest (i - length front) (omega arith),
          p,
          q,
        )
        refl;
}

same_head :
    (front a b : Bytes)
    → length front ≡ 8
    → (i : ℕ) → i < 8
    → get_or (front ++ a) i 0 ≡ get_or (front ++ b) i 0
same_head front a b f i h =
    get_or-append_left front a i 0 (omega arith)
    ∙ sym (get_or-append_left front b i 0 (omega arith))

-- parseBindingResponse never looks at the transaction identifier of a response: with any other in
-- its place the result is the same, so that a reply to another request is taken for this one's.
pub parse_binding_response_any_transaction :
    (front t t' rest txn : Bytes)
    → length front ≡ 8
    → length t ≡ 12
    → length t' ≡ 12
    → parse_binding_response (front ++ (t ++ rest)) txn
      ≡ parse_binding_response (front ++ (t' ++ rest)) txn
unfolding parse_binding_response
parse_binding_response_any_transaction front t t' rest txn f p q =
    let s = swap-SameTail front t t' rest f p q in
    let head = same_head front (t ++ rest) (t' ++ rest) f in
    rw
      (
        head 0 (omega arith),
        head 1 (omega arith),
        head 2 (omega arith),
        head 3 (omega arith),
        head 4 (omega arith),
        head 5 (omega arith),
        head 6 (omega arith),
        head 7 (omega arith),
        s.same_length,
        parse_attrs_same (length (front ++ (t' ++ rest))) _ _ txn 20 none s (omega arith),
      )
      refl
