-- ===== src/Stun/Laws.antt =====
-- Laws of the parser of homelink/transport/p2p/stun.py.
use homelink.Common.{
  ℕ, zero, suc, ◌+◌, ◌≤◌, ◌≡◌, refl, ap, ◌∙◌, inl, inr, true, some, List, arith, ltb, ◌==◌,
  ltb-false, Bool-cases, length, take, drop, length-drop,
}
use homelink.Common.Text.{text_eq, text_eq_iff}
use homelink.Common.Exc.{ok}
use homelink.Session.{from_bytes}
use homelink.Stun.{
  PublicEndpoint, attribute_size, first_attribute, go_on, parse_attributes, parse_response,
  binding_response,
}

same_number : (a b : ℕ) → (a == b) ≡ true → a ≡ b
same_number a b h = ground arith

-- More fuel than there are bytes changes nothing.
parse_attributes-enough :
    (n m : ℕ) (rest : List ℕ)
    → length rest ≤ n
    → length rest ≤ m
    → parse_attributes n rest ≡ parse_attributes m rest
unfolding parse_attributes
parse_attributes-enough zero zero rest low high = refl
parse_attributes-enough zero (suc m) rest low high =
    let short : ltb (length rest) 4 ≡ true = ground (arith, low) in rw short refl
parse_attributes-enough (suc n) zero rest low high =
    let short : ltb (length rest) 4 ≡ true = ground (arith, high) in rw short refl
parse_attributes-enough (suc n) (suc m) rest low high = elim (Bool-cases (ltb (length rest) 4)) [
  | inl short ↦ rw short refl
  | inr long ↦
      let left = length-drop (attribute_size rest) rest in
      let four : 4 ≤ length rest = ltb-false (length rest) 4 long in
      let step =
        parse_attributes-enough n m (drop (attribute_size rest) rest)
          (omega (arith, left, four, low)) (omega (arith, left, four, high)) in
      rw long (ap (go_on (first_attribute rest)) step)
]

-- An endpoint is found only in a binding response with the transaction ID of the request, and the
-- loop over the attributes finds the same endpoint with any more fuel.
pub parse_response-own :
    (message transaction_id : List ℕ) (endpoint : PublicEndpoint) (more : ℕ)
    → parse_response message transaction_id ≡ ok (some endpoint)
    → (from_bytes 0 (take 2 message) ≡ binding_response)
      × (take 12 (drop 8 message) ≡ transaction_id)
      × (parse_attributes (length message + more) (drop 20 message) ≡ ok (some endpoint))
unfolding parse_response
parse_response-own message transaction_id endpoint more h =
    elim (Bool-cases (ltb (length message) 20)) [
      | inl short ↦ cc (rw short at h)
      | inr long ↦ elim (Bool-cases (from_bytes 0 (take 2 message) == binding_response)) [
        | inr other ↦ cc (rw (long, other) at h)
        | inl response ↦ elim (Bool-cases (text_eq (take 12 (drop 8 message)) transaction_id)) [
          | inr foreign ↦ cc (rw (long, response, foreign) at h)
          | inl own ↦
              let found : parse_attributes (length message) (drop 20 message) ≡ ok (some endpoint) =
                rw (long, response, own) at h in
              let left = length-drop 20 message in
              (
                same_number (from_bytes 0 (take 2 message)) binding_response response,
                (text_eq_iff (take 12 (drop 8 message)) transaction_id).0 own,
                parse_attributes-enough (length message + more) (length message) (drop 20 message)
                      (omega (arith, left)) (omega (arith, left))
                    ∙ found,
              )
        ]
      ]
    ]
