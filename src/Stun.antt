-- ===== src/Stun.antt =====
-- homelink/transport/p2p/stun.py: the parser of a STUN binding response, and the choice of the
-- first server that answers. The loop over the attributes runs on fuel, one unit for a byte.
pub mod Laws
use Prim.Native.Nat.{bit_xor}
use homelink.Common.{
  ℕ, zero, suc, ◌+◌, ◌-◌, ◌/◌, ◌%◌, Bool, not, ◌||◌, Option, none, some, List, [], ◌∷◌, ltb, ◌==◌,
  if◌then◌else◌, length, take, drop,
}
use homelink.Common.Text.{text_eq}
use homelink.Common.Exc.{Result, ok, raise, index_error, struct_error}
use homelink.Session.{from_bytes}
use homelink.Signing.{big_endian}

abbrev pub binding_response : ℕ
binding_response = 257

-- `MAGIC_COOKIE`, 0x2112A442
abbrev pub magic_cookie : ℕ
magic_cookie = 554_869_826

pub record PublicEndpoint : Type 0 where
  -- the four bytes of the address
  pub ip : List ℕ
  pub port : ℕ

-- `attr_val[1]`
abbrev pub second_byte : List ℕ → Result ℕ
second_byte (a ∷ b ∷ bytes) = ok b
second_byte _ = raise index_error

-- The endpoint in an address of the family IPv4; `xored` for XOR-MAPPED-ADDRESS.
unfoldable pub endpoint_of : Bool → List ℕ → Result PublicEndpoint
unfolding big_endian
endpoint_of xored attr_val =
    let raw = take 6 (drop 2 attr_val) in
    let raw_port = from_bytes 0 (take 2 raw) in
    let raw_ip = drop 2 raw in
    if not (length raw == 6)
    then raise struct_error
    else if xored
    then ok (record {
      ip = big_endian 4 (bit_xor (from_bytes 0 raw_ip) magic_cookie);
      port = bit_xor raw_port (magic_cookie / 65_536);
    })
    else ok (record { ip = raw_ip; port = raw_port })

-- What an attribute says: nothing, so that the loop goes on, or an endpoint.
unfoldable pub read_attribute : ℕ → List ℕ → Result (Option PublicEndpoint)
unfolding endpoint_of
read_attribute attr_type attr_val =
    if attr_type == 32 || attr_type == 1
    then elim (second_byte attr_val) [
      | raise e ↦ raise e
      | ok family ↦
          if family == 1
          then elim (endpoint_of (attr_type == 32) attr_val) [
            | raise e ↦ raise e
            | ok endpoint ↦ ok (some endpoint)
          ]
          else ok none
    ]
    else ok none

-- The bytes of an attribute with its header and its padding.
abbrev pub attribute_size : List ℕ → ℕ
attribute_size rest =
    let attr_len = from_bytes 0 (take 2 (drop 2 rest)) in 4 + attr_len + (4 - attr_len % 4) % 4

-- The first attribute of the rest of a message that has a header.
abbrev pub first_attribute : List ℕ → Result (Option PublicEndpoint)
first_attribute rest =
    read_attribute (from_bytes 0 (take 2 rest))
      (take (from_bytes 0 (take 2 (drop 2 rest))) (drop 4 rest))

-- After an attribute: an endpoint and an exception end the loop.
abbrev pub go_on :
    Result (Option PublicEndpoint) → Result (Option PublicEndpoint) → Result (Option PublicEndpoint)
go_on (raise e) further = raise e
go_on (ok none) further = further
go_on (ok (some endpoint)) further = ok (some endpoint)

-- The loop over the attributes, on what is left of the message.
unfoldable pub parse_attributes : ℕ → List ℕ → Result (Option PublicEndpoint)
unfolding read_attribute
parse_attributes zero rest = ok none
parse_attributes (suc fuel) rest =
    let further = parse_attributes fuel (drop (attribute_size rest) rest) in
    if ltb (length rest) 4 then ok none else go_on (first_attribute rest) further

-- `_parse_response`
unfoldable pub parse_response : List ℕ → List ℕ → Result (Option PublicEndpoint)
unfolding parse_attributes
parse_response message transaction_id =
    if ltb (length message) 20
    then ok none
    else if not (from_bytes 0 (take 2 message) == binding_response)
    then ok none
    else if not (text_eq (take 12 (drop 8 message)) transaction_id)
    then ok none
    else parse_attributes (length message) (drop 20 message)

-- `get_public_endpoint`, from what the query of each server ends in.
unfoldable pub get_public_endpoint : List (Result (Option PublicEndpoint)) → Option PublicEndpoint
get_public_endpoint [] = none
get_public_endpoint (ok (some endpoint) ∷ queries) = some endpoint
get_public_endpoint (ok none ∷ queries) = get_public_endpoint queries
get_public_endpoint (raise e ∷ queries) = get_public_endpoint queries
