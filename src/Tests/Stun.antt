-- ===== src/Tests/Stun.antt =====
-- Runs of homelink/transport/p2p/stun.py.
use homelink.Common.{ℕ, ◌+◌, ◌≡◌, refl, some, List, [], ◌∷◌, ◌++◌, length, take, drop, replicate}
use homelink.Common.Exc.{ok}
use homelink.Signing.{big_endian}
use homelink.Session.{from_bytes}
use homelink.Stun.{
  PublicEndpoint, parse_response, parse_attributes, read_attribute, endpoint_of, binding_response,
}
use homelink.Stun.Laws.{parse_response-own}

abbrev transaction : List ℕ
transaction = replicate 12 5

-- A response with an attribute of another kind, padded, and an address.
abbrev response : List ℕ
response =
    (1 ∷ 1 ∷ 0 ∷ 20 ∷ 33 ∷ 18 ∷ 164 ∷ 66 ∷ [])
    ++ (transaction
        ++ ((128 ∷ 34 ∷ 0 ∷ 3 ∷ 97 ∷ 98 ∷ 99 ∷ 0 ∷ [])
            ++ (0 ∷ 32 ∷ 0 ∷ 8 ∷ 0 ∷ 1 ∷ 33 ∷ 19 ∷ 33 ∷ 18 ∷ 164 ∷ 65 ∷ [])))

abbrev endpoint : PublicEndpoint
endpoint = record { ip = 0 ∷ 0 ∷ 0 ∷ 3 ∷ []; port = 1 }

response_run : parse_response response transaction ≡ ok (some endpoint)
unfolding parse_response parse_attributes read_attribute endpoint_of big_endian
response_run = refl

parse_response-own_example :
    (from_bytes 0 (take 2 response) ≡ binding_response)
    × (take 12 (drop 8 response) ≡ transaction)
    × (parse_attributes (length response + 7) (drop 20 response) ≡ ok (some endpoint))
parse_response-own_example = parse_response-own response transaction endpoint 7 response_run
