-- ===== src/Files/Send/Rebuild.antt =====
-- The pieces that the sender of homelink/files/transfer.py reads, written where the receiver
-- writes them.
use homelink.Common.{
  ℕ, zero, suc, ◌+◌, ◌-◌, ◌*◌, ◌≤◌, ◌<◌, ◌≡◌, refl, sym, ap, ◌∙◌, inl, inr, List, [], ◌∷◌, ◌++◌,
  append-nil, arith, ltb, ltb-false, Bool-cases, length, take, drop, length-take, length-drop,
  drop-eq-nil, take-eq_self,
}
use homelink.Files.Protocol.{chunk_size, count_chunks}
use homelink.Files.Protocol.RoundTrip.{count_chunks-bounds}
use homelink.Files.Disk.{write_at}
use homelink.Files.Send.{pieces}

-- The receiver's writes, one at the offset of each piece.
abbrev pub assemble : ℕ → List (ℕ × List ℕ) → List ℕ → List ℕ
assemble size [] file = file
assemble size ((index, content) ∷ rest) file =
    assemble size rest (write_at (index * size) content file)

take-take : (n m : ℕ) (xs : List ℕ) → n ≤ m → take n (take m xs) ≡ take n xs
take-take zero m xs h = refl
take-take (suc n) zero xs h = absurd (omega (arith, h))
take-take (suc n) (suc m) [] h = refl
take-take (suc n) (suc m) (x ∷ xs) h = ap (λ l. x ∷ l) (take-take n m xs (omega (arith, h)))

take_plus : (n m k : ℕ) (xs : List ℕ) → n + m ≡ k → take n xs ++ take m (drop n xs) ≡ take k xs
take_plus zero m k xs e = let same : m ≡ k = omega (arith, e) in ap (λ j. take j xs) same
take_plus (suc n) m zero xs e = absurd (omega (arith, e))
take_plus (suc n) zero (suc k) [] e = refl
take_plus (suc n) (suc m) (suc k) [] e = refl
take_plus (suc n) m (suc k) (x ∷ xs) e = ap (λ l. x ∷ l) (take_plus n m k xs (omega (arith, e)))

-- Bytes written where a file has at least that many, and not more than they reach.
write_at-within :
    (offset : ℕ) (bs file : List ℕ)
    → 1 ≤ length bs
    → offset ≤ length file
    → length file ≤ offset + length bs
    → write_at offset bs file ≡ take offset file ++ bs
unfolding write_at
write_at-within offset [] file some_bytes low high = absurd (omega (arith, some_bytes))
write_at-within offset (b ∷ bs) file some_bytes low high =
    let no_gap : offset - length file ≡ 0 = omega (arith, low) in
    let rest : drop (offset + length (b ∷ bs)) file ≡ [] =
      drop-eq-nil (offset + length (b ∷ bs)) file high in
    rw (no_gap, rest, append-nil, append-nil) refl

write_at-none : (offset : ℕ) (bs file : List ℕ) → length bs ≡ 0 → write_at offset bs file ≡ file
unfolding write_at
write_at-none offset [] file e = refl
write_at-none offset (b ∷ bs) file e = absurd (omega (arith, e))

write_at-piece :
    (size offset m : ℕ) (content : List ℕ)
    → 1 ≤ size
    → offset ≤ m
    → m ≤ offset + size
    → write_at offset (take size (drop offset content)) (take m content)
      ≡ take (offset + size) content
write_at-piece size offset m content some_size low high =
    let bs = take size (drop offset content) in
    let file = take m content in
    let left = length-drop offset content in
    let taken = length-take size (drop offset content) in
    let held = length-take m content in
    elim (Bool-cases (ltb offset (length content))) [
      | inl inside ↦
          let before : offset < length content = ground arith in
          write_at-within offset bs file (ground (arith, taken, left)) (ground (arith, held))
            (ground (arith, held, taken, left))
          ∙ (ap (λ l. l ++ bs) (take-take offset m content low)
              ∙ take_plus offset size (offset + size) content refl)
      | inr beyond ↦
          let after : length content ≤ offset = ltb-false offset (length content) beyond in
          write_at-none offset bs file (ground (arith, taken, left))
          ∙ (take-eq_self m content (omega (arith, after, low))
              ∙ sym (take-eq_self (offset + size) content (omega (arith, after))))
    ]

assemble-pieces :
    (n size index m : ℕ) (content : List ℕ)
    → 1 ≤ size
    → index * size ≤ m
    → m ≤ index * size + size
    → 1 ≤ n
    → assemble size (pieces size content index n) (take m content)
      ≡ take ((index + n) * size) content
unfolding pieces
assemble-pieces zero size index m content some_size low high some_n = absurd (omega (arith, some_n))
assemble-pieces (suc zero) size index m content some_size low high some_n =
    let last : index * size + size ≡ (index + 1) * size = omega arith in
    write_at-piece size (index * size) m content some_size low high ∙ ap (λ k. take k content) last
assemble-pieces (suc (suc n)) size index m content some_size low high some_n =
    let next : index * size + size ≡ (index + 1) * size = omega arith in
    let end : (index + 1 + suc n) * size ≡ (index + suc (suc n)) * size =
      ap (λ k. k * size) (omega arith) in
    ap (assemble size (pieces size content (index + 1) (suc n))) (
      write_at-piece size (index * size) m content some_size low high
      ∙ ap (λ k. take k content) next)
    ∙ (assemble-pieces (suc n) size (index + 1) ((index + 1) * size) content some_size (omega arith)
          (omega arith) (omega arith)
        ∙ ap (λ k. take k content) end)

-- The pieces that the sender reads from an index below the number of chunks on, written at their
-- offsets into a file that holds the beginning of the content up to somewhere in the piece at
-- that index, leave the whole content.
pub assemble-pieces_whole :
    (content : List ℕ) (start m : ℕ)
    → start < count_chunks (length content)
    → start * chunk_size ≤ m
    → m ≤ start * chunk_size + chunk_size
    → assemble chunk_size
        (pieces chunk_size content start (count_chunks (length content) - start))
        (take m content)
      ≡ content
assemble-pieces_whole content start m some_left low high =
    let total = count_chunks (length content) in
    let (_, enough, _) = count_chunks-bounds (length content) in
    let sum : start + (total - start) ≡ total = omega (arith, some_left) in
    assemble-pieces (total - start) chunk_size start m content (omega arith) low high
      (omega (arith, some_left))
    ∙ (ap (λ k. take (k * chunk_size) content) sum
        ∙ take-eq_self (total * chunk_size) content enough)
