-- ===== src/Commands/Shlex/Words.antt =====
-- What `homectl exec` sends: the words of its command line with a space between them. The
-- daemon's `shlex.split` gives the same words back.
use homelink.Commands.Shlex.{open_mode, emit, is_space, space, word, scan, split, is_plain}
use homelink.Common.{
  ℕ, ◌≡◌, refl, ap, ◌∙◌, Bool, true, false, List, [], ◌∷◌, ◌++◌, append-nil, append_assoc, arith,
  All,
}
use homelink.Common.Text.{Text, is_empty}
use homelink.Common.Exc.{ok}

-- `" ".join(words)`
unfoldable pub join : List Text → Text
join [] = []
join (w ∷ []) = w
join (w ∷ v ∷ ws) = w ++ b' ' ∷ join (v ∷ ws)

-- A word with no white space, quote or backslash, and not empty.
abbrev pub Plain : Text → Type 0
Plain w = (is_empty w ≡ false) × All (λ c. is_plain c ≡ true) w

is_plain-parts : (c : ℕ) → is_plain c ≡ true → (is_space c ≡ false) × (open_mode c ≡ word)
is_plain-parts c h = ground arith

scan_plain :
    (token w s : Text) (q : Bool)
    → All (λ c. is_plain c ≡ true) w
    → scan word token q (w ++ s) ≡ scan word (token ++ w) q s
unfolding scan
scan_plain token [] s q h = rw append-nil
scan_plain token (c ∷ w) s q (p, h) =
    let (not_space, is_word) = is_plain-parts c p in
    rw (not_space, is_word, scan_plain (token ++ c ∷ []) w s q h, append_assoc)

scan_word : (w s : Text) → Plain w → scan space [] false (w ++ s) ≡ scan word w false s
unfolding scan
scan_word [] s h = cc
scan_word (c ∷ w) s (e, (p, h)) =
    let (not_space, is_word) = is_plain-parts c p in
    rw (not_space, is_word) (scan_plain (c ∷ []) w s false h)

Plain-emit : (w : Text) → Plain w → emit w false ≡ w ∷ []
Plain-emit w (e, h) = rw e

-- Words of plain characters, none of them empty, that are joined by blanks are split into the
-- same words.
split-join : (ws : List Text) → All Plain ws → split (join ws) ≡ ok ws
unfolding split join
split-join [] h = refl
split-join (w ∷ []) (p, h) = (rw append-nil at (scan_word w [] p)) ∙ ap ok (Plain-emit w p)
split-join (w ∷ v ∷ ws) (p, h) =
    rw (scan_word w (b' ' ∷ join (v ∷ ws)) p, scan, Plain-emit w p, split-join (v ∷ ws) h) refl
