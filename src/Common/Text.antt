-- ===== src/Common/Text.antt =====
-- Texts walked character by character, as the list of their code points.
use Prim.Native.Nat.{ℕ}
use Prim.Native.Char.{code}
use Prim.Native.String.{String}
use mathlib.Core.Path.{◌≡◌, refl}
use mathlib.Core.Logic.{◌↔◌}
use mathlib.Core.Option.{Option, none, some}
use mathlib.Core.Bool.{Bool, true, false, ◌&&◌, ◌||◌}
use mathlib.Core.List.{List, [], ◌∷◌, ◌++◌}
use native.Mathlib.Omega.{arith}
use homelink.Common.Tests.{◌==◌, leb, if◌then◌else◌}

abbrev pub Text : Type 0
Text = List ℕ

abbrev pub codes : String → Text
codes String.[] = []
codes (String.◌∷◌ c s) = code c ∷ codes s

-- `c in cs`
abbrev pub elem : ℕ → Text → Bool
elem c [] = false
elem c (d ∷ cs) = c == d || elem c cs

-- `all(p(c) for c in s)`
abbrev pub all : (ℕ → Bool) → Text → Bool
all p [] = true
all p (c ∷ s) = p c && all p s

-- `any(p(c) for c in s)`
abbrev pub any : (ℕ → Bool) → Text → Bool
any p [] = false
any p (c ∷ s) = p c || any p s

-- `lo <= c <= hi`
abbrev pub between : ℕ → ℕ → ℕ → Bool
between lo hi c = leb lo c && leb c hi

-- `s == t`
abbrev pub text_eq : Text → Text → Bool
text_eq [] [] = true
text_eq [] (d ∷ t) = false
text_eq (c ∷ s) [] = false
text_eq (c ∷ s) (d ∷ t) = c == d && text_eq s t

-- `s in ts`
abbrev pub text_elem : Text → List Text → Bool
text_elem s [] = false
text_elem s (t ∷ ts) = text_eq s t || text_elem s ts

-- `t.startswith(s)`
abbrev pub starts_with : Text → Text → Bool
starts_with [] t = true
starts_with (c ∷ s) [] = false
starts_with (c ∷ s) (d ∷ t) = c == d && starts_with s t

-- `bool(s)`: a text is true when it is not empty.
abbrev pub truthy : String → Bool
truthy String.[] = false
truthy (String.◌∷◌ c s) = true

abbrev pub is_empty : Text → Bool
is_empty [] = true
is_empty (c ∷ s) = false

-- The text without one trailing newline: where the `$` of a pattern may match.
abbrev pub chop_newline : Text → Text
chop_newline [] = []
chop_newline (c ∷ []) = if c == 10 then [] else c ∷ []
chop_newline (c ∷ d ∷ s) = c ∷ chop_newline (d ∷ s)

pub text_eq_iff : (s t : Text) → (text_eq s t ≡ true) ↔ (s ≡ t)
text_eq_iff [] [] = (λ _. refl, λ _. refl)
text_eq_iff [] (d ∷ t) = (λ h. cc, λ h. cc)
text_eq_iff (c ∷ s) [] = (λ h. cc, λ h. cc)
text_eq_iff (c ∷ s) (d ∷ t) = ground (arith, text_eq_iff s t)

pub starts_with-append : (s t : Text) → starts_with s (s ++ t) ≡ true
starts_with-append [] t = refl
starts_with-append (c ∷ s) t = ground (arith, starts_with-append s t)

pub starts_with-split : (s t : Text) → starts_with s t ≡ true → (rest : Text) × (t ≡ s ++ rest)
starts_with-split [] t h = (t, refl)
starts_with-split (c ∷ s) [] h = cc
starts_with-split (c ∷ s) (d ∷ t) h =
    let tested : starts_with s t ≡ true = ground arith in
    let (rest, e) = starts_with-split s t tested in (rest, ground arith)

module _ (is_space : ℕ → Bool) where
  -- `s.lstrip()`
  abbrev pub lstrip : String → String
  lstrip String.[] = String.[]
  lstrip (String.◌∷◌ c s) =
      let rest = lstrip s in if is_space (code c) then rest else String.◌∷◌ c s

  abbrev keep : Bool → String → String → String
  keep true String.[] s = String.[]
  keep _ _ s = s

  -- `s.rstrip()`
  abbrev pub rstrip : String → String
  rstrip String.[] = String.[]
  rstrip (String.◌∷◌ c s) = let rest = rstrip s in keep (is_space (code c)) rest (String.◌∷◌ c rest)

  -- `s.strip()`
  abbrev pub strip : String → String
  strip s = rstrip (lstrip s)

  -- From the first blank on.
  abbrev pub drop_word : String → String
  drop_word String.[] = String.[]
  drop_word (String.◌∷◌ c s) =
      let rest = drop_word s in if is_space (code c) then String.◌∷◌ c s else rest

  -- `s.split(None, 1)[1]`: none where there is no second part.
  abbrev pub second_part : String → Option String
  second_part s = let t = lstrip (drop_word (lstrip s)) in if truthy t then some t else none
