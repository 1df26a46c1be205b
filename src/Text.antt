-- ===== src/Text.antt =====
-- The operations of Python's `str` that the program uses, on ASCII text: `casefold` folds the ASCII
-- capitals and gives code points, since its results are only compared; `strip` takes the ASCII
-- white space off.
use Prim.Native.Char.{code}
use model_deck.Base.{
  ℕ, ◌+◌, String, Bool, true, false, ◌&&◌, ◌||◌, List, [], ◌∷◌, leb, ◌==◌, if◌then◌else◌, str_eq,
}

abbrev pub codes : String → List ℕ
codes String.[] = []
codes (String.◌∷◌ c s) = code c ∷ codes s

unfoldable pub is_space : ℕ → Bool
is_space c = (leb 9 c && leb c 13) || (leb 28 c && leb c 32)

lower : ℕ → ℕ
lower c = if leb b'A' c && leb c b'Z' then c + 32 else c

drop_spaces : String → String
drop_spaces String.[] = String.[]
drop_spaces (String.◌∷◌ c s) =
    let rest = drop_spaces s in if is_space (code c) then rest else String.◌∷◌ c s

reverse_onto : String → String → String
reverse_onto String.[] t = t
reverse_onto (String.◌∷◌ c s) t = reverse_onto s (String.◌∷◌ c t)

-- s.strip()
unfoldable pub strip : String → String
unfolding drop_spaces is_space reverse_onto
strip s = reverse_onto (drop_spaces (reverse_onto (drop_spaces s) "")) ""

-- s.casefold()
unfoldable pub casefold : String → List ℕ
unfolding lower
casefold String.[] = []
casefold (String.◌∷◌ c s) = lower (code c) ∷ casefold s

-- s == t, for code points
unfoldable pub same_text : List ℕ → List ℕ → Bool
same_text [] [] = true
same_text (a ∷ s) (b ∷ t) = a == b && same_text s t
same_text _ _ = false

-- s.startswith(t), for code points
unfoldable pub starts_with : List ℕ → List ℕ → Bool
starts_with s [] = true
starts_with [] (b ∷ t) = false
starts_with (a ∷ s) (b ∷ t) = a == b && starts_with s t

-- t in s, for code points
unfoldable pub contains : List ℕ → List ℕ → Bool
unfolding starts_with
contains [] t = starts_with [] t
contains (a ∷ s) t = starts_with (a ∷ s) t || contains s t

-- s in (t, ...), for code points and for texts
unfoldable pub one_of : List ℕ → List String → Bool
unfolding same_text
one_of s [] = false
one_of s (t ∷ ts) = same_text s (codes t) || one_of s ts

abbrev pub member : String → List String → Bool
member s [] = false
member s (t ∷ ts) = str_eq s t || member s ts
