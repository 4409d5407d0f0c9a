-- ===== src/Prelude/Texts.antt =====
-- Python's `str` as the list of its code points (`bytes` as the list of its bytes), with the
-- methods that the program calls.
use Prim.Native.Nat.{ℕ}
use Prim.Native.Char.{code}
use Prim.Native.String.{String}
use mathlib.Core.Path.{◌≡◌, refl}
use mathlib.Core.Logic.{◌↔◌}
use mathlib.Core.Bool.{Bool, true, false, ◌&&◌, ◌||◌}
use mathlib.Core.List.{List, [], ◌∷◌, reverse}
use native.Mathlib.Omega.{arith}
use agentic_octopus.Prelude.Tests.{ltb, leb, nat_beq, if◌then◌else◌}
use agentic_octopus.Prelude.Classes.{Eq, nat_eq, ◌==◌, contains}

abbrev pub Text : Type 0
Text = List ℕ

-- A literal of the source.
abbrev pub lit : String → Text
lit String.[] = []
lit (String.◌∷◌ c s) = code c ∷ lit s

unfoldable pub text_beq : Text → Text → Bool
text_beq [] [] = true
text_beq [] (d ∷ t) = false
text_beq (c ∷ s) [] = false
text_beq (c ∷ s) (d ∷ t) = nat_beq c d && text_beq s t

pub text_beq_iff : (s t : Text) → (text_beq s t ≡ true) ↔ (s ≡ t)
unfolding text_beq
text_beq_iff [] [] = ground arith
text_beq_iff [] (d ∷ t) = ground arith
text_beq_iff (c ∷ s) [] = ground arith
text_beq_iff (c ∷ s) (d ∷ t) = ground (arith, text_beq_iff s t)

instance abbrev pub text_eq : Eq Text
text_eq = record { beq = text_beq; beq_iff = text_beq_iff }

-- `s.startswith(p)`
unfoldable pub starts_with : Text → Text → Bool
starts_with s [] = true
starts_with [] (d ∷ p) = false
starts_with (c ∷ s) (d ∷ p) = nat_beq c d && starts_with s p

-- `s.endswith(p)`
unfoldable pub ends_with : Text → Text → Bool
ends_with s p = starts_with (reverse s) (reverse p)

-- `str.isspace` of one character
unfoldable pub is_space : ℕ → Bool
is_space c =
    (leb 9 c && leb c 13)
    || ((leb 28 c && leb c 32)
        || (nat_beq c 133
            || (nat_beq c 160
                || (nat_beq c 5760
                    || ((leb 8192 c && leb c 8202)
                        || (nat_beq c 8232
                            || (nat_beq c 8233
                                || (nat_beq c 8239 || (nat_beq c 8287 || nat_beq c 12288)))))))))

-- The characters from the first that fails the test on.
unfoldable pub drop_while : (ℕ → Bool) → Text → Text
drop_while p [] = []
drop_while p (c ∷ s) = let rest = drop_while p s in if p c then rest else c ∷ s

-- `s.lstrip()` and `s.strip()`
unfoldable pub lstrip : Text → Text
lstrip = drop_while is_space

unfoldable pub strip : Text → Text
unfolding lstrip
strip s = reverse (lstrip (reverse (lstrip s)))

-- `s.partition(c)` for one character: the text before it, whether it is there, the text behind.
unfoldable pub partition : ℕ → Text → Text × Bool × Text
partition c [] = ([], false, [])
partition c (d ∷ s) =
    let (before, found, behind) = partition c s in
    if nat_beq d c then ([], true, s) else (d ∷ before, found, behind)

-- `s.split(c)` for one character
to_first : ℕ → List Text → List Text
to_first d [] = (d ∷ []) ∷ []
to_first d (t ∷ ts) = (d ∷ t) ∷ ts

unfoldable pub split : ℕ → Text → List Text
unfolding to_first
split c [] = [] ∷ []
split c (d ∷ s) = let rest = split c s in if nat_beq d c then [] ∷ rest else to_first d rest

-- The order of Python's strings: by code points.
unfoldable pub text_lt : Text → Text → Bool
text_lt [] [] = false
text_lt [] (d ∷ t) = true
text_lt (c ∷ s) [] = false
text_lt (c ∷ s) (d ∷ t) = if nat_beq c d then text_lt s t else ltb c d

insert_sorted : Text → List Text → List Text
insert_sorted s [] = s ∷ []
insert_sorted s (t ∷ l) = if text_lt t s then t ∷ insert_sorted s l else s ∷ t ∷ l

-- `sorted(l)`
unfoldable pub sort : List Text → List Text
unfolding insert_sorted text_lt
sort [] = []
sort (s ∷ l) = insert_sorted s (sort l)

contains-insert_sorted :
    (t s : Text) (l : List Text) → contains t (insert_sorted s l) ≡ (t == s || contains t l)
unfolding insert_sorted contains
contains-insert_sorted t s [] = refl
contains-insert_sorted t s (r ∷ l) = ground (arith, contains-insert_sorted t s l)

pub contains-sort : (t : Text) (l : List Text) → contains t (sort l) ≡ contains t l
unfolding sort contains
contains-sort t [] = refl
contains-sort t (s ∷ l) = ground (arith, contains-insert_sorted t s (sort l), contains-sort t l)

-- `p in s`
unfoldable pub has_infix : Text → Text → Bool
has_infix p [] = starts_with [] p
has_infix p (c ∷ s) = starts_with (c ∷ s) p || has_infix p s

-- `s.replace(c, d)` for two characters
unfoldable pub replace_char : ℕ → ℕ → Text → Text
replace_char c d [] = []
replace_char c d (e ∷ s) = (if nat_beq e c then d else e) ∷ replace_char c d s
